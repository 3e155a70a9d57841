-- ===== src/Rotator/Shift.antt =====
-- `rotate_consumer` of app/rotator.py on the whole state.
use telegram_client.Prelude.{
  String, ◌≡◌, inl, inr, Option, some, List, ◌∷◌, arith, Bool-cases, string_eq, refl, ap, ◌∙◌, none,
  true, [], contains, nat_eq, pair_eq,
}
use telegram_client.Redis.{Redis}
use telegram_client.Redis.Laws.{Laws}
use telegram_client.World.{World, spells, SettingText}
use telegram_client.Rotator.{
  setting_of, rotate_consumer, set_server, hand_over, rotate_among, rotation_log,
}
use telegram_client.Queue.State.{server_number, get_active_consumer, set_active_consumer}
use telegram_client.Queue.Workers.{get_alive_worker_ids, get_registered_workers}
use telegram_client.Queue.Connection.{is_online, attempt}
use telegram_client.Database.{set_setting, add_log}
use telegram_client.Queue.Reads.{get_active_consumer-keeps, get-set_active_consumer}
use telegram_client.Rotator.Turns.{next_consumer-contains, next_consumer-follower, follower}
use telegram_client.Data.{ℤ, int_eq, role_eq, LogEntry}

-- What is read as the active consumer.
abbrev pub consumer : {R : Redis} → World R → String
consumer w = (get_active_consumer w).0

-- The tables are not read for it.
consumer-set_setting :
    {R : Redis} (key : String) (v : SettingText) (w : World R)
    → consumer (set_setting key v w).1 ≡ consumer w
unfolding get_active_consumer attempt set_setting
consumer-set_setting key v w = elim (Bool-cases (is_online w)) [
  | inl e ↦ ground arith
  | inr e ↦ ground arith
]

consumer-add_log :
    {R : Redis} (entry : LogEntry) (w : World R) → consumer (add_log entry w).1 ≡ consumer w
unfolding get_active_consumer attempt add_log
consumer-add_log entry w = elim (Bool-cases (is_online w)) [
  | inl e ↦ ground arith
  | inr e ↦ ground arith
]

consumer-set_server :
    {R : Redis} (o : Option ℤ) (w : World R) → consumer (set_server o w).1 ≡ consumer w
unfolding set_server
consumer-set_server none w = refl
consumer-set_server (some n) w = consumer-set_setting "current_active_server" (setting_of n) w

module _ {R : Redis} (L : Laws R) where
  get_alive_worker_ids-keeps : (w : World R) → (get_alive_worker_ids w).1 ≡ w
  unfolding get_alive_worker_ids get_registered_workers attempt
  get_alive_worker_ids-keeps w = elim (Bool-cases (is_online w)) [
    | inl e ↦ ground (arith, L.hgetall_answers w.redis)
    | inr e ↦ ground arith
  ]

  hand_over_lem :
      (next : String) (w : World R)
      → let (res, w') = hand_over (some next) w in (res ≡ some tt) × (consumer w' ≡ next)
  unfolding hand_over
  hand_over_lem next w =
      let w₁ = (set_active_consumer next w).1 in
      let w₂ = (set_setting "shift_started_at" (spells w₁.now) w₁).1 in
      let w₃ = (set_server (server_number next) w₂).1 in
      (
        refl,
        consumer-add_log rotation_log w₃
            ∙ (consumer-set_server (server_number next) w₂
                ∙ (consumer-set_setting "shift_started_at" (spells w₁.now) w₁
                    ∙ ap (λ p. p.0) (get-set_active_consumer L next w))),
      )

  -- While at least one worker is alive, a rotation raises nothing, and the consumer that is read
  -- afterwards is the alive worker behind the current consumer in the list of alive workers; it is
  -- the first of the list where the current consumer is the last, or is not alive.
  pub rotate_consumer_lem :
      (w : World R) (x : String) (xs : List String)
      → (get_alive_worker_ids w).0 ≡ x ∷ xs
      → let (res, w') = rotate_consumer w in
        (res ≡ some tt)
        × (consumer w' ≡ follower x (consumer w) (x ∷ xs))
        × (contains (consumer w') (x ∷ xs) ≡ true)
  unfolding rotate_consumer rotate_among
  rotate_consumer_lem w x xs h =
      let (next, found, member) = next_consumer-contains (consumer w) (x ∷ xs) (omega arith) in
      let (done, now) = hand_over_lem next w in
      let behind : next ≡ follower x (consumer w) (x ∷ xs) =
        ground (arith, found, next_consumer-follower (consumer w) x xs) in
      rw (h, get_alive_worker_ids-keeps w, get_active_consumer-keeps L w, found, now)
        (done, behind, member)

  -- With no worker alive a rotation changes nothing, and raises nothing.
  pub rotate_consumer-nil :
      (w : World R) → (get_alive_worker_ids w).0 ≡ [] → rotate_consumer w ≡ (some tt, w)
  unfolding rotate_consumer rotate_among
  rotate_consumer-nil w h = rw (h, get_alive_worker_ids-keeps w) refl
