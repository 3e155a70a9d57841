-- ===== src/Rotator/Restart.antt =====
-- `stop` and `start` of app/rotator.py: what becomes of the connection to Redis.
use telegram_client.Prelude.{
  ◌≡◌, refl, ◌∙◌, inl, inr, Bool-cases, string_eq, String, true, Option, none, some, List, [], ◌∷◌,
  false, arith, length, ◌==◌, nat_eq, pair_eq,
}
use telegram_client.Redis.{Redis, Key, Holds, listener_assignments, active_consumer}
use telegram_client.World.{World, MemoryState, spells}
use telegram_client.Queue.Connection.{is_online, attempt, disconnect}
use telegram_client.Queue.State.{
  write_key, read_key, set_listener_assignments, get_active_targets, set_active_consumer,
  get_active_consumer,
}
use telegram_client.Data.{Account, Assignments, int_eq, role_eq}
use telegram_client.Assigner.Listeners.{
  assign_anew, assign_listeners, auto_assign_listeners, store, pick_listeners, distribute,
  keep_or_assign, unless_none,
}
use telegram_client.Assigner.Accounts.{
  update_account_roles_in_db, get_healthy_accounts, get_all_accounts_from_db,
}
use telegram_client.Rotator.{Rotator, ensure_consumer, start, started, stop}
use telegram_client.Database.{set_setting, add_log}

module _ {R : Redis} where
  online-write_key :
      (k : Key) (v : Holds k) (f : MemoryState → MemoryState) (w : World R)
      → is_online (write_key k v f w).1 ≡ is_online w
  unfolding write_key attempt
  online-write_key k v f w = elim (Bool-cases (is_online w)) [
    | inl e ↦ ground arith
    | inr e ↦ ground arith
  ]

  online-set_listeners :
      (d : Assignments) (w : World R) → is_online (set_listener_assignments d w).1 ≡ is_online w
  unfolding set_listener_assignments
  online-set_listeners d w =
      online-write_key listener_assignments d (λ m. record m { listener_assignments = d }) w

  online-set_consumer :
      (s : String) (w : World R) → is_online (set_active_consumer s w).1 ≡ is_online w
  unfolding set_active_consumer
  online-set_consumer s w =
      online-write_key active_consumer s (λ m. record m { active_consumer = s }) w

  online-get_consumer : (w : World R) → is_online (get_active_consumer w).1 ≡ is_online w
  unfolding get_active_consumer attempt
  online-get_consumer w = elim (Bool-cases (is_online w)) [
    | inl e ↦ ground arith
    | inr e ↦ ground arith
  ]

  online-get_targets : (w : World R) → is_online (get_active_targets w).1 ≡ is_online w
  unfolding get_active_targets read_key attempt
  online-get_targets w = elim (Bool-cases (is_online w)) [
    | inl e ↦ ground arith
    | inr e ↦ ground arith
  ]

  online-update_roles :
      (names : List String) (w : World R)
      → is_online (update_account_roles_in_db names w).1 ≡ is_online w
  unfolding update_account_roles_in_db
  online-update_roles names w = elim (Bool-cases w.db.exists) [
    | inl e ↦ ground arith
    | inr e ↦ ground arith
  ]

  online-store :
      (names : List String) (d : Option Assignments) (w : World R)
      → is_online (store names d w).1 ≡ is_online w
  online-store names none w = refl
  online-store names (some d) w =
      online-set_listeners d (update_account_roles_in_db names w).1 ∙ online-update_roles names w

  online-unless_none :
      (targets : List String) (healthy : List Account) (w : World R)
      → is_online (unless_none true targets healthy w).1 ≡ is_online w
  unfolding keep_or_assign assign_anew
  online-unless_none targets [] w = refl
  online-unless_none targets (a ∷ accs) w =
      let names = pick_listeners (length targets) (a ∷ accs) in
      online-store names (distribute names targets) w

  online-assign_listeners :
      (targets : List String) (w : World R)
      → is_online (assign_listeners true targets w).1 ≡ is_online w
  unfolding assign_listeners get_all_accounts_from_db
  online-assign_listeners [] w = online-set_listeners [] w
  online-assign_listeners (t ∷ ts) w =
      let accounts = (get_all_accounts_from_db w).0 in
      online-unless_none (t ∷ ts) (get_healthy_accounts w.sessions accounts) w

  online-auto_assign :
      (targets : List String) (w : World R)
      → is_online (auto_assign_listeners (some targets) true w).1 ≡ is_online w
  unfolding auto_assign_listeners
  online-auto_assign targets w = online-assign_listeners targets w

  online-ensure_consumer :
      (s : String) (w : World R) → is_online (ensure_consumer s w).1 ≡ is_online w
  online-ensure_consumer s w = elim (Bool-cases (s == "")) [
    | inl e ↦ rw e (online-set_consumer "worker-1" w)
    | inr e ↦ rw e refl
  ]

  online-started : (d : Option Assignments) (w : World R) → is_online (started d w).1 ≡ is_online w
  unfolding add_log
  online-started none w = refl
  online-started (some d) w = refl

  online-start : (r : Rotator) (w : World R) → is_online (start r w).1 ≡ is_online w
  unfolding start set_setting
  online-start r w =
      let w₁ = (set_setting "is_rotator_running" (spells 1) w).1 in
      let (current, w₂) = get_active_consumer w₁ in
      let w₃ = (ensure_consumer current w₂).1 in
      let w₄ = (set_setting "shift_started_at" (spells w₃.now) w₃).1 in
      let (targets, w₅) = get_active_targets w₄ in
      let (listeners, w₆) = auto_assign_listeners (some targets) true w₅ in
      online-started listeners w₆
      ∙ (online-auto_assign targets w₅
          ∙ (online-get_targets w₄ ∙ (online-ensure_consumer current w₂ ∙ online-get_consumer w₁)))

  online-stop : (r : Rotator) (w : World R) → is_online (stop r w).1 ≡ false
  unfolding stop set_setting disconnect add_log
  online-stop r w = elim (Bool-cases w.queue.redis_client) [
    | inl e ↦ rw e refl
    | inr e ↦ rw e (ground arith)
  ]

  -- From any state, after a stop and then a start, the process works on its in-memory state alone: the start does not
  -- connect to Redis again.
  pub start-stop_offline :
      (r r' : Rotator) (w : World R) → is_online (start r' (stop r w).1).1 ≡ false
  start-stop_offline r r' w = online-start r' (stop r w).1 ∙ online-stop r w
