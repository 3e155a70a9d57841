-- ===== src/Queue/Workers/Alive.antt =====
-- Which workers count as alive for app/queue_manager.py.
use telegram_client.Prelude.{
  ℕ, ◌-◌, ◌≡◌, refl, inl, inr, String, true, ◌||◌, some, List, [], ◌∷◌, arith, ltb, Bool-cases,
  ◌==◌, string_eq, contains, ap, ◌∙◌, nat_eq, pair_eq, ==_refl,
}
use telegram_client.Dict
use telegram_client.Dict.{Dict, get-put}
use telegram_client.Data.{WorkerInfo, int_eq, role_eq}
use telegram_client.Queue.Workers.{
  insert_text, sorted, alive_in, worker_heartbeat_timeout, text_le, send_heartbeat,
  get_registered_workers, get_alive_worker_ids,
}
use telegram_client.Redis.{Redis}
use telegram_client.World.{World}
use telegram_client.Queue.Connection.{is_online, attempt}
use telegram_client.Redis.Laws.{Laws}

contains-insert_text :
    (x y : String) (xs : List String) → contains x (insert_text y xs) ≡ (y == x || contains x xs)
unfolding insert_text contains
contains-insert_text x y [] = refl
contains-insert_text x y (z ∷ zs) = elim (Bool-cases (text_le y z)) [
  | inl e ↦ rw e refl
  | inr e ↦ rw (e, contains-insert_text x y zs) (ground arith)
]

-- Sorting keeps the elements.
pub contains-sorted : (x : String) (xs : List String) → contains x (sorted xs) ≡ contains x xs
unfolding sorted contains
contains-sorted x [] = refl
contains-sorted x (y ∷ ys) =
    contains-insert_text x y (sorted ys) ∙ ap (λ b. y == x || b) (contains-sorted x ys)

contains-alive_in :
    (now : ℕ) (wid : String) (i : WorkerInfo) (ws : Dict String WorkerInfo)
    → Dict.get wid ws ≡ some i
    → ltb (now - i.heartbeat) worker_heartbeat_timeout ≡ true
    → contains wid (alive_in now ws) ≡ true
unfolding alive_in contains Dict.get
contains-alive_in now wid i [] h fresh = absurd (ground arith)
contains-alive_in now wid i ((v, j) ∷ ws) h fresh = elim (Bool-cases (v == wid)) [
  | inl e ↦
      let same : j ≡ i = ground (arith, e) in
      let alive : ltb (now - j.heartbeat) worker_heartbeat_timeout ≡ true = rw same fresh in
      rw (alive, e) refl
  | inr e ↦
      let later = contains-alive_in now wid i ws (rw (e) at h) fresh in
      elim (Bool-cases (ltb (now - j.heartbeat) worker_heartbeat_timeout)) [
        | inl a ↦ rw (a, e) later
        | inr a ↦ rw a later
      ]
]

module _ {R : Redis} (L : Laws R) where
  -- What a reader of the registry gets after a heartbeat.
  registered_after :
      (wid : String) (w : World R)
      → let w' = (send_heartbeat wid w).1 in
        let (found, read) = get_registered_workers w' in
        (Dict.get wid found ≡ some (record { heartbeat = w.now; status = "active" }))
        × (read.now ≡ w.now)
  unfolding send_heartbeat get_registered_workers attempt
  registered_after wid w =
      let payload : WorkerInfo = record { heartbeat = w.now; status = "active" } in
      elim (Bool-cases (is_online w)) [
        | inl e ↦ ground (
          arith,
          L.hgetall_answers (R.hset wid payload w.redis).1,
          L.registry_hset wid payload w.redis,
          get-put wid wid payload (L.registry w.redis),
          ==_refl wid,
        )
        | inr e ↦ ground (arith, get-put wid wid payload w.queue.memory_state.workers, ==_refl wid)
      ]

  -- A worker that has just sent its heartbeat is among the alive ones, with Redis and in the memory of its
  -- own process.
  pub alive-send_heartbeat :
      (wid : String) (w : World R)
      → contains wid (get_alive_worker_ids (send_heartbeat wid w).1).0 ≡ true
  unfolding get_alive_worker_ids
  alive-send_heartbeat wid w =
      let payload : WorkerInfo = record { heartbeat = w.now; status = "active" } in
      let (found, read) = get_registered_workers (send_heartbeat wid w).1 in
      let (got, time) = registered_after wid w in
      let fresh : ltb (read.now - w.now) worker_heartbeat_timeout ≡ true = ground (arith, time) in
      contains-sorted wid (alive_in read.now found)
      ∙ contains-alive_in read.now wid payload found got fresh
