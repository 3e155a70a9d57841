-- ===== src/Queue/Reads.antt =====
-- The setters of app/queue_manager.py with their getters, with Redis and in the memory of one process.
use telegram_client.Prelude.{
  ◌≡◌, inl, inr, Bool-cases, arith, String, refl, List, ==_refl, [], string_eq, ◌≢◌, nat_eq,
  pair_eq, ℕ,
}
use Prim.Native.String.{◌++◌}
use telegram_client.Worker.Texts.{decimal}
use telegram_client.Worker.Texts.RoundTrip.{without-worker, int_of-decimal}
use telegram_client.Redis.{
  Key, Holds, Redis, active_targets, active_consumer, listener_assignments, replier_assignments,
  group_pair_assignments,
}
use telegram_client.World.{MemoryState, World}
use telegram_client.Queue.Connection.{is_online, attempt}
use telegram_client.Queue.State.{
  read_key, write_key, set_active_targets, get_active_targets, set_active_consumer,
  get_active_consumer, set_listener_assignments, get_listener_assignments, set_replier_assignments,
  get_replier_assignments, set_group_pair_assignments, get_group_pair_assignments, or_default,
  server_number, set_active_server, get_active_server,
}
use telegram_client.Redis.Laws.{Laws}
use telegram_client.Dict.{get-put, Dict}
use telegram_client.Data.{Assignments, Pairs, int_eq, role_eq, pos}
use telegram_client.Dict
use telegram_client.Worker.Texts.Numbers.{int_text}

module _ {R : Redis} (L : Laws R) where
  -- The getters' common part after the setters' common part.
  pub read_key-write_key :
      (k : Key) (v : Holds k) (update : MemoryState → MemoryState) (local : MemoryState → Holds k)
      → ((m : MemoryState) → local (update m) ≡ v)
      → (w : World R) → let w' = (write_key k v update w).1 in read_key k local w' ≡ (v, w')
  unfolding read_key write_key attempt
  read_key-write_key k v update local written w = elim (Bool-cases (is_online w)) [
    | inl e ↦ ground (
      arith,
      L.get_answers k (R.set k v w.redis).1,
      L.value_set k v w.redis,
      written w.queue.memory_state,
    )
    | inr e ↦ ground (arith, written w.queue.memory_state)
  ]

  -- Writing one key leaves what is read from another.
  pub read_key-write_key_ne :
      (k j : Key) (v : Holds k) (update : MemoryState → MemoryState) (local : MemoryState → Holds j)
      → k ≢ j
      → ((m : MemoryState) → local (update m) ≡ local m)
      → (w : World R) → (read_key j local (write_key k v update w).1).0 ≡ (read_key j local w).0
  unfolding read_key write_key attempt
  read_key-write_key_ne k j v update local other kept w = elim (Bool-cases (is_online w)) [
    | inl e ↦ ground (
      arith,
      L.get_answers j (R.set k v w.redis).1,
      L.get_answers j w.redis,
      L.value_set_ne k j v w.redis other,
      kept w.queue.memory_state,
    )
    | inr e ↦ ground (arith, kept w.queue.memory_state)
  ]

  -- The targets that were set last are what is read afterwards, and reading changes nothing.
  pub get-set_active_targets :
      (targets : List String) (w : World R)
      → let w' = (set_active_targets targets w).1 in get_active_targets w' ≡ (targets, w')
  unfolding get_active_targets set_active_targets
  get-set_active_targets targets w =
      read_key-write_key active_targets targets (λ m. record m { targets = targets })
        (λ m. m.targets) (λ m. refl) w

  pub get-set_listener_assignments :
      (a : Assignments) (w : World R)
      → let w' = (set_listener_assignments a w).1 in get_listener_assignments w' ≡ (a, w')
  unfolding get_listener_assignments set_listener_assignments
  get-set_listener_assignments a w =
      read_key-write_key listener_assignments a (λ m. record m { listener_assignments = a })
        (λ m. m.listener_assignments) (λ m. refl) w

  pub get-set_replier_assignments :
      (worker_id : String) (a : Assignments) (w : World R)
      → let w' = (set_replier_assignments worker_id a w).1 in
        get_replier_assignments worker_id w' ≡ (a, w')
  unfolding get_replier_assignments set_replier_assignments
  get-set_replier_assignments worker_id a w =
      read_key-write_key (replier_assignments worker_id) a
        (λ m. record m { replier_assignments = Dict.put worker_id a m.replier_assignments })
        (λ m. or_default [] (Dict.get worker_id m.replier_assignments))
        (λ m. rw (get-put, ==_refl worker_id) refl) w

  -- The pairs that were set last for a worker are what is read afterwards, and reading changes
  -- nothing.
  pub get-set_group_pair_assignments :
      (worker_id : String) (pairs : Pairs) (w : World R)
      → let w' = (set_group_pair_assignments worker_id pairs w).1 in
        get_group_pair_assignments worker_id w' ≡ (pairs, w')
  unfolding get_group_pair_assignments set_group_pair_assignments
  get-set_group_pair_assignments worker_id pairs w =
      read_key-write_key (group_pair_assignments worker_id) pairs
        (λ m. record m { pair_assignments = Dict.put worker_id pairs m.pair_assignments })
        (λ m. or_default [] (Dict.get worker_id m.pair_assignments))
        (λ m. rw (get-put, ==_refl worker_id) refl) w

  -- The consumer that was set last is the active one, also if its id is empty.
  pub get-set_active_consumer :
      (worker_id : String) (w : World R)
      → let w' = (set_active_consumer worker_id w).1 in get_active_consumer w' ≡ (worker_id, w')
  unfolding get_active_consumer set_active_consumer
  get-set_active_consumer worker_id w = elim (Bool-cases (is_online w)) [
    | inl e ↦ ground (
      arith,
      L.get_answers active_consumer (R.set active_consumer worker_id w.redis).1,
      L.value_set active_consumer worker_id w.redis,
    )
    | inr e ↦ ground arith
  ]

  -- Reading changes nothing.
  pub get_active_consumer-keeps : (w : World R) → (get_active_consumer w).1 ≡ w
  unfolding get_active_consumer attempt
  get_active_consumer-keeps w = elim (Bool-cases (is_online w)) [
    | inl e ↦ ground (arith, L.get_answers active_consumer w.redis)
    | inr e ↦ ground arith
  ]

  -- The number of the server that was set last is read back, through the name of the worker.
  pub get-set_active_server :
      (n : ℕ) (w : World R)
      → let w' = (set_active_server (pos n) w).1 in get_active_server w' ≡ (pos n, w')
  unfolding get_active_server set_active_server server_number int_text
  get-set_active_server n w =
      rw (get-set_active_consumer ("worker-" ++ decimal n) w, without-worker n, int_of-decimal n)
        refl
