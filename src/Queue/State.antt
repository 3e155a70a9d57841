-- ===== src/Queue/State.antt =====
-- The state that the dashboard and the workers share: targets, messages, the active consumer and
-- the assignments.
use telegram_client.Prelude.{
  string_eq, nat_eq, pair_eq, String, Option, none, some, List, [], ◌==◌, if◌then◌else◌, ◌∷◌,
}
use telegram_client.Dict
use telegram_client.Data.{int_eq, Assignments, Pairs, ℤ, role_eq, pos}
use Prim.Native.String.{◌++◌}
use telegram_client.Redis.{
  Redis, Key, Holds, active_targets, active_messages, active_consumer, listener_assignments,
  replier_assignments, group_pair_assignments, Reply,
}
use telegram_client.World.{Action, MemoryState, pure, gets, ◌>>=◌, ◌>>◌}
use telegram_client.Queue.Connection.{attempt, set_memory}
use telegram_client.Dict.{Dict}
use telegram_client.Worker.Texts.{without}
use telegram_client.Worker.Texts.Numbers.{int_of, int_text}

abbrev pub or_default {ℓ} : {A : Type ℓ} → A → Option A → A
or_default d none = d
or_default d (some a) = a

-- `if val:` for a JSON text, which is never empty.
abbrev pub found_or {ℓ} : {A : Type ℓ} → A → Option (Option A) → A
found_or d (some (some v)) = v
found_or d _ = d

-- `if val:` for a text that is stored as it is.
abbrev pub text_or : String → Option (Option String) → String
text_or d (some (some v)) = if v == "" then d else v
text_or d _ = d

-- The loop over the keys that the scan found; an exception ends it. The scan and the reads take
-- turns in the source, and nothing is written between them.
unfoldable pub read_all_repliers :
    (R : Redis)
    → List String
    → Dict String Assignments
    → R.State
    → Reply (Dict String Assignments) × R.State
unfolding Dict.put
read_all_repliers R [] result s = (some result, s)
read_all_repliers R (wid ∷ wids) result s =
    let (val, s') = R.get (replier_assignments wid) s in
    elim val [
      | none ↦ (none, s')
      | some none ↦ read_all_repliers R wids result s'
      | some (some a) ↦ read_all_repliers R wids (Dict.put wid a result) s'
    ]

abbrev pub read_scanned :
    (R : Redis) → Reply (List String) → R.State → Reply (Dict String Assignments) × R.State
read_scanned R none s = (none, s)
read_scanned R (some wids) s = read_all_repliers R wids [] s

abbrev pub scan_all_repliers : (R : Redis) → R.State → Reply (Dict String Assignments) × R.State
scan_all_repliers R s = let (found, s') = R.scan_replier_assignments s in read_scanned R found s'

-- `int(consumer.replace("worker-", ""))`; `none` for the ValueError.
unfoldable pub server_number : String → Option ℤ
server_number worker_id = int_of (without "worker-" 0 worker_id)

module _ {R : Redis} where
  -- The getters' common part: the value in Redis, else the one in memory.
  unfoldable pub read_key : (k : Key) → (MemoryState → Holds k) → Action R (Holds k)
  unfolding attempt
  read_key k local = do
    val ← attempt (R.get k)
    fallback ← gets (λ w. local w.queue.memory_state)
    pure (found_or fallback val)

  -- The setters' common part: to Redis, where an exception is only logged, and to memory.
  unfoldable pub write_key : (k : Key) → Holds k → (MemoryState → MemoryState) → Action R (Unit {0})
  unfolding attempt
  write_key k v local = do attempt (R.set k v); set_memory local

  unfoldable pub set_active_targets : List String → Action R (Unit {0})
  unfolding write_key
  set_active_targets targets =
      write_key active_targets targets (λ m. record m { targets = targets })

  unfoldable pub get_active_targets : Action R (List String)
  unfolding read_key
  get_active_targets = read_key active_targets (λ m. m.targets)

  unfoldable pub set_active_messages : List String → Action R (Unit {0})
  unfolding write_key
  set_active_messages messages =
      write_key active_messages messages (λ m. record m { messages = messages })

  unfoldable pub get_active_messages : Action R (List String)
  unfolding read_key
  get_active_messages = read_key active_messages (λ m. m.messages)

  unfoldable pub set_active_consumer : String → Action R (Unit {0})
  unfolding write_key
  set_active_consumer worker_id =
      write_key active_consumer worker_id (λ m. record m { active_consumer = worker_id })

  unfoldable pub get_active_consumer : Action R String
  unfolding attempt
  get_active_consumer = do
    val ← attempt (R.get active_consumer)
    fallback ← gets (λ w. w.queue.memory_state.active_consumer)
    pure (text_or fallback val)

  unfoldable pub set_listener_assignments : Assignments → Action R (Unit {0})
  unfolding write_key
  set_listener_assignments assignments =
      write_key listener_assignments assignments
        (λ m. record m { listener_assignments = assignments })

  unfoldable pub get_listener_assignments : Action R Assignments
  unfolding read_key
  get_listener_assignments = read_key listener_assignments (λ m. m.listener_assignments)

  unfoldable pub set_replier_assignments : String → Assignments → Action R (Unit {0})
  unfolding write_key
  set_replier_assignments worker_id assignments =
      write_key (replier_assignments worker_id) assignments (λ m. record m {
        replier_assignments = Dict.put worker_id assignments m.replier_assignments;
      })

  unfoldable pub get_replier_assignments : String → Action R Assignments
  unfolding read_key
  get_replier_assignments worker_id =
      read_key (replier_assignments worker_id)
        (λ m. or_default [] (Dict.get worker_id m.replier_assignments))

  unfoldable pub set_group_pair_assignments : String → Pairs → Action R (Unit {0})
  unfolding write_key
  set_group_pair_assignments worker_id pair_assignments =
      write_key (group_pair_assignments worker_id) pair_assignments (λ m. record m {
        pair_assignments = Dict.put worker_id pair_assignments m.pair_assignments;
      })

  unfoldable pub get_group_pair_assignments : String → Action R Pairs
  unfolding read_key
  get_group_pair_assignments worker_id =
      read_key (group_pair_assignments worker_id)
        (λ m. or_default [] (Dict.get worker_id m.pair_assignments))

  unfoldable pub get_all_replier_assignments : Action R (Dict String Assignments)
  unfolding attempt read_all_repliers
  get_all_replier_assignments = do
    result ← attempt (scan_all_repliers R)
    local ← gets (λ w. w.queue.memory_state.replier_assignments)
    pure (or_default local result)

  unfoldable pub set_active_server : ℤ → Action R (Unit {0})
  set_active_server group_id = set_active_consumer ("worker-" ++ int_text group_id)

  unfoldable pub get_active_server : Action R ℤ
  get_active_server = do
    consumer ← get_active_consumer
    pure (or_default (pos 1) (server_number consumer))
