-- ===== src/Queue/Workers.antt =====
-- The worker registry and its heartbeats.
pub mod Alive
use Prim.Native.String.{compare}
use Prim.Native.Nat.{Ordering}
use telegram_client.Prelude.{
  string_eq, nat_eq, pair_eq, ℕ, ◌-◌, String, Bool, true, false, List, [], ◌∷◌, ltb, if◌then◌else◌,
}
use telegram_client.Dict
use telegram_client.Dict.{Dict}
use telegram_client.Data.{int_eq, WorkerInfo, role_eq}
use telegram_client.Redis.{Redis}
use telegram_client.World.{Action, pure, gets, ◌>>=◌, ◌>>◌}
use telegram_client.Queue.Connection.{attempt, set_memory}
use telegram_client.Queue.State.{or_default}

abbrev pub worker_heartbeat_timeout : ℕ
worker_heartbeat_timeout = 60

-- Python's order on texts, by code points.
unfoldable pub text_le : String → String → Bool
text_le s t = elim (compare s t) [ Ordering.gt ↦ false | _ ↦ true ]

unfoldable pub insert_text : String → List String → List String
unfolding text_le
insert_text x [] = x ∷ []
insert_text x (y ∷ ys) = if text_le x y then x ∷ y ∷ ys else y ∷ insert_text x ys

-- `sorted(texts)`
unfoldable pub sorted : List String → List String
unfolding insert_text
sorted [] = []
sorted (x ∷ xs) = insert_text x (sorted xs)

-- The loop of `get_alive_worker_ids`: a heartbeat from the future counts as alive, as it does by
-- the negative difference in the source.
unfoldable pub alive_in : ℕ → Dict String WorkerInfo → List String
alive_in now [] = []
alive_in now ((wid, entry) ∷ workers) =
    let rest = alive_in now workers in
    if ltb (now - entry.heartbeat) worker_heartbeat_timeout then wid ∷ rest else rest

module _ {R : Redis} where
  unfoldable pub send_heartbeat : String → Action R (Unit {0})
  unfolding attempt
  send_heartbeat worker_id = do
    now ← gets (λ w. w.now)
    let payload : WorkerInfo = record { heartbeat = now; status = "active" }
    attempt (R.hset worker_id payload)
    set_memory (λ m. record m { workers = Dict.put worker_id payload m.workers })

  -- The source's body is that of `send_heartbeat`, with another line in the log.
  unfoldable pub register_worker : String → Action R (Unit {0})
  unfolding attempt
  register_worker worker_id = do
    now ← gets (λ w. w.now)
    let payload : WorkerInfo = record { heartbeat = now; status = "active" }
    attempt (R.hset worker_id payload)
    set_memory (λ m. record m { workers = Dict.put worker_id payload m.workers })

  unfoldable pub unregister_worker : String → Action R (Unit {0})
  unfolding attempt
  unregister_worker worker_id = do
    attempt (R.hdel worker_id)
    set_memory (λ m. record m { workers = Dict.pop worker_id m.workers })

  unfoldable pub get_registered_workers : Action R (Dict String WorkerInfo)
  unfolding attempt
  get_registered_workers = do
    raw ← attempt R.hgetall
    local ← gets (λ w. w.queue.memory_state.workers)
    pure (or_default local raw)

  unfoldable pub get_alive_worker_ids : Action R (List String)
  unfolding get_registered_workers alive_in sorted
  get_alive_worker_ids = do
    workers ← get_registered_workers
    now ← gets (λ w. w.now)
    pure (sorted (alive_in now workers))
