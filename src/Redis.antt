-- ===== src/Redis.antt =====
-- The Redis server that app/queue_manager.py talks to through `redis.asyncio`. It is not part of
-- the repository, so it is a parameter: its operations, and the documented behaviour that the
-- theorems rely on. A key or a list is named by what its text encodes, and holds the value whose
-- JSON text is stored there.
pub mod Laws
pub mod Local
use telegram_client.Prelude.{ℕ, String, Bool, Option, List}
use telegram_client.Dict.{Dict}
use telegram_client.Data.{ℤ, Assignments, Pairs, WorkerInfo, Job, LogEntry}

-- The string keys.
pub data Key : Type 0 where
  active_targets : Key
  active_messages : Key
  active_consumer : Key
  listener_assignments : Key
  replier_assignments : String → Key
  group_pair_assignments : String → Key
  seen : ℤ → ℕ → Key
  consecutive_thread_replies : ℤ → String → Key

-- What the text at a key encodes.
abbrev pub Holds : Key → Type 0
Holds active_targets = List String
Holds active_messages = List String
Holds active_consumer = String
Holds listener_assignments = Assignments
Holds (replier_assignments w) = Assignments
Holds (group_pair_assignments w) = Pairs
Holds (seen c m) = Unit
Holds (consecutive_thread_replies c s) = ℕ

-- The list keys "tg_message_queue" and "tg_worker_logs".
pub data ListKey : Type 0 where
  message_queue worker_logs : ListKey

abbrev pub Item : ListKey → Type 0
Item message_queue = Job
Item worker_logs = LogEntry

-- A call's result; `none` means that the client raised an exception.
abbrev pub Reply {ℓ} : Type ℓ → Type ℓ
Reply A = Option A

pub record Redis : Type 1 where
  pub State : Type 0
  pub ping : State → Reply (Unit {0}) × State
  pub get : (k : Key) → State → Reply (Option (Holds k)) × State
  pub set : (k : Key) → Holds k → State → Reply (Unit {0}) × State
  -- SET key value NX EX ttl: whether the key was set
  pub set_nx : (k : Key) → Holds k → ℕ → State → Reply Bool × State
  -- DEL of all the keys at once
  pub delete : List Key → State → Reply (Unit {0}) × State
  -- the counters: INCR, EXPIRE
  pub incr : ℤ → String → State → Reply ℕ × State
  pub expire : Key → ℕ → State → Reply (Unit {0}) × State
  -- a SCAN loop run to cursor 0: the workers that have a key of the pattern
  pub scan_replier_assignments : State → Reply (List String) × State
  pub scan_group_pair_assignments : State → Reply (List String) × State
  pub rpush : (l : ListKey) → Item l → State → Reply (Unit {0}) × State
  -- LPOP, and BLPOP with its timeout passed
  pub lpop : (l : ListKey) → State → Reply (Option (Item l)) × State
  -- the hash "workers"
  pub hset : String → WorkerInfo → State → Reply (Unit {0}) × State
  pub hdel : String → State → Reply (Unit {0}) × State
  pub hgetall : State → Reply (Dict String WorkerInfo) × State
