-- ===== src/World.antt =====
-- What the coroutines of one process of the backend read and write: the master and every worker are
-- processes of their own. Its `queue_manager` object with the in-memory fallback, its SQLite file, its
-- session files and its clock are the process's; the Redis server behind them is the one that all
-- processes share.
-- A coroutine is an action on this state; between its awaits the event loop may run others, so
-- an action is one coroutine run to its end.
use telegram_client.Prelude.{ℕ, String, Bool, List, []}
use telegram_client.Dict.{Dict}
use telegram_client.Data.{ℤ, Account, Assignments, Pair, Pairs, WorkerInfo, Job, LogEntry}
use telegram_client.Redis.{Redis}

-- `_memory_state`, with the dictionaries that `setdefault` adds to it.
pub record MemoryState : Type 0 where
  pub active_consumer : String
  pub targets : List String
  pub messages : List String
  pub logs_queue : List LogEntry
  pub workers : Dict String WorkerInfo
  pub listener_assignments : Assignments
  pub replier_assignments : Dict String Assignments
  pub pair_assignments : Dict String Pairs
  pub consecutive_counters : Dict (ℤ × String) ℕ

abbrev pub initial_memory_state : MemoryState
initial_memory_state = record {
  active_consumer = "worker-1";
  targets = [];
  messages = [];
  logs_queue = [];
  workers = [];
  listener_assignments = [];
  replier_assignments = [];
  pair_assignments = [];
  consecutive_counters = [];
}

-- The fields of `QueueManager`; `redis_client` says whether the field is not None.
pub record QueueManager : Type 0 where
  pub redis_client : Bool
  pub use_redis : Bool
  pub memory_queue : List Job
  pub memory_seen : List (ℤ × ℕ)
  pub memory_state : MemoryState

-- A setting's text: the number that it spells, or another text. The text of a time spells it in the
-- units of the clock.
pub data SettingText : Type 0 where
  spells : ℕ → SettingText
  words : String → SettingText

-- A row of `targets` or `messages`: the columns that the synchronisation reads.
pub record Row : Type 0 where
  pub id : ℕ
  pub content : String
  pub is_active : Bool

-- The tables of app.db; a process without the file has `exists` false.
pub record Database : Type 0 where
  pub exists : Bool
  pub accounts : List Account
  pub targets : List Row
  pub messages : List Row
  pub settings : Dict String SettingText
  pub group_assignments : Dict String Pair
  pub logs : List LogEntry

-- One process's view.
pub record World (R : Redis) : Type 0 where
  pub queue : QueueManager
  pub redis : R.State
  pub db : Database
  -- the names of the files in SESSIONS_DIR that end in ".session", less that ending
  pub sessions : List String
  -- `time.time()`, in whole units: seconds, or the parts of one that `ticks` counts
  pub now : ℕ

-- A coroutine that returns normally.
abbrev pub Action {ℓ} : Redis → Type ℓ → Type ℓ
Action R A = World R → A × World R

module _ {R : Redis} where
  infixl 5 ◌>>=◌ ◌>>◌
  abbrev pub ◌>>=◌ {ℓ κ} : {A : Type ℓ} {B : Type κ} → Action R A → (A → Action R B) → Action R B
  ◌>>=◌ m f w = let (a, w') = m w in f a w'

  abbrev pub ◌>>◌ {ℓ κ} : {A : Type ℓ} {B : Type κ} → Action R A → Action R B → Action R B
  m >> k = m >>= λ _. k

  abbrev pub pure {ℓ} : {A : Type ℓ} → A → Action R A
  pure a w = (a, w)

  abbrev pub gets {ℓ} : {A : Type ℓ} → (World R → A) → Action R A
  gets f w = (f w, w)
