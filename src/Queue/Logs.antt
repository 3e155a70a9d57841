-- ===== src/Queue/Logs.antt =====
-- The queue of log entries, which the master drains into SQLite.
use telegram_client.Prelude.{
  string_eq, nat_eq, pair_eq, ℕ, zero, suc, Bool, true, false, Option, none, some, List, [], ◌∷◌,
  ◌++◌, ◌-◌, length,
}
use telegram_client.Data.{int_eq, LogEntry}
use telegram_client.Redis.{Redis, worker_logs}
use telegram_client.World.{Action, pure, ◌>>=◌}
use telegram_client.Queue.Connection.{attempt, set_memory}

-- The loop over `range(count)`: whether it ended without an exception, and the entries popped.
unfoldable pub pop_redis : (R : Redis) → ℕ → R.State → (Bool × List LogEntry) × R.State
pop_redis R zero s = ((true, []), s)
pop_redis R (suc n) s =
    let (res, s') = R.lpop worker_logs s in
    let ((done, more), last) = pop_redis R n s' in
    elim res [
      | none ↦ ((false, []), s')
      | some none ↦ ((true, []), s')
      | some (some entry) ↦ ((done, entry ∷ more), last)
    ]

abbrev pub answered {ℓ κ} : {A : Type ℓ} {S : Type κ} → A × S → Option A × S
answered (a, s) = (some a, s)

-- The loop over `_memory_state["logs_queue"]`: `n` is what is left of `count`.
unfoldable pub pop_memory : ℕ → List LogEntry → List LogEntry × List LogEntry
pop_memory zero queue = ([], queue)
pop_memory (suc n) [] = ([], [])
pop_memory (suc n) (entry ∷ queue) =
    let (popped, rest) = pop_memory n queue in (entry ∷ popped, rest)

module _ {R : Redis} where
  abbrev pub pushed_or_append : LogEntry → Option (Unit {0}) → Action R (Unit {0})
  pushed_or_append entry (some _) = pure tt
  pushed_or_append entry none =
      set_memory (λ m. record m { logs_queue = m.logs_queue ++ entry ∷ [] })

  unfoldable pub push_worker_log : LogEntry → Action R (Unit {0})
  unfolding attempt
  push_worker_log entry = do
    pushed ← attempt (R.rpush worker_logs entry)
    pushed_or_append entry pushed

  -- The part of `pop_worker_logs` below the `if`: it fills up from memory what Redis gave.
  abbrev pub fill_from_memory : List LogEntry → ℕ → Action R (List LogEntry)
  fill_from_memory logs n w =
      let (popped, rest) = pop_memory n w.queue.memory_state.logs_queue in
      (logs ++ popped, (set_memory (λ m. record m { logs_queue = rest }) w).1)

  abbrev pub finish : ℕ → Option (Bool × List LogEntry) → Action R (List LogEntry)
  finish count none = fill_from_memory [] count
  finish count (some (true, logs)) = pure logs
  finish count (some (false, logs)) = fill_from_memory logs (count - length logs)

  unfoldable pub pop_worker_logs : ℕ → Action R (List LogEntry)
  unfolding attempt pop_redis pop_memory
  pop_worker_logs count = do
    popped ← attempt (λ s. answered (pop_redis R count s))
    finish count popped
