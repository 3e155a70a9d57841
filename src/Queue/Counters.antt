-- ===== src/Queue/Counters.antt =====
-- The counters of consecutive replies in a thread, by chat and account.
use telegram_client.Prelude.{
  string_eq, nat_eq, pair_eq, ℕ, ◌+◌, String, Option, none, some, [], ◌∷◌,
}
use telegram_client.Dict
use telegram_client.Data.{int_eq, ℤ}
use telegram_client.Redis.{Redis, Reply, consecutive_thread_replies}
use telegram_client.World.{Action, pure, gets, ◌>>=◌, ◌>>◌}
use telegram_client.Queue.Connection.{attempt, set_memory}
use telegram_client.Queue.State.{or_default}

-- `int(val) if val else 0`, or the in-memory counter
abbrev pub count_or : ℕ → Option (Option ℕ) → ℕ
count_or local (some (some n)) = n
count_or local (some none) = 0
count_or local none = local

-- INCR, then EXPIRE: an exception of either leads to the in-memory counter.
abbrev pub expire_after : (R : Redis) → ℤ → String → Reply ℕ → R.State → Reply ℕ × R.State
expire_after R chat_id session_name none s = (none, s)
expire_after R chat_id session_name (some n) s =
    let (done, s') = R.expire (consecutive_thread_replies chat_id session_name) 3600 s in
    (elim done [ none ↦ none | some _ ↦ some n ], s')

abbrev pub incr_expire : (R : Redis) → ℤ → String → R.State → Reply ℕ × R.State
incr_expire R chat_id session_name s =
    let (n, s') = R.incr chat_id session_name s in expire_after R chat_id session_name n s'

module _ {R : Redis} where
  unfoldable pub get_consecutive_thread_replies : ℤ → String → Action R ℕ
  unfolding attempt
  get_consecutive_thread_replies chat_id session_name = do
    val ← attempt (R.get (consecutive_thread_replies chat_id session_name))
    local ← gets (λ w.
        or_default 0 (Dict.get (chat_id, session_name) w.queue.memory_state.consecutive_counters))
    pure (count_or local val)

  abbrev pub incr_memory : ℤ → String → Action R ℕ
  incr_memory chat_id session_name w =
      let key : ℤ × String = (chat_id, session_name) in
      let counters = w.queue.memory_state.consecutive_counters in
      let n : ℕ = or_default 0 (Dict.get key counters) + 1 in
      (n, (set_memory (λ m. record m { consecutive_counters = Dict.put key n counters }) w).1)

  abbrev pub counted_or_memory : ℤ → String → Option ℕ → Action R ℕ
  counted_or_memory chat_id session_name (some n) = pure n
  counted_or_memory chat_id session_name none = incr_memory chat_id session_name

  unfoldable pub increment_consecutive_thread_replies : ℤ → String → Action R ℕ
  unfolding attempt
  increment_consecutive_thread_replies chat_id session_name = do
    n ← attempt (incr_expire R chat_id session_name)
    counted_or_memory chat_id session_name n

  unfoldable pub reset_consecutive_thread_replies : ℤ → String → Action R (Unit {0})
  unfolding attempt
  reset_consecutive_thread_replies chat_id session_name = do
    attempt (R.delete (consecutive_thread_replies chat_id session_name ∷ []))
    set_memory (λ m. record m {
      consecutive_counters = Dict.pop (chat_id, session_name) m.consecutive_counters;
    })
