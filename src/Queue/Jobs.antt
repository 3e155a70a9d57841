-- ===== src/Queue/Jobs.antt =====
-- Deduplication and the message queue.
use telegram_client.Prelude.{
  string_eq, nat_eq, pair_eq, ℕ, ◌+◌, String, Bool, true, false, not, Option, none, some, List, [],
  ◌∷◌, ◌++◌, leb, contains, if◌then◌else◌,
}
use telegram_client.Data.{int_eq, ℤ, Job}
use telegram_client.Redis.{Redis, seen, message_queue}
use telegram_client.World.{Action, pure, ◌>>=◌}
use telegram_client.Queue.Connection.{attempt}

-- `reply_to_msg_id is not None`
abbrev pub is_given {ℓ} : {A : Type ℓ} → Option A → Bool
is_given none = false
is_given (some _) = true

-- The payload that `enqueue_message` builds.
unfoldable pub new_job : ℤ → ℕ → String → Option ℤ → String → Option ℕ → Job
new_job chat_id msg_id text sender_id sender_name reply_to_msg_id = record {
  chat_id = chat_id;
  msg_id = msg_id;
  text = text;
  sender_id = sender_id;
  sender_name = sender_name;
  reply_to_msg_id = reply_to_msg_id;
  is_reply = is_given reply_to_msg_id;
  retry_count = 0;
}

module _ {R : Redis} where
  -- the in-memory set
  unfoldable pub mark_memory : ℤ → ℕ → Action R Bool
  mark_memory chat_id msg_id w =
      if contains (chat_id, msg_id) w.queue.memory_seen then (true, w) else (
        false,
        record w {
          queue = record w.queue { memory_seen = (chat_id, msg_id) ∷ w.queue.memory_seen };
        },
      )

  abbrev pub or_memory : ℤ → ℕ → Option Bool → Action R Bool
  or_memory chat_id msg_id (some is_set) = pure (not is_set)
  or_memory chat_id msg_id none = mark_memory chat_id msg_id

  unfoldable pub is_duplicate_and_mark : ℤ → ℕ → Action R Bool
  unfolding attempt mark_memory
  is_duplicate_and_mark chat_id msg_id = do
    is_set ← attempt (R.set_nx (seen chat_id msg_id) tt 86400)
    or_memory chat_id msg_id is_set

  -- `await self._memory_queue.put(payload)`
  abbrev pub put_memory : Job → Action R Bool
  put_memory job w = (
    true,
    record w { queue = record w.queue { memory_queue = w.queue.memory_queue ++ job ∷ [] } },
  )

  abbrev pub pushed_or_memory : Job → Option (Unit {0}) → Action R Bool
  pushed_or_memory job (some _) = pure true
  pushed_or_memory job none = put_memory job

  -- RPUSH, or the in-memory queue: shared by the two operations below.
  unfoldable pub push_job : Job → Action R Bool
  unfolding attempt
  push_job job = do pushed ← attempt (R.rpush message_queue job); pushed_or_memory job pushed

  unfoldable pub enqueue_message : ℤ → ℕ → String → Option ℤ → String → Option ℕ → Action R Bool
  unfolding new_job push_job
  enqueue_message chat_id msg_id text sender_id sender_name reply_to_msg_id =
      push_job (new_job chat_id msg_id text sender_id sender_name reply_to_msg_id)

  -- The oldest entry of `_memory_queue`; `none` once the timeout has passed with none there.
  abbrev get_from : List Job → Action R (Option Job)
  get_from [] w = (none, w)
  get_from (job ∷ rest) w = (some job, record w { queue = record w.queue { memory_queue = rest } })

  abbrev pub get_memory : Action R (Option Job)
  get_memory w = get_from w.queue.memory_queue w

  abbrev pub popped_or_memory : Option (Option Job) → Action R (Option Job)
  popped_or_memory (some res) = pure res
  popped_or_memory none = get_memory

  unfoldable pub dequeue_message : Action R (Option Job)
  unfolding attempt
  dequeue_message = do res ← attempt (R.lpop message_queue); popped_or_memory res

  -- A job that was retried once already is dropped.
  unfoldable pub requeue_for_retry : Job → Action R Bool
  unfolding push_job
  requeue_for_retry payload =
      if leb 1 payload.retry_count
      then pure false
      else push_job (record payload { retry_count = payload.retry_count + 1 })
