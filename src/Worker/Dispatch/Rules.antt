-- ===== src/Worker/Dispatch/Rules.antt =====
-- The rules of `_dispatch_reply` in worker.py, stated for every engine.
use telegram_client.Prelude.{
  String, ◌≡◌, refl, Bool, true, false, ◌||◌, Option, none, some, arith, leb, if◌then◌else◌, ◌≢◌,
  inl, inr, Bool-cases, [], ◌∷◌, ◌++◌, nat_beq,
}
use telegram_client.Redis.{Redis, consecutive_thread_replies, message_queue, worker_logs}
use telegram_client.Redis.Laws.{Laws}
use telegram_client.World.{World}
use telegram_client.Data.{ℤ, LogEntry, Account, Job, info, warning}
use telegram_client.Queue.Counters.{get_consecutive_thread_replies}
use telegram_client.Queue.Delivery.{pending, requeue_once}
use telegram_client.Worker.Dispatch.{
  choose, is_available, Worker, Engine, reply_with, may_reply, max_consecutive, reply_log,
  send_reply,
}
use telegram_client.Queue.Connection.{is_online}
use telegram_client.Queue.Logs.{push_worker_log}

-- Whether the account may be asked.
abbrev pub is_ready : Option Account → Bool
is_ready none = false
is_ready (some acc) = is_available acc.status

-- The backup is chosen exactly when it is available and the primary is not; otherwise the primary
-- is, even an unavailable one, and nobody only when there is no primary and no available backup.
pub choose_lem :
    (primary backup : Option Account)
    → choose primary backup
      ≡ elim (if is_ready primary then primary else if is_ready backup then backup else primary) [
        | none ↦ none
        | some acc ↦ some (acc, if is_ready primary then false else is_ready backup)
      ]
unfolding choose
choose_lem none none = refl
choose_lem none (some b) = ground arith
choose_lem (some p) none = ground arith
choose_lem (some p) (some b) = ground arith

module _ {R : Redis} (L : Laws R) where
  pending-push_worker_log :
      (entry : LogEntry) (w : World R) → pending L (push_worker_log entry w).1 ≡ pending L w
  unfolding pending push_worker_log
  pending-push_worker_log entry w = elim (Bool-cases (is_online w)) [
    | inl e ↦
        let other : worker_logs ≢ message_queue = ground arith in
        ground (
          arith,
          L.rpush_answers worker_logs entry w.redis,
          L.list_rpush_ne worker_logs message_queue entry w.redis other,
        )
    | inr e ↦ ground arith
  ]

  get_counter-keeps :
      (c : ℤ) (s : String) (w : World R) → (get_consecutive_thread_replies c s w).1 ≡ w
  unfolding get_consecutive_thread_replies
  get_counter-keeps c s w = elim (Bool-cases (is_online w)) [
    | inl e ↦ ground (arith, L.get_answers (consecutive_thread_replies c s) w.redis)
    | inr e ↦ ground arith
  ]

  -- A job that is itself a reply in a thread is withheld from the backup account, and from every
  -- account that has answered five times in a row: Telegram is not asked, whatever it would do,
  -- and the queue of jobs stays as it is.
  pub reply_with_withheld :
      (E E' : Engine R) (node : Worker) (acc : Account) (is_backup : Bool) (job : Job)
      (msg : String) (w : World R)
      → job.is_reply ≡ true
      → (is_backup
          || leb max_consecutive (get_consecutive_thread_replies job.chat_id acc.session_name w).0)
        ≡ true
      → (reply_with E node acc is_backup job msg w ≡ reply_with E' node acc is_backup job msg w)
        × (pending L (reply_with E node acc is_backup job msg w).1 ≡ pending L w)
  unfolding reply_with may_reply
  reply_with_withheld E E' node acc true job msg w r h =
      rw r (refl, pending-push_worker_log (reply_log info acc job.chat_id) w)
  reply_with_withheld E E' node acc false job msg w r h =
      rw (r, h, get_counter-keeps job.chat_id acc.session_name w)
        (refl, pending-push_worker_log (reply_log warning acc job.chat_id) w)

  -- When the engine reports a failure, the job goes back to the end of the queue that the engine
  -- left, marked, if it had not failed before, and is dropped otherwise.
  pub send_reply-requeue :
      (E : Engine R) (node : Worker) (acc : Account) (job : Job) (msg : String) (w w' : World R)
      → E.reply_to_channel_message acc job.chat_id job.msg_id msg
          (E.ensure_resolved acc job.chat_id w).1
        ≡ (false, w')
      → pending L (send_reply E node acc job msg w).1
        ≡ pending L w'
          ++ (if nat_beq job.retry_count 0 then record job { retry_count = 1 } ∷ [] else [])
  unfolding send_reply
  send_reply-requeue E node acc job msg w w' h = rw h ((requeue_once L job w').1)
