-- ===== src/Worker/Messages/Once.antt =====
-- Which messages the handler of worker.py puts on the queue, and how often.
use telegram_client.Prelude.{
  ℕ, ◌≡◌, inl, inr, String, List, arith, Bool-cases, sym, ap, ◌∙◌, false, ◌||◌, [], ◌∷◌, ◌++◌,
  append-nil, if◌then◌else◌, true,
}
use telegram_client.Data.{ℤ, Job}
use telegram_client.Redis.{Redis, seen, message_queue}
use telegram_client.Redis.Laws.{Laws}
use telegram_client.World.{World}
use telegram_client.Queue.Jobs.{new_job, is_duplicate_and_mark, push_job, enqueue_message}
use telegram_client.Queue.Connection.{is_online}
use telegram_client.Queue.Delivery.{is_seen, pending, mark-is_seen, is_seen-mark, pending-push_job}
use telegram_client.Worker.Texts.{full_message}
use telegram_client.Worker.Texts.Signature.{is_own_text-full_message}
use telegram_client.Worker.Messages.{
  Event, msg_text, is_skipped, new_message_handler, sender_text, reply_target,
}

-- The payload for an event.
abbrev pub job_of : Event → Job
job_of e =
    new_job e.chat_id e.id (msg_text e) e.sender_id (sender_text e.sender_id)
      (reply_target e.reply_to)

module _ {R : Redis} where
  -- A message that the backend sent itself, from whichever account, changes nothing: neither the
  -- queue nor the marks.
  pub new_message_handler-own :
      (start : ℕ) (ids : List ℤ) (e : Event) (message_text : String) (ref_num : ℕ) (w : World R)
      → msg_text e ≡ full_message message_text ref_num
      → new_message_handler start ids e w ≡ (tt, w)
  unfolding new_message_handler is_skipped
  new_message_handler-own start ids e m n w h = ground (arith, h, is_own_text-full_message m n)

module _ {R : Redis} (L : Laws R) where
  pending-mark :
      (c : ℤ) (m : ℕ) (w : World R) → pending L (is_duplicate_and_mark c m w).1 ≡ pending L w
  unfolding pending is_duplicate_and_mark
  pending-mark c m w = elim (Bool-cases (is_online w)) [
    | inl e ↦ ground (arith, L.list_set_nx message_queue (seen c m) tt 86400 w.redis)
    | inr e ↦ ground arith
  ]

  pub seen-push_job :
      (c : ℤ) (m : ℕ) (job : Job) (w : World R) → is_seen L c m (push_job job w).1 ≡ is_seen L c m w
  unfolding is_seen push_job
  seen-push_job c m job w = elim (Bool-cases (is_online w)) [
    | inl e ↦ ground (
      arith,
      L.value_rpush (seen c m) message_queue job w.redis,
      L.rpush_answers message_queue job w.redis,
    )
    | inr e ↦ ground arith
  ]

  -- A message is enqueued when none of the early returns takes it and it was not seen before; the
  -- payload is the event's, at the end of the queue. Otherwise the queue stays as it is.
  pub pending-new_message_handler :
      (start : ℕ) (ids : List ℤ) (e : Event) (w : World R)
      → pending L (new_message_handler start ids e w).1
        ≡ pending L w
          ++ (if is_skipped start ids e || is_seen L e.chat_id e.id w then [] else job_of e ∷ [])
  unfolding new_message_handler enqueue_message
  pending-new_message_handler start ids e w =
      let answer = (mark-is_seen L e.chat_id e.id w).0 in
      let w' = (is_duplicate_and_mark e.chat_id e.id w).1 in
      elim (Bool-cases (is_skipped start ids e)) [
        | inl s ↦ rw s (sym (append-nil (pending L w)))
        | inr s ↦ elim (Bool-cases (is_seen L e.chat_id e.id w)) [
          | inl d ↦
              rw (s, answer, d) (pending-mark e.chat_id e.id w ∙ sym (append-nil (pending L w)))
          | inr d ↦
              rw (s, answer, d)
                (pending-push_job L (job_of e) w'
                  ∙ ap (λ q. q ++ job_of e ∷ []) (pending-mark e.chat_id e.id w))
        ]
      ]

  pub seen-new_message_handler :
      (start : ℕ) (ids : List ℤ) (e : Event) (w : World R)
      → is_skipped start ids e ≡ false
      → is_seen L e.chat_id e.id (new_message_handler start ids e w).1 ≡ true
  unfolding new_message_handler enqueue_message
  seen-new_message_handler start ids e w s =
      let answer = (mark-is_seen L e.chat_id e.id w).0 in
      let after = is_seen-mark L e.chat_id e.id w in
      let w' = (is_duplicate_and_mark e.chat_id e.id w).1 in
      elim (Bool-cases (is_seen L e.chat_id e.id w)) [
        | inl d ↦ rw (s, answer, d) after
        | inr d ↦ rw (s, answer, d) (seen-push_job e.chat_id e.id (job_of e) w' ∙ after)
      ]
