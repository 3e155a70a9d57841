-- ===== src/Worker/Traffic/Marks.antt =====
-- What the steps of a process leave of the marks of messages seen, and of its connection.
use telegram_client.Prelude.{
  ℕ, ◌≡◌, ◌≤◌, ◌∙◌, inl, inr, true, List, arith, nat_beq, Bool-cases, string_eq, nat_eq, pair_eq,
  ◌+◌, [], ◌∷◌, append-nil, nat_beq_iff,
}
use telegram_client.World.{World}
use telegram_client.Worker.Traffic.{Work, handles, pops, puts_back, work, work_through}
use telegram_client.Redis.{Redis, seen, message_queue}
use telegram_client.Queue.Delivery.{mark-is_seen, is_seen, pending, requeue-push, requeue_once}
use telegram_client.Data.{ℤ, int_eq, role_eq, Job}
use telegram_client.Queue.Connection.{is_online}
use telegram_client.Queue.Jobs.{
  is_duplicate_and_mark, enqueue_message, dequeue_message, requeue_for_retry,
}
use telegram_client.Redis.Laws.{Laws}
use telegram_client.Worker.Messages.{Event, is_skipped, new_message_handler}
use telegram_client.Worker.Traffic.{copies-append, copies}
use telegram_client.Worker.Messages.Once.{job_of, seen-push_job}

module _ {R : Redis} (L : Laws R) where
  -- A mark of another message leaves this one's.
  seen-mark :
      (c c' : ℤ) (m m' : ℕ) (w : World R)
      → is_seen L c m w ≡ true
      → is_seen L c m (is_duplicate_and_mark c' m' w).1 ≡ true
  seen-mark c c' m m' w h = (mark-is_seen L c' m' w).1 c m ∙ ground (arith, h)

  pub seen-dequeue :
      (c : ℤ) (m : ℕ) (w : World R) → is_seen L c m (dequeue_message w).1 ≡ is_seen L c m w
  unfolding is_seen dequeue_message
  seen-dequeue c m w = elim (Bool-cases (is_online w)) [
    | inl e ↦ ground (arith, L.value_lpop (seen c m) message_queue w.redis)
    | inr e ↦ ground arith
  ]

  pub seen-handler :
      (c : ℤ) (m : ℕ) (start : ℕ) (ids : List ℤ) (e : Event) (w : World R)
      → is_seen L c m w ≡ true
      → is_seen L c m (new_message_handler start ids e w).1 ≡ true
  unfolding new_message_handler enqueue_message
  seen-handler c m start ids e w h =
      let w' = (is_duplicate_and_mark e.chat_id e.id w).1 in
      let kept = seen-mark c e.chat_id m e.id w h in
      elim (Bool-cases (is_skipped start ids e)) [
        | inl s ↦ rw s h
        | inr s ↦ elim (Bool-cases (is_duplicate_and_mark e.chat_id e.id w).0) [
          | inl d ↦ rw (s, d) kept
          | inr d ↦ rw (s, d) (seen-push_job L c m (job_of e) w' ∙ kept)
        ]
      ]

  -- A job that is put back counts as it did; one that was put back before is dropped.
  pub requeued :
      (c : ℤ) (m : ℕ) (job : Job) (w : World R)
      → (copies c m (pending L (requeue_for_retry job w).1)
          ≤ copies c m (pending L w) + copies c m (job ∷ []))
        × (is_seen L c m (requeue_for_retry job w).1 ≡ is_seen L c m w)
  unfolding copies
  requeued c m job w =
      let again : Job = record job { retry_count = 1 } in
      let put_back = (requeue_once L job w).1 in
      elim (Bool-cases (nat_beq job.retry_count 0)) [
        | inl e ↦
            let z = (nat_beq_iff job.retry_count 0).0 e in
            (
              rw (put_back, e, copies-append c m (pending L w) (again ∷ [])) (omega arith),
              rw (requeue-push L job w z) (seen-push_job L c m again w),
            )
        | inr e ↦ (
          rw (put_back, e, append-nil (pending L w)) (omega arith),
          unfold requeue_for_retry in ground arith,
        )
      ]

  seen-work :
      (c : ℤ) (m : ℕ) (x : Work) (w : World R)
      → is_seen L c m w ≡ true
      → is_seen L c m (work x w).1 ≡ true
  seen-work c m (handles start ids e) w h = seen-handler c m start ids e w h
  seen-work c m pops w h = seen-dequeue c m w ∙ h
  seen-work c m (puts_back job) w h = (requeued c m job w).1 ∙ h

  -- A mark stays, whatever the process does.
  pub seen-work_through :
      (c : ℤ) (m : ℕ) (xs : List Work) (w : World R)
      → is_seen L c m w ≡ true
      → is_seen L c m (work_through xs w).1 ≡ true
  unfolding work_through
  seen-work_through c m [] w h = h
  seen-work_through c m (x ∷ xs) w h = seen-work_through c m xs (work x w).1 (seen-work c m x w h)
