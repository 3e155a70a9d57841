-- ===== src/Queue/Delivery.antt =====
-- Deduplication and the queue of jobs of one process, against their abstract views: a set of messages
-- seen, and one first-in-first-out list, in the store that the process's manager uses.
use telegram_client.Prelude.{
  ap, ==-eq-false, ℕ, ◌≡◌, ◌≢◌, ◌&&◌, ◌||◌, ◌==◌, ==_iff, inl, inr, Bool, true, false, none, some,
  List, [], ◌∷◌, ◌++◌, arith, if◌then◌else◌, Bool-cases, Option-cases, contains, ==_refl, string_eq,
  ◌+◌, append-nil, leb, nat_beq, nat_beq_iff, nat_eq, pair_eq, refl,
}
use telegram_client.Redis.{seen, message_queue, Redis}
use telegram_client.Data.{Job, ℤ, int_eq, role_eq}
use telegram_client.World.{World}
use telegram_client.Queue.Connection.{is_online}
use telegram_client.Queue.Jobs.{
  is_given, is_duplicate_and_mark, push_job, dequeue_message, requeue_for_retry,
}
use telegram_client.Redis.Laws.{Laws}

module _ {R : Redis} (L : Laws R) where
  -- The message was marked, in the store that the manager uses now.
  unfoldable pub is_seen : ℤ → ℕ → World R → Bool
  unfolding contains
  is_seen chat_id msg_id w =
      if is_online w
      then is_given (L.value (seen chat_id msg_id) w.redis)
      else contains (chat_id, msg_id) w.queue.memory_seen

  -- The jobs that wait, oldest first, in the queue that the manager uses now.
  unfoldable pub pending : World R → List Job
  pending w = if is_online w then L.list message_queue w.redis else w.queue.memory_queue

  pub other_key : (c c' : ℤ) (m m' : ℕ) → (c' == c && nat_beq m' m) ≡ false → seen c' m' ≢ seen c m
  other_key c c' m m' h p = ground (arith, ==_iff c' c)

  mark_other :
      (c c' : ℤ) (m m' : ℕ) (w : World R)
      → (c' == c && nat_beq m' m) ≡ false
      → is_seen c m (is_duplicate_and_mark c' m' w).1 ≡ is_seen c m w
  unfolding is_seen is_duplicate_and_mark contains
  mark_other c c' m m' w ne = elim (Bool-cases (is_online w)) [
    | inl e ↦
        let same =
          L.value_set_nx_ne (seen c' m') (seen c m) tt 86400 w.redis (other_key c c' m m' ne) in
        elim (Option-cases (L.value (seen c' m') w.redis)) [
          | inl new ↦ ground (arith, same, L.set_nx_absent (seen c' m') tt 86400 w.redis new)
          | inr (u, old) ↦ ground (arith, L.set_nx_present (seen c' m') tt u 86400 w.redis old)
        ]
    | inr e ↦
        let key : ℤ × ℕ = (c', m') in
        let other : (key == (c, m)) ≡ false =
          ==-eq-false key (c, m) (λ p. other_key c c' m m' ne (ap (λ k. seen k.0 k.1) p)) in
        elim (Bool-cases (contains key w.queue.memory_seen)) [
          | inl d ↦ rw (e, d, e) refl
          | inr d ↦ rw (e, d, e, other) refl
        ]
  ]

  mark_online :
      (chat_id : ℤ) (msg_id : ℕ) (w : World R)
      → is_online w ≡ true
      → ((is_duplicate_and_mark chat_id msg_id w).0
          ≡ is_given (L.value (seen chat_id msg_id) w.redis))
        × (is_given (L.value (seen chat_id msg_id) (is_duplicate_and_mark chat_id msg_id w).1.redis)
            ≡ true)
        × (is_online (is_duplicate_and_mark chat_id msg_id w).1 ≡ true)
  unfolding is_duplicate_and_mark
  mark_online chat_id msg_id w e = elim (Option-cases (L.value (seen chat_id msg_id) w.redis)) [
    | inl new ↦ ground (arith, L.set_nx_absent (seen chat_id msg_id) tt 86400 w.redis new)
    | inr (u, old) ↦ ground (arith, L.set_nx_present (seen chat_id msg_id) tt u 86400 w.redis old)
  ]

  mark_same :
      (chat_id : ℤ) (msg_id : ℕ) (w : World R)
      → ((is_duplicate_and_mark chat_id msg_id w).0 ≡ is_seen chat_id msg_id w)
        × (is_seen chat_id msg_id (is_duplicate_and_mark chat_id msg_id w).1 ≡ true)
  unfolding is_seen
  mark_same chat_id msg_id w = elim (Bool-cases (is_online w)) [
    | inl e ↦ ground (arith, mark_online chat_id msg_id w e)
    | inr e ↦
        let key : ℤ × ℕ = (chat_id, msg_id) in
        unfold is_duplicate_and_mark in ground (arith, ==_refl key)
  ]

  -- The deduplication is the test-and-set of a set: a message is reported as a duplicate exactly if
  -- it was in the set, and afterwards the set is what it was with that message added, every other
  -- mark included.
  pub mark-is_seen :
      (chat_id : ℤ) (msg_id : ℕ) (w : World R)
      → let (is_dup, w') = is_duplicate_and_mark chat_id msg_id w in
        (is_dup ≡ is_seen chat_id msg_id w)
        × ((c : ℤ) (m : ℕ) → is_seen c m w' ≡ ((chat_id == c && nat_beq msg_id m) || is_seen c m w))
  mark-is_seen chat_id msg_id w = (
    (mark_same chat_id msg_id w).0,
    λ c m. elim (Bool-cases (chat_id == c && nat_beq msg_id m)) [
      | inl e ↦
          let same_chat : chat_id ≡ c = ground (arith, ==_iff chat_id c) in
          let same_id : msg_id ≡ m = ground arith in
          rw e (rw (← same_chat, ← same_id) (mark_same chat_id msg_id w).1)
      | inr e ↦ rw e (mark_other c chat_id m msg_id w e)
    ],
  )

  -- Asking again about a message reports a duplicate.
  pub is_seen-mark :
      (c : ℤ) (m : ℕ) (w : World R) → is_seen c m (is_duplicate_and_mark c m w).1 ≡ true
  is_seen-mark c m w = (mark_same c m w).1

  -- A push puts the job at the end of the queue.
  pub pending-push_job :
      (job : Job) (w : World R) → pending (push_job job w).1 ≡ pending w ++ job ∷ []
  unfolding pending push_job
  pending-push_job job w =
      ground
        (arith, L.rpush_answers message_queue job w.redis, L.list_rpush message_queue job w.redis)

  pub pending-dequeue_nil : (w : World R) → pending w ≡ [] → dequeue_message w ≡ (none, w)
  unfolding pending dequeue_message
  pending-dequeue_nil w h = ground (arith, L.lpop_nil message_queue w.redis)

  -- From a queue that is not empty a pop takes the oldest job, and leaves the others.
  pub pending-dequeue_cons :
      (job : Job) (jobs : List Job) (w : World R)
      → pending w ≡ job ∷ jobs
      → ((dequeue_message w).0 ≡ some job) × (pending (dequeue_message w).1 ≡ jobs)
  unfolding pending dequeue_message
  pending-dequeue_cons job jobs w h = ground (arith, L.lpop_cons message_queue job jobs w.redis)

  pub requeue-push :
      (job : Job) (w : World R)
      → job.retry_count ≡ 0
      → requeue_for_retry job w ≡ push_job (record job { retry_count = 1 }) w
  unfolding requeue_for_retry
  requeue-push job w z =
      let next : job.retry_count + 1 ≡ 1 = omega arith in
      let fresh : leb 1 job.retry_count ≡ false = ground arith in rw (fresh, next)

  push_job-true : (job : Job) (w : World R) → (push_job job w).0 ≡ true
  unfolding push_job
  push_job-true job w = ground arith

  -- A failed job goes to the end of the queue once, marked; when it fails again it is dropped, and
  -- the queue stays as it is.
  pub requeue_once :
      (job : Job) (w : World R)
      → let fresh = nat_beq job.retry_count 0 in
        ((requeue_for_retry job w).0 ≡ fresh)
        × (pending (requeue_for_retry job w).1
            ≡ pending w ++ (if fresh then record job { retry_count = 1 } ∷ [] else []))
  requeue_once job w = elim (Bool-cases (nat_beq job.retry_count 0)) [
    | inl e ↦
        let z = (nat_beq_iff job.retry_count 0).0 e in
        let again : Job = record job { retry_count = 1 } in
        rw (e, requeue-push job w z) (push_job-true again w, pending-push_job again w)
    | inr e ↦ unfold requeue_for_retry in rw e (ground (arith, append-nil (pending w)))
  ]
