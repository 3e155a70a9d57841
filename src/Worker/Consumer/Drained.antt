-- ===== src/Worker/Consumer/Drained.antt =====
-- What `consumer_loop` of worker.py does with the jobs while no message is active.
use telegram_client.Prelude.{
  ℕ, zero, suc, ◌+◌, ◌≤◌, String, ◌≡◌, refl, inl, inr, true, List, [], ◌∷◌, ◌++◌, arith, string_eq,
  ◌==◌, ==_iff, nat_eq, pair_eq, nat_beq, if◌then◌else◌, Bool-cases, leb, append-nil, ◌∙◌,
}
use telegram_client.Redis.{Redis, Key, message_queue, active_messages, active_consumer}
use telegram_client.Redis.Laws.{Laws}
use telegram_client.World.{World, Action, pure, ◌>>=◌}
use telegram_client.Queue.Connection.{is_online, attempt}
use telegram_client.Queue.Jobs.{
  popped_or_memory, get_memory, dequeue_message, push_job, requeue_for_retry,
}
use telegram_client.Queue.State.{read_key, get_active_consumer, get_active_messages}
use telegram_client.Queue.Reads.{get_active_consumer-keeps}
use telegram_client.Rotator.Shown.{read_key-state}
use telegram_client.Queue.Delivery.{
  pending, pending-dequeue_cons, pending-dequeue_nil, requeue_once,
}
use telegram_client.Worker.Dispatch.{Worker, Engine}
use telegram_client.Worker.Consumer.{consumer_turn, answer}
use telegram_client.Data.{int_eq, role_eq, Job}

-- How many turns the jobs of a queue take: two for a job that was not retried yet.
unfoldable pub turns_needed : List Job → ℕ
turns_needed [] = 0
turns_needed (job ∷ jobs) =
    let rest = turns_needed jobs in if nat_beq job.retry_count 0 then suc (suc rest) else suc rest

turns_needed-append :
    (xs ys : List Job) → turns_needed (xs ++ ys) ≡ turns_needed xs + turns_needed ys
unfolding turns_needed
turns_needed-append [] ys = omega arith
turns_needed-append (x ∷ xs) ys = ground (arith, turns_needed-append xs ys)

no_turns : (q : List Job) → turns_needed q ≤ 0 → q ≡ []
unfolding turns_needed
no_turns [] le = refl
no_turns (job ∷ jobs) le = absurd (ground arith)

abbrev retried : Job → List Job
retried job = if nat_beq job.retry_count 0 then record job { retry_count = 1 } ∷ [] else []

turned :
    (job : Job) (jobs : List Job)
    → suc (turns_needed (jobs ++ retried job)) ≡ turns_needed (job ∷ jobs)
unfolding turns_needed
turned job jobs = elim (Bool-cases (nat_beq job.retry_count 0)) [
  | inl e ↦ rw (e, turns_needed-append jobs (record job { retry_count = 1 } ∷ [])) (omega arith)
  | inr e ↦ rw (e, append-nil jobs) refl
]

module _ {R : Redis} (E : Engine R) (node : Worker) (choice : String → List String → String) where
  unfoldable pub consumer_turns : ℕ → Action R (Unit {0})
  consumer_turns zero = pure tt
  consumer_turns (suc n) = consumer_turn E node choice >>= λ _. consumer_turns n

module _ {R : Redis} (L : Laws R) where
  -- What a getter reads is the same.
  record Agree (w' w : World R) : Type 0 where
    online : is_online w' ≡ is_online w
    memory : w'.queue.memory_state ≡ w.queue.memory_state
    value : (k : Key) → L.value k w'.redis ≡ L.value k w.redis

  messages-Agree :
      (w' w : World R) → Agree w' w → (get_active_messages w').0 ≡ (get_active_messages w).0
  unfolding get_active_messages read_key attempt
  messages-Agree w' w a = elim (Bool-cases (is_online w)) [
    | inl e ↦ ground (
      arith,
      a.online,
      L.get_answers active_messages w'.redis,
      L.get_answers active_messages w.redis,
      a.value active_messages,
      a.memory,
    )
    | inr e ↦ ground (arith, a.online, a.memory)
  ]

  consumer-Agree :
      (w' w : World R) → Agree w' w → (get_active_consumer w').0 ≡ (get_active_consumer w).0
  unfolding get_active_consumer attempt
  consumer-Agree w' w a = elim (Bool-cases (is_online w)) [
    | inl e ↦ ground (
      arith,
      a.online,
      L.get_answers active_consumer w'.redis,
      L.get_answers active_consumer w.redis,
      a.value active_consumer,
      a.memory,
    )
    | inr e ↦ ground (arith, a.online, a.memory)
  ]

  dequeue-Agree : (w : World R) → Agree (dequeue_message w).1 w
  unfolding dequeue_message attempt
  dequeue-Agree w = elim (Bool-cases (is_online w)) [
    | inl e ↦ rw e (by_jobs (L.list message_queue w.redis) refl)
    | inr e ↦ rw e (by_memory w.queue.memory_queue refl)
  ]
    where
      by_jobs :
          (q : List Job)
          → L.list message_queue w.redis ≡ q
          → Agree
              (popped_or_memory
                (R.lpop message_queue w.redis).0
                (record w { redis = (R.lpop message_queue w.redis).1 })).1
              w
      by_jobs [] h =
          rw (L.lpop_nil message_queue w.redis h)
            (record { online = refl; memory = refl; value = λ k. refl })
      by_jobs (job ∷ jobs) h = rw ((L.lpop_cons message_queue job jobs w.redis h).0) (record {
        online = refl;
        memory = refl;
        value = λ k. L.value_lpop k message_queue w.redis;
      })

      by_memory : (q : List Job) → w.queue.memory_queue ≡ q → Agree (get_memory w).1 w
      by_memory [] h = rw h (record { online = refl; memory = refl; value = λ k. refl })
      by_memory (job ∷ jobs) h = rw h (record { online = refl; memory = refl; value = λ k. refl })

  push-Agree : (job : Job) (w : World R) → Agree (push_job job w).1 w
  unfolding push_job attempt
  push-Agree job w = elim (Bool-cases (is_online w)) [
    | inl e ↦
        rw (e, L.rpush_answers message_queue job w.redis)
          (record {
            online = refl;
            memory = refl;
            value = λ k. L.value_rpush k message_queue job w.redis;
          })
    | inr e ↦ rw e (record { online = refl; memory = refl; value = λ k. refl })
  ]

  requeue-Agree : (job : Job) (w : World R) → Agree (requeue_for_retry job w).1 w
  unfolding requeue_for_retry
  requeue-Agree job w = elim (Bool-cases (leb 1 job.retry_count)) [
    | inl e ↦ rw e (record { online = refl; memory = refl; value = λ k. refl })
    | inr e ↦ rw e (push-Agree (record job { retry_count = job.retry_count + 1 }) w)
  ]

  Agree-then : (u v w : World R) → Agree v u → Agree u w → Agree v w
  Agree-then u v w later first = record {
    online = later.online ∙ first.online;
    memory = later.memory ∙ first.memory;
    value = λ k. later.value k ∙ first.value k;
  }

  messages-state : (w : World R) → (get_active_messages w).1 ≡ w
  unfolding get_active_messages
  messages-state w = read_key-state L active_messages (λ m. m.messages) w

module _ {R : Redis} (L : Laws R) (E : Engine R) (node : Worker)
    (choice : String → List String → String) where
  -- One turn of the active consumer, on the queue `q`.
  turn_on :
      (q : List Job) (w : World R)
      → pending L w ≡ q
      → (get_active_consumer w).0 ≡ node.worker_id
      → (get_active_messages w).0 ≡ []
      → Agree L (consumer_turn E node choice w).1 w
        × ((n : ℕ)
            → turns_needed q ≤ suc n
            → turns_needed (pending L (consumer_turn E node choice w).1) ≤ n)
  unfolding consumer_turn answer turns_needed
  turn_on [] w h mine quiet =
      let is_mine : ((get_active_consumer w).0 == node.worker_id) ≡ true =
        (==_iff (get_active_consumer w).0 node.worker_id).1 mine in
      rw (get_active_consumer-keeps L w, is_mine, pending-dequeue_nil L w h)
        (record { online = refl; memory = refl; value = λ k. refl }, λ n lt. rw h (omega arith))
  turn_on (job ∷ jobs) w h mine quiet =
      let is_mine : ((get_active_consumer w).0 == node.worker_id) ≡ true =
        (==_iff (get_active_consumer w).0 node.worker_id).1 mine in
      let taken = (dequeue_message w).1 in
      let (found, rest) = pending-dequeue_cons L job jobs w h in
      let none_there : (get_active_messages taken).0 ≡ [] =
        messages-Agree L taken w (dequeue-Agree L w) ∙ quiet in
      let put_back = (requeue_once L job taken).1 in
      rw (get_active_consumer-keeps L w, is_mine, found, none_there, messages-state L taken)
        (
          Agree-then L taken (requeue_for_retry job taken).1 w (requeue-Agree L job taken)
              (dequeue-Agree L w),
          λ n lt.
              let spent : suc (turns_needed (jobs ++ retried job)) ≤ suc n =
                rw (turned job jobs) lt in
              rw (put_back, rest) (omega (arith, spent)),
        )

  -- While no message is active and the node is the active consumer, its turns, with nothing in
  -- between, use up the queue: after two turns for each job that was not put back before, and one for
  -- each that was, no job is left.
  pub consumer_turns-empty :
      (n : ℕ) (w : World R)
      → (get_active_consumer w).0 ≡ node.worker_id
      → (get_active_messages w).0 ≡ []
      → turns_needed (pending L w) ≤ n
      → pending L (consumer_turns E node choice n w).1 ≡ []
  unfolding consumer_turns
  consumer_turns-empty zero w mine quiet enough = no_turns (pending L w) enough
  consumer_turns-empty (suc n) w mine quiet enough =
      let w' = (consumer_turn E node choice w).1 in
      let (same, spent) = turn_on (pending L w) w refl mine quiet in
      consumer_turns-empty n w' (consumer-Agree L w' w same ∙ mine)
        (messages-Agree L w' w same ∙ quiet) (spent n enough)
