-- ===== src/Worker/Traffic/Single.antt =====
-- No message is answered twice at a time, whatever the order of the steps.
use telegram_client.Prelude.{
  ℕ, ◌≡◌, refl, ◌≤◌, ◌∙◌, inl, inr, Bool, true, false, ◌||◌, List, arith, Bool-cases, ==_iff,
  string_eq, nat_eq, pair_eq, ◌+◌, [], ◌∷◌, append-nil, none, some, ◌++◌,
}
use telegram_client.World.{World}
use telegram_client.Worker.Traffic.{
  here, next, Connected, hears, takes, retries, ends, elsewhere, copies_middle, Step, Reach,
}
use telegram_client.Redis.{Redis, seen, message_queue}
use telegram_client.Queue.Delivery.{is_seen, pending, pending-dequeue_nil, pending-dequeue_cons}
use telegram_client.Data.{ℤ, int_eq, role_eq, Job}
use telegram_client.Queue.Connection.{is_online}
use telegram_client.Queue.Jobs.{
  is_given, push_job, is_duplicate_and_mark, enqueue_message, dequeue_message, new_job,
  requeue_for_retry,
}
use telegram_client.Redis.Laws.{Laws}
use telegram_client.Worker.Messages.{Event, is_skipped, new_message_handler}
use telegram_client.Worker.Traffic.Marks.{seen-dequeue, seen-handler, requeued}
use telegram_client.Worker.Traffic.{Traffic, IsSingle, limit, is_for, copies-append, copies}
use telegram_client.Worker.Messages.Once.{
  job_of, pending-new_message_handler, seen-new_message_handler,
}

-- A node's state with the jobs under way.
record View (R : Redis) : Type 0 where
  world : World R
  in_flight : List Job

module _ {R : Redis} (L : Laws R) where
  abbrev IsFine : View R → Type 0
  IsFine t =
      (c : ℤ) (m : ℕ)
      → copies c m (pending L t.world) + copies c m t.in_flight ≤ limit (is_seen L c m t.world)

  limit_mono : (a b : Bool) → (a ≡ true → b ≡ true) → limit a ≤ limit b
  unfolding limit
  limit_mono true b h = rw (h refl) (omega arith)
  limit_mono false b h = omega arith

  -- A new job of a message that was not seen.
  new_job_counts :
      (c : ℤ) (m : ℕ) (e : Event) (before : Bool) (after : Bool) (n k : ℕ)
      → n + k ≤ limit before
      → limit before ≤ limit after
      → (is_for c m (job_of e) ≡ true → (before ≡ false) × (after ≡ true))
      → n + copies c m (job_of e ∷ []) + k ≤ limit after
  unfolding copies limit
  new_job_counts c m e before after n k single mono h = elim (Bool-cases (is_for c m (job_of e))) [
    | inl f ↦
        let (unseen, marked) = h f in
        let none_yet : n + k ≤ 0 = rw (unseen) at single in rw (f, marked) (omega arith)
    | inr f ↦ rw f (ground arith)
  ]

  key_of_job :
      (c : ℤ) (m : ℕ) (e : Event) → is_for c m (job_of e) ≡ true → (e.chat_id ≡ c) × (e.id ≡ m)
  unfolding new_job
  key_of_job c m e h = ground (arith, ==_iff e.chat_id c)

  hears-IsFine :
      (start : ℕ) (ids : List ℤ) (e : Event) (t : View R)
      → IsFine t
      → IsFine (record t { world = (new_message_handler start ids e t.world).1 })
  hears-IsFine start ids e t single c m =
      let w = t.world in
      let w' = (new_message_handler start ids e w).1 in
      let grows = pending-new_message_handler L start ids e w in
      let mono =
        limit_mono (is_seen L c m w) (is_seen L c m w') (seen-handler L c m start ids e w) in
      elim (Bool-cases (is_skipped start ids e || is_seen L e.chat_id e.id w)) [
        | inl s ↦ rw (grows, s, append-nil (pending L w)) (omega (arith, single c m, mono))
        | inr s ↦
            let new : is_skipped start ids e ≡ false = ground (arith, s) in
            let unseen : is_seen L e.chat_id e.id w ≡ false = ground (arith, s) in
            let marked = seen-new_message_handler L start ids e w new in
            rw (grows, s, copies-append c m (pending L w) (job_of e ∷ []))
              (new_job_counts c m e (is_seen L c m w) (is_seen L c m w') (copies c m (pending L w))
                (copies c m t.in_flight) (single c m) mono
                (λ f.
                  let (chat, id) = key_of_job c m e f in
                  (rw (← chat, ← id) unseen, rw (← chat, ← id) marked)))
      ]

  takes-IsFine :
      (job : Job) (t : View R) (queue : List Job)
      → pending L t.world ≡ queue
      → (dequeue_message t.world).0 ≡ some job
      → IsFine t
      → IsFine (record { world = (dequeue_message t.world).1; in_flight = job ∷ t.in_flight })
  takes-IsFine job t [] empty got single c m =
      let nothing = pending-dequeue_nil L t.world empty in
      let clash : none ≡ some job = rw (nothing) at got in cc
  takes-IsFine job t (first ∷ queue) q got single c m =
      let (oldest, left) = pending-dequeue_cons L first queue t.world q in
      let same : first ≡ job = ground (arith, oldest, got) in
      let counted : copies c m (job ∷ queue) + copies c m t.in_flight
          ≤ limit (is_seen L c m t.world) =
        rw (← same, ← q) (single c m) in
      rw (left, seen-dequeue L c m t.world)
        (omega (
          arith,
          counted,
          copies-append c m (job ∷ []) queue,
          copies-append c m (job ∷ []) t.in_flight,
        ))

  retries-IsFine :
      (before after : List Job) (job : Job) (t : View R)
      → t.in_flight ≡ before ++ job ∷ after
      → IsFine t
      → IsFine (record { world = (requeue_for_retry job t.world).1; in_flight = before ++ after })
  retries-IsFine before after job t h single c m =
      let (count, marks) = requeued L c m job t.world in
      let counted : copies c m (pending L t.world) + copies c m (before ++ job ∷ after)
          ≤ limit (is_seen L c m t.world) =
        rw (← h) (single c m) in
      rw marks (omega (arith, counted, count, copies_middle c m before after job))

  -- The view of a connected node is the server's.
  of_server :
      (t : Traffic R) (w : World R)
      → Connected t w
      → IsSingle L t
      → IsFine (record { world = w; in_flight = t.in_flight })
  unfolding pending is_seen
  of_server t w at single c m = rw (at.online, at.same_redis) (single c m)

  to_server :
      (v : View R)
      → is_online v.world ≡ true
      → IsFine v
      → IsSingle L (record { redis = v.world.redis; in_flight = v.in_flight })
  unfolding pending is_seen
  to_server v e fine c m = rw (e) at (fine c m)

  online-mark :
      (c : ℤ) (m : ℕ) (w : World R) → is_online (is_duplicate_and_mark c m w).1 ≡ is_online w
  unfolding is_duplicate_and_mark
  online-mark c m w = ground arith

  online-push_job : (job : Job) (w : World R) → is_online (push_job job w).1 ≡ is_online w
  unfolding push_job
  online-push_job job w = ground arith

  online-dequeue : (w : World R) → is_online (dequeue_message w).1 ≡ is_online w
  unfolding dequeue_message
  online-dequeue w = ground arith

  online-requeue : (job : Job) (w : World R) → is_online (requeue_for_retry job w).1 ≡ is_online w
  unfolding requeue_for_retry
  online-requeue job w = ground arith

  online-handler :
      (start : ℕ) (ids : List ℤ) (e : Event) (w : World R)
      → is_online (new_message_handler start ids e w).1 ≡ is_online w
  unfolding new_message_handler enqueue_message
  online-handler start ids e w =
      let w' = (is_duplicate_and_mark e.chat_id e.id w).1 in
      elim (Bool-cases (is_skipped start ids e)) [
        | inl s ↦ rw s refl
        | inr s ↦ elim (Bool-cases (is_duplicate_and_mark e.chat_id e.id w).0) [
          | inl d ↦ rw (s, d) (online-mark e.chat_id e.id w)
          | inr d ↦ rw (s, d) (online-push_job (job_of e) w' ∙ online-mark e.chat_id e.id w)
        ]
      ]

  Step-IsSingle : (t u : Traffic R) → IsSingle L t → Step L t u → IsSingle L u
  Step-IsSingle t u single (hears w at start ids e) =
      to_server (record { world = (new_message_handler start ids e w).1; in_flight = t.in_flight })
        (online-handler start ids e w ∙ at.online)
        (hears-IsFine start ids e (record { world = w; in_flight = t.in_flight })
          (of_server t w at single))
  Step-IsSingle t u single (takes w at job got) =
      to_server (record { world = (dequeue_message w).1; in_flight = job ∷ t.in_flight })
        (online-dequeue w ∙ at.online)
        (takes-IsFine job (record { world = w; in_flight = t.in_flight }) (pending L w) refl got
          (of_server t w at single))
  Step-IsSingle t u single (retries w at before after job h) =
      to_server (record { world = (requeue_for_retry job w).1; in_flight = before ++ after })
        (online-requeue job w ∙ at.online)
        (retries-IsFine before after job (record { world = w; in_flight = t.in_flight }) h
          (of_server t w at single))
  Step-IsSingle t u single (ends before after job h) = λ c m.
      let counted : copies c m (L.list message_queue t.redis) + copies c m (before ++ job ∷ after)
          ≤ limit (is_given (L.value (seen c m) t.redis)) =
        rw (← h) (single c m) in
      omega (arith, counted, copies_middle c m before after job)
  Step-IsSingle t u single (elsewhere s q v) = λ c m. rw (q, v c m) (single c m)

  Reach-IsSingle : (t u : Traffic R) → IsSingle L t → Reach L t u → IsSingle L u
  Reach-IsSingle t u single here = single
  Reach-IsSingle t u single (next v reached step) =
      Step-IsSingle v u (Reach-IsSingle t v single reached) step

  -- While Redis answers every command and every node is connected to it, from an empty queue and no
  -- reply under way: whatever messages the listeners of all nodes hear, and in whatever order the
  -- nodes take, put back and finish jobs, at no time are there two jobs of one message, waiting or
  -- being answered, and there is none of a message that is not marked.
  pub single_job :
      (t u : Traffic R) (c : ℤ) (m : ℕ)
      → L.list message_queue t.redis ≡ []
      → t.in_flight ≡ []
      → Reach L t u
      → copies c m (L.list message_queue u.redis) + copies c m u.in_flight
        ≤ limit (is_given (L.value (seen c m) u.redis))
  single_job t u c m empty idle reached =
      Reach-IsSingle t u (λ c' m'. unfold copies limit in rw (empty, idle) (omega arith)) reached c
        m
