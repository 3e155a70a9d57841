-- ===== src/Worker/Traffic.antt =====
-- The messages over time: the listeners' handlers, the consumers' pops and the ends of the replies
-- under way. `work` is what one process does, with Redis or in its own memory. `Traffic` is that of
-- any number of worker nodes, each a process with a `queue_manager` of its own: they share the Redis
-- server alone, and all are connected to it.
pub mod Marks
pub mod Again
pub mod Single
use telegram_client.Prelude.{
  true, ℕ, ◌≡◌, ◌≤◌, suc, ◌+◌, Bool, ◌&&◌, some, List, [], ◌∷◌, ◌++◌, arith, nat_beq, if◌then◌else◌,
  ◌==◌, string_eq, nat_eq, pair_eq,
}
use telegram_client.World.{World, Action, ◌>>=◌, pure}
use telegram_client.Redis.{Redis, seen, message_queue}
use telegram_client.Queue.Connection.{is_online}
use telegram_client.Data.{ℤ, Job, int_eq, role_eq}
use telegram_client.Queue.Jobs.{is_given, dequeue_message, requeue_for_retry}
use telegram_client.Redis.Laws.{Laws}
use telegram_client.Worker.Messages.{Event, new_message_handler}

-- What a process does on its queue: a listener's handler, a pop, a job that is put back.
pub data Work : Type 0 where
  handles : ℕ → List ℤ → Event → Work
  pops : Work
  puts_back : Job → Work

module _ {R : Redis} where
  abbrev pub work : Work → Action R (Unit {0})
  work (handles handler_start_time self_ids e) = new_message_handler handler_start_time self_ids e
  work pops = dequeue_message >>= λ _. pure tt
  work (puts_back job) = requeue_for_retry job >>= λ _. pure tt

  unfoldable pub work_through : List Work → Action R (Unit {0})
  work_through [] = pure tt
  work_through (x ∷ xs) = work x >>= λ _. work_through xs

-- `redis` is the server's state, `in_flight` are the jobs that the nodes' tasks hold.
pub record Traffic (R : Redis) : Type 0 where
  pub redis : R.State
  pub in_flight : List Job

-- A node's own state, when it is connected to the server.
pub record Connected {R : Redis} (t : Traffic R) (w : World R) : Type 0 where
  pub same_redis : w.redis ≡ t.redis
  pub online : is_online w ≡ true

-- One step of any node, whose own state is `w`. A step elsewhere is whatever leaves the queue and
-- the marks on the server alone.
pub data Step {R : Redis} (L : Laws R) (t : Traffic R) : Traffic R → Type 0 where
  hears :
      (w : World R)
      → Connected t w
      → (handler_start_time : ℕ) (self_ids : List ℤ) (e : Event)
      → Step L t
          (record t { redis = (new_message_handler handler_start_time self_ids e w).1.redis })
  takes :
      (w : World R)
      → Connected t w
      → (job : Job) → (dequeue_message w).0 ≡ some job
      → Step L t (record { redis = (dequeue_message w).1.redis; in_flight = job ∷ t.in_flight })
  retries :
      (w : World R)
      → Connected t w
      → (before after : List Job) (job : Job) → t.in_flight ≡ before ++ job ∷ after
      → Step L t (record { redis = (requeue_for_retry job w).1.redis; in_flight = before ++ after })
  ends :
      (before after : List Job) (job : Job)
      → t.in_flight ≡ before ++ job ∷ after
      → Step L t (record t { in_flight = before ++ after })
  elsewhere :
      (s : R.State)
      → L.list message_queue s ≡ L.list message_queue t.redis
      → ((chat_id : ℤ) (msg_id : ℕ)
          → L.value (seen chat_id msg_id) s ≡ L.value (seen chat_id msg_id) t.redis)
      → Step L t (record t { redis = s })

pub data Reach {R : Redis} (L : Laws R) (t : Traffic R) : Traffic R → Type 0 where
  here : Reach L t t
  next : (u : Traffic R) {v : Traffic R} → Reach L t u → Step L u v → Reach L t v

abbrev pub is_for : ℤ → ℕ → Job → Bool
is_for chat_id msg_id job = job.chat_id == chat_id && nat_beq job.msg_id msg_id

-- How many of the jobs are for a message.
unfoldable pub copies : ℤ → ℕ → List Job → ℕ
copies chat_id msg_id [] = 0
copies chat_id msg_id (job ∷ jobs) =
    let rest = copies chat_id msg_id jobs in if is_for chat_id msg_id job then suc rest else rest

pub copies-append :
    (c : ℤ) (m : ℕ) (xs ys : List Job) → copies c m (xs ++ ys) ≡ copies c m xs + copies c m ys
unfolding copies
copies-append c m [] ys = omega arith
copies-append c m (x ∷ xs) ys = ground (arith, copies-append c m xs ys)

-- The job in the middle counts as one at the front.
pub copies_middle :
    (c : ℤ) (m : ℕ) (xs ys : List Job) (job : Job)
    → copies c m (xs ++ job ∷ ys) ≡ copies c m (xs ++ ys) + copies c m (job ∷ [])
unfolding copies
copies_middle c m xs ys job =
    ground (arith, copies-append c m xs (job ∷ ys), copies-append c m xs ys)

unfoldable pub limit : Bool → ℕ
limit seen_before = if seen_before then 1 else 0

module _ {R : Redis} (L : Laws R) where
  -- No message has two jobs, and one that is not marked has none.
  abbrev pub IsSingle : Traffic R → Type 0
  IsSingle t =
      (c : ℤ) (m : ℕ)
      → copies c m (L.list message_queue t.redis) + copies c m t.in_flight
        ≤ limit (is_given (L.value (seen c m) t.redis))
