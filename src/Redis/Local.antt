-- ===== src/Redis/Local.antt =====
-- A Redis server held in memory, which answers every call.
use telegram_client.Prelude.{
  nat_eq, ℕ, ◌+◌, String, ◌≡◌, refl, Bool, true, false, ◌&&◌, Option, none, some, List, [], ◌∷◌,
  ◌++◌, if◌then◌else◌, ◌==◌, ==_refl, string_eq, ap, ◌≢◌, arith, ==_iff, ==-eq-false, pair_eq,
}
use telegram_client.Dict
use telegram_client.Dict.{Dict}
use telegram_client.Redis.{
  Key, active_targets, active_messages, active_consumer, listener_assignments, replier_assignments,
  group_pair_assignments, consecutive_thread_replies, Holds, ListKey, message_queue, worker_logs,
  Item, Reply, Redis, seen,
}
use telegram_client.Data.{int_eq, WorkerInfo, Job, LogEntry, role_eq}
use telegram_client.Redis.Laws.{Laws}

pub record Store : Type 0 where
  pub at : (k : Key) → Option (Holds k)
  pub jobs : List Job
  pub logs : List LogEntry
  pub workers : Dict String WorkerInfo

-- The table with a key set.
unfoldable pub set_at :
    (k : Key) → Option (Holds k) → ((k : Key) → Option (Holds k)) → (k : Key) → Option (Holds k)
set_at active_targets v at active_targets = v
set_at active_messages v at active_messages = v
set_at active_consumer v at active_consumer = v
set_at listener_assignments v at listener_assignments = v
set_at (replier_assignments w) v at (replier_assignments u) =
    if w == u then v else at (replier_assignments u)
set_at (group_pair_assignments w) v at (group_pair_assignments u) =
    if w == u then v else at (group_pair_assignments u)
set_at (seen c m) v at (seen c' m') = if c == c' && m == m' then v else at (seen c' m')
set_at (consecutive_thread_replies c s) v at (consecutive_thread_replies c' s') =
    if c == c' && s == s' then v else at (consecutive_thread_replies c' s')
set_at _ v at k = at k

unfoldable pub delete_at : List Key → ((k : Key) → Option (Holds k)) → (k : Key) → Option (Holds k)
unfolding set_at
delete_at [] at = at
delete_at (k ∷ ks) at = delete_at ks (set_at k none at)

abbrev or_zero : Option ℕ → ℕ
or_zero none = 0
or_zero (some n) = n

abbrev set_absent : (k : Key) → Holds k → Option (Holds k) → Store → Reply Bool × Store
set_absent k v none s = (some true, record s { at = set_at k (some v) s.at })
set_absent k v (some _) s = (some false, s)

abbrev push : (l : ListKey) → Item l → Store → Store
push message_queue x s = record s { jobs = s.jobs ++ x ∷ [] }
push worker_logs x s = record s { logs = s.logs ++ x ∷ [] }

abbrev contents : (l : ListKey) → Store → List (Item l)
contents message_queue s = s.jobs
contents worker_logs s = s.logs

abbrev without_first : (l : ListKey) → List (Item l) → Store → Reply (Option (Item l)) × Store
without_first l [] s = (some none, s)
without_first message_queue (x ∷ xs) s = (some (some x), record s { jobs = xs })
without_first worker_logs (x ∷ xs) s = (some (some x), record s { logs = xs })

unfoldable pub local_server : Redis
unfolding set_at delete_at
local_server = record {
  State = Store;
  ping = λ s. (some tt, s);
  get = λ k s. (some (s.at k), s);
  set = λ k v s. (some tt, record s { at = set_at k (some v) s.at });
  set_nx = λ k v ttl s. set_absent k v (s.at k) s;
  delete = λ ks s. (some tt, record s { at = delete_at ks s.at });
  incr = λ c t s.
      let n : ℕ = or_zero (s.at (consecutive_thread_replies c t)) + 1 in
      (some n, record s { at = set_at (consecutive_thread_replies c t) (some n) s.at });
  expire = λ k ttl s. (some tt, s);
  scan_replier_assignments = λ s. (some [], s);
  scan_group_pair_assignments = λ s. (some [], s);
  rpush = λ l x s. (some tt, push l x s);
  lpop = λ l s. without_first l (contents l s) s;
  hset = λ w i s. (some tt, record s { workers = Dict.put w i s.workers });
  hdel = λ w s. (some tt, record s { workers = Dict.pop w s.workers });
  hgetall = λ s. (some s.workers, s);
}

pub set_at_self :
    (k : Key) (v : Option (Holds k)) (at : (k : Key) → Option (Holds k)) → set_at k v at k ≡ v
unfolding set_at
set_at_self active_targets v at = refl
set_at_self active_messages v at = refl
set_at_self active_consumer v at = refl
set_at_self listener_assignments v at = refl
set_at_self (replier_assignments w) v at = rw (==_refl w)
set_at_self (group_pair_assignments w) v at = rw (==_refl w)
set_at_self (seen c m) v at = rw (==_refl c, ==_refl m)
set_at_self (consecutive_thread_replies c s) v at = rw (==_refl c, ==_refl s)

pub set_at_ne :
    (k j : Key) (v : Option (Holds k)) (at : (k : Key) → Option (Holds k))
    → k ≢ j
    → set_at k v at j ≡ at j
unfolding set_at
set_at_ne active_targets active_targets v at h = absurd (h refl)
set_at_ne active_messages active_messages v at h = absurd (h refl)
set_at_ne active_consumer active_consumer v at h = absurd (h refl)
set_at_ne listener_assignments listener_assignments v at h = absurd (h refl)
set_at_ne (replier_assignments w) (replier_assignments u) v at h =
    rw (==-eq-false w u (λ e. h (ap replier_assignments e)))
set_at_ne (group_pair_assignments w) (group_pair_assignments u) v at h =
    rw (==-eq-false w u (λ e. h (ap group_pair_assignments e)))
set_at_ne (seen c m) (seen c' m') v at h = ground (arith, ==_iff c c', ==_iff m m')
set_at_ne (consecutive_thread_replies c s) (consecutive_thread_replies c' s') v at h =
    ground (arith, ==_iff c c', ==_iff s s')
set_at_ne _ _ v at h = refl

pub lpop_nil :
    (l : ListKey) (s : Store)
    → contents l s ≡ []
    → without_first l (contents l s) s ≡ (some none, s)
lpop_nil l s h = rw h

pub lpop_cons :
    (l : ListKey) (x : Item l) (xs : List (Item l)) (s : Store)
    → contents l s ≡ x ∷ xs
    → ((without_first l (contents l s) s).0 ≡ some (some x))
      × (contents l (without_first l (contents l s) s).1 ≡ xs)
lpop_cons message_queue x xs s h = rw h (refl, refl)
lpop_cons worker_logs x xs s h = rw h (refl, refl)

pub push_answers :
    (l : ListKey) (x : Item l) (s : Store) → contents l (push l x s) ≡ contents l s ++ x ∷ []
push_answers message_queue x s = refl
push_answers worker_logs x s = refl

pub set_nx_absent :
    (k : Key) (v : Holds k) (s : Store)
    → s.at k ≡ none
    → ((set_absent k v (s.at k) s).0 ≡ some true) × ((set_absent k v (s.at k) s).1.at k ≡ some v)
set_nx_absent k v s h = rw h (refl, set_at_self k (some v) s.at)

pub set_nx_present :
    (k : Key) (v u : Holds k) (s : Store)
    → s.at k ≡ some u
    → set_absent k v (s.at k) s ≡ (some false, s)
set_nx_present k v u s h = rw h

pub set_absent_ne :
    (k j : Key) (v : Holds k) (o : Option (Holds k)) (s : Store)
    → k ≢ j
    → (set_absent k v o s).1.at j ≡ s.at j
set_absent_ne k j v none s h = set_at_ne k j (some v) s.at h
set_absent_ne k j v (some u) s h = refl

pub without_first_at :
    (l : ListKey) (xs : List (Item l)) (s : Store) → (without_first l xs s).1.at ≡ s.at
without_first_at message_queue [] s = refl
without_first_at worker_logs [] s = refl
without_first_at message_queue (x ∷ xs) s = refl
without_first_at worker_logs (x ∷ xs) s = refl

pub push_at : (l : ListKey) (x : Item l) (s : Store) → (push l x s).at ≡ s.at
push_at message_queue x s = refl
push_at worker_logs x s = refl

pub contents-set_absent :
    (l : ListKey) (k : Key) (v : Holds k) (o : Option (Holds k)) (s : Store)
    → contents l (set_absent k v o s).1 ≡ contents l s
contents-set_absent message_queue k v none s = refl
contents-set_absent message_queue k v (some u) s = refl
contents-set_absent worker_logs k v none s = refl
contents-set_absent worker_logs k v (some u) s = refl

pub push_ne :
    (l j : ListKey) (x : Item l) (s : Store) → l ≢ j → contents j (push l x s) ≡ contents j s
push_ne message_queue message_queue x s h = absurd (h refl)
push_ne message_queue worker_logs x s h = refl
push_ne worker_logs message_queue x s h = refl
push_ne worker_logs worker_logs x s h = absurd (h refl)

-- The local server meets every assumption.
unfoldable pub local_server-Laws : Laws local_server
unfolding local_server
local_server-Laws = record {
  value = λ k s. s.at k;
  list = contents;
  get_answers = λ k s. refl;
  set_answers = λ k v s. refl;
  value_set = λ k v s. set_at_self k (some v) s.at;
  value_set_ne = λ k j v s h. set_at_ne k j (some v) s.at h;
  set_nx_absent = λ k v ttl s. set_nx_absent k v s;
  set_nx_present = λ k v u ttl s. set_nx_present k v u s;
  value_set_nx_ne = λ k j v ttl s h. set_absent_ne k j v (s.at k) s h;
  value_lpop = λ k l s. ap (λ at. at k) (without_first_at l (contents l s) s);
  list_set_nx = λ l k v ttl s. contents-set_absent l k v (s.at k) s;
  value_rpush = λ k l x s. ap (λ at. at k) (push_at l x s);
  rpush_answers = λ l x s. refl;
  list_rpush = push_answers;
  list_rpush_ne = push_ne;
  lpop_nil = lpop_nil;
  lpop_cons = lpop_cons;
  registry = λ s. s.workers;
  hgetall_answers = λ s. refl;
  hset_answers = λ id i s. refl;
  registry_hset = λ id i s. refl;
  registry_set = λ k v s. refl;
}
