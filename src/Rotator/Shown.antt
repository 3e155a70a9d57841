-- ===== src/Rotator/Shown.antt =====
-- What is read as the targets after app/rotator.py has synchronised: the assignments that
-- follow the write leave it alone.
pub mod Assigned
pub mod Synced
use telegram_client.Prelude.{
  List, String, some, ◌≡◌, refl, ◌≢◌, ap, ◌∙◌, inl, inr, arith, Bool-cases, Bool, true, false,
  if◌then◌else◌,
}
use telegram_client.Redis.{active_targets, Key, Holds, Redis}
use telegram_client.World.{World, Action, ◌>>=◌, pure, gets, MemoryState, Database}
use telegram_client.Database.{set_db}
use telegram_client.Queue.Connection.{attempt, is_online}
use telegram_client.Queue.State.{read_key, write_key, get_active_targets}
use telegram_client.Queue.Workers.{get_registered_workers}
use telegram_client.Queue.Reads.{read_key-write_key_ne}
use telegram_client.Redis.Laws.{Laws}

module _ {R : Redis} (L : Laws R) where
  -- The action changes neither the targets that are read, nor the table of targets, nor whether
  -- the process is connected to Redis, nor what the server holds as the targets.
  abbrev pub Keeps : {A : Type 0} → Action R A → Type 0
  Keeps m =
      (w : World R)
      → ((get_active_targets (m w).1).0 ≡ (get_active_targets w).0)
        × ((m w).1.db.targets ≡ w.db.targets)
        × (is_online (m w).1 ≡ is_online w)
        × (L.value active_targets (m w).1.redis ≡ L.value active_targets w.redis)

  pub Keeps-then :
      {A B : Type 0} (m : Action R A) (f : A → Action R B)
      → Keeps m
      → ((a : A) → Keeps (f a))
      → Keeps (m >>= f)
  Keeps-then m f km kf w =
      let (a, w') = m w in
      let (read, table, online, held) = km w in
      let (read', table', online', held') = kf a w' in
      (read' ∙ read, table' ∙ table, online' ∙ online, held' ∙ held)

  pub Keeps-pure : {A : Type 0} (a : A) → Keeps (pure a)
  Keeps-pure a w = (refl, refl, refl, refl)

  pub Keeps-gets : {A : Type 0} (f : World R → A) → Keeps (gets f)
  Keeps-gets f w = (refl, refl, refl, refl)

  pub write_key-targets :
      (k : Key) (v : Holds k) (f : MemoryState → MemoryState) (w : World R)
      → (write_key k v f w).1.db.targets ≡ w.db.targets
  unfolding write_key attempt
  write_key-targets k v f w = elim (Bool-cases (is_online w)) [
    | inl e ↦ ground arith
    | inr e ↦ ground arith
  ]

  write_key-online :
      (k : Key) (v : Holds k) (f : MemoryState → MemoryState) (w : World R)
      → is_online (write_key k v f w).1 ≡ is_online w
  unfolding write_key attempt
  write_key-online k v f w = elim (Bool-cases (is_online w)) [
    | inl e ↦ ground arith
    | inr e ↦ ground arith
  ]

  write_key-held :
      (k : Key) (v : Holds k) (f : MemoryState → MemoryState) (w : World R)
      → k ≢ active_targets
      → L.value active_targets (write_key k v f w).1.redis ≡ L.value active_targets w.redis
  unfolding write_key attempt
  write_key-held k v f w ne = elim (Bool-cases (is_online w)) [
    | inl e ↦ ground (arith, L.value_set_ne k active_targets v w.redis ne)
    | inr e ↦ ground arith
  ]

  pub Keeps-write :
      (k : Key) (v : Holds k) (f : MemoryState → MemoryState)
      → k ≢ active_targets
      → ((m : MemoryState) → (f m).targets ≡ m.targets)
      → Keeps (write_key k v f)
  unfolding get_active_targets
  Keeps-write k v f ne kept w = (
    read_key-write_key_ne L k active_targets v f (λ m. m.targets) ne kept w,
    write_key-targets k v f w,
    write_key-online k v f w,
    write_key-held k v f w ne,
  )

  pub Keeps-db :
      (f : Database → Database) → ((d : Database) → (f d).targets ≡ d.targets) → Keeps (set_db f)
  unfolding get_active_targets read_key attempt
  Keeps-db f kept w = elim (Bool-cases (is_online w)) [
    | inl e ↦ (ground arith, kept w.db, refl, refl)
    | inr e ↦ (ground arith, kept w.db, refl, refl)
  ]

  -- A read leaves the whole state.
  pub read_key-state :
      (k : Key) (local : MemoryState → Holds k) (w : World R) → (read_key k local w).1 ≡ w
  unfolding read_key attempt
  read_key-state k local w = elim (Bool-cases (is_online w)) [
    | inl e ↦ ground (arith, L.get_answers k w.redis)
    | inr e ↦ ground arith
  ]

  pub workers-state : (w : World R) → (get_registered_workers w).1 ≡ w
  unfolding get_registered_workers attempt
  workers-state w = elim (Bool-cases (is_online w)) [
    | inl e ↦ ground (arith, L.hgetall_answers w.redis)
    | inr e ↦ ground arith
  ]

  pub of_state : {A : Type 0} (m : Action R A) → ((w : World R) → (m w).1 ≡ w) → Keeps m
  of_state m same w = (
    ap (λ u. (get_active_targets u).0) (same w),
    ap (λ u. u.db.targets) (same w),
    ap (λ u. is_online u) (same w),
    ap (λ u. L.value active_targets u.redis) (same w),
  )

  pub Keeps-if :
      {A : Type 0} (b : Bool) (m n : Action R A) → Keeps m → Keeps n → Keeps (if b then m else n)
  Keeps-if true m n km kn = km
  Keeps-if false m n km kn = kn

  -- A test of the state itself.
  pub Keeps-guard :
      {A : Type 0} (b : Bool) (m n : Action R A) (w : World R)
      → Keeps m
      → Keeps n
      → ((get_active_targets (if b then m w else n w).1).0 ≡ (get_active_targets w).0)
        × ((if b then m w else n w).1.db.targets ≡ w.db.targets)
        × (is_online (if b then m w else n w).1 ≡ is_online w)
        × (L.value active_targets (if b then m w else n w).1.redis ≡ L.value active_targets w.redis)
  Keeps-guard true m n w km kn = km w
  Keeps-guard false m n w km kn = kn w

  -- The master's write, when it is connected.
  pub held_after_write :
      (v : List String) (f : MemoryState → MemoryState) (w : World R)
      → is_online w ≡ true
      → L.value active_targets (write_key active_targets v f w).1.redis ≡ some v
  unfolding write_key attempt
  held_after_write v f w e = rw e (ground (arith, L.value_set active_targets v w.redis))

  -- A worker is a process of its own; when it is connected it reads what the server holds.
  pub read_by_worker :
      (v : List String) (worker : World R)
      → is_online worker ≡ true
      → L.value active_targets worker.redis ≡ some v
      → (get_active_targets worker).0 ≡ v
  unfolding get_active_targets read_key attempt
  read_by_worker v worker e held = rw (e, L.get_answers active_targets worker.redis, held) refl
