-- ===== src/Rotator/Turns.antt =====
-- Taking turns: what `rotate_consumer` of app/rotator.py makes of the list of alive workers.
use telegram_client.Prelude.{
  ℕ, zero, suc, ◌+◌, ◌%◌, ◌<◌, String, ◌≡◌, refl, inl, inr, true, Option, none, some, List, [], ◌∷◌,
  arith, Bool-cases, length, get_elem?, get_elem?-lt, ◌==◌, string_eq, ==_iff, contains, nodup,
  contains_of_get_elem?, ap, Option-cases, ◌⊎◌, nat_eq, pair_eq, ◌-◌, leb, if◌then◌else◌,
  get_elem?_inj,
}
use native.Mathlib.Nat.{mod-lt, mod-eq_of_lt, mod-add-mod, mod_self, add-mod_right}
use telegram_client.Rotator.{index_of, next_index, next_consumer}
use telegram_client.Data.{int_eq, role_eq}

-- A scan from the left: the one behind the current consumer, or the first one, where the current
-- one is the last or is not in the list.
abbrev pub head_or : String → List String → String
head_or first [] = first
head_or first (y ∷ ys) = y

unfoldable pub follower : String → String → List String → String
follower first current [] = first
follower first current (x ∷ xs) =
    let later = follower first current xs in if x == current then head_or first xs else later

-- The consumer after k rotations among the same alive workers; `none` for an IndexError.
unfoldable pub turns : ℕ → String → List String → Option String
unfolding next_consumer
turns zero current alive = some current
turns (suc k) current alive = elim (turns k current alive) [
  | none ↦ none
  | some s ↦ next_consumer s alive
]

index_of-contains :
    (s : String) (xs : List String)
    → contains s xs ≡ true
    → (i : ℕ) × (index_of s xs ≡ some i) × (i < length xs) × (get_elem? xs i ≡ some s)
unfolding index_of contains
index_of-contains s [] h = absurd (ground arith)
index_of-contains s (x ∷ xs) h = elim (Bool-cases (x == s)) [
  | inl e ↦ (0, rw e refl, omega arith, ap some ((==_iff x s).0 e))
  | inr e ↦
      let (i, at, lt, got) = index_of-contains s xs (ground arith) in
      (suc i, rw (e, at) refl, omega arith, got)
]

pub next_index-lt : (o : Option ℕ) (n : ℕ) → 0 < n → next_index o n < n
next_index-lt none n h = h
next_index-lt (some i) n h = mod-lt (i + 1) h

-- Whoever the consumer was, with at least one alive worker the next one is an alive worker.
pub next_consumer-contains :
    (current : String) (alive : List String)
    → 0 < length alive
    → (next : String) × (next_consumer current alive ≡ some next) × (contains next alive ≡ true)
unfolding next_consumer
next_consumer-contains current alive h =
    let i : ℕ = next_index (index_of current alive) (length alive) in
    let (next, at) =
      get_elem?-lt alive i (next_index-lt (index_of current alive) (length alive) h) in
    (next, at, contains_of_get_elem? alive i next at)

-- A consumer that is alive is followed by the next one of the list, cyclically.
next_consumer-get_elem? :
    (current : String) (alive : List String) (i : ℕ)
    → nodup alive ≡ true
    → get_elem? alive i ≡ some current
    → next_consumer current alive ≡ get_elem? alive ((i + 1) % length alive)
unfolding next_consumer
next_consumer-get_elem? current alive i distinct at =
    let (j, found, lt, got) =
      index_of-contains current alive (contains_of_get_elem? alive i current at) in
    rw (found, get_elem?_inj alive j i current distinct got at) refl

-- Among n alive workers with no name twice, k rotations lead from position i to position
-- (i + k) % n.
pub turns-get_elem? :
    (k : ℕ) (current : String) (alive : List String) (i : ℕ)
    → nodup alive ≡ true
    → i < length alive
    → get_elem? alive i ≡ some current
    → turns k current alive ≡ get_elem? alive ((i + k) % length alive)
unfolding turns
turns-get_elem? zero current alive i distinct lt at =
    let here : (i + 0) % length alive ≡ i = ground (arith, mod-eq_of_lt lt) in rw (here, at) refl
turns-get_elem? (suc k) current alive i distinct lt at =
    let n = length alive in
    let j : ℕ = (i + k) % n in
    let (s, here) = get_elem?-lt alive j (mod-lt (i + k) (omega arith)) in
    let step = next_consumer-get_elem? s alive j distinct here in
    let shift : i + k + 1 ≡ i + suc k = omega arith in
    rw
      (turns-get_elem? k current alive i distinct lt at, here, step, mod-add-mod (i + k) n 1, shift)
      refl

rotation_lands : (i j n : ℕ) → i < n → j < n → (i + (if leb i j then j - i else j + n - i)) % n ≡ j
rotation_lands i j n h g = elim (Bool-cases (leb i j)) [
  | inl e ↦ let sum : i + (j - i) ≡ j = ground arith in rw (e, sum) (mod-eq_of_lt g)
  | inr e ↦
      let sum : i + (j + n - i) ≡ j + n = ground arith in
      rw (e, sum, add-mod_right j n) (mod-eq_of_lt g)
]

-- Every alive worker gets its turn: from any alive consumer, fewer rotations than there are alive
-- workers lead to any other, when no name occurs twice.
pub turns-reach :
    (current next : String) (alive : List String)
    → nodup alive ≡ true
    → contains current alive ≡ true
    → contains next alive ≡ true
    → (k : ℕ) × (k < length alive) × (turns k current alive ≡ some next)
turns-reach current next alive distinct from to =
    let (i, found, lt, at) = index_of-contains current alive from in
    let (j, found', lt', at') = index_of-contains next alive to in
    let k : ℕ = if leb i j then j - i else j + length alive - i in
    let less : k < length alive = ground arith in
    let lands : (i + k) % length alive ≡ j = rotation_lands i j (length alive) lt lt' in
    (k, less, rw (turns-get_elem? k current alive i distinct lt at, lands, at') refl)

follower-none :
    (first current : String) (xs : List String)
    → index_of current xs ≡ none
    → follower first current xs ≡ first
unfolding follower index_of
follower-none first current [] h = refl
follower-none first current (x ∷ xs) h = elim (Bool-cases (x == current)) [
  | inl e ↦ let clash : some 0 ≡ none = rw (e) at h in cc
  | inr e ↦ elim (Option-cases (index_of current xs)) [
    | inl n ↦ rw e (follower-none first current xs n)
    | inr (i, n) ↦ let clash : some (suc i) ≡ none = rw (e, n) at h in cc
  ]
]

-- The place of the follower: the next index, or the end of the list.
abbrev FollowsAt : String → String → List String → ℕ → Type 0
FollowsAt first next xs i =
    ((suc i < length xs) × (get_elem? xs (suc i) ≡ some next))
    ⊎ ((suc i ≡ length xs) × (next ≡ first))

behind_head : (first x : String) (xs : List String) → FollowsAt first (head_or first xs) (x ∷ xs) 0
behind_head first x [] = inr (refl, refl)
behind_head first x (y ∷ ys) = inl (omega arith, refl)

one_later :
    (first next x : String) (xs : List String) (i : ℕ)
    → FollowsAt first next xs i
    → FollowsAt first next (x ∷ xs) (suc i)
one_later first next x xs i (inl (lt, at)) = inl (omega arith, at)
one_later first next x xs i (inr (end, same)) = inr (omega arith, same)

follower-some :
    (first current : String) (xs : List String) (i : ℕ)
    → index_of current xs ≡ some i
    → FollowsAt first (follower first current xs) xs i
unfolding follower index_of
follower-some first current [] i h = absurd (ground arith)
follower-some first current (x ∷ xs) i h = elim (Bool-cases (x == current)) [
  | inl e ↦
      let here : some 0 ≡ some i = rw (e) at h in
      let zeroth : i ≡ 0 = ground (arith, here) in rw (e, zeroth) (behind_head first x xs)
  | inr e ↦ elim (Option-cases (index_of current xs)) [
    | inl n ↦ let clash : none ≡ some i = rw (e, n) at h in absurd (ground (arith, clash))
    | inr (j, n) ↦
        let there : some (suc j) ≡ some i = rw (e, n) at h in
        let later : i ≡ suc j = ground (arith, there) in
        rw (e, later)
          (one_later first (follower first current xs) x xs j (follower-some first current xs j n))
  ]
]

at_next :
    (first next : String) (rest : List String) (i : ℕ)
    → FollowsAt first next (first ∷ rest) i
    → get_elem? (first ∷ rest) ((i + 1) % length (first ∷ rest)) ≡ some next
at_next first next rest i (inl (lt, at)) =
    let small : i + 1 < length (first ∷ rest) = omega arith in
    let suc_eq : i + 1 ≡ suc i = omega arith in rw (mod-eq_of_lt small, suc_eq) at
at_next first next rest i (inr (end, same)) =
    let whole : i + 1 ≡ length (first ∷ rest) = omega arith in
    rw (whole, mod_self (length (first ∷ rest)), same) refl

-- The index that wraps around gives the one behind the current consumer in the list, and the first
-- one where the current consumer is the last, or is not in the list.
pub next_consumer-follower :
    (current x : String) (xs : List String)
    → next_consumer current (x ∷ xs) ≡ some (follower x current (x ∷ xs))
unfolding next_consumer
next_consumer-follower current x xs = elim (Option-cases (index_of current (x ∷ xs))) [
  | inl n ↦ rw (n, follower-none x current (x ∷ xs) n) refl
  | inr (i, n) ↦
      rw n (at_next x (follower x current (x ∷ xs)) xs i (follower-some x current (x ∷ xs) i n))
]
