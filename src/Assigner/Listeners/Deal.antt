-- ===== src/Assigner/Listeners/Deal.antt =====
-- The round-robin deal of `auto_assign_listeners` in app/listener_assigner.py, against the share
-- `targets[i::k]` of the listener at position `i`.
use native.Mathlib.Nat.{mod-lt, zero-mod}
use telegram_client.Prelude.{
  string_eq, nat_beq_iff, ℕ, zero, suc, ◌+◌, ◌%◌, ◌<◌, String, ◌≡◌, refl, inl, inr, true, some,
  List, [], ◌∷◌, ◌++◌, arith, nat_beq, Bool-cases, nodup, length, get_elem?, ◌==◌, ◌≢◌, false,
  append-nil, append_assoc, get_elem?-lt, ==_iff, ==-eq-false, get_elem?_inj, ◌||◌, if◌then◌else◌,
  contains, contains_of_get_elem?, nat_eq, pair_eq,
}
use telegram_client.Dict
use telegram_client.Dict.{get-put, Dict, has-put}
use telegram_client.Data.{Assignments, int_eq, role_eq}
use telegram_client.Assigner.Listeners.Share.{every, wait, every-wait_now, every-wait_later}
use telegram_client.Assigner.Listeners.{append_to, deal, blank, distribute}

pub get_elem?-lt_length :
    (xs : List String) (i : ℕ) (s : String) → get_elem? xs i ≡ some s → i < length xs
get_elem?-lt_length [] i s h = cc
get_elem?-lt_length (x ∷ xs) zero s h = omega arith
get_elem?-lt_length (x ∷ xs) (suc i) s h = omega (arith, get_elem?-lt_length xs i s h)

module _ (names : List String) (distinct : nodup names ≡ true) where
  -- Every listener has an entry.
  abbrev IsOpen : Assignments → Type 0
  IsOpen d =
      (i : ℕ) (s : String)
      → get_elem? names i ≡ some s
      → (gs : List String) × (Dict.get s d ≡ some gs)

  IsOpen-put :
      (d : Assignments) (s : String) (gs : List String) → IsOpen d → IsOpen (Dict.put s gs d)
  IsOpen-put d s gs o i t h = elim (Bool-cases (s == t)) [
    | inl e ↦ (gs, rw (get-put, e) refl)
    | inr e ↦ let (hs, found) = o i t h in (hs, rw (get-put, e) found)
  ]

  -- What the loop adds to the listener at position `i`, from counter `idx` on.
  abbrev Adds : ℕ → List String → Assignments → Assignments → Type 0
  Adds idx ts d d' =
      (i : ℕ) (s : String) (gs : List String)
      → get_elem? names i ≡ some s
      → Dict.get s d ≡ some gs
      → Dict.get s d' ≡ some (gs ++ every (length names) (wait (length names) i idx) ts)

  Adds-cons :
      (idx : ℕ) (t : String) (ts : List String) (d d' : Assignments) (s : String) (gs : List String)
      → get_elem? names (idx % length names) ≡ some s
      → Dict.get s d ≡ some gs
      → Adds (idx + 1) ts (Dict.put s (gs ++ t ∷ []) d) d'
      → Adds idx (t ∷ ts) d d'
  unfolding every
  Adds-cons idx t ts d d' s gs at old rest i u us h old' =
      let k = length names in
      let bound = get_elem?-lt_length names i u h in
      elim (Bool-cases (nat_beq (idx % length names) i)) [
        | inl e ↦
            let here = (nat_beq_iff _ i).0 e in
            let same : s ≡ u = cc (at, h, here) in
            let list : gs ≡ us = cc (old, old', same) in
            rw (every-wait_now k i idx t ts bound here, ← list, ← append_assoc gs (t ∷ []))
              (rest i u (gs ++ t ∷ []) h (rw (get-put, (==_iff s u).1 same) refl))
        | inr e ↦
            let away : idx % k ≢ i = λ q. cc (e, (nat_beq_iff (idx % k) i).1 q) in
            let other : (s == u) ≡ false =
              ==-eq-false s u (λ q. away (get_elem?_inj names _ _ u distinct (rw q at at) h)) in
            rw (every-wait_later k i idx t ts bound away) (rest i u us h (rw (get-put, other) old'))
      ]

  deal-Adds :
      (ts : List String) (idx : ℕ) (d : Assignments)
      → 0 < length names
      → IsOpen d
      → (d' : Assignments) × (deal names (length names) idx ts d ≡ some d') × Adds idx ts d d'
  unfolding deal append_to every
  deal-Adds [] idx d pos o = (d, refl, λ i s gs h old. rw append-nil old)
  deal-Adds (t ∷ ts) idx d pos o =
      let (s, at) = get_elem?-lt names (idx % length names) (mod-lt idx pos) in
      let (gs, old) = o (idx % length names) s at in
      let (d', done, adds) =
        deal-Adds ts (idx + 1) (Dict.put s (gs ++ t ∷ []) d) pos
          (IsOpen-put d s (gs ++ t ∷ []) o) in
      (d', rw (at, old) done, Adds-cons idx t ts d d' s gs at old adds)

-- A fresh entry for each name.
pub get-blank :
    (names : List String) (s : String) (d : Assignments)
    → Dict.get s (blank names d) ≡ (if contains s names then some [] else Dict.get s d)
unfolding blank contains
get-blank [] s d = refl
get-blank (n ∷ names) s d = ground (arith, get-blank names s (Dict.put n [] d), get-put n s [] d)

pub has-blank :
    (names : List String) (s : String) (d : Assignments)
    → Dict.has s (blank names d) ≡ (contains s names || Dict.has s d)
unfolding blank contains
has-blank [] s d = refl
has-blank (n ∷ names) s d = ground (arith, has-blank names s (Dict.put n [] d), has-put n s [] d)

wait-zero : (k i : ℕ) → wait k i 0 ≡ i
unfolding wait
wait-zero k i = rw (zero-mod k) (ground arith)

-- With at least one listener and no listener twice the deal succeeds, and the listener at
-- position `i` of `k` gets the targets at the positions `i`, `i + k`, `i + 2k` and so on, in order.
pub distribute-every :
    (names targets : List String)
    → nodup names ≡ true
    → 0 < length names
    → (d : Assignments) × (distribute names targets ≡ some d)
      × ((i : ℕ) (s : String)
          → get_elem? names i ≡ some s
          → Dict.get s d ≡ some (every (length names) i targets))
unfolding distribute
distribute-every names targets distinct pos =
    let (d, done, adds) = deal-Adds names distinct targets 0 (blank names []) pos opened in
    (d, done, λ i s h. rw (← wait-zero (length names) i) (adds i s [] h (fresh i s h)))
  where
    fresh :
        (i : ℕ) (s : String) → get_elem? names i ≡ some s → Dict.get s (blank names []) ≡ some []
    fresh i s h = rw (get-blank, contains_of_get_elem? names i s h) refl

    opened :
        (i : ℕ) (s : String)
        → get_elem? names i ≡ some s
        → (gs : List String) × (Dict.get s (blank names []) ≡ some gs)
    opened i s h = ([], fresh i s h)

-- With listeners that are all different the deal succeeds, and the listener at position `i` of `k`
-- gets the targets at the positions `i`, `i + k`, `i + 2k` and so on, in order.
pub distribute_share :
    (names targets : List String) (i : ℕ) (s : String)
    → nodup names ≡ true
    → get_elem? names i ≡ some s
    → (d : Assignments) × (distribute names targets ≡ some d)
      × (Dict.get s d ≡ some (every (length names) i targets))
distribute_share names targets i s distinct at =
    let room = get_elem?-lt_length names i s at in
    let (d, done, all) = distribute-every names targets distinct (omega arith) in
    (d, done, all i s at)
