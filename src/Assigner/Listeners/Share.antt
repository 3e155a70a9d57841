-- ===== src/Assigner/Listeners/Share.antt =====
-- The share of one listener in a round-robin deal, `targets[i::k]`, and its size.
use telegram_client.Prelude.{
  ℕ, zero, suc, ◌+◌, ◌-◌, ◌*◌, ◌%◌, ◌≤◌, ◌<◌, String, ◌≡◌, ◌≢◌, List, [], ◌∷◌, arith, leb, nat_beq,
  if◌then◌else◌, length, sym, ◌∙◌, inl, inr, Bool-cases,
}
use native.Mathlib.Nat.{mod-add-mod, mod_self, mod-eq_of_lt, mod-lt}
use telegram_client.Prelude.{nat_beq_iff}

-- Every `k`-th element, the first `w` left out.
unfoldable pub every : ℕ → ℕ → List String → List String
every k w [] = []
every k zero (t ∷ ts) = t ∷ every k (k - 1) ts
every k (suc w) (t ∷ ts) = every k w ts

-- `targets[i::k]` of `k` listeners has at most one element above, and at most one below, the mean.
pub length-every :
    (k w : ℕ) (ts : List String)
    → w < k
    → (k * length (every k w ts) + w < length ts + k) × (length ts ≤ w + k * length (every k w ts))
unfolding every
length-every k w [] h = omega arith
length-every k zero (t ∷ ts) h = omega (arith, length-every k (k - 1) ts (omega arith))
length-every k (suc w) (t ∷ ts) h = omega (arith, length-every k w ts (omega arith))

-- How many groups pass before position `i` is dealt to next, when the counter stands at `idx`.
unfoldable pub wait : ℕ → ℕ → ℕ → ℕ
wait k i idx = if leb (idx % k) i then i - idx % k else i + k - idx % k

pub wait-lt : (k i idx : ℕ) → i < k → wait k i idx < k
unfolding wait
wait-lt k i idx h = ground arith

pub mod_step :
    (k idx : ℕ) → 0 < k → (idx + 1) % k ≡ (if nat_beq (idx % k + 1) k then 0 else idx % k + 1)
mod_step k idx h = elim (Bool-cases (nat_beq (idx % k + 1) k)) [
  | inl e ↦ rw e (sym (mod-add-mod idx k 1) ∙ (rw ((nat_beq_iff _ k).0 e) (mod_self k)))
  | inr e ↦ rw e (sym (mod-add-mod idx k 1) ∙ mod-eq_of_lt (ground (arith, mod-lt idx h)))
]

pub wait-suc_now :
    (k i idx : ℕ) → i < k → idx % k ≡ i → (wait k i idx ≡ 0) × (wait k i (idx + 1) ≡ k - 1)
unfolding wait
wait-suc_now k i idx h e = ground (arith, mod_step k idx)

pub wait-suc_later : (k i idx : ℕ) → i < k → idx % k ≢ i → wait k i idx ≡ suc (wait k i (idx + 1))
unfolding wait
wait-suc_later k i idx h e = ground (arith, mod_step k idx)

-- Position `i` gets the next group exactly if the counter stands at it.
pub every-wait_now :
    (k i idx : ℕ) (t : String) (ts : List String)
    → i < k
    → idx % k ≡ i
    → every k (wait k i idx) (t ∷ ts) ≡ t ∷ every k (wait k i (idx + 1)) ts
unfolding every
every-wait_now k i idx t ts h e = let (now, after) = wait-suc_now k i idx h e in rw (now, after)

pub every-wait_later :
    (k i idx : ℕ) (t : String) (ts : List String)
    → i < k
    → idx % k ≢ i
    → every k (wait k i idx) (t ∷ ts) ≡ every k (wait k i (idx + 1)) ts
unfolding every
every-wait_later k i idx t ts h e = rw (wait-suc_later k i idx h e)
