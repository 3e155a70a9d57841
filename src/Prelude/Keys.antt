-- ===== src/Prelude/Keys.antt =====
-- Types with a Boolean equality, for keys, and the membership tests of Python's `in` on lists.
use Prim.Native.Nat.{ℕ, zero, suc}
use mathlib.Core.Option.{some}
use telegram_client.Prelude.Lists.{get_elem?}
use Prim.Native.String.{String}
use mathlib.Core.Path.{◌≡◌, refl, ap}
use mathlib.Core.Logic.{◌↔◌, inl, inr}
use mathlib.Core.Bool.{Bool, true, false, not, ◌&&◌, ◌||◌}
use mathlib.Core.List.{List, [], ◌∷◌, ◌++◌}
use native.Mathlib.Omega.{arith}
use text.Mathlib.Text.{◌==◌ as str_eq}
use text.Mathlib.TextEquality.{eq_iff}
use telegram_client.Prelude.Tests.{nat_beq, nat_beq_iff, Bool-cases}

pub record Equality {ℓ} (A : Type ℓ) : Type ℓ where
  pub is_same : A → A → Bool
  pub is_same_iff : (a b : A) → (is_same a b ≡ true) ↔ (a ≡ b)

infix 50 ◌==◌
abbrev pub ◌==◌ {ℓ} : {A : Type ℓ} ⦃e : Equality A⦄ → A → A → Bool
◌==◌ ⦃e⦄ = e.is_same

pub ==_iff {ℓ} : {A : Type ℓ} ⦃e : Equality A⦄ (a b : A) → ((a == b) ≡ true) ↔ (a ≡ b)
==_iff ⦃e⦄ a b = e.is_same_iff a b

pub ==_refl {ℓ} : {A : Type ℓ} ⦃e : Equality A⦄ (a : A) → (a == a) ≡ true
==_refl ⦃e⦄ a = (e.is_same_iff a a).1 refl

pub ==-eq-false {ℓ} : {A : Type ℓ} ⦃e : Equality A⦄ (a b : A) → ¬ (a ≡ b) → (a == b) ≡ false
==-eq-false ⦃e⦄ a b h = elim (Bool-cases (e.is_same a b)) [
  | inl p ↦ absurd (h ((e.is_same_iff a b).0 p))
  | inr p ↦ p
]

instance abbrev pub nat_eq : Equality ℕ
nat_eq = record { is_same = nat_beq; is_same_iff = nat_beq_iff }

unfoldable pub pair_beq {ℓ κ} :
    {A : Type ℓ} {B : Type κ} ⦃e : Equality A⦄ ⦃f : Equality B⦄ → A × B → A × B → Bool
pair_beq ⦃e⦄ ⦃f⦄ (a, b) (c, d) = e.is_same a c && f.is_same b d

pub pair_beq_iff {ℓ κ} :
    {A : Type ℓ} {B : Type κ} ⦃e : Equality A⦄ ⦃f : Equality B⦄ (p q : A × B)
    → (pair_beq p q ≡ true) ↔ (p ≡ q)
unfolding pair_beq
pair_beq_iff ⦃e⦄ ⦃f⦄ (a, b) (c, d) = ground (arith, e.is_same_iff a c, f.is_same_iff b d)

instance abbrev pub pair_eq {ℓ κ} :
    {A : Type ℓ} {B : Type κ} ⦃e : Equality A⦄ ⦃f : Equality B⦄ → Equality (A × B)
unfolding pair_beq
pair_eq = record { is_same = pair_beq; is_same_iff = pair_beq_iff }

instance abbrev pub string_eq : Equality String
string_eq = record { is_same = str_eq; is_same_iff = eq_iff }

module _ {ℓ} {A : Type ℓ} ⦃e : Equality A⦄ where
  -- `a in xs`
  unfoldable pub contains : A → List A → Bool
  contains a [] = false
  contains a (x ∷ xs) = x == a || contains a xs

  unfoldable pub nodup : List A → Bool
  unfolding contains
  nodup [] = true
  nodup (x ∷ xs) = not (contains x xs) && nodup xs

  -- every element of the first list is in the second
  unfoldable pub subset : List A → List A → Bool
  unfolding contains
  subset [] ys = true
  subset (x ∷ xs) ys = contains x ys && subset xs ys

  pub contains-append :
      (a : A) (xs ys : List A) → contains a (xs ++ ys) ≡ (contains a xs || contains a ys)
  unfolding contains
  contains-append a [] ys = refl
  contains-append a (x ∷ xs) ys = ground (arith, contains-append a xs ys)

  pub contains-subset :
      (a : A) (xs ys : List A) → subset xs ys ≡ true → contains a xs ≡ true → contains a ys ≡ true
  unfolding contains subset
  contains-subset a [] ys s h = ground arith
  contains-subset a (x ∷ xs) ys s h = ground (arith, e.is_same_iff x a, contains-subset a xs ys)

  pub subset_intro :
      (xs ys : List A)
      → ((a : A) → contains a xs ≡ true → contains a ys ≡ true)
      → subset xs ys ≡ true
  unfolding contains subset
  subset_intro [] ys h = refl
  subset_intro (x ∷ xs) ys h =
      ground (arith, h x, e.is_same_iff x x, subset_intro xs ys (λ a p. h a (ground arith)))

  pub contains_of_get_elem? :
      (xs : List A) (i : ℕ) (a : A) → get_elem? xs i ≡ some a → contains a xs ≡ true
  unfolding contains
  contains_of_get_elem? [] i a h = cc
  contains_of_get_elem? (x ∷ xs) zero a h = ground (arith, e.is_same_iff x a)
  contains_of_get_elem? (x ∷ xs) (suc i) a h = ground (arith, contains_of_get_elem? xs i a h)

  -- A position of a list with no element twice is determined by the element there.
  pub get_elem?_inj :
      (xs : List A) (i j : ℕ) (a : A)
      → nodup xs ≡ true
      → get_elem? xs i ≡ some a
      → get_elem? xs j ≡ some a
      → i ≡ j
  unfolding nodup
  get_elem?_inj [] i j a n h g = cc
  get_elem?_inj (x ∷ xs) zero zero a n h g = refl
  get_elem?_inj (x ∷ xs) zero (suc j) a n h g = ground (arith, contains_of_get_elem? xs j a g)
  get_elem?_inj (x ∷ xs) (suc i) zero a n h g = ground (arith, contains_of_get_elem? xs i a h)
  get_elem?_inj (x ∷ xs) (suc i) (suc j) a n h g = ground (arith, get_elem?_inj xs i j a)

  pub get_elem?_of_contains :
      (xs : List A) (a : A) → contains a xs ≡ true → (i : ℕ) × (get_elem? xs i ≡ some a)
  unfolding contains
  get_elem?_of_contains [] a h = cc
  get_elem?_of_contains (x ∷ xs) a h = elim (Bool-cases (e.is_same x a)) [
    | inl p ↦ (0, ap some ((e.is_same_iff x a).0 p))
    | inr p ↦ let (i, at) = get_elem?_of_contains xs a (rw (p) at h) in (suc i, at)
  ]
