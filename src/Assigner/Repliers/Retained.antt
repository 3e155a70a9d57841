-- ===== src/Assigner/Repliers/Retained.antt =====
-- The strict policy in pass 1 of `auto_assign_repliers` in app/listener_assigner.py.
use telegram_client.Prelude.{
  String, ◌≡◌, refl, ◌⊎◌, inl, inr, true, false, ◌||◌, Option, none, some, List, [], ◌∷◌, arith,
  Bool-cases, contains, ◌==◌, ==_iff, string_eq, nat_eq, pair_eq,
}
use telegram_client.Dict
use telegram_client.Dict.{Dict}
use telegram_client.Data.{Pair, int_eq, role_eq}
use telegram_client.Assigner.Repliers.{
  is_true, or_text, Plan, claim, unclaimed, unclaimed_backup, retain_pair, retain_if, retain,
}
use telegram_client.Assigner.Repliers.Strict.{uses, IsStrict, IsStrict-grow, IsStrict-put, claims}

pub contains-claim :
    (s : String) (x : Option String) (used : List String)
    → contains s (claim x used) ≡ (claims s x || contains s used)
unfolding contains
contains-claim s none used = refl
contains-claim s (some t) used = ground arith

-- A session of the pair built by `or` is one of the two that were chosen.
pub uses-or_text :
    (s : String) (p b : Option String)
    → (is_true p || is_true b) ≡ true
    → uses s (record { primary = or_text p b; backup = or_text b p }) ≡ true
    → (claims s p || claims s b) ≡ true
uses-or_text s none none h u = cc
uses-or_text s none (some t) h u = ground arith
uses-or_text s (some t) none h u = ground arith
uses-or_text s (some t) (some r) h u = ground arith

pub claims-unclaimed :
    (names used : List String) (s t : String)
    → claims s (unclaimed names used t) ≡ true
    → (contains s names ≡ true) × (contains s used ≡ false)
claims-unclaimed names used s t h = elim (Bool-cases (t == s)) [
  | inl e ↦ rw (← (==_iff t s).0 e) (ground (arith))
  | inr e ↦ ground arith
]

pub claims-unclaimed_backup :
    (names used : List String) (p : Option String) (s t : String)
    → claims s (unclaimed_backup names used p t) ≡ true
    → (contains s names ≡ true) × (contains s used ≡ false)
claims-unclaimed_backup names used p s t h = elim (Bool-cases (t == s)) [
  | inl e ↦ rw (← (==_iff t s).0 e) (ground (arith))
  | inr e ↦ ground arith
]

-- One group of pass 1.
retain_pair-IsStrict :
    (names : List String) (g : String) (stored : Pair) (plan : Plan)
    → IsStrict names plan.pair_map plan.used_sessions
    → IsStrict names
        (retain_pair names g stored plan).pair_map
        (retain_pair names g stored plan).used_sessions
unfolding retain_pair
retain_pair-IsStrict names g stored plan strict = elim (Bool-cases (is_true p || is_true b)) [
  | inl e ↦ rw e (
      IsStrict-put names plan.pair_map used strict g _ (λ s u. inl (fresh s e u)) after
        (λ s u. inside s e u) (λ s u. covers s e u) grows)
  | inr e ↦ rw e (IsStrict-grow names plan.pair_map used strict after grows)
]
  where
    used : List String
    used = plan.used_sessions

    p : Option String
    p = unclaimed names used stored.primary

    b : Option String
    b = unclaimed_backup names (claim p used) p stored.backup

    after : List String
    after = claim b (claim p used)

    grows : (s : String) → contains s used ≡ true → contains s after ≡ true
    grows s h = rw (contains-claim s b (claim p used), contains-claim s p used, h) (ground arith)

    chosen :
        (s : String)
        → (is_true p || is_true b) ≡ true
        → uses s (record { primary = or_text p b; backup = or_text b p }) ≡ true
        → (claims s p ≡ true) ⊎ (claims s b ≡ true)
    chosen s e u = ground (arith, uses-or_text s p b e u)

    fresh :
        (s : String)
        → (is_true p || is_true b) ≡ true
        → uses s (record { primary = or_text p b; backup = or_text b p }) ≡ true
        → contains s used ≡ false
    fresh s e u = elim (chosen s e u) [
      | inl c ↦ (claims-unclaimed names used s stored.primary c).1
      | inr c ↦ ground (
        arith,
        (claims-unclaimed_backup names (claim p used) p s stored.backup c).1,
        contains-claim s p used,
      )
    ]

    inside :
        (s : String)
        → (is_true p || is_true b) ≡ true
        → uses s (record { primary = or_text p b; backup = or_text b p }) ≡ true
        → contains s names ≡ true
    inside s e u = elim (chosen s e u) [
      | inl c ↦ (claims-unclaimed names used s stored.primary c).0
      | inr c ↦ (claims-unclaimed_backup names (claim p used) p s stored.backup c).0
    ]

    covers :
        (s : String)
        → (is_true p || is_true b) ≡ true
        → uses s (record { primary = or_text p b; backup = or_text b p }) ≡ true
        → contains s after ≡ true
    covers s e u =
        rw (contains-claim s b (claim p used), contains-claim s p used)
          (ground (arith, chosen s e u))

pub retain-IsStrict :
    (names : List String) (stored : Dict String Pair) (groups : List String) (plan : Plan)
    → IsStrict names plan.pair_map plan.used_sessions
    → IsStrict names
        (retain names stored groups plan).pair_map
        (retain names stored groups plan).used_sessions
unfolding retain
retain-IsStrict names stored [] plan strict = strict
retain-IsStrict names stored (g ∷ groups) plan strict =
    retain-IsStrict names stored groups (retain_if names g (Dict.get g stored) plan)
      (one (Dict.get g stored))
  where
    one :
        (o : Option Pair)
        → IsStrict names
            (retain_if names g o plan).pair_map
            (retain_if names g o plan).used_sessions
    one none = strict
    one (some pair) = retain_pair-IsStrict names g pair plan strict
