-- ===== src/Assigner/Repliers/Strict.antt =====
-- The strict policy of the replier assignment: no session serves two groups.
use telegram_client.Prelude.{
  String, ◌≡◌, sym, ◌∙◌, ◌⊎◌, inl, inr, Bool, true, false, ◌&&◌, ◌||◌, Option, none, some, List,
  arith, Bool-cases, contains, ◌==◌, ==_iff, string_eq, nat_eq, pair_eq, nodup, refl, [],
}
use telegram_client.Dict
use telegram_client.Dict.{Dict, get-put, nodup-keys-put}
use telegram_client.Data.{Pair, Pairs, int_eq, role_eq}
use telegram_client.Assigner.Repliers.{is_text, keys}

-- The session is the primary or the backup of the pair.
abbrev pub uses : String → Pair → Bool
uses s pair = pair.primary == s || pair.backup == s

-- The optional session is this one, and not empty.
abbrev pub claims : String → Option String → Bool
claims s none = false
claims s (some t) = is_text t && t == s

-- Every session of the map is a known one and marked as used, and belongs to one group only.
pub record IsStrict (names : List String) (m : Pairs) (used : List String) : Type 0 where
  pub keyed : nodup (keys m) ≡ true
  pub known :
      (g s : String) (p : Pair) → Dict.get g m ≡ some p → uses s p ≡ true → contains s names ≡ true
  pub claimed :
      (g s : String) (p : Pair) → Dict.get g m ≡ some p → uses s p ≡ true → contains s used ≡ true
  pub sole :
      (g h s : String) (p q : Pair)
      → Dict.get g m ≡ some p
      → Dict.get h m ≡ some q
      → uses s p ≡ true
      → uses s q ≡ true
      → g ≡ h

-- Nothing is assigned, nothing is used.
pub IsStrict-empty : {names : List String} → IsStrict names [] []
unfolding Dict.get nodup
IsStrict-empty = record {
  keyed = refl;
  known = λ g s p h u. cc;
  claimed = λ g s p h u. cc;
  sole = λ g h s p q e f u v. cc;
}

-- A session that the group may get: nobody's so far, or the group's own.
abbrev pub MayGet : Pairs → List String → String → String → Type 0
MayGet m used g s =
    (contains s used ≡ false) ⊎ ((q : Pair) × (Dict.get g m ≡ some q) × (uses s q ≡ true))

module _ (names : List String) (m : Pairs) (used : List String)
    (strict : IsStrict names m used) where
  pub IsStrict-grow :
      (used' : List String)
      → ((s : String) → contains s used ≡ true → contains s used' ≡ true)
      → IsStrict names m used'
  IsStrict-grow used' grows = record {
    keyed = strict.keyed;
    known = strict.known;
    claimed = λ g s p h u. grows s (strict.claimed g s p h u);
    sole = strict.sole;
  }

  module _ (g : String) (pair : Pair)
      (may : (s : String) → uses s pair ≡ true → MayGet m used g s) where
    others :
        (h s : String) (q : Pair)
        → Dict.get h m ≡ some q
        → uses s q ≡ true
        → uses s pair ≡ true
        → g ≡ h
    others h s q got u v = elim (may s v) [
      | inl new ↦ cc (new, strict.claimed h s q got u)
      | inr (own, mine, w) ↦ strict.sole g h s own q mine got w u
    ]

    put_cases :
        (h : String) (p : Pair)
        → Dict.get h (Dict.put g pair m) ≡ some p
        → ((g ≡ h) × (p ≡ pair)) ⊎ (Dict.get h m ≡ some p)
    put_cases h p got = elim (Bool-cases (g == h)) [
      | inl e ↦ inl ((==_iff g h).0 e, ground (arith, get-put g h pair m))
      | inr e ↦ inr (ground (arith, get-put g h pair m))
    ]

    put-sole :
        (h i s : String) (p q : Pair)
        → Dict.get h (Dict.put g pair m) ≡ some p
        → Dict.get i (Dict.put g pair m) ≡ some q
        → uses s p ≡ true
        → uses s q ≡ true
        → h ≡ i
    put-sole h i s p q gp gq up uq = elim (put_cases h p gp) [
      | inl (e, same) ↦ elim (put_cases i q gq) [
        | inl (f, _) ↦ sym e ∙ f
        | inr old ↦ sym e ∙ others i s q old uq (rw (← same) up)
      ]
      | inr old ↦ elim (put_cases i q gq) [
        | inl (f, same) ↦ sym (others h s p old up (rw (← same) uq)) ∙ f
        | inr old' ↦ strict.sole h i s p q old old' up uq
      ]
    ]

    pub IsStrict-put :
        (used' : List String)
        → ((s : String) → uses s pair ≡ true → contains s names ≡ true)
        → ((s : String) → uses s pair ≡ true → contains s used' ≡ true)
        → ((s : String) → contains s used ≡ true → contains s used' ≡ true)
        → IsStrict names (Dict.put g pair m) used'
    IsStrict-put used' inside covers grows = record {
      keyed = nodup-keys-put g pair m strict.keyed;
      known = λ h s p got u. elim (put_cases h p got) [
        | inl (_, same) ↦ inside s (rw (← same) u)
        | inr old ↦ strict.known h s p old u
      ];
      claimed = λ h s p got u. elim (put_cases h p got) [
        | inl (_, same) ↦ covers s (rw (← same) u)
        | inr old ↦ grows s (strict.claimed h s p old u)
      ];
      sole = put-sole;
    }
