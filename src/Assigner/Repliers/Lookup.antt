-- ===== src/Assigner/Repliers/Lookup.antt =====
-- `build_target_to_replier_map` of app/listener_assigner.py, by which a worker answers.
use telegram_client.Prelude.{
  String, ◌≡◌, refl, inl, inr, Option, none, some, List, [], ◌∷◌, if◌then◌else◌, string_eq,
  contains, Option-cases, nat_eq, pair_eq, subst, true, false, arith, Bool-cases, ◌==◌, ==_iff,
}
use telegram_client.Dict
use telegram_client.Dict.{Dict, get-put, get-has, get-eq-none}
use telegram_client.Data.{Assignments, int_eq, role_eq}
use telegram_client.Assigner.Repliers.{add_groups, add_sessions, build_target_to_replier_map}

-- The first session whose list has the group.
unfoldable pub first_lister : String → Assignments → Option String
first_lister group [] = none
first_lister group ((session_name, groups) ∷ a) =
    let later = first_lister group a in if contains group groups then some session_name else later

-- The first that is given.
abbrev or_else : Option String → Option String → Option String
or_else none o = o
or_else (some s) o = some s

get-add_groups :
    (group session_name : String) (groups : List String) (d : Dict String String)
    → Dict.get group (add_groups session_name groups d)
      ≡ or_else (Dict.get group d) (if contains group groups then some session_name else none)
unfolding add_groups contains
get-add_groups group s [] d = elim (Option-cases (Dict.get group d)) [
  | inl e ↦ rw e refl
  | inr (v, e) ↦ rw e refl
]
get-add_groups group s (g ∷ gs) d = elim (Bool-cases (Dict.has g d)) [
  | inl e ↦ elim (Bool-cases (g == group)) [
    | inl q ↦
        let (v, got) =
          get-has group d (subst (λ x. Dict.has x d ≡ true) ((==_iff g group).0 q) e) in
        rw (e, q, get-add_groups group s gs d, got) refl
    | inr q ↦ rw (e, q) (get-add_groups group s gs d)
  ]
  | inr e ↦ elim (Bool-cases (g == group)) [
    | inl q ↦
        let fresh =
          get-eq-none group d (subst (λ x. Dict.has x d ≡ false) ((==_iff g group).0 q) e) in
        rw (e, q, get-add_groups group s gs (Dict.put g s d), get-put g group s d, q, fresh) refl
    | inr q ↦ rw (e, q, get-add_groups group s gs (Dict.put g s d), get-put g group s d, q) refl
  ]
]

get-add_sessions :
    (group : String) (a : Assignments) (d : Dict String String)
    → Dict.get group (add_sessions a d) ≡ or_else (Dict.get group d) (first_lister group a)
unfolding add_sessions first_lister
get-add_sessions group [] d = elim (Option-cases (Dict.get group d)) [
  | inl e ↦ rw e refl
  | inr (v, e) ↦ rw e refl
]
get-add_sessions group ((s, groups) ∷ a) d = elim (Option-cases (Dict.get group d)) [
  | inl e ↦
      ground (
        arith,
        get-add_sessions group a (add_groups s groups d),
        get-add_groups group s groups d,
        e,
      )
  | inr (v, e) ↦
      ground (
        arith,
        get-add_sessions group a (add_groups s groups d),
        get-add_groups group s groups d,
        e,
      )
]

-- A group is looked up to the first session, in the order of the assignments, whose list has it;
-- a group in no list has no entry.
pub get-build_target_to_replier_map :
    (assignments : Assignments) (group : String)
    → Dict.get group (build_target_to_replier_map assignments) ≡ first_lister group assignments
unfolding build_target_to_replier_map first_lister Dict.get
get-build_target_to_replier_map assignments group = get-add_sessions group assignments []
