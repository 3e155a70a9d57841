-- ===== src/Assigner/Listeners/Cover.antt =====
-- The targets that the deal of `auto_assign_listeners` in app/listener_assigner.py assigns.
use mathlib.Core.List.{perm_middle}
use telegram_client.Prelude.{
  ℕ, ◌+◌, ◌%◌, String, ◌≡◌, refl, inl, inr, some, List, [], ◌∷◌, ◌++◌, Perm, append-nil,
  append_assoc, arith, Bool-cases, length, get_elem?, ◌==◌, string_eq,
}
use telegram_client.Dict
use mathlib.Core.List.Perm
use telegram_client.Dict.{Dict}
use telegram_client.Data.{Assignments}
use telegram_client.Assigner.Listeners.{
  blank, >>=?-eq-some, append_to, deal, distribute, assigned_targets,
}
use mathlib.Core.Option.{some-injective}

assigned-put :
    (s t : String) (gs : List String) (d : Assignments)
    → Dict.get s d ≡ some gs
    → Perm (assigned_targets (Dict.put s (gs ++ t ∷ []) d)) (t ∷ assigned_targets d)
unfolding assigned_targets Dict.get Dict.put
assigned-put s t gs [] h = cc
assigned-put s t gs ((i, hs) ∷ d) h = elim (Bool-cases (i == s)) [
  | inl e ↦
      let same : hs ≡ gs = ground arith in
      rw (e, same, append_assoc gs (t ∷ []) (assigned_targets d))
        (perm_middle gs (assigned_targets d))
  | inr e ↦ rw e (
      Perm.trans (Perm.append_left hs (assigned-put s t gs d (ground arith)))
        (perm_middle hs (assigned_targets d)))
]

assigned-deal :
    (names : List String) (k idx : ℕ) (ts : List String) (d d' : Assignments)
    → deal names k idx ts d ≡ some d'
    → Perm (assigned_targets d') (ts ++ assigned_targets d)
unfolding deal append_to
assigned-deal names k idx [] d d' h = let e : d ≡ d' = some-injective _ _ h in rw e (Perm.refl _)
assigned-deal names k idx (t ∷ ts) d d' h =
    let (s, at, h₁) = >>=?-eq-some (get_elem? names (idx % k)) _ d' h in
    let (d₁, appended, h₂) = >>=?-eq-some (append_to s t d) _ d' h₁ in
    let (gs, found, now) = >>=?-eq-some (Dict.get s d) _ d₁ appended in
    let step : Perm (assigned_targets d₁) (t ∷ assigned_targets d) =
      let e : Dict.put s (gs ++ t ∷ []) d ≡ d₁ = some-injective _ _ now in
      rw (← e) (assigned-put s t gs d found) in
    Perm.trans (assigned-deal names k (idx + 1) ts d₁ d' h₂)
      (Perm.trans (Perm.append_left ts step) (perm_middle ts (assigned_targets d)))

assigned-put_nil :
    (s : String) (d : Assignments)
    → assigned_targets d ≡ []
    → assigned_targets (Dict.put s [] d) ≡ []
unfolding assigned_targets Dict.put
assigned-put_nil s [] h = refl
assigned-put_nil s ((i, []) ∷ d) h = ground (arith, assigned-put_nil s d h)
assigned-put_nil s ((i, g ∷ gs) ∷ d) h = cc

assigned-blank :
    (names : List String) (d : Assignments)
    → assigned_targets d ≡ []
    → assigned_targets (blank names d) ≡ []
unfolding blank
assigned-blank [] d h = h
assigned-blank (n ∷ names) d h = assigned-blank names (Dict.put n [] d) (assigned-put_nil n d h)

-- When the deal succeeds, the groups of all listeners together are the targets, each as often as it is a target.
pub distribute-perm :
    (names targets : List String) (d : Assignments)
    → distribute names targets ≡ some d
    → Perm (assigned_targets d) targets
unfolding distribute assigned_targets
distribute-perm names targets d h =
    let nothing = assigned-blank names [] refl in
    let covered = assigned-deal names (length names) 0 targets (blank names []) d h in
    rw (← append-nil targets) (rw nothing at covered)
