-- ===== src/Assigner/Listeners/Load.antt =====
-- How many groups a listener gets, and how many listeners app/listener_assigner.py takes.
use telegram_client.Prelude.{
  ℕ, ◌+◌, ◌*◌, ◌≤◌, String, ◌≡◌, true, some, List, arith, contains, nodup, length, string_eq, ◌<◌,
  get_elem?_of_contains, ◌↔◌, nat_eq, pair_eq,
}
use telegram_client.Dict
use telegram_client.Dict.{Dict}
use telegram_client.Data.{Assignments, int_eq, role_eq}
use telegram_client.Assigner.Listeners.{
  calculate_needed_listeners, distribute, max_groups_per_listener,
}
use telegram_client.Assigner.Listeners.Share.{every, length-every}
use telegram_client.Assigner.Listeners.Deal.{get_elem?-lt_length, distribute-every}
use native.Mathlib.Decide.{dec_le}

-- `calculate_needed_listeners` is the least number of listeners that can hold the groups, 35 each:
-- a number of listeners is at least that one exactly if it can hold them.
pub needed_least :
    (n m : ℕ) → (calculate_needed_listeners n ≤ m) ↔ (n ≤ max_groups_per_listener * m)
unfolding calculate_needed_listeners
needed_least n m = (λ h. ground arith, λ h. ground arith)

-- What a product with `k` on both sides says of the factors.
mul_cancel_lt : (k a b : ℕ) → k * a < k * b + k → a ≤ b
mul_cancel_lt k a b h = elim (dec_le a b) [ yes p ↦ p | no p ↦ absurd (grind arith) ]

module _ (names targets : List String) (d : Assignments) (distinct : nodup names ≡ true)
    (done : distribute names targets ≡ some d) where
  -- The position and the share of a listener, with the bounds on its size.
  share :
      (s : String) (gs : List String)
      → contains s names ≡ true
      → Dict.get s d ≡ some gs
      → (i : ℕ) × (i < length names)
        × (length names * length gs + i < length targets + length names)
        × (length targets ≤ i + length names * length gs)
  share s gs inside get =
      let (i, at) = get_elem?_of_contains names s inside in
      let bound = get_elem?-lt_length names i s at in
      let (d₀, done₀, all) = distribute-every names targets distinct (omega arith) in
      let same : gs ≡ every (length names) i targets = cc (done, done₀, all i s at, get) in
      let (above, below) = length-every (length names) i targets bound in
      (i, bound, rw same above, rw same below)

  -- A listener gets fewer groups than the mean plus one: at most the mean, rounded up.
  pub share_bound :
      (s : String) (gs : List String)
      → contains s names ≡ true
      → Dict.get s d ≡ some gs
      → length names * length gs < length targets + length names
  share_bound s gs inside get = let (i, _, above, _) = share s gs inside get in omega arith

  -- When the listeners are all different and the deal succeeds, the shares of any two of them differ
  -- by one group at most.
  pub shares_balanced :
      (s t : String) (gs hs : List String)
      → contains s names ≡ true
      → contains t names ≡ true
      → Dict.get s d ≡ some gs
      → Dict.get t d ≡ some hs
      → length gs ≤ length hs + 1
  shares_balanced s t gs hs ins int getS getT =
      let (i, _, above, _) = share s gs ins getS in
      let (j, room, _, below) = share t hs int getT in
      mul_cancel_lt (length names) (length gs) (length hs + 1) (omega arith)

  -- When the listeners are all different, at least as many as `calculate_needed_listeners` says,
  -- and the deal succeeds, nobody gets more than 35 groups.
  pub share-le-max :
      (s : String) (gs : List String)
      → contains s names ≡ true
      → Dict.get s d ≡ some gs
      → calculate_needed_listeners (length targets) ≤ length names
      → length gs ≤ max_groups_per_listener
  share-le-max s gs inside get enough =
      let need = (needed_least (length targets) (length names)).0 enough in
      mul_cancel_lt (length names) (length gs) 35 (omega (arith, share_bound s gs inside get, need))
