-- ===== src/Assigner/Listeners.antt =====
-- `auto_assign_listeners` and its helpers. A coroutine's `none` means that an exception escapes.
pub mod Share
pub mod Deal
pub mod Cover
pub mod Load
use telegram_client.Prelude.{
  string_eq, nat_eq, ℕ, ◌+◌, ◌-◌, ◌/◌, ◌%◌, min, max, String, Bool, true, false, ◌&&◌, Option, none,
  some, List, [], ◌∷◌, ◌++◌, leb, nat_beq, if◌then◌else◌, subset, length, get_elem?, take, ◌==◌,
  ◌≡◌, refl,
}
use telegram_client.Dict
use telegram_client.Dict.{keys, Dict}
use telegram_client.Data.{Account, Assignments, role_eq, listener}
use telegram_client.Redis.{Redis}
use telegram_client.World.{Action, pure, gets, ◌>>=◌, ◌>>◌}
use telegram_client.Queue.State.{
  get_active_targets, get_listener_assignments, set_listener_assignments,
}
use telegram_client.Assigner.Accounts.{
  get_all_accounts_from_db, get_healthy_accounts, session_names, update_account_roles_in_db,
}

abbrev pub max_groups_per_listener : ℕ
max_groups_per_listener = 35

-- `math.ceil(n / k)`, exact below 2 ^ 53.
abbrev pub ceil_div : ℕ → ℕ → ℕ
ceil_div n k = (n + (k - 1)) / k

unfoldable pub calculate_needed_listeners : ℕ → ℕ
calculate_needed_listeners num_groups =
    if nat_beq num_groups 0 then 0 else max 1 (ceil_div num_groups max_groups_per_listener)

-- The sort key `(0 if role == "LISTENER" else 1, id)`, compared.
unfoldable pub comes_before : Account → Account → Bool
comes_before a b = if a.role == b.role then leb a.id b.id else a.role == listener

unfoldable pub insert_candidate : Account → List Account → List Account
unfolding comes_before
insert_candidate a [] = a ∷ []
insert_candidate a (b ∷ bs) = if comes_before a b then a ∷ b ∷ bs else b ∷ insert_candidate a bs

-- `sorted(healthy_accounts, key=…)`
unfoldable pub listener_candidates : List Account → List Account
unfolding insert_candidate
listener_candidates [] = []
listener_candidates (a ∷ as') = insert_candidate a (listener_candidates as')

-- The session names of the first accounts, as many as are needed or there are.
unfoldable pub pick_listeners : ℕ → List Account → List String
unfolding listener_candidates calculate_needed_listeners
pick_listeners num_groups healthy = session_names (
    take (min (calculate_needed_listeners num_groups) (length healthy))
      (listener_candidates healthy))

-- `{sname: [] for sname in names}`, added to what is there.
unfoldable pub blank : List String → Assignments → Assignments
unfolding Dict.put
blank [] d = d
blank (s ∷ ss) d = blank ss (Dict.put s [] d)

infixl 5 ◌>>=?◌
abbrev pub ◌>>=?◌ {ℓ κ} : {A : Type ℓ} {B : Type κ} → Option A → (A → Option B) → Option B
none >>=? f = none
some a >>=? f = f a

pub >>=?-eq-some {ℓ κ} :
    {A : Type ℓ} {B : Type κ} (m : Option A) (f : A → Option B) (b : B)
    → (m >>=? f) ≡ some b
    → (a : A) × (m ≡ some a) × (f a ≡ some b)
>>=?-eq-some none f b h = cc
>>=?-eq-some (some a) f b h = (a, refl, h)

-- `assignments[sname].append(group)`
unfoldable pub append_to : String → String → Assignments → Option Assignments
unfolding Dict.get Dict.put
append_to sname group d =
    Dict.get sname d >>=? λ groups. some (Dict.put sname (groups ++ group ∷ []) d)

-- The loop over `enumerate(targets)`: `idx` is its counter, `k` the number of listeners.
unfoldable pub deal : List String → ℕ → ℕ → List String → Assignments → Option Assignments
unfolding append_to
deal names k idx [] d = some d
deal names k idx (group ∷ groups) d = get_elem? names (idx % k) >>=? λ sname.
    append_to sname group d >>=? λ d'. deal names k (idx + 1) groups d'

unfoldable pub distribute : List String → List String → Option Assignments
unfolding deal blank
distribute names targets = deal names (length names) 0 targets (blank names [])

-- `set().union(*existing.values())`
unfoldable pub assigned_targets : Assignments → List String
assigned_targets [] = []
assigned_targets ((sname, groups) ∷ d) = groups ++ assigned_targets d

unfoldable pub is_assignment_valid : Assignments → List String → List Account → Bool
unfolding assigned_targets subset
is_assignment_valid existing current_targets healthy =
    subset (keys existing) (session_names healthy)
    && (subset (assigned_targets existing) current_targets
        && subset current_targets (assigned_targets existing))

abbrev pub is_nonempty {ℓ} : {A : Type ℓ} → List A → Bool
is_nonempty [] = false
is_nonempty (x ∷ xs) = true

module _ {R : Redis} where
  abbrev pub store : List String → Option Assignments → Action R (Option Assignments)
  store names none = pure none
  store names (some assignments) = do
    update_account_roles_in_db names
    set_listener_assignments assignments
    pure (some assignments)

  -- Steps 4 to 7: pick, distribute, write the roles, store.
  unfoldable pub assign_anew : List String → List Account → Action R (Option Assignments)
  unfolding distribute pick_listeners update_account_roles_in_db set_listener_assignments
  assign_anew targets healthy =
      let names = pick_listeners (length targets) healthy in store names (distribute names targets)

  -- Step 3: keep a valid assignment, unless the rebalance is forced.
  unfoldable pub keep_or_assign : Bool → List String → List Account → Action R (Option Assignments)
  unfolding assign_anew is_assignment_valid get_listener_assignments
  keep_or_assign true targets healthy = assign_anew targets healthy
  keep_or_assign false targets healthy = do
    existing ← get_listener_assignments
    if is_nonempty existing && is_assignment_valid existing targets healthy
        then pure (some existing)
        else assign_anew targets healthy

  abbrev pub unless_none : Bool → List String → List Account → Action R (Option Assignments)
  unless_none force targets [] = pure (some [])
  unless_none force targets (acc ∷ accs) = keep_or_assign force targets (acc ∷ accs)

  -- The whole function, once the targets are known.
  unfoldable pub assign_listeners : Bool → List String → Action R (Option Assignments)
  unfolding keep_or_assign get_all_accounts_from_db get_healthy_accounts set_listener_assignments
  assign_listeners force [] = do set_listener_assignments []; pure (some [])
  assign_listeners force (t ∷ ts) = do
    all_accounts ← get_all_accounts_from_db
    sessions ← gets (λ w. w.sessions)
    unless_none force (t ∷ ts) (get_healthy_accounts sessions all_accounts)

  -- `if targets is None: targets = await queue_manager.get_active_targets()`
  abbrev pub given_or_active : Option (List String) → Action R (List String)
  given_or_active none = get_active_targets
  given_or_active (some targets) = pure targets

  unfoldable pub auto_assign_listeners : Option (List String) → Bool → Action R (Option Assignments)
  unfolding assign_listeners get_active_targets
  auto_assign_listeners targets force_rebalance = do
    found ← given_or_active targets
    assign_listeners force_rebalance found

  unfoldable pub handle_listener_failure : String → Action R (Option Assignments)
  unfolding auto_assign_listeners
  handle_listener_failure failed_session_name = auto_assign_listeners none true
