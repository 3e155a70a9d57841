-- ===== src/Assigner/Repliers.antt =====
-- `auto_assign_repliers` and `build_target_to_replier_map`. An `Option String` is Python's
-- `Optional[str]`, whose tests for truth fail at None and at the empty text.
pub mod Strict
pub mod Retained
pub mod Filled
pub mod Reversed
pub mod Policy
pub mod Exclusive
pub mod Lookup
use telegram_client.Prelude.{
  string_eq, String, Bool, true, false, not, ◌&&◌, ◌||◌, Option, none, some, List, [], ◌∷◌, ◌++◌,
  if◌then◌else◌, contains, filter, ◌==◌,
}
use telegram_client.Dict
use telegram_client.Dict.{Dict, keys}
use telegram_client.Data.{Account, Assignments, Pair, Pairs, role_eq, replier}
use telegram_client.Redis.{Redis}
use telegram_client.World.{Action, pure, gets, ◌>>=◌, ◌>>◌}
use telegram_client.Database.{
  get_all_group_assignments, save_group_assignment, delete_group_assignment,
}
use telegram_client.Queue.State.{
  get_active_targets, set_replier_assignments, set_group_pair_assignments,
}
use telegram_client.Assigner.Accounts.{
  get_all_accounts_from_db, get_healthy_accounts, session_names,
}
use telegram_client.Assigner.Listeners.{blank, given_or_active, is_nonempty, ◌>>=?◌}

-- `bool(s)`
abbrev pub is_text : String → Bool
is_text s = not (s == "")

abbrev pub is_true : Option String → Bool
is_true none = false
is_true (some s) = is_text s

-- `x or y`, where one of them is true.
abbrev pub or_text : Option String → Option String → String
or_text (some x) y = if is_text x then x else (elim y [ none ↦ "" | some t ↦ t ])
or_text none y = elim y [ none ↦ "" | some t ↦ t ]

-- `x == y`
abbrev pub same_text : Option String → Option String → Bool
same_text (some x) (some y) = x == y
same_text none none = true
same_text _ _ = false

-- The variables of the two passes: `pair_map`, `used_sessions`, `available_sessions`.
pub record Plan : Type 0 where
  pub pair_map : Pairs
  pub used_sessions : List String
  pub available_sessions : List String

-- `if s: used_sessions.add(s)`
abbrev pub claim : Option String → List String → List String
claim none used = used
claim (some s) used = if is_text s then s ∷ used else used

-- `p if (p in replier_set and p not in used_sessions) else None`
abbrev pub unclaimed : List String → List String → String → Option String
unclaimed names used s = if contains s names && not (contains s used) then some s else none

-- The same for the backup, which differs from the primary that was kept.
abbrev pub unclaimed_backup : List String → List String → Option String → String → Option String
unclaimed_backup names used p s =
    if contains s names && (not (contains s used) && not (same_text (some s) p))
    then some s
    else none

abbrev pub keep_pair : String → Option String → Option String → List String → Plan → Plan
keep_pair group p b used plan =
    if is_true p || is_true b
    then record plan {
      pair_map =
          Dict.put group (record { primary = or_text p b; backup = or_text b p }) plan.pair_map;
      used_sessions = used;
    }
    else record plan { used_sessions = used }

-- Pass 1 at one group with a pair in the database.
unfoldable pub retain_pair : List String → String → Pair → Plan → Plan
unfolding contains Dict.put
retain_pair names group stored plan =
    let p = unclaimed names plan.used_sessions stored.primary in
    let used = claim p plan.used_sessions in
    let b = unclaimed_backup names used p stored.backup in keep_pair group p b (claim b used) plan

abbrev pub retain_if : List String → String → Option Pair → Plan → Plan
retain_if names group none plan = plan
retain_if names group (some stored) plan = retain_pair names group stored plan

-- Pass 1.
unfoldable pub retain : List String → Dict String Pair → List String → Plan → Plan
unfolding retain_pair Dict.get
retain names stored [] plan = plan
retain names stored (group ∷ groups) plan =
    retain names stored groups (retain_if names group (Dict.get group stored) plan)

-- `[s for s in names if s not in used]`
unfoldable pub unused : List String → List String → List String
unfolding contains filter
unused names used = filter (λ s. not (contains s used)) names

-- `available_sessions.pop(0)` and `used_sessions.add`: `d` where nothing is left.
abbrev pub take_first : List String → Option String → Plan → Option String × Plan
take_first [] d plan = (d, plan)
take_first (s ∷ rest) d plan =
    (some s, record plan { used_sessions = s ∷ plan.used_sessions; available_sessions = rest })

abbrev pub take_session : Option String → Plan → Option String × Plan
take_session d plan = take_first plan.available_sessions d plan

abbrev pub primary_of : Option Pair → Option String
primary_of none = none
primary_of (some pair) = some pair.primary

abbrev pub backup_of : Option Pair → Option String
backup_of none = none
backup_of (some pair) = some pair.backup

abbrev pub is_complete : Option Pair → Bool
is_complete none = false
is_complete (some pair) =
    is_text pair.primary && (is_text pair.backup && not (pair.primary == pair.backup))

-- "Assign primary if missing"
abbrev pub choose_primary : Option String → Plan → Option String × Plan
choose_primary p plan = if is_true p then (p, plan) else take_session p plan

-- "Assign backup if missing or duplicate": the primary where nothing is left.
abbrev pub choose_backup : Option String → Option String → Plan → Option String × Plan
choose_backup p b plan = if not (is_true b) || same_text b p then take_session p plan else (b, plan)

-- The end of the body: the pair to save, if there is a primary.
abbrev pub conclude : String → Option String → Option String → Plan → Option Pair × Plan
conclude group p b plan =
    if is_true p
    then (
      some (record { primary = or_text p p; backup = or_text b p }),
      record plan {
        pair_map =
            Dict.put group (record { primary = or_text p p; backup = or_text b p }) plan.pair_map;
      },
    )
    else (none, plan)

-- Pass 2 at one group whose pair is not complete.
unfoldable pub complete_pair : String → Option Pair → Plan → Option Pair × Plan
unfolding Dict.put
complete_pair group existing plan =
    let (p, plan₁) = choose_primary (primary_of existing) plan in
    let (b, plan₂) = choose_backup p (backup_of existing) plan₁ in conclude group p b plan₂

unfoldable pub fill_group : String → Plan → Option Pair × Plan
unfolding complete_pair Dict.get
fill_group group plan =
    let existing = Dict.get group plan.pair_map in
    if is_complete existing then (none, plan) else complete_pair group existing plan

-- `assignments[sname].append(group)` unless it is there
unfoldable pub note_group : String → String → Assignments → Option Assignments
unfolding Dict.get Dict.put contains
note_group sname group d = Dict.get sname d >>=? λ groups.
    if contains group groups then some d else some (Dict.put sname (groups ++ group ∷ []) d)

unfoldable pub note_pair : String → Pair → Assignments → Option Assignments
unfolding note_group
note_pair group pair d =
    (if is_text pair.primary then note_group pair.primary group d else some d) >>=? λ d'.
    if is_text pair.backup && not (pair.backup == pair.primary)
    then note_group pair.backup group d'
    else some d'

unfoldable pub note_pairs : Pairs → Assignments → Option Assignments
unfolding note_pair
note_pairs [] d = some d
note_pairs ((group, pair) ∷ pairs) d = note_pair group pair d >>=? λ d'. note_pairs pairs d'

-- Step 4: the reverse map, less the accounts with no group.
unfoldable pub reverse_assignments : List String → Pairs → Option Assignments
unfolding note_pairs blank filter
reverse_assignments names pairs =
    note_pairs pairs (blank names []) >>=? λ d. some (filter (λ e. is_nonempty e.1) d)

unfoldable pub repliers_of : List Account → List Account
unfolding filter
repliers_of = filter (λ acc. acc.role == replier)

-- The dictionary that `build_target_to_replier_map` fills.
unfoldable pub add_groups : String → List String → Dict String String → Dict String String
unfolding Dict.put contains
add_groups session_name [] d = d
add_groups session_name (group ∷ groups) d =
    add_groups session_name groups (if Dict.has group d then d else Dict.put group session_name d)

unfoldable pub add_sessions : Assignments → Dict String String → Dict String String
unfolding add_groups
add_sessions [] d = d
add_sessions ((session_name, groups) ∷ a) d = add_sessions a (add_groups session_name groups d)

unfoldable pub build_target_to_replier_map : Assignments → Dict String String
unfolding add_sessions
build_target_to_replier_map assignments = add_sessions assignments []

module _ {R : Redis} where
  abbrev pub save_pair : String → Option Pair → Action R (Unit {0})
  save_pair group none = pure tt
  save_pair group (some pair) = save_group_assignment group pair.primary pair.backup

  -- Pass 2, which saves each new pair.
  unfoldable pub fill : List String → Plan → Action R Plan
  unfolding fill_group save_group_assignment
  fill [] plan = pure plan
  fill (group ∷ groups) plan =
      let (saved, plan') = fill_group group plan in do save_pair group saved; fill groups plan'

  -- The stored pairs of groups that are no targets any more.
  unfoldable pub clean_up : List String → List String → Action R (Unit {0})
  unfolding delete_group_assignment contains
  clean_up targets [] = pure tt
  clean_up targets (group ∷ groups) = do
    (if contains group targets then pure tt else delete_group_assignment group)
    clean_up targets groups

  abbrev pub store_plan : String → Pairs → Option Assignments → Action R (Option Assignments)
  store_plan worker_id pairs none = pure none
  store_plan worker_id pairs (some assignments) = do
    set_replier_assignments worker_id assignments
    set_group_pair_assignments worker_id pairs
    pure (some assignments)

  -- Steps 3 to 5, for the sessions of the healthy repliers.
  unfoldable pub assign_sessions :
      String → List String → List String → Action R (Option Assignments)
  unfolding get_all_group_assignments clean_up retain unused fill reverse_assignments
      set_replier_assignments set_group_pair_assignments
  assign_sessions worker_id targets names = do
    stored ← get_all_group_assignments
    clean_up targets (keys stored)
    let kept =
        retain names stored targets
          (record { pair_map = []; used_sessions = []; available_sessions = [] })
    plan ← fill targets (record kept { available_sessions = unused names kept.used_sessions })
    store_plan worker_id plan.pair_map (reverse_assignments names plan.pair_map)

  abbrev pub unless_none : String → List String → List Account → Action R (Option Assignments)
  unless_none worker_id targets [] = pure (some [])
  unless_none worker_id targets (acc ∷ accs) =
      assign_sessions worker_id targets (session_names (acc ∷ accs))

  unfoldable pub assign_repliers : String → List String → Action R (Option Assignments)
  unfolding assign_sessions get_all_accounts_from_db get_healthy_accounts repliers_of
      set_replier_assignments set_group_pair_assignments
  assign_repliers worker_id [] = do
    set_replier_assignments worker_id []
    set_group_pair_assignments worker_id []
    pure (some [])
  assign_repliers worker_id (t ∷ ts) = do
    all_accounts ← get_all_accounts_from_db
    sessions ← gets (λ w. w.sessions)
    unless_none worker_id (t ∷ ts) (repliers_of (get_healthy_accounts sessions all_accounts))

  -- The parameter `force_rebalance` is not read.
  unfoldable pub auto_assign_repliers :
      String → Option (List String) → Action R (Option Assignments)
  unfolding assign_repliers get_active_targets
  auto_assign_repliers worker_id targets = do
    found ← given_or_active targets
    assign_repliers worker_id found
