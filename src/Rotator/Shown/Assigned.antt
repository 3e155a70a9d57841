-- ===== src/Rotator/Shown/Assigned.antt =====
-- The assignments of app/listener_assigner.py leave the targets alone.
use telegram_client.Prelude.{
  refl, String, true, Option, none, some, List, [], ◌∷◌, contains, string_eq, nat_eq, pair_eq,
  if◌then◌else◌, length,
}
use telegram_client.Dict
use telegram_client.Dict.{Dict}
use telegram_client.Redis.{listener_assignments, replier_assignments, group_pair_assignments, Redis}
use telegram_client.World.{◌>>=◌, pure, Action}
use telegram_client.Data.{Assignments, Pair, Pairs, int_eq, role_eq, Account}
use telegram_client.Database.{
  save_group_assignment, set_db, get_all_group_assignments, delete_group_assignment,
}
use telegram_client.Queue.State.{
  set_listener_assignments, set_replier_assignments, set_group_pair_assignments,
}
use telegram_client.Rotator.Shown.{
  Keeps, Keeps-then, Keeps-pure, Keeps-write, Keeps-db, Keeps-if, Keeps-guard, workers-state,
  of_state,
}
use telegram_client.Assigner.Listeners.{
  assign_listeners, auto_assign_listeners, store, pick_listeners, distribute, assign_anew,
  keep_or_assign, unless_none,
}
use telegram_client.Assigner.Accounts.{
  reset_roles, mark_listeners, update_account_roles_in_db, get_healthy_accounts,
  get_all_accounts_from_db, session_names,
}
use telegram_client.Assigner.Repliers.{
  Plan, fill_group, save_pair, fill, clean_up, store_plan, retain, unused, reverse_assignments,
  assign_sessions, repliers_of, assign_repliers, auto_assign_repliers,
}
use telegram_client.Redis.Laws.{Laws}
use telegram_client.Assigner.Repliers.{unless_none as for_repliers}
use telegram_client.Rotator.{worker_ids, assign_each, assign_workers, assign_all}
use telegram_client.Queue.Workers.{get_registered_workers}

module _ {R : Redis} (L : Laws R) where
  Keeps-set_listeners : (d : Assignments) → Keeps L (set_listener_assignments d)
  unfolding set_listener_assignments
  Keeps-set_listeners d =
      Keeps-write L listener_assignments d (λ m. record m { listener_assignments = d }) (λ p. cc)
        (λ m. refl)

  Keeps-set_repliers :
      (worker_id : String) (d : Assignments) → Keeps L (set_replier_assignments worker_id d)
  unfolding set_replier_assignments
  Keeps-set_repliers worker_id d =
      Keeps-write L (replier_assignments worker_id) d
        (λ m. record m { replier_assignments = Dict.put worker_id d m.replier_assignments })
        (λ p. cc) (λ m. refl)

  Keeps-set_pairs :
      (worker_id : String) (d : Pairs) → Keeps L (set_group_pair_assignments worker_id d)
  unfolding set_group_pair_assignments
  Keeps-set_pairs worker_id d =
      Keeps-write L (group_pair_assignments worker_id) d
        (λ m. record m { pair_assignments = Dict.put worker_id d m.pair_assignments }) (λ p. cc)
        (λ m. refl)

  Keeps-roles : (names : List String) → Keeps L (update_account_roles_in_db names)
  unfolding update_account_roles_in_db
  Keeps-roles names w =
      let write : Action R (Unit {0}) =
        set_db (λ d. record d { accounts = mark_listeners names (reset_roles d.accounts) }) in
      Keeps-guard L w.db.exists write (pure tt) w (Keeps-db L _ (λ d. refl)) (Keeps-pure L tt)

  Keeps-store : (names : List String) (d : Option Assignments) → Keeps L (store names d)
  Keeps-store names none = let o : Option Assignments = none in Keeps-pure L o
  Keeps-store names (some d) =
      Keeps-then L (update_account_roles_in_db names)
        (λ _. set_listener_assignments d >>= λ _. pure (some d)) (Keeps-roles names)
        (λ _.
          Keeps-then L (set_listener_assignments d) (λ _. pure (some d)) (Keeps-set_listeners d)
            (λ _. Keeps-pure L (some d)))

  Keeps-unless_none :
      (targets : List String) (accs : List Account) → Keeps L (unless_none true targets accs)
  unfolding keep_or_assign assign_anew
  Keeps-unless_none targets [] = let o : Option Assignments = some [] in Keeps-pure L o
  Keeps-unless_none targets (acc ∷ accs) =
      let names = pick_listeners (length targets) (acc ∷ accs) in
      Keeps-store names (distribute names targets)

  Keeps-assign_listeners : (targets : List String) → Keeps L (assign_listeners true targets)
  unfolding assign_listeners get_all_accounts_from_db
  Keeps-assign_listeners [] w =
      let done : Option Assignments = some [] in
      Keeps-then L (set_listener_assignments []) (λ _. pure done) (Keeps-set_listeners [])
        (λ _. Keeps-pure L done) w
  Keeps-assign_listeners (t ∷ ts) w =
      Keeps-unless_none (t ∷ ts) (get_healthy_accounts w.sessions (get_all_accounts_from_db w).0) w

  pub Keeps-listeners :
      (targets : List String) → Keeps L (auto_assign_listeners (some targets) true)
  unfolding auto_assign_listeners
  Keeps-listeners targets = Keeps-assign_listeners targets

  Keeps-save : (group : String) (pair : Option Pair) → Keeps L (save_pair group pair)
  unfolding save_group_assignment
  Keeps-save group none = Keeps-pure L tt
  Keeps-save group (some pair) =
      Keeps-db L
        (λ d. record d {
          group_assignments =
              Dict.put group (record { primary = pair.primary; backup = pair.backup })
                d.group_assignments;
        })
        (λ d. refl)

  Keeps-fill : (groups : List String) (plan : Plan) → Keeps L (fill groups plan)
  unfolding fill
  Keeps-fill [] plan = Keeps-pure L plan
  Keeps-fill (group ∷ groups) plan =
      let (saved, plan') = fill_group group plan in
      Keeps-then L (save_pair group saved) (λ _. fill groups plan') (Keeps-save group saved)
        (λ _. Keeps-fill groups plan')

  Keeps-delete : (group : String) → Keeps L (delete_group_assignment group)
  unfolding delete_group_assignment
  Keeps-delete group = Keeps-db L _ (λ d. refl)

  Keeps-clean_up : (targets groups : List String) → Keeps L (clean_up targets groups)
  unfolding clean_up
  Keeps-clean_up targets [] = Keeps-pure L tt
  Keeps-clean_up targets (group ∷ groups) =
      let forget : Action R (Unit {0}) =
        if contains group targets then pure tt else delete_group_assignment group in
      Keeps-then L forget (λ _. clean_up targets groups)
        (Keeps-if L (contains group targets) (pure tt) (delete_group_assignment group)
          (Keeps-pure L tt) (Keeps-delete group))
        (λ _. Keeps-clean_up targets groups)

  Keeps-store_plan :
      (worker_id : String) (pairs : Pairs) (d : Option Assignments)
      → Keeps L (store_plan worker_id pairs d)
  Keeps-store_plan worker_id pairs none = let o : Option Assignments = none in Keeps-pure L o
  Keeps-store_plan worker_id pairs (some d) =
      Keeps-then L (set_replier_assignments worker_id d)
        (λ _. set_group_pair_assignments worker_id pairs >>= λ _. pure (some d))
        (Keeps-set_repliers worker_id d)
        (λ _.
          Keeps-then L (set_group_pair_assignments worker_id pairs) (λ _. pure (some d))
            (Keeps-set_pairs worker_id pairs) (λ _. Keeps-pure L (some d)))

  Keeps-sessions :
      (worker_id : String) (targets names : List String)
      → Keeps L (assign_sessions worker_id targets names)
  unfolding assign_sessions get_all_group_assignments
  Keeps-sessions worker_id targets names w =
      let stored = w.db.group_assignments in
      let kept : Plan =
        retain names stored targets
          (record { pair_map = []; used_sessions = []; available_sessions = [] }) in
      let start : Plan = record kept { available_sessions = unused names kept.used_sessions } in
      let finish : Plan → Action R (Option Assignments) =
        λ plan. store_plan worker_id plan.pair_map (reverse_assignments names plan.pair_map) in
      Keeps-then L (clean_up targets (Dict.keys stored)) (λ _. fill targets start >>= finish)
        (Keeps-clean_up targets (Dict.keys stored))
        (λ _. Keeps-then L (fill targets start) finish (Keeps-fill targets start) (λ plan.
          Keeps-store_plan worker_id plan.pair_map (reverse_assignments names plan.pair_map)))
        w

  Keeps-for_repliers :
      (worker_id : String) (targets : List String) (accs : List Account)
      → Keeps L (for_repliers worker_id targets accs)
  Keeps-for_repliers worker_id targets [] = let o : Option Assignments = some [] in Keeps-pure L o
  Keeps-for_repliers worker_id targets (acc ∷ accs) =
      Keeps-sessions worker_id targets (session_names (acc ∷ accs))

  Keeps-assign_repliers :
      (worker_id : String) (targets : List String) → Keeps L (assign_repliers worker_id targets)
  unfolding assign_repliers get_all_accounts_from_db
  Keeps-assign_repliers worker_id [] w = Keeps-store_plan worker_id [] (some []) w
  Keeps-assign_repliers worker_id (t ∷ ts) w =
      Keeps-for_repliers worker_id (t ∷ ts)
        (repliers_of (get_healthy_accounts w.sessions (get_all_accounts_from_db w).0)) w

  pub Keeps-repliers :
      (worker_id : String) (targets : List String)
      → Keeps L (auto_assign_repliers worker_id (some targets))
  unfolding auto_assign_repliers
  Keeps-repliers worker_id targets = Keeps-assign_repliers worker_id targets

  abbrev go_on : List String → List String → Option Assignments → Action R (Option (Unit {0}))
  go_on workers targets done = elim done [ none ↦ pure none | some _ ↦ assign_each workers targets ]

  Keeps-go_on :
      (workers targets : List String) (done : Option Assignments)
      → Keeps L (assign_each workers targets)
      → Keeps L (go_on workers targets done)
  Keeps-go_on workers targets none k = let o : Option (Unit {0}) = none in Keeps-pure L o
  Keeps-go_on workers targets (some _) k = k

  Keeps-each : (workers targets : List String) → Keeps L (assign_each workers targets)
  Keeps-each [] targets = Keeps-pure L (some tt)
  Keeps-each (worker_id ∷ workers) targets =
      Keeps-then L (auto_assign_repliers worker_id (some targets))
        (λ done. go_on workers targets done) (Keeps-repliers worker_id targets)
        (λ done. Keeps-go_on workers targets done (Keeps-each workers targets))

  Keeps-workers :
      (targets : List String) (o : Option Assignments) → Keeps L (assign_workers targets o)
  Keeps-workers targets none = let o : Option (Unit {0}) = none in Keeps-pure L o
  Keeps-workers targets (some _) =
      Keeps-then L get_registered_workers (λ workers. assign_each (worker_ids workers) targets)
        (of_state L get_registered_workers (workers-state L))
        (λ workers. Keeps-each (worker_ids workers) targets)

  -- The whole assignment, of listeners and of every worker's repliers.
  pub Keeps-all : (targets : List String) → Keeps L (assign_all targets)
  unfolding assign_all
  Keeps-all targets =
      Keeps-then L (auto_assign_listeners (some targets) true) (assign_workers targets)
        (Keeps-listeners targets) (Keeps-workers targets)
