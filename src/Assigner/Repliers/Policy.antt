-- ===== src/Assigner/Repliers/Policy.antt =====
-- `auto_assign_repliers` of app/listener_assigner.py as its callers see it: the strict policy, and
-- the two maps that it stores.
use telegram_client.Prelude.{
  String, ◌≡◌, refl, ap, ◌∙◌, true, some, List, [], nodup, string_eq, nat_eq, pair_eq, sym,
}
use telegram_client.Dict
use telegram_client.Dict.{Dict}
use telegram_client.Redis.{replier_assignments, group_pair_assignments, Redis}
use telegram_client.Data.{Assignments, Pairs, int_eq, role_eq}
use telegram_client.World.{World}
use telegram_client.Queue.State.{
  or_default, set_replier_assignments, get_replier_assignments, set_group_pair_assignments,
  get_group_pair_assignments,
}
use telegram_client.Queue.Reads.{
  read_key-write_key_ne, get-set_replier_assignments, get-set_group_pair_assignments,
}
use telegram_client.Assigner.Repliers.{
  store_plan, assign_sessions, Plan, retain, unused, reverse_assignments, fill, clean_up, keys,
}
use telegram_client.Assigner.Repliers.Strict.{IsStrict, IsStrict-empty}
use telegram_client.Redis.Laws.{Laws}
use telegram_client.Assigner.Repliers.Reversed.{lists, serves, reverse-serves}
use telegram_client.Assigner.Repliers.Filled.{IsReady, fill-IsReady, unused-IsReady}
use telegram_client.Assigner.Repliers.Retained.{retain-IsStrict}

-- `assignments` lists a group under a session exactly if the group's pair in `pairs` has it, the
-- sessions are known ones, and no session has two groups.
pub record IsPolicy (names : List String) (pairs : Pairs) (assignments : Assignments) : Type 0 where
  pub used : List String
  pub strict : IsStrict names pairs used
  pub agrees : (s g : String) → lists s g assignments ≡ serves s g pairs

module _ {R : Redis} (L : Laws R) where
  -- What the two last writes leave to read.
  store_plan-reads :
      (wid : String) (pairs : Pairs) (a : Assignments) (w : World R)
      → let w' = (store_plan wid pairs (some a) w).1 in
        ((get_group_pair_assignments wid w').0 ≡ pairs) × ((get_replier_assignments wid w').0 ≡ a)
  store_plan-reads wid pairs a w =
      let w₁ = (set_replier_assignments wid a w).1 in
      (
        ap (λ p. p.0) (get-set_group_pair_assignments L wid pairs w₁),
        unfold set_group_pair_assignments get_replier_assignments in
            read_key-write_key_ne L (group_pair_assignments wid) (replier_assignments wid) pairs
              (λ m. record m { pair_assignments = Dict.put wid pairs m.pair_assignments })
              (λ m. or_default [] (Dict.get wid m.replier_assignments)) (λ e. cc) (λ m. refl) w₁
            ∙ ap (λ p. p.0) (get-set_replier_assignments L wid a w),
      )

  -- With replier sessions that are all different, the assignment succeeds whatever pairs the
  -- database holds. The pairs stored for the worker use known sessions only and no session for
  -- two groups; the stored assignments are the returned ones, and list exactly these pairs.
  pub assign_sessions-IsPolicy :
      (wid : String) (targets names : List String) (w : World R)
      → nodup names ≡ true
      → let (r, w') = assign_sessions wid targets names w in
        (r ≡ some (get_replier_assignments wid w').0)
        × IsPolicy names (get_group_pair_assignments wid w').0 (get_replier_assignments wid w').0
  unfolding assign_sessions
  assign_sessions-IsPolicy wid targets names w distinct = rw done (
      let (pairs-read, list-read) = store_plan-reads wid plan.pair_map a w₂ in
      (
        ap some (sym list-read),
        rw (pairs-read, list-read)
            (record { used = plan.used_sessions; strict = ready.strict; agrees = agrees }),
      ))
    where
      stored : Pairs
      stored = w.db.group_assignments

      start : Plan
      start = record { pair_map = []; used_sessions = []; available_sessions = [] }

      kept : Plan
      kept = retain names stored targets start

      ready₀ : IsReady names (record kept { available_sessions = unused names kept.used_sessions })
      ready₀ =
          unused-IsReady names kept distinct
            (retain-IsStrict names stored targets start IsStrict-empty)

      w₁ : World R
      w₁ = (clean_up targets (keys stored) w).1

      plan : Plan
      plan =
          (fill targets (record kept { available_sessions = unused names kept.used_sessions }) w₁).0

      w₂ : World R
      w₂ =
          (fill targets (record kept { available_sessions = unused names kept.used_sessions }) w₁).1

      ready : IsReady names plan
      ready = fill-IsReady names targets _ w₁ ready₀

      reversed :
          (a : Assignments) × (reverse_assignments names plan.pair_map ≡ some a)
          × ((s g : String) → lists s g a ≡ serves s g plan.pair_map)
      reversed = reverse-serves names plan.used_sessions plan.pair_map ready.strict

      a : Assignments
      a = reversed.0

      done : reverse_assignments names plan.pair_map ≡ some a
      done = reversed.1

      agrees : (s g : String) → lists s g a ≡ serves s g plan.pair_map
      agrees = reversed.2
