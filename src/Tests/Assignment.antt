-- ===== src/Tests/Assignment.antt =====
-- Runs of app/listener_assigner.py.
use telegram_client.Prelude.{
  ◌*◌, ◌≤◌, String, ◌≡◌, ◌↔◌, refl, true, some, List, [], ◌∷◌, Perm, nodup, contains, arith,
  string_eq, nat_eq, pair_eq,
}
use telegram_client.Dict
use telegram_client.Dict.{Dict}
use telegram_client.Data.{Assignments, Pair, int_eq, role_eq}
use telegram_client.Redis.Local.{local_server, local_server-Laws}
use telegram_client.World.{World}
use telegram_client.Queue.State.{get_group_pair_assignments, get_replier_assignments}
use telegram_client.Assigner.Listeners.{distribute, assigned_targets, calculate_needed_listeners}
use telegram_client.Assigner.Listeners.Share.{every}
use telegram_client.Assigner.Listeners.Deal.{distribute_share}
use telegram_client.Assigner.Listeners.Cover.{distribute-perm}
use telegram_client.Assigner.Listeners.Load.{shares_balanced, needed_least, share-le-max}
use telegram_client.Assigner.Repliers.{assign_sessions, build_target_to_replier_map}
use telegram_client.Assigner.Repliers.Reversed.{lists, serves}
use telegram_client.Assigner.Repliers.Exclusive.{assign_sessions-sole, assign_sessions-agree}
use telegram_client.Assigner.Repliers.Lookup.{first_lister, get-build_target_to_replier_map}
use telegram_client.Tests.{online_world}

abbrev listeners : List String
listeners = "acc_1" ∷ "acc_2" ∷ []

abbrev groups : List String
groups = "a" ∷ "b" ∷ "c" ∷ []

abbrev dealt : Assignments
dealt = ("acc_1", "a" ∷ "c" ∷ []) ∷ ("acc_2", "b" ∷ []) ∷ []

dealt_is : distribute listeners groups ≡ some dealt
unfolding distribute Dict.get Dict.put
dealt_is = refl

listeners_differ : nodup listeners ≡ true
unfolding nodup
listeners_differ = refl

first_listens : contains "acc_1" listeners ≡ true
unfolding contains
first_listens = refl

second_listens : contains "acc_2" listeners ≡ true
unfolding contains
second_listens = refl

first_share : Dict.get "acc_1" dealt ≡ some ("a" ∷ "c" ∷ [])
unfolding Dict.get
first_share = refl

second_share : Dict.get "acc_2" dealt ≡ some ("b" ∷ [])
unfolding Dict.get
second_share = refl

distribute_share_example :
    (d : Assignments) × (distribute listeners groups ≡ some d)
    × (Dict.get "acc_2" d ≡ some (every 2 1 groups))
distribute_share_example = distribute_share listeners groups 1 "acc_2" listeners_differ refl

distribute-perm_example : Perm (assigned_targets dealt) groups
distribute-perm_example = distribute-perm listeners groups dealt dealt_is

shares_balanced_example : 2 ≤ 2
shares_balanced_example =
    shares_balanced listeners groups dealt listeners_differ dealt_is "acc_1" "acc_2"
      ("a" ∷ "c" ∷ []) ("b" ∷ []) first_listens second_listens first_share second_share

enough : calculate_needed_listeners 3 ≤ 2
unfolding calculate_needed_listeners
enough = omega arith

share-le-max_example : 2 ≤ 35
share-le-max_example =
    share-le-max listeners groups dealt listeners_differ dealt_is "acc_1" ("a" ∷ "c" ∷ [])
      first_listens first_share enough

needed_least_example : (calculate_needed_listeners 36 ≤ 1) ↔ (36 ≤ 35 * 1)
needed_least_example = needed_least 36 1

abbrev sessions : List String
sessions = "acc_111" ∷ "acc_222" ∷ []

sessions_differ : nodup sessions ≡ true
unfolding nodup
sessions_differ = refl

abbrev targets : List String
targets = "alpha" ∷ "beta" ∷ []

-- The state after an assignment of both groups, where the database holds conflicting pairs.
abbrev after : World local_server
after = (assign_sessions "worker-1" targets sessions online_world).1

abbrev alpha_pair : Pair
alpha_pair = record { primary = "acc_111"; backup = "acc_222" }

alpha_stored : Dict.get "alpha" (get_group_pair_assignments "worker-1" after).0 ≡ some alpha_pair
unfolding assign_sessions get_group_pair_assignments online_world Dict.get
alpha_stored = refl

assign_sessions-sole_example : ◌≡◌ {A = String} "alpha" "alpha"
assign_sessions-sole_example =
    assign_sessions-sole local_server-Laws "worker-1" targets sessions online_world sessions_differ
      "alpha" "alpha" "acc_111" alpha_pair alpha_pair alpha_stored alpha_stored refl refl

assign_sessions-agree_example :
    ((assign_sessions "worker-1" targets sessions online_world).0
      ≡ some (get_replier_assignments "worker-1" after).0)
    × (lists "acc_111" "alpha" (get_replier_assignments "worker-1" after).0
        ≡ serves "acc_111" "alpha" (get_group_pair_assignments "worker-1" after).0)
assign_sessions-agree_example =
    assign_sessions-agree local_server-Laws "worker-1" targets sessions online_world sessions_differ
      "alpha" "acc_111"

get-build_target_to_replier_map_example :
    Dict.get "a" (build_target_to_replier_map dealt) ≡ first_lister "a" dealt
get-build_target_to_replier_map_example = get-build_target_to_replier_map dealt "a"
