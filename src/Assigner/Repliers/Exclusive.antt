-- ===== src/Assigner/Repliers/Exclusive.antt =====
-- What a worker reads after `auto_assign_repliers` of app/listener_assigner.py.
use telegram_client.Prelude.{
  String, ◌≡◌, true, some, List, nodup, contains, string_eq, nat_eq, pair_eq,
}
use telegram_client.Dict
use telegram_client.Redis.{Redis}
use telegram_client.Redis.Laws.{Laws}
use telegram_client.World.{World}
use telegram_client.Data.{Pair, int_eq, role_eq}
use telegram_client.Queue.State.{get_group_pair_assignments, get_replier_assignments}
use telegram_client.Assigner.Repliers.{assign_sessions}
use telegram_client.Assigner.Repliers.Strict.{uses}
use telegram_client.Assigner.Repliers.Reversed.{lists, serves}
use telegram_client.Assigner.Repliers.Policy.{assign_sessions-IsPolicy}
use telegram_client.Dict.{Dict}

module _ {R : Redis} (L : Laws R) (wid : String) (targets names : List String) (w : World R)
    (distinct : nodup names ≡ true) where
  -- The state that the assignment leaves.
  abbrev assigned : World R
  assigned = (assign_sessions wid targets names w).1

  -- With replier sessions that are all different, and whatever pairs the database holds, no
  -- session serves two groups in the pairs that the worker reads afterwards, be it as primary or
  -- as backup.
  pub assign_sessions-sole :
      (g h s : String) (p q : Pair)
      → Dict.get g (get_group_pair_assignments wid assigned).0 ≡ some p
      → Dict.get h (get_group_pair_assignments wid assigned).0 ≡ some q
      → uses s p ≡ true
      → uses s q ≡ true
      → g ≡ h
  assign_sessions-sole g h s p q =
      (assign_sessions-IsPolicy L wid targets names w distinct).1.strict.sole g h s p q

  -- With replier sessions that are all different, every session in those pairs is one of the sessions given.
  pub assign_sessions-known :
      (g s : String) (p : Pair)
      → Dict.get g (get_group_pair_assignments wid assigned).0 ≡ some p
      → uses s p ≡ true
      → contains s names ≡ true
  assign_sessions-known g s p =
      (assign_sessions-IsPolicy L wid targets names w distinct).1.strict.known g s p

  -- With replier sessions that are all different the assignment ends without an exception, it returns what the worker
  -- reads afterwards, and the two maps that the worker reads agree: a session lists a group exactly
  -- if it is in the group's pair.
  pub assign_sessions-agree :
      (g s : String)
      → ((assign_sessions wid targets names w).0 ≡ some (get_replier_assignments wid assigned).0)
        × (lists s g (get_replier_assignments wid assigned).0
            ≡ serves s g (get_group_pair_assignments wid assigned).0)
  assign_sessions-agree g s =
      let (done, policy) = assign_sessions-IsPolicy L wid targets names w distinct in
      (done, policy.agrees s g)
