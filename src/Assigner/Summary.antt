-- ===== src/Assigner/Summary.antt =====
-- `get_listener_summary` of app/listener_assigner.py, for the dashboard.
use telegram_client.Prelude.{ℕ, String, List, map, length}
use telegram_client.Dict.{Dict}
use telegram_client.Data.{Assignments}
use telegram_client.Redis.{Redis}
use telegram_client.World.{Action, ◌>>=◌, pure}
use telegram_client.Queue.State.{
  get_listener_assignments, get_all_replier_assignments, get_active_targets,
}
use telegram_client.Assigner.Listeners.{max_groups_per_listener}

pub record GroupShare : Type 0 where
  pub group_count : ℕ
  pub groups : List String

pub record Summary : Type 0 where
  pub total_targets : ℕ
  pub total_listeners : ℕ
  pub max_groups : ℕ
  pub listener_shares : Dict String GroupShare
  pub replier_shares : Dict String (Dict String GroupShare)

abbrev pub share_of : List String → GroupShare
share_of groups = record { group_count = length groups; groups = groups }

abbrev pub shares : Assignments → Dict String GroupShare
shares = map (λ e. (e.0, share_of e.1))

module _ {R : Redis} where
  unfoldable pub get_listener_summary : Action R Summary
  get_listener_summary = do
    listeners ← get_listener_assignments
    repliers ← get_all_replier_assignments
    targets ← get_active_targets
    pure (record {
      total_targets = length targets;
      total_listeners = length listeners;
      max_groups = max_groups_per_listener;
      listener_shares = shares listeners;
      replier_shares = map (λ e. (e.0, shares e.1)) repliers;
    })
