-- ===== src/Tests/Shared.antt =====
-- What reaches a worker, which is a process of its own on the same server.
use telegram_client.Prelude.{
  ◌≡◌, refl, String, true, false, none, [], ◌∷◌, ◌++◌, string_eq, nat_eq, pair_eq,
}
use telegram_client.World.{World}
use telegram_client.Api.Payload.{success}
use telegram_client.Worker.Texts.Numbers.{strip}
use telegram_client.Dict
use telegram_client.Dict.{Dict}
use telegram_client.Api.Names.{normalised}
use telegram_client.Redis.Local.{local_server, local_server-Laws, Store}
use telegram_client.Tests.{online_world, database, connected}
use telegram_client.Rotator.{active_contents, Rotator, sync_state_to_redis}
use telegram_client.Queue.State.{or_default, get_active_targets}
use telegram_client.Api.Startup.{startup_contents, sync_sqlite_to_redis_on_startup}
use telegram_client.Api.Targets.{has_content, add_target}
use telegram_client.Api.Startup.Published.{startup-get_active_targets}
use telegram_client.Api.Targets.Stored.{get_active_targets-add_target}
use telegram_client.Rotator.Shown.Synced.{sync-get_active_targets}
use telegram_client.Worker.Texts.{starts_with, has_infix}
use telegram_client.Data.{int_eq, role_eq}

abbrev with_target : World local_server
with_target = record online_world {
  db = record database {
    targets =
        record { id = 1; content = "@alpha"; is_active = true }
        ∷ record { id = 2; content = "@beta"; is_active = false }
        ∷ [];
  };
}

abbrev idle : Rotator
idle = record { is_running = false; last_targets = none; last_recovery_check = 0 }

-- A worker without the tables.
unfoldable worker_on : Store → World local_server
unfolding local_server
worker_on s = record {
  queue = connected;
  redis = s;
  db = record database { exists = false };
  sessions = [];
  now = 100;
}

abbrev store_of : World local_server → Store
unfolding local_server
store_of w = w.redis

abbrev synced : Store
synced = store_of (sync_state_to_redis idle with_target).1

sync-get_active_targets_example :
    ((get_active_targets (worker_on synced)).0 ≡ "@alpha" ∷ [])
    × ((sync_state_to_redis idle with_target).1.db.targets ≡ with_target.db.targets)
unfolding active_contents worker_on online_world store_of
sync-get_active_targets_example =
    sync-get_active_targets local_server-Laws idle with_target (worker_on synced) refl refl refl

abbrev new_target : Dict String String
new_target = ("username", " gamma ") ∷ []

is_trimmed : strip (or_default "" (Dict.get "username" new_target)) ≡ "gamma"
unfolding strip Dict.get
is_trimmed = refl

is_new : has_content (normalised "gamma") with_target.db.targets ≡ false
unfolding has_content normalised has_infix starts_with
is_new = refl

abbrev extended : Store
extended = store_of (add_target 3 new_target idle with_target).1

get_active_targets-add_target_example :
    ((add_target 3 new_target idle with_target).0.0 ≡ success)
    × ((get_active_targets (worker_on extended)).0
        ≡ active_contents with_target.db.targets ++ normalised "gamma" ∷ [])
unfolding worker_on online_world store_of
get_active_targets-add_target_example =
    get_active_targets-add_target local_server-Laws 3 new_target "gamma" idle with_target
      (worker_on extended) is_trimmed refl is_new refl refl refl

abbrev begun : Store
begun = store_of (sync_sqlite_to_redis_on_startup with_target).1

startup-get_active_targets_example : (get_active_targets (worker_on begun)).0 ≡ "@alpha" ∷ []
unfolding startup_contents worker_on online_world store_of local_server
startup-get_active_targets_example =
    startup-get_active_targets local_server-Laws with_target (worker_on begun) refl refl refl
