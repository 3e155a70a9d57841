-- ===== src/Tests/Rotation.antt =====
-- Runs of app/rotator.py and of the worker registry.
use telegram_client.Prelude.{
  ℕ, ◌<◌, String, ◌≡◌, refl, true, false, none, some, List, [], ◌∷◌, contains, string_eq, nodup,
  nat_eq, pair_eq,
}
use telegram_client.Redis.Local.{local_server-Laws}
use telegram_client.Queue.Connection.{is_online}
use telegram_client.Queue.Workers.{get_alive_worker_ids}
use telegram_client.Rotator.{Rotator, rotate_consumer, start, stop}
use telegram_client.Rotator.Turns.{turns, turns-reach}
use telegram_client.Rotator.Turns.{follower}
use telegram_client.Rotator.Shift.{consumer, rotate_consumer_lem}
use telegram_client.Rotator.Restart.{start-stop_offline}
use telegram_client.Tests.{online_world, offline_world}
use telegram_client.Data.{int_eq, role_eq}

abbrev three : List String
three = "worker-1" ∷ "worker-2" ∷ "worker-3" ∷ []

abbrev idle : Rotator
idle = record { is_running = false; last_targets = none; last_recovery_check = 0 }

turns-reach_example : (k : ℕ) × (k < 3) × (turns k "worker-3" three ≡ some "worker-2")
turns-reach_example =
    turns-reach "worker-3" "worker-2" three (unfold nodup in refl) (unfold contains in refl)
      (unfold contains in refl)

alive_example : (get_alive_worker_ids online_world).0 ≡ "worker-1" ∷ "worker-2" ∷ []
unfolding get_alive_worker_ids online_world
alive_example = refl

nobody_alive : (get_alive_worker_ids offline_world).0 ≡ []
unfolding get_alive_worker_ids offline_world
nobody_alive = refl

rotate_consumer_lem_example :
    let (res, w') = rotate_consumer online_world in
    (res ≡ some tt)
    × (consumer w' ≡ follower "worker-1" (consumer online_world) ("worker-1" ∷ "worker-2" ∷ []))
    × (contains (consumer w') ("worker-1" ∷ "worker-2" ∷ []) ≡ true)
rotate_consumer_lem_example =
    rotate_consumer_lem local_server-Laws online_world "worker-1" ("worker-2" ∷ []) alive_example

start-stop_offline_example : is_online (start idle (stop idle online_world).1).1 ≡ false
start-stop_offline_example = start-stop_offline idle idle online_world
