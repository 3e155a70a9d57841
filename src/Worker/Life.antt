-- ===== src/Worker/Life.antt =====
-- How a worker node of worker.py starts and stops. The two loops that the start ends in, and the wait
-- for replies under way before the stop, are left out.
use telegram_client.Prelude.{String, false, Option, none, some, []}
use telegram_client.World.{◌>>=◌, ◌>>◌, pure, Action}
use telegram_client.Data.{info, Assignments, LogEntry, pos}
use telegram_client.Queue.Connection.{connect, disconnect}
use telegram_client.Worker.Setup.{Listening, Session}
use telegram_client.Redis.{Redis}
use telegram_client.Engine.{Telethon}
use telegram_client.Queue.Logs.{push_worker_log}
use telegram_client.Queue.Workers.{register_worker, unregister_worker}
use telegram_client.Assigner.Listeners.{auto_assign_listeners}
use telegram_client.Assigner.Repliers.{auto_assign_repliers}
use telegram_client.Worker.Loading.{setup_listeners}

abbrev pub initial_listening : String → Listening
initial_listening worker_id = record {
  node = record {
    worker_id = worker_id;
    chat_id_to_target = [];
    target_to_replier = [];
    replier_accounts_cache = [];
  };
  listener_handlers = [];
  listener_targets = [];
  resolved_targets = [];
  self_ids = [];
}

abbrev pub start_log : LogEntry
start_log = record {
  action = "WORKER_START";
  level = info;
  phone = none;
  server_group = some (pos 1);
  target = none;
}

module _ {R : Redis} (T : Telethon) (S : Session) where
  abbrev pub then_setup : Listening → Option Assignments → Action R (Option Listening)
  then_setup l none = pure none
  then_setup l (some _) = setup_listeners T S l

  abbrev pub then_repliers : Listening → Option Assignments → Action R (Option Listening)
  then_repliers l none = pure none
  then_repliers l (some _) = auto_assign_repliers l.node.worker_id none >>= then_setup l

  -- Up to the loops; `none` is an exception that ends the node.
  unfoldable pub start : Listening → Action R (Option Listening)
  start l = do
    connect
    register_worker l.node.worker_id
    push_worker_log start_log
    assigned ← auto_assign_listeners none false
    then_repliers l assigned

  unfoldable pub stop : String → Action R (Unit {0})
  stop worker_id = do unregister_worker worker_id; disconnect
