-- ===== src/Tests.antt =====
-- Runs at concrete inputs. This file holds the states and the data that the children use.
mod Assignment
mod Delivery
mod Rotation
mod Answers
mod Sending
mod Requests
mod Listening
mod Interleaving
mod Shared
mod Clients
use telegram_client.Prelude.{String, true, false, Option, none, some, List, [], ◌∷◌}
use telegram_client.Redis.{Holds, Key}
use telegram_client.Redis.Local.{local_server, Store}
use telegram_client.World.{World, QueueManager, Database, initial_memory_state}
use telegram_client.Data.{pos, negsuc, Account, replier, resting, flood_wait, WorkerInfo, Job}

abbrev pub no_values : (k : Key) → Option (Holds k)
no_values _ = none

abbrev pub first_account : Account
first_account = record {
  id = 1;
  phone = "+111";
  session_name = "acc_111";
  server_group = pos 1;
  role = replier;
  status = flood_wait;
  flood_until = 50;
}

abbrev pub second_account : Account
second_account = record {
  id = 2;
  phone = "+222";
  session_name = "acc_222";
  server_group = pos 1;
  role = replier;
  status = resting;
  flood_until = 0;
}

abbrev pub database : Database
database = record {
  exists = true;
  accounts = first_account ∷ second_account ∷ [];
  targets = [];
  messages = [];
  settings = [];
  group_assignments =
      ("alpha", record { primary = "acc_111"; backup = "acc_222" })
      ∷ ("beta", record { primary = "acc_222"; backup = "acc_111" })
      ∷ [];
  logs = [];
}

abbrev pub heartbeats : List (String × WorkerInfo)
heartbeats =
    ("worker-2", record { heartbeat = 90; status = "active" })
    ∷ ("worker-1", record { heartbeat = 80; status = "active" })
    ∷ ("worker-3", record { heartbeat = 5; status = "active" })
    ∷ []

abbrev pub connected : QueueManager
connected = record {
  redis_client = true;
  use_redis = true;
  memory_queue = [];
  memory_seen = [];
  memory_state = initial_memory_state;
}

abbrev pub disconnected : QueueManager
disconnected = record connected { redis_client = false; use_redis = false }

abbrev pub one_job : Job
one_job = record {
  chat_id = negsuc 99;
  msg_id = 7;
  text = "hello";
  sender_id = none;
  sender_name = "Unknown";
  reply_to_msg_id = some 6;
  is_reply = true;
  retry_count = 0;
}

abbrev pub store : Store
store = record { at = no_values; jobs = one_job ∷ []; logs = []; workers = heartbeats }

unfoldable pub online_world : World local_server
unfolding local_server
online_world = record {
  queue = connected;
  redis = store;
  db = database;
  sessions = "acc_111" ∷ "acc_222" ∷ [];
  now = 100;
}

unfoldable pub offline_world : World local_server
unfolding local_server
offline_world = record {
  queue = disconnected;
  redis = store;
  db = database;
  sessions = "acc_111" ∷ "acc_222" ∷ [];
  now = 100;
}
