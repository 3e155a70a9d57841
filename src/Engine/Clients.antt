-- ===== src/Engine/Clients.antt =====
-- The clients and the tasks that `TelethonEngine` of app/telethon_engine.py keeps for the accounts.
-- Accounts, clients and tasks are numbers; a task that is cancelled counts as done at once, a
-- disconnection succeeds, and the files and tables that the same methods change are in Engine.antt.
pub mod Kept
pub mod Started
pub mod Runs
pub mod Closed
use telegram_client.Prelude.{
  ℕ, ◌+◌, Bool, false, not, Option, none, some, List, [], ◌∷◌, filter, contains, if◌then◌else◌,
  ◌==◌, nat_eq, string_eq, pair_eq,
}
use telegram_client.Dict
use telegram_client.Dict.{Dict}
use telegram_client.Engine.{
  ConnectResult, authorized, not_authorized, auth_error_raised, error_raised,
}
use telegram_client.Data.{int_eq, role_eq}

-- `connected` are the clients for which `is_connected()` holds, `running` the tasks for which
-- `done()` does not.
pub record Clients : Type 0 where
  pub clients : Dict ℕ ℕ
  pub client_tasks : Dict ℕ ℕ
  pub connected : List ℕ
  pub running : List ℕ
  pub next_client : ℕ
  pub next_task : ℕ

-- `TelethonEngine()`
abbrev pub new_engine : Clients
new_engine = record {
  clients = [];
  client_tasks = [];
  connected = [];
  running = [];
  next_client = 0;
  next_task = 0;
}

-- `client.disconnect()`, and the end of a task.
abbrev pub without : ℕ → List ℕ → List ℕ
without n = filter (λ m. not (m == n))

abbrev pub disconnect : ℕ → Clients → Clients
disconnect c e = record e { connected = without c e.connected }

abbrev pub end_task : ℕ → Clients → Clients
end_task t e = record e { running = without t e.running }

abbrev pub is_among : Option ℕ → List ℕ → Bool
is_among none running = false
is_among (some t) running = contains t running

abbrev pub create_task : ℕ → Clients → Clients
create_task acc_id e = record e {
  client_tasks = Dict.put acc_id e.next_task e.client_tasks;
  running = e.next_task ∷ e.running;
  next_task = e.next_task + 1;
}

unfoldable pub start_client_loop : ℕ → Clients → Clients
start_client_loop acc_id e =
    if is_among (Dict.get acc_id e.client_tasks) e.running then e else create_task acc_id e

abbrev cancel : ℕ → Option ℕ → Clients → Clients
cancel acc_id none e = e
cancel acc_id (some t) e = end_task t (record e { client_tasks = Dict.pop acc_id e.client_tasks })

-- `self.client_tasks.pop(acc_id)`, and the task is cancelled.
unfoldable pub cancel_task : ℕ → Clients → Clients
cancel_task acc_id e = cancel acc_id (Dict.get acc_id e.client_tasks) e

abbrev drop : ℕ → Option ℕ → Clients → Clients
drop acc_id none e = e
drop acc_id (some c) e = disconnect c (record e { clients = Dict.pop acc_id e.clients })

-- `self.clients.pop(acc_id)`, and the client is disconnected.
unfoldable pub drop_client : ℕ → Clients → Clients
drop_client acc_id e = drop acc_id (Dict.get acc_id e.clients) e

unfoldable pub disconnect_account : ℕ → Clients → Clients
unfolding cancel_task drop_client
disconnect_account acc_id e = drop_client acc_id (cancel_task acc_id e)

-- The loop over the accounts of `disconnect_all`.
unfoldable pub disconnect_each : List ℕ → Clients → Clients
unfolding disconnect_account
disconnect_each [] e = e
disconnect_each (acc_id ∷ acc_ids) e = disconnect_each acc_ids (disconnect_account acc_id e)

unfoldable pub disconnect_all : Clients → Clients
unfolding disconnect_each
disconnect_all e = disconnect_each (Dict.keys e.clients) e

-- The first half of `handle_invalid_session`. A client that is given is disconnected, and the
-- account's entry in `clients` stays.
unfoldable pub discard_client : ℕ → Option ℕ → Clients → Clients
unfolding cancel_task drop_client
discard_client acc_id none e = drop_client acc_id (cancel_task acc_id e)
discard_client acc_id (some c) e = disconnect c (cancel_task acc_id e)

abbrev pub keep_client : ℕ → ℕ → Clients → Clients
keep_client acc_id c e = record e { clients = Dict.put acc_id c e.clients }

-- What becomes of the new client `c`.
abbrev pub settle : ℕ → ℕ → ConnectResult → Clients → Clients × Option ℕ
settle acc_id c authorized e = (keep_client acc_id c (start_client_loop acc_id e), some c)
settle acc_id c not_authorized e = (discard_client acc_id (some c) e, none)
settle acc_id c auth_error_raised e = (discard_client acc_id (some c) e, none)
settle acc_id c error_raised e = (e, none)

abbrev pub open_client : Clients → Clients
open_client e = record e {
  connected = e.next_client ∷ e.connected;
  next_client = e.next_client + 1;
}

abbrev pub connect_client : Bool → ℕ → ConnectResult → Clients → Clients × Option ℕ
connect_client has_credentials acc_id result e =
    if has_credentials then settle acc_id e.next_client result (open_client e) else (e, none)

abbrev reuse : Bool → ℕ → ConnectResult → Option ℕ → Clients → Clients × Option ℕ
reuse has_credentials acc_id result none e = connect_client has_credentials acc_id result e
reuse has_credentials acc_id result (some c) e =
    if contains c e.connected
    then (start_client_loop acc_id e, some c)
    else connect_client has_credentials acc_id result e

-- `get_client_for_account`, with what the account's row holds and how a new connection ends.
unfoldable pub client_for_account : Bool → ℕ → ConnectResult → Clients → Clients × Option ℕ
client_for_account has_credentials acc_id result e =
    reuse has_credentials acc_id result (Dict.get acc_id e.clients) e

-- How the body of `_run_client_task` ends.
pub data TaskEnd : Type 0 where
  until_disconnected session_revoked cancelled loop_failed : TaskEnd

abbrev pub after_run : ℕ → ℕ → TaskEnd → Clients → Clients
after_run acc_id c session_revoked e = discard_client acc_id (some c) e
after_run acc_id c until_disconnected e = e
after_run acc_id c cancelled e = e
after_run acc_id c loop_failed e = e

-- The end of the task `t`, which runs the client `c`.
unfoldable pub run_client_task : ℕ → ℕ → ℕ → TaskEnd → Clients → Clients
run_client_task acc_id c t result e = end_task t (after_run acc_id c result e)
