-- ===== src/Lib.antt =====
-- The Python backend of a Telegram client: a master (backend/app) and worker nodes
-- (backend/worker.py) that share a state in Redis. Listener accounts watch target groups and put
-- new messages on a queue; the worker whose turn it is takes them from there and answers through
-- replier accounts. The master assigns groups to accounts and rotates the turn.
--
-- Which file models which part:
-- - Data.antt, World.antt: the rows, the JSON values, and the state that a coroutine of one process
--   reads and writes: its `queue_manager` object, its tables, session files and clock, and the Redis
--   server, which all processes share. A coroutine is an `Action`, a function on that state, and an
--   `await` is a bind.
-- - Redis.antt: the Redis server is not part of the repository, so it is a parameter `R`. The
--   record `Laws R` (Redis/Laws.antt) states the documented behaviour of its commands that the
--   theorems rely on, and that it answers them; Redis/Local.antt is a server in memory that has it. A reply `none` is an
--   exception of the client.
-- - Queue.antt and below: backend/app/queue_manager.py. Connection: `connect`, `disconnect`,
--   `flush_redis_state` and the fallback to memory; Jobs: deduplication and the queue; State: the
--   shared values; Workers: the registry; Logs and Counters. Delivery holds the abstract view: one
--   set of messages seen and one list of pending jobs, in the store that the process uses.
-- - Database.antt and below: backend/app/database.py, `init_db` included.
-- - Assigner.antt and below: backend/app/listener_assigner.py. Listeners: `auto_assign_listeners`;
--   Repliers: `auto_assign_repliers` with its two passes, and `build_target_to_replier_map`;
--   Summary: `get_listener_summary`.
--   A result `none` is an exception that escapes (KeyError, IndexError, ZeroDivisionError).
-- - Rotator.antt and below: backend/app/rotator.py. Loop: one turn of `_rotation_loop`, with
--   `recover_errored_and_flood_waited_accounts`; a failed turn is one that an exception ends.
--   Dashboard: `get_current_state`. In both a second has `ticks` units of the clock, any number.
--   Python's `float` on a text that is not the decimal of a whole number is a parameter.
-- - Api.antt and below: backend/app/api.py. Payload: what a request carries; Desk and Auth: the
--   dictionary `pending_auths`, its cleanup, and the login's three routes, with Telethon's login
--   calls as the record `Login`; Names: the name that `add_target` stores; Targets, Accounts and
--   Workers: the other routes; Sockets: `ConnectionManager`; Startup: `lifespan`. The id that SQLite
--   gives to a new row is a parameter.
-- - Worker.antt and below: backend/worker.py. Messages: `new_message_handler`; Accounts:
--   `load_accounts_by_role`; Dispatch: `_dispatch_reply`; Consumer and Round: one round of
--   `consumer_loop`, without and with its refresh.
--   Texts: the operations on texts, and the text that the engine sends. The two calls that reach
--   Telegram are the record `Engine`, and `random.choice` is a parameter. Resolve:
--   `resolve_and_join_target`, over the record `Client`; Setup and Loading: `setup_listeners`, where
--   a handler is known by its chats; Life: `start` and `stop`. Traffic: what one process does on its
--   queue, and any number of nodes, each with a state of its own and connected to one Redis server,
--   as a relation between the states of the server and of the jobs under way; its steps are a
--   handler, a pop, a job that is put back, a job that ends, and whatever leaves the queue and the
--   marks alone.
-- - Engine.antt and below: `reply_to_channel_message` of backend/app/telethon_engine.py, with the
--   library Telethon as the record `Telethon`. Clients: the dictionaries `clients` and
--   `client_tasks`, and the calls that change them.
-- - Prelude.antt and below, Dict.antt: shared tests, lists and dictionaries. Tests.antt and below:
--   runs at concrete inputs.
--
-- Fuel: only `decimal_within`, the decimal digits of a number n, has fuel, n + 1: each digit divides
-- the number by ten. Every other loop is structural.
--
-- Not modelled: the routes that only read a table, the broadcasts, the locks and the semaphore around
-- a reply, the endless loops around a turn, the Go backend (go-backend) and the dashboard (frontend).
-- An action is one coroutine run to its end: interleavings at its awaits are not in the model, and
-- Traffic interleaves whole actions. Several processes are modelled only where they are connected to
-- Redis; a node that falls back to its own memory shares nothing with the others. Marks of messages
-- seen do not expire. Times are whole units, seconds outside Rotator/Loop and Rotator/Dashboard. The
-- formatted details of a log entry are left out.
pub mod Prelude
pub mod Dict
pub mod Data
pub mod Redis
pub mod World
pub mod Queue
pub mod Database
pub mod Api
pub mod Assigner
pub mod Rotator
pub mod Worker
pub mod Engine
mod Tests
