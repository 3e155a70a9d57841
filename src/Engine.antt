-- ===== src/Engine.antt =====
-- Sending a reply, as app/telethon_engine.py does. Telegram is reached through the library
-- Telethon, which is a parameter. The clients and tasks that the engine keeps are in
-- Engine/Clients.antt. The pause for the typing indicator is left out.
pub mod Outcomes
pub mod Revoked
pub mod Clients
use Prim.Native.String.{◌++◌}
use telegram_client.Prelude.{
  ℕ, ◌+◌, String, Bool, true, false, not, ◌&&◌, ◌||◌, Option, none, some, List, map, filter,
  contains, if◌then◌else◌, ◌==◌, string_eq, nat_eq, pair_eq, [], ◌∷◌,
}
use telegram_client.Data.{
  ℤ, Account, Status, active, typing, flood_wait, error, unauthorized, Level, info, warning,
  success, failure, LogEntry, int_eq, role_eq,
}
use telegram_client.Redis.{Redis}
use telegram_client.World.{Action, ◌>>=◌, ◌>>◌, pure, gets}
use telegram_client.Database.{set_db, add_log}
use telegram_client.Queue.Logs.{push_worker_log}
use telegram_client.Worker.Dispatch.{Engine}
use telegram_client.Worker.Texts.{full_message, is_empty}

-- How `client.connect()` and the first `is_user_authorized()` end.
pub data ConnectResult : Type 0 where
  authorized not_authorized auth_error_raised error_raised : ConnectResult

-- How `client.send_message` ends: the exceptions by the handler that takes them.
pub data SendResult : Type 0 where
  sent auth_error other_error : SendResult
  flood_wait_error : ℕ → SendResult

-- What Telethon answers for an account at the moment of the call. `has_client` says that the engine
-- holds a connected client, `has_credentials` that an API id and hash are configured.
pub record Telethon : Type 0 where
  pub has_client : Account → Bool
  pub has_credentials : Account → Bool
  pub connect : Account → ConnectResult
  pub is_user_authorized : Account → Bool
  pub send_message : Account → ℤ → String → ℕ → SendResult

-- UPDATE accounts SET … WHERE id = ?
unfoldable pub update_account : ℕ → (Account → Account) → List Account → List Account
update_account id f = map (λ (acc : Account). if acc.id == id then f acc else acc)

abbrev pub with_status : Status → Account → Account
with_status status acc = record acc { status = status }

abbrev pub with_flood : ℕ → Account → Account
with_flood until acc = record acc { status = flood_wait; flood_until = until }

-- `s.endswith(".session")`
unfoldable pub ends_with_session : String → Bool
ends_with_session String.[] = false
ends_with_session (String.◌∷◌ c s) = String.◌∷◌ c s == ".session" || ends_with_session s

abbrev pub invalid_file : String → String
invalid_file sname = if ends_with_session sname then sname else sname ++ ".session"

abbrev pub engine_log : String → Level → Account → Option ℤ → LogEntry
engine_log action level acc target = record {
  action = action;
  level = level;
  phone = some acc.phone;
  server_group = some acc.server_group;
  target = target;
}

module _ {R : Redis} where
  -- A worker node without the tables ignores the error.
  unfoldable pub safe_update : Account → (Account → Account) → Action R (Unit {0})
  safe_update acc f w =
      if w.db.exists
      then set_db (λ d. record d { accounts = update_account acc.id f d.accounts }) w
      else (tt, w)

  -- To the tables, or to the queue of logs on a node without them.
  unfoldable pub safe_add_log : LogEntry → Action R (Unit {0})
  safe_add_log entry w = if w.db.exists then add_log entry w else push_worker_log entry w

  -- The second half, on the session file, which is renamed.
  unfoldable pub handle_invalid_session : Account → Action R (Unit {0})
  handle_invalid_session acc w = if is_empty acc.session_name then (tt, w) else (
    tt,
    record w {
      sessions = filter (λ s. not (s ++ ".session" == invalid_file acc.session_name)) w.sessions;
    },
  )

module _ {R : Redis} (T : Telethon) where
  abbrev pub after_connect : Account → ConnectResult → Action R Bool
  after_connect acc authorized = pure true
  after_connect acc not_authorized = do
    safe_update acc (with_status unauthorized)
    safe_add_log (engine_log "AUTH" warning acc none)
    handle_invalid_session acc
    pure false
  after_connect acc auth_error_raised = do
    safe_update acc (with_status unauthorized)
    safe_add_log (engine_log "AUTH" failure acc none)
    handle_invalid_session acc
    pure false
  after_connect acc error_raised = do
    safe_add_log (engine_log "CONNECT" failure acc none)
    pure false

  -- Whether there is a client.
  unfoldable pub get_client_for_account : Account → Action R Bool
  get_client_for_account acc =
      if T.has_client acc
      then pure true
      else if T.has_credentials acc && not (is_empty acc.session_name)
      then after_connect acc (T.connect acc)
      else pure false

  unfoldable pub after_send : Account → ℤ → SendResult → Action R Bool
  after_send acc target sent = do
    safe_update acc (with_status active)
    safe_add_log (engine_log "AUTO_REPLY" success acc (some target))
    pure true
  after_send acc target (flood_wait_error seconds) = do
    now ← gets (λ w. w.now)
    safe_update acc (with_flood (now + seconds))
    safe_add_log (engine_log "RATE_LIMIT" warning acc (some target))
    pure false
  after_send acc target auth_error = do
    safe_update acc (with_status unauthorized)
    safe_add_log (engine_log "AUTH" failure acc (some target))
    handle_invalid_session acc
    pure false
  after_send acc target other_error = do
    safe_update acc (with_status error)
    safe_add_log (engine_log "AUTO_REPLY" failure acc (some target))
    pure false

  abbrev pub refuse : Account → ℤ → Action R Bool
  refuse acc target = do
    safe_update acc (with_status unauthorized)
    safe_add_log (engine_log "AUTH" warning acc (some target))
    pure false

  abbrev pub send_with : Account → ℤ → ℕ → String → Bool → Action R Bool
  send_with acc target msg_id text has_client =
      if has_client && T.is_user_authorized acc
      then after_send acc target (T.send_message acc target (full_message text msg_id) msg_id)
      else refuse acc target

  -- Without a session file nothing is sent, and the run counts as a success.
  abbrev pub send_or_simulate : Account → ℤ → ℕ → String → Bool → Action R Bool
  send_or_simulate acc target msg_id text false = after_send acc target sent
  send_or_simulate acc target msg_id text true =
      get_client_for_account acc >>= send_with acc target msg_id text

  unfoldable pub reply_to_channel_message : Account → ℤ → ℕ → String → Action R Bool
  reply_to_channel_message acc target_chat message_id message_text = do
    has_real_session ← gets (λ w. contains acc.session_name w.sessions)
    safe_update acc (with_status typing)
    safe_add_log (engine_log "TYPING" info acc (some target_chat))
    send_or_simulate acc target_chat message_id message_text has_real_session

-- `engine_instance`, as the dispatch of a worker sees it; `resolve` is the worker's own
-- `_ensure_replier_resolved`.
unfoldable pub engine_instance :
    {R : Redis} → Telethon → (Account → ℤ → Action R (Unit {0})) → Engine R
engine_instance T resolve = record {
  ensure_resolved = resolve;
  reply_to_channel_message =
      λ acc chat_id msg_id text. reply_to_channel_message T acc chat_id msg_id text;
}
