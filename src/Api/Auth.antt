-- ===== src/Api/Auth.antt =====
-- The login endpoints of app/api.py and the dictionary `pending_auths`. Telegram is reached through
-- the library Telethon, which is a parameter.
pub mod Tidy
pub mod Reach
pub mod Accepted
use telegram_client.Prelude.{
  ℕ, ◌+◌, String, Bool, true, false, not, ◌&&◌, ◌||◌, Option, none, some, List, [], ◌∷◌,
  if◌then◌else◌, ◌==◌, string_eq, nat_eq, pair_eq,
}
use telegram_client.Dict
use telegram_client.Api.Payload.{ended, parsed, text, Value, field, is_truthy}
use telegram_client.Api.Desk.{Desk, PendingAuth, drop_entry, log_auth, close}
use telegram_client.Database.{set_db}
use telegram_client.Dict.{Dict}
use telegram_client.Redis.{Redis}
use telegram_client.Data.{ℤ, replier, resting, Account, Level, info, LogEntry, int_eq, role_eq}
use telegram_client.Api.Payload.{
  Payload, Response, password_required, bad_request, Parsed, str_of, AuthRequest, read_auth_request,
  success, null,
}

-- How `client.sign_in` ends; SessionPasswordNeededError is `password_needed`.
pub data SignIn : Type 0 where
  accepted password_needed refused : SignIn

-- What Telethon answers. A client is known by the number under which it was created. The answer to
-- `connect` is false for an exception, `send_code_request` gives the code's hash or `none` for an
-- exception, and `get_me` is `none` for an exception, and says else whether there is a user.
pub record Login : Type 0 where
  pub connect : ℕ → Bool
  pub send_code_request : ℕ → Value → Option String
  pub sign_in : ℕ → Value → Value → String → SignIn
  pub sign_in_password : ℕ → Value → SignIn
  pub get_me : ℕ → Option Bool

abbrev pub auth_log : String → Level → Value → LogEntry
auth_log action level phone = record {
  action = action;
  level = level;
  phone = some (str_of phone);
  server_group = none;
  target = none;
}

abbrev pub same_session : String → Account → Bool
same_session session_name acc = acc.session_name == session_name

-- A row of another session that has the phone: the column is UNIQUE.
unfoldable pub phone_is_taken : String → String → List Account → Bool
phone_is_taken session_name phone [] = false
phone_is_taken session_name phone (acc ∷ accs) =
    (acc.phone == phone && not (same_session session_name acc))
    || phone_is_taken session_name phone accs

-- INSERT INTO accounts … ON CONFLICT(session_name) DO UPDATE SET phone, status = 'RESTING', …
unfoldable pub upsert_account : ℕ → String → String → ℤ → List Account → List Account
upsert_account new_id phone session_name group [] =
    record {
      id = new_id;
      phone = phone;
      session_name = session_name;
      server_group = group;
      role = replier;
      status = resting;
      flood_until = 0;
    }
    ∷ []
upsert_account new_id phone session_name group (acc ∷ accs) =
    let rest = upsert_account new_id phone session_name group accs in
    if same_session session_name acc
    then record acc { phone = phone; status = resting } ∷ accs
    else acc ∷ rest

abbrev pub new_entry : AuthRequest → ℕ → String → ℕ → PendingAuth
new_entry req client code_hash now = record {
  client = client;
  phone = req.phone;
  session_name = req.session_name;
  server_group = req.server_group;
  phone_code_hash = code_hash;
  api_id = req.api_id;
  api_hash = req.api_hash;
  created_at = now;
}

-- The session that the payload names, with its entry; a name that is no text is no key.
abbrev pub with_key : String → Option PendingAuth → Option (String × PendingAuth)
with_key s none = none
with_key s (some entry) = some (s, entry)

abbrev pub entry_of : Value → Dict String PendingAuth → Option (String × PendingAuth)
entry_of (text s) pending = with_key s (Dict.get s pending)
entry_of _ pending = none

module _ {R : Redis} (L : Login) where
  -- After `send_code_request`: `none` is its exception.
  abbrev pub keep_entry : AuthRequest → ℕ → Option String → Desk R → Response × Desk R
  keep_entry req client none d = (bad_request, close client d)
  keep_entry req client (some code_hash) d = (
    success,
    log_auth (auth_log "AUTH_CODE_SENT" info req.phone) (record d {
      pending_auths =
          Dict.put req.session_name (new_entry req client code_hash d.world.now) d.pending_auths;
    }),
  )

  -- After `client.connect()`: false is its exception.
  abbrev pub request_code : AuthRequest → ℕ → Bool → Desk R → Response × Desk R
  request_code req client false d = (bad_request, d)
  request_code req client true d =
      keep_entry req client (L.send_code_request client req.phone)
        (record d { open_clients = client ∷ d.open_clients })

  -- The new client is made, and the one that waits under the session's name is dropped.
  unfoldable pub begin_auth : AuthRequest → Desk R → Response × Desk R
  begin_auth req d =
      request_code req d.next_client (L.connect d.next_client)
        (drop_entry req.session_name (record d { next_client = d.next_client + 1 }))

  abbrev pub send_parsed : Parsed AuthRequest → Desk R → Response × Desk R
  send_parsed (ended r) d = (r, d)
  send_parsed (parsed req) d = begin_auth req d

  unfoldable pub send_auth_code : ℕ → String → Payload → Desk R → Response × Desk R
  send_auth_code default_api_id default_api_hash payload d =
      send_parsed (read_auth_request d.world.db.settings default_api_id default_api_hash payload) d

  abbrev pub store_account : ℕ → String → PendingAuth → Desk R → Desk R
  store_account new_id session_name entry d = record d {
    world =
        (set_db
          (λ b. record b {
            accounts =
                upsert_account new_id (str_of entry.phone) session_name entry.server_group
                  b.accounts;
          })
          d.world).1;
  }

  abbrev pub finish : ℕ → String → PendingAuth → Desk R → Desk R
  finish new_id session_name entry d =
      let d' : Desk R =
        log_auth (auth_log "AUTH_SUCCESS" Level.success entry.phone)
          (store_account new_id session_name entry d) in
      record d' { pending_auths = Dict.pop session_name d'.pending_auths }

  -- After the row is committed: a missing user fails at the entry of the log, and the login waits on.
  abbrev pub after_commit : ℕ → String → PendingAuth → Bool → Desk R → Response × Desk R
  after_commit new_id session_name entry true d = (success, finish new_id session_name entry d)
  after_commit new_id session_name entry false d =
      (bad_request, store_account new_id session_name entry d)

  -- The row is not stored if its phone is another session's: then the statement raises.
  abbrev pub after_get_me : ℕ → String → PendingAuth → Option Bool → Desk R → Response × Desk R
  after_get_me new_id session_name entry none d = (bad_request, d)
  after_get_me new_id session_name entry (some has_user) d =
      if phone_is_taken session_name (str_of entry.phone) d.world.db.accounts
      then (bad_request, d)
      else after_commit new_id session_name entry has_user d

  unfoldable pub add_account : ℕ → String → PendingAuth → Desk R → Response × Desk R
  unfolding upsert_account phone_is_taken
  add_account new_id session_name entry d =
      after_get_me new_id session_name entry (L.get_me entry.client) d

  abbrev pub after_sign_in : ℕ → String → PendingAuth → SignIn → Desk R → Response × Desk R
  after_sign_in new_id session_name entry accepted d = add_account new_id session_name entry d
  after_sign_in new_id session_name entry password_needed d = (password_required, d)
  after_sign_in new_id session_name entry refused d = (bad_request, d)

  abbrev pub verify_entry : ℕ → Value → Option (String × PendingAuth) → Desk R → Response × Desk R
  verify_entry new_id code none d = (bad_request, d)
  verify_entry new_id code (some (session_name, entry)) d =
      after_sign_in new_id session_name entry
        (L.sign_in entry.client entry.phone code entry.phone_code_hash) d

  -- `new_id` is the id that SQLite gives to a new row.
  unfoldable pub verify_auth_code : ℕ → Payload → Desk R → Response × Desk R
  verify_auth_code new_id payload d =
      if is_truthy (field "session_name" null payload) && is_truthy (field "code" null payload)
      then verify_entry new_id (field "code" null payload)
          (entry_of (field "session_name" null payload) d.pending_auths) d
      else (bad_request, d)

  -- An exception for a missing password is handled as any other.
  abbrev pub after_password : ℕ → String → PendingAuth → SignIn → Desk R → Response × Desk R
  after_password new_id session_name entry accepted d = add_account new_id session_name entry d
  after_password new_id session_name entry _ d = (bad_request, d)

  abbrev pub verify_with_password :
      ℕ → Value → Option (String × PendingAuth) → Desk R → Response × Desk R
  verify_with_password new_id password none d = (bad_request, d)
  verify_with_password new_id password (some (session_name, entry)) d =
      after_password new_id session_name entry (L.sign_in_password entry.client password) d

  unfoldable pub verify_auth_password : ℕ → Payload → Desk R → Response × Desk R
  verify_auth_password new_id payload d =
      if is_truthy (field "session_name" null payload) && is_truthy (field "password" null payload)
      then verify_with_password new_id (field "password" null payload)
          (entry_of (field "session_name" null payload) d.pending_auths) d
      else (bad_request, d)
