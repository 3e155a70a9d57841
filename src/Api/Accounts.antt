-- ===== src/Api/Accounts.antt =====
-- The endpoints of app/api.py for the accounts and the listeners.
use Prim.Native.Char.{code}
use telegram_client.Prelude.{
  ℕ, ◌-◌, String, Bool, true, false, not, ◌&&◌, Option, none, some, List, [], ◌∷◌, leb, nat_beq,
  if◌then◌else◌, filter, ◌==◌, string_eq, nat_eq, pair_eq,
}
use telegram_client.Dict
use telegram_client.Dict.{Dict}
use telegram_client.World.{◌>>=◌, ◌>>◌, Action, pure, gets}
use telegram_client.Api.Payload.{Response, success, bad_request, not_found, server_error}
use telegram_client.Redis.{Redis}
use telegram_client.Data.{
  Role, listener, replier, Account, Level, info, LogEntry, int_eq, role_eq, warning,
}
use telegram_client.Database.{set_db, add_log}
use telegram_client.Engine.{Telethon, update_account}
use telegram_client.Queue.State.{or_default}
use telegram_client.Rotator.Loop.{recover_errored_and_flood_waited_accounts}
use telegram_client.Assigner.Listeners.{auto_assign_listeners}

unfoldable pub find_account : ℕ → List Account → Option Account
find_account id [] = none
find_account id (acc ∷ accs) =
    let rest = find_account id accs in if acc.id == id then some acc else rest

abbrev pub upper_code : ℕ → ℕ
upper_code n = if leb 97 n && leb n 122 then n - 32 else n

-- `text.upper() == word`, for letters of ASCII.
unfoldable pub upper_is : String → String → Bool
upper_is String.[] String.[] = true
upper_is (String.◌∷◌ p ps) (String.◌∷◌ c s) =
    nat_beq (code p) (upper_code (code c)) && upper_is ps s
upper_is _ _ = false

unfoldable pub role_of : String → Option Role
unfolding upper_is
role_of role =
    if upper_is "LISTENER" role
    then some listener
    else if upper_is "REPLIER" role
    then some replier
    else none

abbrev pub account_log : String → Level → Option String → LogEntry
account_log action level phone = record {
  action = action;
  level = level;
  phone = phone;
  server_group = none;
  target = none;
}

-- `none` is an exception, which nothing handles.
abbrev pub respond {ℓ} : {A : Type ℓ} → Option A → Response
respond none = server_error
respond (some _) = success

module _ {R : Redis} where
  abbrev pub update_role : ℕ → Role → Option Account → Action R Response
  update_role acc_id role none = pure not_found
  update_role acc_id role (some _) = do
    set_db (λ d. record d {
      accounts = update_account acc_id (λ acc. record acc { role = role }) d.accounts;
    })
    add_log (account_log "ROLE_CHANGE" info none)
    pure success

  abbrev pub set_role : ℕ → Option Role → Action R Response
  set_role acc_id none = pure bad_request
  set_role acc_id (some role) = do
    found ← gets (λ w. find_account acc_id w.db.accounts)
    update_role acc_id role found

  unfoldable pub set_account_role : ℕ → Dict String String → Action R Response
  unfolding role_of
  set_account_role acc_id payload =
      set_role acc_id (role_of (or_default "" (Dict.get "role" payload)))

  -- The session's file is removed, unless the removal raises.
  abbrev pub remove_session : (String → Bool) → String → Action R (Unit {0})
  remove_session is_removable session w = (
    tt,
    record w {
      sessions =
          if is_removable session then filter (λ s. not (s == session)) w.sessions else w.sessions;
    },
  )

  abbrev pub forget_account : (String → Bool) → Option Account → Action R (Unit {0})
  forget_account is_removable none = pure tt
  forget_account is_removable (some acc) = do
    remove_session is_removable acc.session_name
    add_log (account_log "ACCOUNT_DELETED" warning (some acc.phone))

  -- `engine_instance.disconnect_account` is the engine's.
  unfoldable pub delete_account : (String → Bool) → ℕ → Action R Response
  delete_account is_removable acc_id = do
    row ← gets (λ w. find_account acc_id w.db.accounts)
    forget_account is_removable row
    set_db (λ d. record d { accounts = filter (λ acc. not (acc.id == acc_id)) d.accounts })
    pure success

  unfoldable pub rebalance_listeners : Action R Response
  rebalance_listeners = do assignments ← auto_assign_listeners none true; pure (respond assignments)

  unfoldable pub retry_error_accounts : Telethon → (Account → Option Bool) → Action R Response
  retry_error_accounts T probe = do
    res ← recover_errored_and_flood_waited_accounts 1 T probe
    pure (respond res)
