-- ===== src/Assigner/Accounts.antt =====
-- The accounts that may take a role, and the roles written back.
use telegram_client.Prelude.{
  string_eq, String, Bool, true, false, ◌&&◌, List, [], ◌∷◌, map, if◌then◌else◌, contains, filter,
  ◌==◌,
}
use telegram_client.Data.{Account, Status, listener, replier, disabled, unauthorized}
use telegram_client.Redis.{Redis}
use telegram_client.World.{Action}
use telegram_client.Database.{set_db}

-- `status not in ("UNAUTHORIZED", "DISABLED")`
abbrev pub is_usable : Status → Bool
is_usable unauthorized = false
is_usable disabled = false
is_usable _ = true

-- The filter's test: the status, and a session file.
abbrev pub is_healthy : List String → Account → Bool
is_healthy sessions acc = is_usable acc.status && contains acc.session_name sessions

unfoldable pub get_healthy_accounts : List String → List Account → List Account
unfolding filter contains
get_healthy_accounts sessions = filter (is_healthy sessions)

-- `[acc["session_name"] for acc in accounts]`
abbrev pub session_names : List Account → List String
session_names = map (λ acc. acc.session_name)

-- UPDATE accounts SET role = 'REPLIER'
abbrev pub reset_roles : List Account → List Account
reset_roles = map (λ (acc : Account). record acc { role = replier })

-- UPDATE accounts SET role = 'LISTENER' WHERE session_name = sname
abbrev pub mark_listener : String → List Account → List Account
mark_listener sname =
    map
      (λ (acc : Account). if acc.session_name == sname then record acc { role = listener } else acc)

unfoldable pub mark_listeners : List String → List Account → List Account
mark_listeners [] accounts = accounts
mark_listeners (sname ∷ snames) accounts = mark_listeners snames (mark_listener sname accounts)

module _ {R : Redis} where
  -- With no file there are no accounts. The rows come by id.
  unfoldable pub get_all_accounts_from_db : Action R (List Account)
  get_all_accounts_from_db w = (if w.db.exists then w.db.accounts else [], w)

  unfoldable pub update_account_roles_in_db : List String → Action R (Unit {0})
  unfolding mark_listeners
  update_account_roles_in_db snames w =
      if w.db.exists
      then set_db (λ d. record d { accounts = mark_listeners snames (reset_roles d.accounts) }) w
      else (tt, w)
