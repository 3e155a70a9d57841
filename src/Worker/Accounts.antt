-- ===== src/Worker/Accounts.antt =====
-- The accounts that a worker loads from its session files, as worker.py does.
use Prim.Native.String.{◌++◌}
use telegram_client.Prelude.{
  String, ◌&&◌, Option, none, some, List, [], ◌∷◌, if◌then◌else◌, ◌==◌, string_eq, nat_eq, pair_eq,
  map,
}
use telegram_client.Data.{Account, Role, role_eq, int_eq}
use telegram_client.Redis.{Redis}
use telegram_client.World.{Action, gets}
use telegram_client.Worker.Texts.{has_infix, without}
use telegram_client.Assigner.Accounts.{is_usable}
use telegram_client.Queue.Workers.{sorted}

-- `db_accounts.get(session_name)`: the last row of that name.
unfoldable pub last_of_session : String → List Account → Option Account
last_of_session sname [] = none
last_of_session sname (acc ∷ accs) = elim (last_of_session sname accs) [
  | some later ↦ some later
  | none ↦ if acc.session_name == sname then some acc else none
]

abbrev pub phone_of : String → String
phone_of sname = if has_infix "acc_" sname then "+" ++ without "acc_" 0 sname else sname

-- the files' names
abbrev pub session_files : List String → List String
session_files = map (λ stem. stem ++ ".session")

abbrev pub keep_account : Role → String → Option Account → List Account → List Account
keep_account role sname none rest = rest
keep_account role sname (some acc) rest =
    if acc.role == role && is_usable acc.status
    then record acc { phone = phone_of sname; session_name = sname } ∷ rest
    else rest

-- The loop over the sorted files.
unfoldable pub accounts_of_files : Role → List Account → List String → List Account
accounts_of_files role rows [] = []
accounts_of_files role rows (sfile ∷ sfiles) =
    let sname : String = without ".session" 0 sfile in
    keep_account role sname (last_of_session sname rows) (accounts_of_files role rows sfiles)

module _ {R : Redis} where
  -- Without SESSIONS_DIR there are no files; without app.db no file has a row.
  unfoldable pub load_accounts_by_role : Role → Action R (List Account)
  load_accounts_by_role role = gets (λ w.
      accounts_of_files role (if w.db.exists then w.db.accounts else [])
        (sorted (session_files w.sessions)))
