-- ===== src/Database.antt =====
-- app/database.py over the tables of app.db: each function runs one statement and commits. The
-- SQL engine is read at the statements that the backend runs; a statement does not fail.
pub mod Settings
use telegram_client.Prelude.{
  string_eq, String, none, some, [], ◌∷◌, ◌++◌, nat_eq, pair_eq, ℕ, true, if◌then◌else◌, contains,
}
use telegram_client.Dict
use telegram_client.Dict.{Dict}
use telegram_client.Data.{Pair, LogEntry, role_eq, int_eq}
use telegram_client.Redis.{Redis}
use telegram_client.World.{spells, words, Action, Database, SettingText}

-- The list `default_settings`; the API id and hash are those of app/config.py.
abbrev pub default_settings : ℕ → String → Dict String SettingText
default_settings api_id api_hash =
    ("rotation_interval_minutes", spells 10)
    ∷ ("typing_duration_min", spells 1)
    ∷ ("typing_duration_max", spells 3)
    ∷ ("message_delay_min", spells 5)
    ∷ ("message_delay_max", spells 15)
    ∷ ("current_active_server", spells 1)
    ∷ ("is_rotator_running", spells 0)
    ∷ ("shift_started_at", spells 0)
    ∷ ("default_api_id", spells api_id)
    ∷ ("default_api_hash", words api_hash)
    ∷ []

-- INSERT OR IGNORE INTO settings, for each of the list
unfoldable pub insert_or_ignore :
    Dict String SettingText → Dict String SettingText → Dict String SettingText
unfolding contains Dict.put
insert_or_ignore [] settings = settings
insert_or_ignore ((key, val) ∷ defaults) settings =
    insert_or_ignore defaults
      (if Dict.has key settings then settings else Dict.put key val settings)

-- The two statements with ON CONFLICT DO UPDATE.
unfoldable pub reset_typing : Dict String SettingText → Dict String SettingText
reset_typing settings =
    Dict.put "typing_duration_max" (spells 3) (Dict.put "typing_duration_min" (spells 1) settings)

-- The tables of a new file.
abbrev pub empty_database : Database
empty_database = record {
  exists = true;
  accounts = [];
  targets = [];
  messages = [];
  settings = [];
  group_assignments = [];
  logs = [];
}

abbrev pub opened : Database → Database
opened d = if d.exists then d else empty_database

unfoldable pub initialised : ℕ → String → Database → Database
initialised api_id api_hash d = record (opened d) {
  settings = reset_typing (insert_or_ignore (default_settings api_id api_hash) (opened d).settings);
}

module _ {R : Redis} where
  abbrev pub set_db : (Database → Database) → Action R (Unit {0})
  set_db f w = (tt, record w { db = f w.db })

  unfoldable pub get_setting : String → SettingText → Action R SettingText
  get_setting key default w = (elim (Dict.get key w.db.settings) [ none ↦ default | some v ↦ v ], w)

  unfoldable pub set_setting : String → SettingText → Action R (Unit {0})
  set_setting key value = set_db (λ d. record d { settings = Dict.put key value d.settings })

  unfoldable pub add_log : LogEntry → Action R (Unit {0})
  add_log entry = set_db (λ d. record d { logs = d.logs ++ entry ∷ [] })

  unfoldable pub get_all_group_assignments : Action R (Dict String Pair)
  get_all_group_assignments w = (w.db.group_assignments, w)

  unfoldable pub save_group_assignment : String → String → String → Action R (Unit {0})
  save_group_assignment group_target primary_session backup_session = set_db (λ d. record d {
    group_assignments =
        Dict.put group_target (record { primary = primary_session; backup = backup_session })
          d.group_assignments;
  })

  unfoldable pub delete_group_assignment : String → Action R (Unit {0})
  delete_group_assignment group_target =
      set_db (λ d. record d { group_assignments = Dict.pop group_target d.group_assignments })

  -- The columns and indexes that a migration adds are there in the model from the start.
  unfoldable pub init_db : ℕ → String → Action R (Unit {0})
  init_db api_id api_hash = set_db (initialised api_id api_hash)
