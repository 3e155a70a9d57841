-- ===== src/Api/Targets.antt =====
-- The endpoints of app/api.py for the settings, the messages and the targets: each changes a table,
-- and then the rotator synchronises Redis.
pub mod Stored
use telegram_client.Prelude.{
  ℕ, String, Bool, true, false, not, ◌||◌, Option, none, some, List, [], ◌∷◌, ◌++◌, if◌then◌else◌,
  filter, ◌==◌, string_eq, nat_eq, pair_eq,
}
use telegram_client.Dict
use telegram_client.Dict.{Dict}
use telegram_client.World.{◌>>=◌, ◌>>◌, SettingText, Row, Action, pure, gets}
use telegram_client.Api.Payload.{Response, success, bad_request}
use telegram_client.Api.Names.{normalised}
use telegram_client.Worker.Texts.Numbers.{strip}
use telegram_client.Rotator.{Rotator, sync_state_to_redis}
use telegram_client.Redis.{Redis}
use telegram_client.Database.{set_db, set_setting, delete_group_assignment}
use telegram_client.Queue.State.{or_default}
use telegram_client.Worker.Texts.{is_empty}
use telegram_client.Data.{int_eq, role_eq}

unfoldable pub has_content : String → List Row → Bool
has_content content [] = false
has_content content (row ∷ rows) = row.content == content || has_content content rows

abbrev pub new_row : ℕ → String → Row
new_row id content = record { id = id; content = content; is_active = true }

-- DELETE FROM … WHERE id = ?
abbrev pub delete_row : ℕ → List Row → List Row
delete_row id = filter (λ row. not (row.id == id))

unfoldable pub find_row : ℕ → List Row → Option Row
find_row id [] = none
find_row id (row ∷ rows) = let rest = find_row id rows in if row.id == id then some row else rest

-- INSERT OR IGNORE INTO targets
unfoldable pub insert_target : ℕ → String → List Row → List Row
insert_target new_id username rows =
    if has_content username rows then rows else rows ++ new_row new_id username ∷ []

module _ {R : Redis} where
  abbrev pub synced : Rotator → Action R (Response × Rotator)
  synced r = do r' ← sync_state_to_redis r; pure (success, r')

  abbrev pub set_settings : Dict String SettingText → Action R (Unit {0})
  set_settings [] = pure tt
  set_settings ((key, val) ∷ payload) = do set_setting key val; set_settings payload

  -- The payload's values are the texts that `str` gives.
  unfoldable pub update_settings : Dict String SettingText → Rotator → Action R (Response × Rotator)
  update_settings payload r = do set_settings payload; synced r

  -- `new_id` is the id that SQLite gives to the row.
  unfoldable pub add_message : ℕ → Dict String String → Rotator → Action R (Response × Rotator)
  add_message new_id payload r =
      let content = or_default "" (Dict.get "content" payload) in
      if is_empty content
      then pure (bad_request, r)
      else (set_db (λ d. record d { messages = d.messages ++ new_row new_id content ∷ [] })
          >> synced r)

  unfoldable pub delete_message : ℕ → Rotator → Action R (Response × Rotator)
  delete_message msg_id r = do
    set_db (λ d. record d { messages = delete_row msg_id d.messages })
    synced r

  unfoldable pub add_target : ℕ → Dict String String → Rotator → Action R (Response × Rotator)
  add_target new_id payload r =
      let username = strip (or_default "" (Dict.get "username" payload)) in
      if is_empty username
      then pure (bad_request, r)
      else (set_db
            (λ d. record d { targets = insert_target new_id (normalised username) d.targets })
          >> synced r)

  -- `if row and row["username"]`
  abbrev pub forget_pair : Option Row → Action R (Unit {0})
  forget_pair none = pure tt
  forget_pair (some row) =
      if is_empty row.content then pure tt else delete_group_assignment row.content

  unfoldable pub delete_target : ℕ → Rotator → Action R (Response × Rotator)
  delete_target target_id r = do
    row ← gets (λ w. find_row target_id w.db.targets)
    forget_pair row
    set_db (λ d. record d { targets = delete_row target_id d.targets })
    synced r
