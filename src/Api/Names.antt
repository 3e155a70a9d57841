-- ===== src/Api/Names.antt =====
-- The name under which `add_target` of app/api.py stores a target.
pub mod Spellings
use Prim.Native.String.{◌++◌}
use telegram_client.Prelude.{String, ◌||◌, if◌then◌else◌}
use telegram_client.Worker.Texts.Parts.{after_last, drop_chars, lstrip_slash, rstrip_slash}
use telegram_client.Worker.Texts.{has_infix, starts_with}

-- `clean_name if clean_name.startswith("@") else "@" + clean_name`
abbrev pub with_at : String → String
with_at clean_name = if starts_with "@" clean_name then clean_name else "@" ++ clean_name

abbrev pub invite_link : String → String
invite_link username =
    if starts_with "http" username
    then username
    else "https://t.me/"
      ++ (if starts_with "t.me" username then drop_chars 2 username else lstrip_slash username)

-- The name under which `add_target` stores the target.
unfoldable pub normalised : String → String
unfolding after_last lstrip_slash rstrip_slash drop_chars
normalised username =
    if has_infix "+" username || has_infix "joinchat/" username
    then invite_link username
    else if has_infix "t.me/" username
    then with_at (lstrip_slash (rstrip_slash (after_last "t.me/" username)))
    else with_at username
