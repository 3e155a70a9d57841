-- ===== src/Api/Payload.antt =====
-- The JSON object that a request of app/api.py carries, and how the login's request is read from
-- it. Of JSON's values the lists, the objects, the Booleans and the fractions are left out.
use Prim.Native.String.{◌++◌}
use telegram_client.Prelude.{
  ℕ, zero, String, Bool, true, false, not, ◌&&◌, Option, none, some, if◌then◌else◌, string_eq,
  nat_eq, pair_eq,
}
use telegram_client.Data.{ℤ, pos, int_eq, role_eq}
use telegram_client.World.{SettingText, spells, words}
use telegram_client.Dict
use telegram_client.Dict.{Dict}
use telegram_client.Queue.State.{or_default}
use telegram_client.Worker.Texts.{is_empty, without, decimal}
use telegram_client.Worker.Texts.Numbers.{int_of, int_text, strip}

pub data Value : Type 0 where
  text : String → Value
  number : ℤ → Value
  null : Value

abbrev pub Payload : Type 0
Payload = Dict String Value

-- The status of the response: `success` and `password_required` are 200, `bad_request` 400,
-- `not_found` 404, and `server_error` 500, for an exception that nothing handles.
pub data Response : Type 0 where
  success password_required bad_request not_found server_error : Response

-- A value, or the response that ends the handler.
pub data Parsed {ℓ} (A : Type ℓ) : Type ℓ where
  parsed : A → Parsed A
  ended : Response → Parsed A

infixl 5 ◌>>=◌
abbrev pub ◌>>=◌ {ℓ κ} : {A : Type ℓ} {B : Type κ} → Parsed A → (A → Parsed B) → Parsed B
parsed a >>= f = f a
ended r >>= f = ended r

-- `payload.get(key, default)`
abbrev pub field : String → Value → Payload → Value
field key default payload = or_default default (Dict.get key payload)

-- `bool(value)`
abbrev pub is_truthy : Value → Bool
is_truthy (text s) = not (is_empty s)
is_truthy (number (pos zero)) = false
is_truthy (number _) = true
is_truthy null = false

-- `str(value)`
abbrev pub str_of : Value → String
str_of (text s) = s
str_of (number n) = int_text n
str_of null = "None"

abbrev pub or_ended {ℓ} : {A : Type ℓ} → Response → Option A → Parsed A
or_ended r none = ended r
or_ended r (some a) = parsed a

-- `int(value)`
abbrev pub int_value : Value → Parsed ℤ
int_value (text s) = or_ended server_error (int_of s)
int_value (number n) = parsed n
int_value null = ended server_error

-- The text of a setting.
abbrev pub setting_text : SettingText → String
setting_text (spells n) = decimal n
setting_text (words s) = s

abbrev pub setting_int : SettingText → Parsed ℤ
setting_int (spells n) = parsed (pos n)
setting_int (words s) = or_ended server_error (int_of s)

-- `if value and str(value).strip()`
abbrev pub has_value : Value → Bool
has_value v = is_truthy v && not (is_empty (strip (str_of v)))

-- What `send_auth_code` reads before it asks Telegram.
pub record AuthRequest : Type 0 where
  pub phone : Value
  pub session_name : String
  pub server_group : ℤ
  pub api_id : ℤ
  pub api_hash : String

-- `f"acc_{phone.replace('+', '').replace(' ', '')}"`; a phone that is no text has no `replace`.
abbrev pub default_session : Value → Parsed Value
default_session (text s) = parsed (text ("acc_" ++ without " " 0 (without "+" 0 s)))
default_session _ = ended server_error

abbrev pub chosen_session : Value → Value → Parsed Value
chosen_session session phone = if is_truthy session then parsed session else default_session phone

abbrev pub require : Bool → Response → Parsed (Unit {0})
require true r = parsed tt
require false r = ended r

-- `os.path.join(SESSIONS_DIR, session_name)` wants a text.
abbrev pub session_text : Value → Parsed String
session_text (text s) = parsed s
session_text _ = ended server_error

module _ (settings : Dict String SettingText) (default_api_id : ℕ) (default_api_hash : String) where
  abbrev pub api_id_value : Value → Parsed ℤ
  api_id_value v =
      if has_value v
      then int_value v
      else setting_int (or_default (spells default_api_id) (Dict.get "default_api_id" settings))

  abbrev pub api_hash_value : Value → String
  api_hash_value v =
      if has_value v
      then strip (str_of v)
      else setting_text (or_default (words default_api_hash) (Dict.get "default_api_hash" settings))

  unfoldable pub read_auth_request : Payload → Parsed AuthRequest
  read_auth_request payload = do
    session ← chosen_session (field "session_name" null payload) (field "phone" null payload)
    group ← int_value (field "server_group" (number (pos 1)) payload)
    _ ← require (is_truthy (field "phone" null payload)) bad_request
    api_id ← api_id_value (field "api_id" null payload)
    session_name ← session_text session
    parsed (record {
      phone = field "phone" null payload;
      session_name = session_name;
      server_group = group;
      api_id = api_id;
      api_hash = api_hash_value (field "api_hash" null payload);
    })
