-- ===== src/Tests/Requests.antt =====
-- Runs of app/api.py and of the rotation loop.
use Prim.Native.String.{◌++◌}
use telegram_client.Prelude.{
  ◌≡◌, refl, ◌*◌, ◌≢◌, true, false, none, some, [], ◌∷◌, arith, nat_beq, contains, nodup, string_eq,
  nat_eq, pair_eq, ◌+◌, ltb, ◌-◌,
}
use telegram_client.World.{World, words, spells}
use telegram_client.Worker.Texts.{starts_with, has_infix}
use telegram_client.Api.Names.{normalised}
use telegram_client.Rotator.Dashboard.{remaining, elapsed, whole_seconds}
use telegram_client.Dict
use telegram_client.Dict.{Dict}
use telegram_client.Redis.Local.{local_server}
use telegram_client.Api.Payload.{text, null, Payload, AuthRequest, field}
use telegram_client.Data.{pos, resting, Account, int_eq, role_eq}
use telegram_client.Api.Auth.{
  SignIn, accepted, Login, phone_is_taken, upsert_account, begin_auth, send_auth_code, add_account,
  verify_auth_code,
}
use telegram_client.Api.Auth.Reach.{here, next, sends, cleans_up, Reach-IsTidy}
use telegram_client.Rotator.Loop.{is_due}
use telegram_client.Tests.{offline_world, database}
use telegram_client.Database.{add_log, init_db}
use telegram_client.Api.Desk.{PendingAuth, Desk, drop_entry, cleanup_stale_pending_auths}
use telegram_client.Api.Auth.Tidy.{IsTidy}
use telegram_client.Api.Auth.Accepted.{
  account_of, verify_auth_code_accounts, verify_auth_code-begin_auth,
}
use telegram_client.Api.Desk.Cleanup.{without_entries, cleanup_stale_pending_auths-without_entries}
use telegram_client.Api.Names.Spellings.{normalised_public, normalised_invite}
use telegram_client.Rotator.Loop.Due.{is_due-remaining}
use telegram_client.Database.Settings.{get-init_db}

-- A Telegram that sends every code and takes it back.
abbrev login : Login
login = record {
  connect = λ client. true;
  send_code_request = λ client phone. some "h4sh";
  sign_in = λ client phone code code_hash. accepted;
  sign_in_password = λ client password. accepted;
  get_me = λ client. some true;
}

abbrev empty_desk : Desk local_server
empty_desk = record {
  world = offline_world;
  pending_auths = [];
  open_clients = [];
  next_client = 0;
}

abbrev send_payload : Payload
send_payload = ("phone", text "+49 30") ∷ []

abbrev sent_desk : Desk local_server
sent_desk = (send_auth_code login 1 "hash" send_payload empty_desk).1

Reach-IsTidy_example : IsTidy (cleanup_stale_pending_auths sent_desk)
Reach-IsTidy_example =
    Reach-IsTidy login empty_desk (cleanup_stale_pending_auths sent_desk) refl refl
      (next sent_desk (next empty_desk here (sends 1 "hash" send_payload)) cleans_up)

abbrev request : AuthRequest
request = record {
  phone = text "+333";
  session_name = "acc_333";
  server_group = pos 1;
  api_id = pos 1;
  api_hash = "hash";
}

abbrev code_payload : Payload
code_payload = ("session_name", text "acc_333") ∷ ("code", text "12345") ∷ []

phone_free : phone_is_taken "acc_333" "+333" offline_world.db.accounts ≡ false
unfolding phone_is_taken offline_world
phone_free = refl

names_session : field "session_name" null code_payload ≡ text "acc_333"
unfolding Dict.get
names_session = refl

names_code : field "code" null code_payload ≡ text "12345"
unfolding Dict.get
names_code = refl

abbrev verified_desk : Desk local_server
verified_desk = (verify_auth_code login 3 code_payload (begin_auth login request empty_desk).1).1

verify_auth_code-begin_auth_example :
    (acc : Account) × (account_of "acc_333" verified_desk.world.db.accounts ≡ some acc)
    × (acc.phone ≡ "+333")
    × (acc.status ≡ resting)
    × (Dict.get "acc_333" verified_desk.pending_auths ≡ none)
verify_auth_code-begin_auth_example =
    verify_auth_code-begin_auth login 3 request (text "12345") "h4sh" code_payload empty_desk refl
      refl refl refl phone_free refl refl names_session names_code

abbrev waiting_desk : Desk local_server
waiting_desk = (begin_auth login request empty_desk).1

accounts_change :
    (verify_auth_code login 3 code_payload waiting_desk).1.world.db.accounts
    ≢ waiting_desk.world.db.accounts
unfolding verify_auth_code begin_auth drop_entry Dict.get Dict.put Dict.pop add_account
    upsert_account phone_is_taken offline_world add_log
accounts_change h = cc

verify_auth_code_accounts_example :
    (entry : PendingAuth) × (Dict.get "acc_333" waiting_desk.pending_auths ≡ some entry)
    × (◌≡◌ {A = SignIn} accepted accepted)
verify_auth_code_accounts_example =
    verify_auth_code_accounts login 3 "acc_333" (text "12345") code_payload waiting_desk
      names_session names_code accounts_change

abbrev old_entry : PendingAuth
old_entry = record {
  client = 0;
  phone = text "+333";
  session_name = "acc_333";
  server_group = pos 1;
  phone_code_hash = "h4sh";
  api_id = pos 1;
  api_hash = "hash";
  created_at = 0;
}

abbrev stale_desk : Desk local_server
stale_desk = record {
  world = record offline_world { now = 700 };
  pending_auths = ("acc_333", old_entry) ∷ [];
  open_clients = 0 ∷ [];
  next_client = 1;
}

no_session_twice : nodup (Dict.keys stale_desk.pending_auths) ≡ true
unfolding nodup contains
no_session_twice = refl

cleanup_stale_pending_auths-without_entries_example :
    cleanup_stale_pending_auths stale_desk
    ≡ without_entries (λ e. ltb (e.created_at + 600) 700) stale_desk
cleanup_stale_pending_auths-without_entries_example =
    cleanup_stale_pending_auths-without_entries stale_desk no_session_twice

normalised_public_example :
    (normalised "group" ≡ "@" ++ "group")
    × (normalised ("@" ++ "group") ≡ "@" ++ "group")
    × (normalised ("t.me/" ++ "group") ≡ "@" ++ "group")
    × (normalised ("https://t.me/" ++ "group") ≡ "@" ++ "group")
normalised_public_example =
    unfold has_infix starts_with in normalised_public "group" refl refl refl refl refl

normalised_invite_example : normalised ("t.me/" ++ "+h4sh") ≡ "https://t.me/" ++ ("me/" ++ "+h4sh")
normalised_invite_example = normalised_invite "+h4sh" (unfold has_infix starts_with in refl)

-- The clock counts tenths of seconds: ten minutes of a turn that began at 10.0 s, half a second before
-- they are over.
is_due-remaining_example :
    nat_beq (whole_seconds 10 (remaining true (100 * 60) (elapsed 100 6095))) 0
    ≡ is_due 100 100 (6095 + 10 - 1)
is_due-remaining_example =
    is_due-remaining 10 100 100 6095 (omega arith) (omega arith) (omega arith)

abbrev spoilt_world : World local_server
spoilt_world = record offline_world {
  db = record database { settings = ("rotation_interval_minutes", words "soon") ∷ [] };
}

get-init_db_example :
    Dict.get "typing_duration_min" (init_db 1 "hash" spoilt_world).1.db.settings ≡ some (spells 1)
get-init_db_example = get-init_db 1 "hash" "typing_duration_min" spoilt_world
