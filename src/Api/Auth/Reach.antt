-- ===== src/Api/Auth/Reach.antt =====
-- The logins of app/api.py over a run of the endpoints.
use telegram_client.Prelude.{
  ℕ, refl, ◌+◌, String, inl, inr, Bool, true, false, not, ◌&&◌, Option, none, some, ◌∷◌, Bool-cases,
  Option-cases, filter, ◌==◌, string_eq, nat_eq, pair_eq, ◌≡◌, [], if◌then◌else◌,
}
use telegram_client.Dict
use telegram_client.Dict.{Dict}
use telegram_client.Redis.{Redis}
use telegram_client.World.{World}
use telegram_client.Api.Desk.{
  Desk, PendingAuth, stale_keys, drop_entry, cleanup_stale_pending_auths, shutdown_auths,
}
use telegram_client.Api.Payload.{
  Parsed, ended, parsed, Value, Payload, str_of, AuthRequest, read_auth_request, Response,
  bad_request, is_truthy,
}
use telegram_client.Api.Auth.{
  Login, SignIn, accepted, password_needed, refused, phone_is_taken, new_entry, keep_entry,
  request_code, begin_auth, send_parsed, send_auth_code, add_account, after_get_me, after_sign_in,
  verify_entry, verify_auth_code, after_password, verify_with_password, verify_auth_password,
  entry_of, field, null,
}
use telegram_client.Api.Auth.Tidy.{
  Tidy, IsTidy, Tidy-pop, Tidy-drop, Tidy-keep, Tidy-fail, Tidy-put, drop_entries-IsTidy,
  Tidy-empty,
}
use telegram_client.Database.{add_log}
use telegram_client.Data.{int_eq, role_eq}

-- What happens to the logins: a request, the cleanup of every minute, the end of the application,
-- and whatever the rest of the backend does to its own state, the clock included.
pub data Step {R : Redis} (L : Login) (d : Desk R) : Desk R → Type 0 where
  sends :
      (api_id : ℕ) (api_hash : String) (payload : Payload)
      → Step L d (send_auth_code L api_id api_hash payload d).1
  verifies_code :
      (new_id : ℕ) (payload : Payload) → Step L d (verify_auth_code L new_id payload d).1
  verifies_password :
      (new_id : ℕ) (payload : Payload) → Step L d (verify_auth_password L new_id payload d).1
  cleans_up : Step L d (cleanup_stale_pending_auths d)
  shuts_down : Step L d (shutdown_auths d)
  elsewhere : (w : World R) → Step L d (record d { world = w })

pub data Reach {R : Redis} (L : Login) (d : Desk R) : Desk R → Type 0 where
  here : Reach L d d
  next : (d' : Desk R) {d'' : Desk R} → Reach L d d' → Step L d' d'' → Reach L d d''

module _ {R : Redis} (L : Login) where
  keep_entry-IsTidy :
      (req : AuthRequest) (o : Option String) (d : Desk R) (n : ℕ)
      → Tidy d.pending_auths d.open_clients n
      → IsTidy
          (keep_entry L req n o
            (record d { open_clients = n ∷ d.open_clients; next_client = n + 1 })).1
  keep_entry-IsTidy req none d n tidy = Tidy-fail d.pending_auths d.open_clients n tidy
  keep_entry-IsTidy req (some code_hash) d n tidy =
      unfold add_log in
      Tidy-put d.pending_auths d.open_clients n tidy req.session_name
        (new_entry req n code_hash d.world.now) refl

  request_code-IsTidy :
      (req : AuthRequest) (b : Bool) (d : Desk R) (n : ℕ)
      → Tidy d.pending_auths d.open_clients n
      → IsTidy (request_code L req n b (record d { next_client = n + 1 })).1
  request_code-IsTidy req false d n tidy = Tidy-keep d.pending_auths d.open_clients n tidy
  request_code-IsTidy req true d n tidy =
      keep_entry-IsTidy req (L.send_code_request n req.phone) d n tidy

  begin_auth-IsTidy : (req : AuthRequest) (d : Desk R) → IsTidy d → IsTidy (begin_auth L req d).1
  unfolding begin_auth drop_entry
  begin_auth-IsTidy req d tidy =
      let n = d.next_client in
      let D = d.pending_auths in
      let key = req.session_name in
      elim (Option-cases (Dict.get key D)) [
        | inl e ↦ rw e (
            request_code-IsTidy req (L.connect n) (record d { pending_auths = Dict.pop key D }) n
              (Tidy-pop D d.open_clients n tidy key))
        | inr (v, e) ↦ rw e (
            request_code-IsTidy req (L.connect n)
              (record d {
                pending_auths = Dict.pop key D;
                open_clients = filter (λ c. not (c == v.client)) d.open_clients;
              })
              n (Tidy-drop D d.open_clients n tidy key v e))
      ]

  send_parsed-IsTidy :
      (o : Parsed AuthRequest) (d : Desk R) → IsTidy d → IsTidy (send_parsed L o d).1
  send_parsed-IsTidy (ended r) d tidy = tidy
  send_parsed-IsTidy (parsed req) d tidy = begin_auth-IsTidy req d tidy

  after_get_me-IsTidy :
      (id : ℕ) (key : String) (entry : PendingAuth) (o : Option Bool) (d : Desk R)
      → IsTidy d
      → IsTidy (after_get_me L id key entry o d).1
  unfolding add_log
  after_get_me-IsTidy id key entry none d tidy = tidy
  after_get_me-IsTidy id key entry (some true) d tidy =
      elim (Bool-cases (phone_is_taken key (str_of entry.phone) d.world.db.accounts)) [
        | inl e ↦ rw e tidy
        | inr e ↦ rw e (Tidy-pop d.pending_auths d.open_clients d.next_client tidy key)
      ]
  after_get_me-IsTidy id key entry (some false) d tidy =
      elim (Bool-cases (phone_is_taken key (str_of entry.phone) d.world.db.accounts)) [
        | inl e ↦ rw e tidy
        | inr e ↦ rw e tidy
      ]

  add_account-IsTidy :
      (id : ℕ) (key : String) (entry : PendingAuth) (d : Desk R)
      → IsTidy d
      → IsTidy (add_account L id key entry d).1
  unfolding add_account
  add_account-IsTidy id key entry d tidy =
      after_get_me-IsTidy id key entry (L.get_me entry.client) d tidy

  verify_entry-IsTidy :
      (id : ℕ) (code : Value) (o : Option (String × PendingAuth)) (d : Desk R)
      → IsTidy d
      → IsTidy (verify_entry L id code o d).1
  verify_entry-IsTidy id code none d tidy = tidy
  verify_entry-IsTidy id code (some (key, e)) d tidy =
      by_answer (L.sign_in e.client e.phone code e.phone_code_hash)
    where
      by_answer : (r : SignIn) → IsTidy (after_sign_in L id key e r d).1
      by_answer accepted = add_account-IsTidy id key e d tidy
      by_answer password_needed = tidy
      by_answer refused = tidy

  verify_with_password-IsTidy :
      (id : ℕ) (password : Value) (o : Option (String × PendingAuth)) (d : Desk R)
      → IsTidy d
      → IsTidy (verify_with_password L id password o d).1
  verify_with_password-IsTidy id password none d tidy = tidy
  verify_with_password-IsTidy id password (some (key, e)) d tidy =
      by_answer (L.sign_in_password e.client password)
    where
      by_answer : (r : SignIn) → IsTidy (after_password L id key e r d).1
      by_answer accepted = add_account-IsTidy id key e d tidy
      by_answer password_needed = tidy
      by_answer refused = tidy

  guarded-IsTidy :
      (b : Bool) (o : Response × Desk R) (d : Desk R)
      → IsTidy o.1
      → IsTidy d
      → IsTidy (if b then o else (bad_request, d)).1
  guarded-IsTidy true o d h tidy = h
  guarded-IsTidy false o d h tidy = tidy

  IsTidy-Step : (d d' : Desk R) → IsTidy d → Step L d d' → IsTidy d'
  unfolding send_auth_code verify_auth_code verify_auth_password cleanup_stale_pending_auths
      shutdown_auths
  IsTidy-Step d d' tidy (sends api_id api_hash payload) =
      send_parsed-IsTidy (read_auth_request d.world.db.settings api_id api_hash payload) d tidy
  IsTidy-Step d d' tidy (verifies_code new_id payload) =
      let session = field "session_name" null payload in
      let code = field "code" null payload in
      let entry = entry_of session d.pending_auths in
      guarded-IsTidy (is_truthy session && is_truthy code) (verify_entry L new_id code entry d) d
        (verify_entry-IsTidy new_id code entry d tidy) tidy
  IsTidy-Step d d' tidy (verifies_password new_id payload) =
      let session = field "session_name" null payload in
      let password = field "password" null payload in
      let entry = entry_of session d.pending_auths in
      guarded-IsTidy (is_truthy session && is_truthy password)
        (verify_with_password L new_id password entry d) d
        (verify_with_password-IsTidy new_id password entry d tidy) tidy
  IsTidy-Step d d' tidy cleans_up =
      drop_entries-IsTidy (stale_keys d.world.now d.pending_auths) d tidy
  IsTidy-Step d d' tidy shuts_down = drop_entries-IsTidy (Dict.keys d.pending_auths) d tidy
  IsTidy-Step d d' tidy (elsewhere w) = tidy

  -- From a start with no login under way, whatever requests, cleanups and other events follow, in
  -- any order: no session waits twice, every waiting session's client is connected, and no two
  -- sessions wait on the same client.
  pub Reach-IsTidy :
      (d d' : Desk R) → d.pending_auths ≡ [] → d.open_clients ≡ [] → Reach L d d' → IsTidy d'
  Reach-IsTidy d d' h k here = rw (h, k) (Tidy-empty d.next_client)
  Reach-IsTidy d d' h k (next e reached step) = IsTidy-Step e d' (Reach-IsTidy d e h k reached) step
