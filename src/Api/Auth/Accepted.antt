-- ===== src/Api/Auth/Accepted.antt =====
-- What a login of app/api.py takes to make an account.
use telegram_client.Prelude.{
  ℕ, ◌≢◌, String, ◌≡◌, true, false, Option, none, some, List, [], ◌∷◌, if◌then◌else◌, string_eq,
  nat_eq, pair_eq, refl, inl, inr, Bool, ◌&&◌, Bool-cases, ==_refl, ◌+◌, ap, ◌∙◌, Option-cases,
}
use telegram_client.Dict
use telegram_client.Dict.{Dict}
use telegram_client.Redis.{Redis}
use telegram_client.Api.Desk.{Desk, PendingAuth, drop_entry}
use telegram_client.Api.Payload.{
  text, null, Value, Payload, is_truthy, str_of, AuthRequest, Response, bad_request,
}
use telegram_client.Api.Auth.{
  Login, accepted, same_session, phone_is_taken, upsert_account, begin_auth, verify_auth_code,
  field, SignIn, password_needed, with_key, add_account, after_sign_in, verify_entry, success,
  finish, refused, new_entry,
}
use telegram_client.Data.{ℤ, resting, Account, int_eq, role_eq}
use telegram_client.Worker.Texts.{is_empty}
use telegram_client.Database.{add_log}

-- The row of `accounts` that a session has.
pub account_of : String → List Account → Option Account
account_of session [] = none
account_of session (acc ∷ accs) =
    let rest = account_of session accs in if same_session session acc then some acc else rest

upsert-account_of :
    (new_id : ℕ) (phone session : String) (group : ℤ) (accs : List Account)
    → (acc : Account) × (account_of session (upsert_account new_id phone session group accs)
        ≡ some acc)
      × (acc.phone ≡ phone)
      × (acc.status ≡ resting)
unfolding account_of upsert_account
upsert-account_of new_id phone session group [] = rw (==_refl session) (_, refl, refl, refl)
upsert-account_of new_id phone session group (acc ∷ accs) =
    let rest = upsert-account_of new_id phone session group accs in
    elim (Bool-cases (same_session session acc)) [
      | inl e ↦ rw (e, e) (record acc { phone = phone; status = resting }, refl, refl, refl)
      | inr e ↦ rw (e, e) rest
    ]

module _ {R : Redis} (L : Login) where
  accounts_by_answer :
      (new_id : ℕ) (key : String) (e : PendingAuth) (r : SignIn) (d : Desk R)
      → (after_sign_in L new_id key e r d).1.world.db.accounts ≢ d.world.db.accounts
      → r ≡ accepted
  accounts_by_answer new_id key e accepted d changed = refl
  accounts_by_answer new_id key e password_needed d changed = absurd (changed refl)
  accounts_by_answer new_id key e refused d changed = absurd (changed refl)

  accounts_by_entry :
      (new_id : ℕ) (key : String) (code : Value) (o : Option PendingAuth) (d : Desk R)
      → (verify_entry L new_id code (with_key key o) d).1.world.db.accounts ≢ d.world.db.accounts
      → (e : PendingAuth) × (o ≡ some e)
        × (L.sign_in e.client e.phone code e.phone_code_hash ≡ accepted)
  accounts_by_entry new_id key code none d changed = absurd (changed refl)
  accounts_by_entry new_id key code (some e) d changed = (
    e,
    refl,
    accounts_by_answer new_id key e (L.sign_in e.client e.phone code e.phone_code_hash) d changed,
  )

  accounts_of_guarded :
      (b : Bool) (o : Response × Desk R) (d : Desk R)
      → (if b then o else (bad_request, d)).1.world.db.accounts ≢ d.world.db.accounts
      → o.1.world.db.accounts ≢ d.world.db.accounts
  accounts_of_guarded true o d changed = changed
  accounts_of_guarded false o d changed = absurd (changed refl)

  verify_known :
      (new_id : ℕ) (key : String) (code : Value) (entry : PendingAuth) (payload : Payload)
      (d : Desk R)
      → field "session_name" null payload ≡ text key
      → field "code" null payload ≡ code
      → is_empty key ≡ false
      → is_truthy code ≡ true
      → Dict.get key d.pending_auths ≡ some entry
      → L.sign_in entry.client entry.phone code entry.phone_code_hash ≡ accepted
      → L.get_me entry.client ≡ some true
      → phone_is_taken key (str_of entry.phone) d.world.db.accounts ≡ false
      → verify_auth_code L new_id payload d ≡ (success, finish L new_id key entry d)
  unfolding verify_auth_code add_account
  verify_known new_id key code entry payload d hs hc ne ct known ok me free =
      rw (hs, hc, ne, ct, known, ok, me, free) refl

  dropped-world :
      (key : String) (d : Desk R) (n : ℕ)
      → (drop_entry key (record d { next_client = n })).world ≡ d.world
  unfolding drop_entry
  dropped-world key d n = elim (Option-cases (Dict.get key d.pending_auths)) [
    | inl e ↦ rw e refl
    | inr (v, e) ↦ rw e refl
  ]

  begin_known :
      (req : AuthRequest) (code_hash : String) (d : Desk R)
      → L.connect d.next_client ≡ true
      → L.send_code_request d.next_client req.phone ≡ some code_hash
      → ((begin_auth L req d).1.world.db.accounts ≡ d.world.db.accounts)
        × (Dict.get req.session_name (begin_auth L req d).1.pending_auths
            ≡ some (new_entry req d.next_client code_hash d.world.now))
  unfolding begin_auth add_log
  begin_known req code_hash d hc hs =
      let d' = drop_entry req.session_name (record d { next_client = d.next_client + 1 }) in
      let same = dropped-world req.session_name d (d.next_client + 1) in
      rw (hc, hs)
        (
          ap (λ w. w.db.accounts) same,
          Dict.get-put req.session_name req.session_name
                (new_entry req d.next_client code_hash d'.world.now) d'.pending_auths
              ∙ rw (==_refl req.session_name, same) refl,
        )

  -- Over one request the table of accounts changes only if Telegram accepts the code that is
  -- given, for the phone and the hash that wait under the session's name.
  pub verify_auth_code_accounts :
      (new_id : ℕ) (session : String) (code : Value) (payload : Payload) (d : Desk R)
      → field "session_name" null payload ≡ text session
      → field "code" null payload ≡ code
      → (verify_auth_code L new_id payload d).1.world.db.accounts ≢ d.world.db.accounts
      → (entry : PendingAuth) × (Dict.get session d.pending_auths ≡ some entry)
        × (L.sign_in entry.client entry.phone code entry.phone_code_hash ≡ accepted)
  unfolding verify_auth_code
  verify_auth_code_accounts new_id session code payload d hs hc changed =
      accounts_by_entry new_id session code (Dict.get session d.pending_auths) d (
        accounts_of_guarded (is_truthy (text session) && is_truthy code)
          (verify_entry L new_id code (with_key session (Dict.get session d.pending_auths)) d) d
          (rw (hs, hc) at changed))

  -- A code is sent and then accepted by Telegram, for a phone that no other session has: the
  -- session's account is in the table, at rest, with the phone, and the login waits no more.
  pub verify_auth_code-begin_auth :
      (new_id : ℕ) (req : AuthRequest) (code : Value) (code_hash : String) (payload : Payload)
      (d : Desk R)
      → L.connect d.next_client ≡ true
      → L.send_code_request d.next_client req.phone ≡ some code_hash
      → L.sign_in d.next_client req.phone code code_hash ≡ accepted
      → L.get_me d.next_client ≡ some true
      → phone_is_taken req.session_name (str_of req.phone) d.world.db.accounts ≡ false
      → is_truthy code ≡ true
      → is_empty req.session_name ≡ false
      → field "session_name" null payload ≡ text req.session_name
      → field "code" null payload ≡ code
      → let d' = (verify_auth_code L new_id payload (begin_auth L req d).1).1 in
        (acc : Account) × (account_of req.session_name d'.world.db.accounts ≡ some acc)
        × (acc.phone ≡ str_of req.phone)
        × (acc.status ≡ resting)
        × (Dict.get req.session_name d'.pending_auths ≡ none)
  unfolding add_log
  verify_auth_code-begin_auth new_id req code code_hash payload d hc hs ok me free ct ne hk hv =
      let d' = (begin_auth L req d).1 in
      let entry = new_entry req d.next_client code_hash d.world.now in
      let (accounts, known) = begin_known req code_hash d hc hs in
      let (acc, there, phone, rests) =
        upsert-account_of new_id (str_of req.phone) req.session_name req.server_group
          d'.world.db.accounts in
      rw
        (verify_known new_id req.session_name code entry payload d' hk hv ne ct known ok me
          (rw accounts free))
        (
          acc,
          there,
          phone,
          rests,
          Dict.get-pop req.session_name req.session_name d'.pending_auths
              ∙ rw (==_refl req.session_name) refl,
        )
