-- ===== src/Engine/Revoked.antt =====
-- What a revoked session leaves of the replies of app/telethon_engine.py that follow.
use Prim.Native.String.{◌++◌}
use telegram_client.Prelude.{
  ℕ, ◌+◌, String, ◌≡◌, refl, inl, inr, Bool, true, false, not, ◌&&◌, arith, Bool-cases, contains,
  string_eq, nat_eq, pair_eq, ◌∙◌, some, List, [], ◌∷◌, filter, ◌==◌, ap, ==_iff, none,
}
use telegram_client.Data.{
  ℤ, Account, active, error, unauthorized, LogEntry, int_eq, role_eq, info, typing, failure,
  success, warning,
}
use telegram_client.Redis.{Redis}
use telegram_client.World.{World}
use telegram_client.Worker.Texts.{full_message, is_empty}
use telegram_client.Engine.{
  Telethon, ConnectResult, authorized, not_authorized, auth_error_raised, error_raised, SendResult,
  sent, auth_error, other_error, flood_wait_error, ends_with_session, with_status, with_flood,
  safe_update, safe_add_log, get_client_for_account, after_connect, after_send,
  reply_to_channel_message, engine_log, send_with, handle_invalid_session, invalid_file,
}
use telegram_client.World.{Action, pure, ◌>>=◌}
use telegram_client.Engine.Outcomes.{
  is_connected, sessions-safe_update, sessions-safe_add_log, get_client-is_connected,
  reply_to_channel_message_lem,
}

contains-filter_away :
    (s : String) (xs : List String)
    → contains s (filter (λ x. not (x ++ ".session" == s ++ ".session")) xs) ≡ false
unfolding contains filter
contains-filter_away s [] = refl
contains-filter_away s (x ∷ xs) = elim (Bool-cases (x == s)) [
  | inl e ↦
      let same : (x ++ ".session" == s ++ ".session") ≡ true =
        (==_iff (x ++ ".session") (s ++ ".session")).1
          (ap (λ y. y ++ ".session") ((==_iff x s).0 e)) in
      rw same (contains-filter_away s xs)
  | inr e ↦ elim (Bool-cases (x ++ ".session" == s ++ ".session")) [
    | inl q ↦ rw q (contains-filter_away s xs)
    | inr q ↦ rw (q, e) (contains-filter_away s xs)
  ]
]

contains-filter :
    (a : String) (p : String → Bool) (xs : List String)
    → contains a xs ≡ false
    → contains a (filter p xs) ≡ false
unfolding contains filter
contains-filter a p [] h = refl
contains-filter a p (x ∷ xs) h = ground (arith, contains-filter a p xs)

-- What a call of `reply_to_channel_message` is given, and what Telethon answers meanwhile.
pub record Call : Type 0 where
  pub telethon : Telethon
  pub account : Account
  pub target_chat : ℤ
  pub message_id : ℕ
  pub message_text : String

module _ {R : Redis} where
  -- A sequence of replies, of any accounts.
  unfoldable pub reply_each : List Call → Action R (Unit {0})
  reply_each [] = pure tt
  reply_each (k ∷ ks) =
      reply_to_channel_message k.telethon k.account k.target_chat k.message_id k.message_text
      >>= λ _. reply_each ks

  -- A session file that is gone does not come back.
  gone-handle_invalid :
      (s : String) (acc : Account) (w : World R)
      → contains s w.sessions ≡ false
      → contains s (handle_invalid_session acc w).1.sessions ≡ false
  unfolding handle_invalid_session
  gone-handle_invalid s acc w h = elim (Bool-cases (is_empty acc.session_name)) [
    | inl e ↦ rw e h
    | inr e ↦ rw e (
        contains-filter s (λ f. not (f ++ ".session" == invalid_file acc.session_name)) w.sessions
          h)
  ]

  gone-noted :
      (s : String) (acc : Account) (f : Account → Account) (entry : LogEntry) (w : World R)
      → contains s w.sessions ≡ false
      → contains s (safe_add_log entry (safe_update acc f w).1).1.sessions ≡ false
  gone-noted s acc f entry w h =
      rw (sessions-safe_add_log entry (safe_update acc f w).1, sessions-safe_update acc f w) h

  gone-after_send :
      (s : String) (T : Telethon) (acc : Account) (c : ℤ) (r : SendResult) (w : World R)
      → contains s w.sessions ≡ false
      → contains s (after_send T acc c r w).1.sessions ≡ false
  unfolding after_send
  gone-after_send s T acc c sent w h =
      gone-noted s acc (with_status active) (engine_log "AUTO_REPLY" success acc (some c)) w h
  gone-after_send s T acc c (flood_wait_error n) w h =
      gone-noted s acc (with_flood (w.now + n)) (engine_log "RATE_LIMIT" warning acc (some c)) w h
  gone-after_send s T acc c auth_error w h =
      gone-handle_invalid s acc _
        (gone-noted s acc (with_status unauthorized) (engine_log "AUTH" failure acc (some c)) w h)
  gone-after_send s T acc c other_error w h =
      gone-noted s acc (with_status error) (engine_log "AUTO_REPLY" failure acc (some c)) w h

  gone-after_connect :
      (s : String) (T : Telethon) (acc : Account) (r : ConnectResult) (w : World R)
      → contains s w.sessions ≡ false
      → contains s (after_connect T acc r w).1.sessions ≡ false
  gone-after_connect s T acc authorized w h = h
  gone-after_connect s T acc not_authorized w h =
      gone-handle_invalid s acc _
        (gone-noted s acc (with_status unauthorized) (engine_log "AUTH" warning acc none) w h)
  gone-after_connect s T acc auth_error_raised w h =
      gone-handle_invalid s acc _
        (gone-noted s acc (with_status unauthorized) (engine_log "AUTH" failure acc none) w h)
  gone-after_connect s T acc error_raised w h =
      rw (sessions-safe_add_log (engine_log "CONNECT" failure acc none) w) h

  gone-get_client :
      (s : String) (T : Telethon) (acc : Account) (w : World R)
      → contains s w.sessions ≡ false
      → contains s (get_client_for_account T acc w).1.sessions ≡ false
  unfolding get_client_for_account
  gone-get_client s T acc w h = elim (Bool-cases (T.has_client acc)) [
    | inl e ↦ rw e h
    | inr e ↦ elim (Bool-cases (T.has_credentials acc && not (is_empty acc.session_name))) [
      | inl f ↦ rw (e, f) (gone-after_connect s T acc (T.connect acc) w h)
      | inr f ↦ rw (e, f) h
    ]
  ]

  gone-send_with_any :
      (s : String) (T : Telethon) (acc : Account) (c : ℤ) (n : ℕ) (text : String) (b : Bool)
      (w : World R)
      → contains s w.sessions ≡ false
      → contains s (send_with T acc c n text b w).1.sessions ≡ false
  gone-send_with_any s T acc c n text b w h = elim (Bool-cases (b && T.is_user_authorized acc)) [
    | inl e ↦ rw e (gone-after_send s T acc c (T.send_message acc c (full_message text n) n) w h)
    | inr e ↦
        rw e
          (gone-noted s acc (with_status unauthorized) (engine_log "AUTH" warning acc (some c)) w h)
  ]

  gone-reply :
      (s : String) (T : Telethon) (acc : Account) (c : ℤ) (n : ℕ) (text : String) (w : World R)
      → contains s w.sessions ≡ false
      → contains s (reply_to_channel_message T acc c n text w).1.sessions ≡ false
  unfolding reply_to_channel_message
  gone-reply s T acc c n text w h =
      let w₁ = (safe_update acc (with_status typing) w).1 in
      let w₂ = (safe_add_log (engine_log "TYPING" info acc (some c)) w₁).1 in
      let gone₂ =
        gone-noted s acc (with_status typing) (engine_log "TYPING" info acc (some c)) w h in
      let (b, w₃) = get_client_for_account T acc w₂ in
      elim (Bool-cases (contains acc.session_name w.sessions)) [
        | inl e ↦ rw e (gone-send_with_any s T acc c n text b w₃ (gone-get_client s T acc w₂ gone₂))
        | inr e ↦ rw e (gone-after_send s T acc c sent w₂ gone₂)
      ]

  gone-reply_each :
      (s : String) (ks : List Call) (w : World R)
      → contains s w.sessions ≡ false
      → contains s (reply_each ks w).1.sessions ≡ false
  unfolding reply_each
  gone-reply_each s [] w h = h
  gone-reply_each s (k ∷ ks) w h =
      gone-reply_each s ks
        (reply_to_channel_message k.telethon k.account k.target_chat k.message_id k.message_text
          w).1
        (gone-reply s k.telethon k.account k.target_chat k.message_id k.message_text w h)

  without_file :
      (T T' : Telethon) (acc : Account) (c : ℤ) (n : ℕ) (text : String) (w : World R)
      → contains acc.session_name w.sessions ≡ false
      → reply_to_channel_message T acc c n text w ≡ reply_to_channel_message T' acc c n text w
  unfolding reply_to_channel_message after_send
  without_file T T' acc c n text w gone = rw gone refl

  gone-send_with :
      (T : Telethon) (acc : Account) (c : ℤ) (n : ℕ) (text : String) (b : Bool) (w : World R)
      → is_empty acc.session_name ≡ false
      → ends_with_session acc.session_name ≡ false
      → (b && T.is_user_authorized acc) ≡ true
      → T.send_message acc c (full_message text n) n ≡ auth_error
      → contains acc.session_name (send_with T acc c n text b w).1.sessions ≡ false
  unfolding after_send handle_invalid_session
  gone-send_with T acc c n text b w named plain client revoked =
      let w₁ = (safe_update acc (with_status unauthorized) w).1 in
      let w₂ = (safe_add_log (engine_log "AUTH" failure acc (some c)) w₁).1 in
      rw (client, revoked, named, plain) (contains-filter_away acc.session_name w₂.sessions)

  -- Telegram reports a revoked session, for an account whose session name is not empty and does not
  -- end in ".session". Then the account's session file is gone, and after any further replies, of any
  -- accounts, the next reply of the account reports success and does not depend on what Telegram
  -- would answer.
  pub reply_after_revocation :
      (T T' T'' : Telethon) (acc : Account) (c c' : ℤ) (n n' : ℕ) (text text' : String)
      (between : List Call) (w : World R)
      → is_empty acc.session_name ≡ false
      → ends_with_session acc.session_name ≡ false
      → contains acc.session_name w.sessions ≡ true
      → (is_connected T acc && T.is_user_authorized acc) ≡ true
      → T.send_message acc c (full_message text n) n ≡ auth_error
      → let (failed, w₁) = reply_to_channel_message T acc c n text w in
        let w' = (reply_each between w₁).1 in
        (failed ≡ false)
        × (contains acc.session_name w'.sessions ≡ false)
        × ((reply_to_channel_message T' acc c' n' text' w').0 ≡ true)
        × (reply_to_channel_message T' acc c' n' text' w'
            ≡ reply_to_channel_message T'' acc c' n' text' w')
  reply_after_revocation T T' T'' acc c c' n n' text text' between w named plain file client
        revoked =
      let after = (reply_to_channel_message T acc c n text w).1 in
      let w₁ = (safe_update acc (with_status typing) w).1 in
      let w₂ = (safe_add_log (engine_log "TYPING" info acc (some c)) w₁).1 in
      let (b, w₃) = get_client_for_account T acc w₂ in
      let gone_first : contains acc.session_name after.sessions ≡ false =
        unfold reply_to_channel_message in
        rw (file) (
          gone-send_with T acc c n text b w₃ named plain
            (rw (get_client-is_connected T acc w₂) client) revoked) in
      let w' = (reply_each between after).1 in
      let gone = gone-reply_each acc.session_name between after gone_first in
      (
        reply_to_channel_message_lem T acc c n text w ∙ rw (file, client, revoked) refl,
        gone,
        reply_to_channel_message_lem T' acc c' n' text' w' ∙ rw gone refl,
        without_file T' T'' acc c' n' text' w' gone,
      )
