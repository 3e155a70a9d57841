-- ===== src/Engine/Outcomes.antt =====
-- What `reply_to_channel_message` of app/telethon_engine.py reports, and what it leaves.
use telegram_client.Prelude.{
  ℕ, ◌+◌, String, ◌≡◌, refl, inl, inr, Bool, true, false, not, ◌&&◌, arith, Bool-cases, contains,
  if◌then◌else◌, string_eq, nat_eq, ◌||◌, pair_eq, some,
}
use telegram_client.Data.{
  ℤ, Account, active, error, unauthorized, LogEntry, int_eq, role_eq, info, typing,
}
use telegram_client.Redis.{Redis}
use telegram_client.World.{World}
use telegram_client.Database.{add_log}
use telegram_client.Queue.Logs.{push_worker_log}
use telegram_client.Queue.Connection.{is_online}
use telegram_client.Worker.Texts.{full_message, is_empty}
use telegram_client.Engine.{
  Telethon, ConnectResult, authorized, not_authorized, auth_error_raised, error_raised, SendResult,
  sent, auth_error, other_error, flood_wait_error, with_status, with_flood, safe_update,
  safe_add_log, get_client_for_account, after_connect, after_send, reply_to_channel_message,
  engine_log, send_with,
}

abbrev is_sent : SendResult → Bool
is_sent sent = true
is_sent _ = false

abbrev is_authorized : ConnectResult → Bool
is_authorized authorized = true
is_authorized _ = false

-- The engine gets a client for the account.
abbrev pub is_connected : Telethon → Account → Bool
is_connected T acc =
    T.has_client acc
    || (T.has_credentials acc && not (is_empty acc.session_name) && is_authorized (T.connect acc))

-- What the status is set to in the end.
abbrev pub outcome : ℕ → SendResult → Account → Account
outcome now sent = with_status active
outcome now (flood_wait_error seconds) = with_flood (now + seconds)
outcome now auth_error = with_status unauthorized
outcome now other_error = with_status error

module _ {R : Redis} where
  after_connect-is_authorized :
      (T : Telethon) (acc : Account) (r : ConnectResult) (w : World R)
      → (after_connect T acc r w).0 ≡ is_authorized r
  after_connect-is_authorized T acc authorized w = refl
  after_connect-is_authorized T acc not_authorized w = refl
  after_connect-is_authorized T acc auth_error_raised w = refl
  after_connect-is_authorized T acc error_raised w = refl

  pub get_client-is_connected :
      (T : Telethon) (acc : Account) (w : World R)
      → (get_client_for_account T acc w).0 ≡ is_connected T acc
  unfolding get_client_for_account
  get_client-is_connected T acc w =
      ground (arith, after_connect-is_authorized T acc (T.connect acc) w)

  after_send-is_sent :
      (T : Telethon) (acc : Account) (c : ℤ) (r : SendResult) (w : World R)
      → (after_send T acc c r w).0 ≡ is_sent r
  unfolding after_send
  after_send-is_sent T acc c sent w = refl
  after_send-is_sent T acc c auth_error w = refl
  after_send-is_sent T acc c other_error w = refl
  after_send-is_sent T acc c (flood_wait_error s) w = refl

  pub sessions-safe_update :
      (acc : Account) (f : Account → Account) (w : World R)
      → (safe_update acc f w).1.sessions ≡ w.sessions
  unfolding safe_update
  sessions-safe_update acc f w = elim (Bool-cases w.db.exists) [
    | inl e ↦ rw e refl
    | inr e ↦ rw e refl
  ]

  pub sessions-safe_add_log :
      (entry : LogEntry) (w : World R) → (safe_add_log entry w).1.sessions ≡ w.sessions
  unfolding safe_add_log push_worker_log add_log
  sessions-safe_add_log entry w = elim (Bool-cases w.db.exists) [
    | inl e ↦ rw e refl
    | inr e ↦ elim (Bool-cases (is_online w)) [ inl o ↦ ground arith | inr o ↦ ground arith ]
  ]

  send_with-is_sent :
      (T : Telethon) (acc : Account) (c : ℤ) (n : ℕ) (text : String) (b : Bool) (w : World R)
      → (send_with T acc c n text b w).0 ≡ (
          (b && T.is_user_authorized acc) && is_sent (T.send_message acc c (full_message text n) n))
  unfolding safe_update
  send_with-is_sent T acc c n text b w = elim (Bool-cases (b && T.is_user_authorized acc)) [
    | inl e ↦ rw e (after_send-is_sent T acc c (T.send_message acc c (full_message text n) n) w)
    | inr e ↦ rw e refl
  ]

  -- A reply reports success exactly if the message was sent, when the account has a session file;
  -- without one it always reports success.
  pub reply_to_channel_message_lem :
      (T : Telethon) (acc : Account) (target : ℤ) (msg_id : ℕ) (text : String) (w : World R)
      → (reply_to_channel_message T acc target msg_id text w).0 ≡ (
          if contains acc.session_name w.sessions
          then (is_connected T acc && T.is_user_authorized acc)
            && is_sent (T.send_message acc target (full_message text msg_id) msg_id)
          else true)
  unfolding reply_to_channel_message
  reply_to_channel_message_lem T acc target msg_id text w =
      let w₁ = (safe_update acc (with_status typing) w).1 in
      let w₂ = (safe_add_log (engine_log "TYPING" info acc (some target)) w₁).1 in
      let (b, w₃) = get_client_for_account T acc w₂ in
      elim (Bool-cases (contains acc.session_name w.sessions)) [
        | inl e ↦
            rw (e, ← get_client-is_connected T acc w₂)
              (send_with-is_sent T acc target msg_id text b w₃)
        | inr e ↦ rw e (after_send-is_sent T acc target sent w₂)
      ]
