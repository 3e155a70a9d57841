-- ===== src/Tests/Sending.antt =====
-- Runs of app/telethon_engine.py.
use telegram_client.Prelude.{
  ◌≡◌, refl, true, false, contains, if◌then◌else◌, string_eq, nat_eq, pair_eq, [], ◌∷◌,
}
use telegram_client.Data.{negsuc, int_eq, role_eq}
use telegram_client.Engine.{
  Telethon, authorized, ends_with_session, SendResult, auth_error, flood_wait_error,
  reply_to_channel_message, sent,
}
use telegram_client.Engine.Revoked.{Call, reply_each, reply_after_revocation}
use telegram_client.Engine.Outcomes.{reply_to_channel_message_lem}
use telegram_client.Tests.{first_account, online_world, second_account}

-- A library that connects everybody, and ends every sending in the same way.
abbrev pub telethon : SendResult → Telethon
telethon r = record {
  has_client = λ acc. false;
  has_credentials = λ acc. true;
  connect = λ acc. authorized;
  is_user_authorized = λ acc. true;
  send_message = λ acc chat text msg_id. r;
}

has_file : contains "acc_222" online_world.sessions ≡ true
unfolding online_world contains
has_file = refl

plain_name : ends_with_session "acc_222" ≡ false
unfolding ends_with_session
plain_name = refl

reply_to_channel_message_lem_example :
    (reply_to_channel_message
      (telethon (flood_wait_error 30))
      second_account
      (negsuc 99)
      7
      "hi"
      online_world).0
    ≡ (if contains "acc_222" online_world.sessions then false else true)
reply_to_channel_message_lem_example =
    reply_to_channel_message_lem (telethon (flood_wait_error 30)) second_account (negsuc 99) 7 "hi"
      online_world

-- A reply of the other account in between.
abbrev other_reply : Call
other_reply = record {
  telethon = telethon sent;
  account = first_account;
  target_chat = negsuc 98;
  message_id = 9;
  message_text = "hello";
}

reply_after_revocation_example :
    let (failed, w₁) =
      reply_to_channel_message
        (telethon auth_error)
        second_account
        (negsuc 99)
        7
        "hi"
        online_world in
    let w' = (reply_each (other_reply ∷ []) w₁).1 in
    (failed ≡ false)
    × (contains "acc_222" w'.sessions ≡ false)
    × ((reply_to_channel_message (telethon auth_error) second_account (negsuc 99) 8 "hi" w').0
        ≡ true)
    × (reply_to_channel_message (telethon auth_error) second_account (negsuc 99) 8 "hi" w'
        ≡ reply_to_channel_message (telethon sent) second_account (negsuc 99) 8 "hi" w')
reply_after_revocation_example =
    reply_after_revocation (telethon auth_error) (telethon auth_error) (telethon sent)
      second_account (negsuc 99) (negsuc 99) 7 8 "hi" "hi" (other_reply ∷ []) online_world refl
      plain_name has_file refl refl
