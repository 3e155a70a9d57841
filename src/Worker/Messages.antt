-- ===== src/Worker/Messages.antt =====
-- The handler of new messages that worker.py attaches to a listener, and `is_reply_message`.
-- The sender's name is fetched after the enqueue for a line of the log only, and is left out.
pub mod Once
use telegram_client.Prelude.{
  ℕ, String, Bool, true, false, not, Option, none, some, List, ltb, if◌then◌else◌, contains, nat_eq,
  ◌==◌, string_eq, pair_eq,
}
use telegram_client.Data.{ℤ, pos, int_eq, role_eq}
use telegram_client.Redis.{Redis}
use telegram_client.World.{Action, ◌>>=◌, ◌>>◌, pure}
use telegram_client.Queue.Jobs.{is_duplicate_and_mark, enqueue_message, is_given}
use telegram_client.Worker.Texts.{is_own_text, is_empty}
use telegram_client.Worker.Texts.Numbers.{int_text}

-- `message.reply_to`
pub record ReplyTo : Type 0 where
  pub reply_to_top_id : Option ℕ
  pub reply_to_msg_id : Option ℕ

-- What the handler reads of an event.
pub record Event : Type 0 where
  pub chat_id : ℤ
  pub id : ℕ
  -- `event.message.message`, and the attribute `text` that stands in for an empty one
  pub message : String
  pub text : String
  pub date : Option ℕ
  pub sender_id : Option ℤ
  pub reply_to : Option ReplyTo

abbrev pub differs : Option ℕ → ℕ → Bool
differs none top_id = false
differs (some msg_id) top_id = not (msg_id == top_id)

abbrev pub replies_to : ReplyTo → Bool
replies_to r = elim r.reply_to_top_id [
  | none ↦ is_given r.reply_to_msg_id
  | some top_id ↦ differs r.reply_to_msg_id top_id
]

unfoldable pub is_reply_message : Option ReplyTo → Bool
is_reply_message none = false
is_reply_message (some r) = replies_to r

abbrev pub is_before : Option ℕ → ℕ → Bool
is_before none start = false
is_before (some date) start = ltb date start

-- `event.message.message or getattr(event.message, 'text', '')`
abbrev pub msg_text : Event → String
msg_text e = if is_empty e.message then e.text else e.message

abbrev pub is_self : List ℤ → Option ℤ → Bool
is_self self_ids none = false
is_self self_ids (some i) = contains i self_ids

abbrev pub reply_target : Option ReplyTo → Option ℕ
reply_target none = none
reply_target (some r) = r.reply_to_msg_id

-- `str(event.sender_id or 'Unknown')`
abbrev pub sender_text : Option ℤ → String
sender_text none = "Unknown"
sender_text (some i) = if i == pos 0 then "Unknown" else int_text i

-- The early returns before the deduplication.
unfoldable pub is_skipped : ℕ → List ℤ → Event → Bool
is_skipped handler_start_time self_ids e =
    if is_before e.date handler_start_time
    then true
    else if is_empty (msg_text e)
    then true
    else if is_own_text (msg_text e)
    then true
    else is_self self_ids e.sender_id

module _ {R : Redis} where
  abbrev pub enqueue_event : Event → Action R (Unit {0})
  enqueue_event e = do
    enqueue_message e.chat_id e.id (msg_text e) e.sender_id (sender_text e.sender_id)
        (reply_target e.reply_to)
    pure tt

  abbrev pub unless_duplicate : Event → Bool → Action R (Unit {0})
  unless_duplicate e true = pure tt
  unless_duplicate e false = enqueue_event e

  abbrev pub intake : Event → Action R (Unit {0})
  intake e = do is_dup ← is_duplicate_and_mark e.chat_id e.id; unless_duplicate e is_dup

  unfoldable pub new_message_handler : ℕ → List ℤ → Event → Action R (Unit {0})
  new_message_handler handler_start_time self_ids e =
      if is_skipped handler_start_time self_ids e then pure tt else intake e
