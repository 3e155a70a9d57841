-- ===== src/Tests/Answers.antt =====
-- Runs of worker.py.
use telegram_client.Prelude.{
  ◌≤◌, arith, String, ◌≡◌, refl, Bool, true, false, ◌||◌, none, some, List, [], ◌∷◌, ◌++◌,
  if◌then◌else◌, contains, string_eq, nat_eq, pair_eq,
}
use telegram_client.Redis.Local.{local_server, local_server-Laws}
use telegram_client.World.{pure}
use telegram_client.Data.{negsuc, pos, int_eq, role_eq}
use telegram_client.Queue.State.{get_active_consumer, get_active_messages}
use telegram_client.Queue.Delivery.{pending, is_seen}
use telegram_client.Worker.Texts.{is_own_text, full_message}
use telegram_client.Worker.Texts.Signature.{is_own_text-full_message}
use telegram_client.Worker.Messages.{Event, is_skipped, new_message_handler}
use telegram_client.Worker.Messages.Once.{
  job_of, new_message_handler-own, pending-new_message_handler,
}
use telegram_client.Worker.Traffic.{handles, pops, work_through}
use telegram_client.Worker.Traffic.Again.{new_message_handler_once}
use telegram_client.Worker.Dispatch.{Worker, Engine, reply_with, send_reply}
use telegram_client.Worker.Dispatch.Rules.{send_reply-requeue, reply_with_withheld}
use telegram_client.Worker.Consumer.Drained.{turns_needed, consumer_turns, consumer_turns-empty}
use telegram_client.Tests.{offline_world, online_world, one_job, second_account}

abbrev pub greeting : Event
greeting = record {
  chat_id = negsuc 99;
  id = 8;
  message = "hello";
  text = "";
  date = some 70;
  sender_id = some (pos 12);
  reply_to = none;
}

abbrev echo : Event
echo = record greeting { message = "hi\n\nref_8#" }

-- An engine that always sends, and one that never does.
abbrev sender : Bool → Engine local_server
sender b = record {
  ensure_resolved = λ acc chat_id. pure tt;
  reply_to_channel_message = λ acc chat_id msg_id text. pure b;
}

abbrev node : String → Worker
node wid = record {
  worker_id = wid;
  chat_id_to_target = (negsuc 99, "alpha") ∷ [];
  target_to_replier = [];
  replier_accounts_cache = ("acc_222", second_account) ∷ [];
}

abbrev first_of : String → List String → String
first_of s rest = s

is_own_text-full_message_example : is_own_text (full_message "hi" 8) ≡ true
is_own_text-full_message_example = is_own_text-full_message "hi" 8

new_message_handler-own_example : new_message_handler 60 [] echo online_world ≡ (tt, online_world)
new_message_handler-own_example =
    new_message_handler-own 60 [] echo "hi" 8 online_world (unfold full_message in refl)

pending-new_message_handler_example :
    pending local_server-Laws (new_message_handler 60 [] greeting online_world).1
    ≡ pending local_server-Laws online_world
      ++ (if is_skipped 60 [] greeting || is_seen local_server-Laws (negsuc 99) 8 online_world
          then []
          else job_of greeting ∷ [])
pending-new_message_handler_example =
    pending-new_message_handler local_server-Laws 60 [] greeting online_world

not_skipped : is_skipped 60 [] greeting ≡ false
unfolding is_skipped is_own_text contains
not_skipped = refl

abbrev another : Event
another = record greeting { id = 9; message = "good evening" }

-- The process keeps its marks in its own memory, and hears another message in between.
new_message_handler_once_example :
    let w₁ = (new_message_handler 60 [] greeting offline_world).1 in
    let w' = (work_through (handles 60 [] another ∷ pops ∷ []) w₁).1 in
    pending local_server-Laws (new_message_handler 0 [] greeting w').1
    ≡ pending local_server-Laws w'
new_message_handler_once_example =
    new_message_handler_once local_server-Laws 60 0 [] [] greeting greeting
      (handles 60 [] another ∷ pops ∷ []) offline_world not_skipped refl refl

reply_with_withheld_example :
    (reply_with (sender true) (node "worker-1") second_account true one_job "hi" online_world
      ≡ reply_with (sender false) (node "worker-1") second_account true one_job "hi" online_world)
    × (pending local_server-Laws
          (reply_with
            (sender true)
            (node "worker-1")
            second_account
            true
            one_job
            "hi"
            online_world).1
        ≡ pending local_server-Laws online_world)
reply_with_withheld_example =
    reply_with_withheld local_server-Laws (sender true) (sender false) (node "worker-1")
      second_account true one_job "hi" online_world refl refl

first_is_active : (get_active_consumer online_world).0 ≡ "worker-1"
unfolding get_active_consumer online_world
first_is_active = refl

nothing_active : (get_active_messages online_world).0 ≡ []
unfolding get_active_messages online_world
nothing_active = refl

two_turns : turns_needed (pending local_server-Laws online_world) ≤ 2
unfolding turns_needed pending online_world local_server-Laws
two_turns = omega arith

consumer_turns-empty_example :
    pending local_server-Laws
      (consumer_turns (sender true) (node "worker-1") first_of 2 online_world).1
    ≡ []
consumer_turns-empty_example =
    consumer_turns-empty local_server-Laws (sender true) (node "worker-1") first_of 2 online_world
      first_is_active nothing_active two_turns

send_reply-requeue_example :
    pending local_server-Laws
      (send_reply (sender false) (node "worker-1") second_account one_job "hi" online_world).1
    ≡ pending local_server-Laws online_world ++ record one_job { retry_count = 1 } ∷ []
send_reply-requeue_example =
    send_reply-requeue local_server-Laws (sender false) (node "worker-1") second_account one_job
      "hi" online_world online_world refl
