-- ===== src/Tests/Listening.antt =====
-- Runs of the setup of worker.py.
use telegram_client.Prelude.{
  ◌≡◌, refl, String, false, none, some, List, [], ◌∷◌, if◌then◌else◌, contains, ◌==◌, string_eq,
  nat_eq, pair_eq, ℕ, true, Option,
}
use telegram_client.Worker.Round.{Node, consumer_round}
use telegram_client.World.{pure, World}
use telegram_client.Data.{role_beq, pos, int_eq, role_eq}
use telegram_client.Worker.Texts.{without}
use telegram_client.Dict
use telegram_client.Dict.{Dict}
use telegram_client.Engine.{authorized, sent}
use telegram_client.Worker.Resolve.{Entity, Client, no_chat}
use telegram_client.Worker.Life.{initial_listening}
use telegram_client.Redis.Local.{local_server}
use telegram_client.Tests.{offline_world, first_account, disconnected}
use telegram_client.Tests.Sending.{telethon}
use telegram_client.Queue.State.{get_listener_assignments, get_active_consumer}
use telegram_client.Queue.Workers.{sorted}
use telegram_client.Worker.Setup.{
  Listening, Session, account_by_session, setup_sessions, attach, prune,
}
use telegram_client.Worker.Loading.{setup_listeners}
use telegram_client.Worker.Accounts.{last_of_session, accounts_of_files, load_accounts_by_role}
use telegram_client.Worker.Setup.Kept.{setup_sessions-kept}
use telegram_client.Worker.Setup.Attached.{chat_of, handler_of, attach-handlers, collect}
use telegram_client.Queue.Jobs.{dequeue_message}
use telegram_client.Worker.Dispatch.{Engine}

abbrev alpha : Entity
alpha = record { id = 1234567890; title = "Alpha"; username = "alpha" }

abbrev client : Client
client = record {
  get_entity_by_id = λ n. none;
  get_entity = λ s. if s == "@alpha" then some alpha else none;
  import_invite = λ s. no_chat;
  check_invite = λ s. none;
  resolve_username = λ s. none;
  get_dialogs = none;
  lower = λ s. s;
}

abbrev session : Session
session = record {
  check = λ acc. authorized;
  get_me = λ acc. some (pos 12);
  client = λ acc. client;
}

abbrev fresh_node : Listening
fresh_node = initial_listening "worker-1"

abbrev two_groups : List String
two_groups = "@alpha" ∷ "@beta" ∷ []

attach-handlers_example :
    let l = attach session first_account "acc_111" two_groups fresh_node in
    (Dict.get "acc_111" l.listener_handlers
      ≡ handler_of (collect (chat_of client (prune two_groups [])) two_groups))
    × (Dict.get "acc_111" l.listener_targets ≡ some two_groups)
unfolding Dict.get
attach-handlers_example = attach-handlers session first_account "acc_111" two_groups fresh_node

abbrev attached_node : Listening
attached_node = attach session first_account "acc_111" two_groups fresh_node

unnamed : contains {A = String} "acc_111" (Dict.keys (("acc_222", two_groups) ∷ [])) ≡ false
unfolding contains
unnamed = refl

not_here :
    (setup_sessions
      (telethon sent)
      session
      []
      (("acc_222", two_groups) ∷ [])
      attached_node
      offline_world).0
    ≡ some attached_node
unfolding setup_sessions account_by_session
not_here = refl

setup_sessions-kept_example :
    Dict.get "acc_111" attached_node.listener_handlers
    ≡ Dict.get "acc_111" attached_node.listener_handlers
setup_sessions-kept_example =
    setup_sessions-kept (telethon sent) session "acc_111" [] (("acc_222", two_groups) ∷ [])
      attached_node attached_node offline_world unnamed not_here

-- The listener is another node's.
abbrev elsewhere_world : World local_server
elsewhere_world = record offline_world {
  queue = record disconnected {
    memory_state = record disconnected.memory_state {
      listener_assignments = ("acc_999", two_groups) ∷ [];
    };
  };
}

abbrev idle_engine : Engine local_server
idle_engine = record {
  ensure_resolved = λ acc chat_id. pure tt;
  reply_to_channel_message = λ acc chat_id msg_id text. pure true;
}

abbrev first_of : String → List String → String
first_of s rest = s

abbrev waiting_node : Node
waiting_node = record { listening = fresh_node; last_listener_refresh = 0 }

abbrev refreshed_at : Option Node → ℕ
refreshed_at none = 0
refreshed_at (some n) = n.last_listener_refresh

refreshed_now :
    refreshed_at
      (consumer_round (telethon sent) session idle_engine first_of waiting_node elsewhere_world).0
    ≡ 100
unfolding consumer_round get_active_consumer dequeue_message offline_world setup_listeners
    get_listener_assignments load_accounts_by_role accounts_of_files sorted last_of_session without
    role_beq
refreshed_now = refl
