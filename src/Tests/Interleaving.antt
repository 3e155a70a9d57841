-- ===== src/Tests/Interleaving.antt =====
-- A run of the handlers and consumers of two nodes.
use telegram_client.Prelude.{
  ◌≡◌, refl, ◌≤◌, ◌+◌, some, [], ◌∷◌, contains, string_eq, nat_eq, pair_eq, false,
}
use telegram_client.Worker.Traffic.{here, next, hears, takes, Traffic, Reach, copies, limit}
use telegram_client.Redis.Local.{local_server, local_server-Laws, Store}
use telegram_client.Tests.{store, connected, database}
use telegram_client.World.{World}
use telegram_client.Tests.Answers.{greeting}
use telegram_client.Redis.{seen, message_queue}
use telegram_client.Queue.Jobs.{is_given, is_duplicate_and_mark, enqueue_message, dequeue_message}
use telegram_client.Worker.Texts.{is_own_text}
use telegram_client.Worker.Messages.{is_skipped, new_message_handler}
use telegram_client.Worker.Messages.Once.{job_of}
use telegram_client.Worker.Traffic.Single.{single_job}
use telegram_client.Data.{int_eq, role_eq, negsuc}

abbrev empty_store : Store
empty_store = record store { jobs = [] }

-- The nodes have their own files, tables and clocks.
unfoldable first_node : Store → World local_server
unfolding local_server
first_node s = record {
  queue = connected;
  redis = s;
  db = database;
  sessions = "acc_111" ∷ [];
  now = 100;
}

unfoldable second_node : Store → World local_server
unfolding local_server
second_node s = record {
  queue = record connected { memory_seen = (negsuc 1, 1) ∷ [] };
  redis = s;
  db = record database { exists = false };
  sessions = "acc_222" ∷ [];
  now = 103;
}

abbrev before_all : Traffic local_server
unfolding local_server
before_all = record { redis = empty_store; in_flight = [] }

abbrev heard : Traffic local_server
unfolding first_node
heard = record {
  redis = (new_message_handler 60 [] greeting (first_node empty_store)).1.redis;
  in_flight = [];
}

abbrev at_second : World local_server
unfolding local_server
at_second = second_node heard.redis

abbrev taken : Traffic local_server
taken = record { redis = (dequeue_message at_second).1.redis; in_flight = job_of greeting ∷ [] }

abbrev at_second_again : World local_server
unfolding local_server
at_second_again = second_node taken.redis

abbrev heard_again : Traffic local_server
heard_again = record taken { redis = (new_message_handler 50 [] greeting at_second_again).1.redis }

is_taken : (dequeue_message at_second).0 ≡ some (job_of greeting)
unfolding first_node second_node new_message_handler dequeue_message is_skipped is_own_text contains
    enqueue_message is_duplicate_and_mark local_server
is_taken = refl

a_run : Reach local_server-Laws before_all heard_again
unfolding first_node second_node local_server
a_run =
    next taken
      (next heard
        (next before_all here (
          hears (first_node empty_store) (record { same_redis = refl; online = refl }) 60 []
            greeting))
        (takes at_second (record { same_redis = refl; online = refl }) (job_of greeting) is_taken))
      (hears at_second_again (record { same_redis = refl; online = refl }) 50 [] greeting)

nothing_waits : local_server-Laws.list message_queue before_all.redis ≡ []
unfolding local_server-Laws
nothing_waits = refl

single_job_example :
    copies (negsuc 99) 8 (local_server-Laws.list message_queue heard_again.redis)
      + copies (negsuc 99) 8 heard_again.in_flight
    ≤ limit (is_given (local_server-Laws.value (seen (negsuc 99) 8) heard_again.redis))
unfolding before_all
single_job_example =
    single_job local_server-Laws before_all heard_again (negsuc 99) 8 nothing_waits refl a_run
