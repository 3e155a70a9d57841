-- ===== src/Worker/Consumer.antt =====
-- One turn of `consumer_loop` of worker.py. The sleeps, and the refresh of listeners when the queue
-- is empty, are the loop's own and are left out.
pub mod Drained
use telegram_client.Prelude.{
  String, Option, none, some, List, [], ◌∷◌, if◌then◌else◌, ◌==◌, string_eq, nat_eq, pair_eq,
}
use telegram_client.Redis.{Redis}
use telegram_client.World.{Action, ◌>>=◌, ◌>>◌, pure}
use telegram_client.Data.{Job, int_eq, role_eq}
use telegram_client.Queue.Jobs.{dequeue_message, requeue_for_retry}
use telegram_client.Queue.State.{get_active_consumer, get_active_messages}
use telegram_client.Worker.Dispatch.{Worker, Engine, dispatch_reply}

-- `choice` is `random.choice` of a list with a first element and a rest. The dispatch, which the
-- source starts as a task, runs to its end here.
module _ {R : Redis} (E : Engine R) (node : Worker) (choice : String → List String → String) where
  unfoldable pub answer : Job → List String → Action R (Unit {0})
  answer job [] = do requeue_for_retry job; pure tt
  answer job (msg ∷ msgs) = dispatch_reply E node job (choice msg msgs)

  abbrev pub consume : Option Job → Action R (Unit {0})
  consume none = pure tt
  consume (some job) = do msgs ← get_active_messages; answer job msgs

  unfoldable pub consumer_turn : Action R (Unit {0})
  consumer_turn = do
    active ← get_active_consumer
    if active == node.worker_id then (dequeue_message >>= consume) else pure tt
