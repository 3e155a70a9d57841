-- ===== src/Worker/Round.antt =====
-- One round of `consumer_loop` of worker.py with the refresh of the node's listeners and repliers,
-- which happens in it when no job waits. The sleeps and the set of tasks under way are left out.
use telegram_client.Prelude.{
  ℕ, ◌+◌, String, Option, none, some, List, ltb, if◌then◌else◌, ◌==◌, string_eq, nat_eq, pair_eq,
}
use telegram_client.World.{◌>>=◌, ◌>>◌, pure, gets, Action}
use telegram_client.Worker.Setup.{Listening, Session}
use telegram_client.Worker.Consumer.{consume}
use telegram_client.Redis.{Redis}
use telegram_client.Data.{Job, int_eq, role_eq}
use telegram_client.Engine.{Telethon}
use telegram_client.Queue.Jobs.{dequeue_message}
use telegram_client.Queue.State.{get_active_consumer}
use telegram_client.Worker.Dispatch.{Engine}
use telegram_client.Worker.Loading.{refresh_replier_assignments, setup_listeners}

-- The node's state in the loop; `last_listener_refresh` is a time.
pub record Node : Type 0 where
  pub listening : Listening
  pub last_listener_refresh : ℕ

module _ {R : Redis} (T : Telethon) (S : Session) (E : Engine R)
    (choice : String → List String → String) where
  abbrev pub refreshed : ℕ → Option Listening → Action R (Option Node)
  refreshed now none = pure none
  refreshed now (some l) = do
    l' ← refresh_replier_assignments T S l
    pure (some (record { listening = l'; last_listener_refresh = now }))

  -- `now - self._last_listener_refresh > 30`
  abbrev pub refresh_if_due : Node → Action R (Option Node)
  refresh_if_due n = do
    now ← gets (λ w. w.now)
    if ltb (n.last_listener_refresh + 30) now
        then (setup_listeners T S n.listening >>= refreshed now)
        else pure (some n)

  abbrev pub after_pop : Node → Option Job → Action R (Option Node)
  after_pop n none = refresh_if_due n
  after_pop n (some job) = do consume E n.listening.node choice (some job); pure (some n)

  -- `none` is an exception, which ends the node.
  unfoldable pub consumer_round : Node → Action R (Option Node)
  consumer_round n = do
    active ← get_active_consumer
    if active == n.listening.node.worker_id
        then (dequeue_message >>= after_pop n)
        else pure (some n)
