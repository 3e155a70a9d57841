-- ===== src/Worker/Traffic/Again.antt =====
-- A message is enqueued once in a process of worker.py.
use telegram_client.Prelude.{ℕ, ◌≡◌, List, arith, ◌∙◌, false, ◌||◌, append-nil, true}
use telegram_client.Data.{ℤ}
use telegram_client.Redis.{Redis}
use telegram_client.Redis.Laws.{Laws}
use telegram_client.World.{World}
use telegram_client.Queue.Delivery.{is_seen, pending}
use telegram_client.Worker.Messages.{Event, is_skipped, new_message_handler}
use telegram_client.Worker.Traffic.{Work, work_through}
use telegram_client.Worker.Traffic.Marks.{seen-work_through}
use telegram_client.Worker.Messages.Once.{pending-new_message_handler, seen-new_message_handler}

module _ {R : Redis} (L : Laws R) where
  -- After a message that none of the early returns took, and whatever the same process handles,
  -- pops and puts back in between, an event with the same chat and number, from any listener of the
  -- process, leaves the queue as it is. This holds with Redis and in the process's own memory.
  pub new_message_handler_once :
      (start start' : ℕ) (ids ids' : List ℤ) (e e' : Event) (between : List Work) (w : World R)
      → is_skipped start ids e ≡ false
      → e.chat_id ≡ e'.chat_id
      → e.id ≡ e'.id
      → let w' = (work_through between (new_message_handler start ids e w).1).1 in
        pending L (new_message_handler start' ids' e' w').1 ≡ pending L w'
  new_message_handler_once start start' ids ids' e e' between w s c i =
      let w₁ = (new_message_handler start ids e w).1 in
      let w' = (work_through between w₁).1 in
      let marked : is_seen L e'.chat_id e'.id w' ≡ true =
        rw (← c, ← i)
          (seen-work_through L e.chat_id e.id between w₁
            (seen-new_message_handler L start ids e w s)) in
      let taken : (is_skipped start' ids' e' || is_seen L e'.chat_id e'.id w') ≡ true =
        ground (arith, marked) in
      pending-new_message_handler L start' ids' e' w' ∙ rw taken (append-nil (pending L w'))
