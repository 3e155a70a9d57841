-- ===== src/Engine/Clients/Runs.antt =====
-- The runs of the engine of app/telethon_engine.py: any sequence of its calls and of what happens to
-- its clients and tasks.
use telegram_client.Prelude.{ℕ, Bool, Option, some, nat_eq, string_eq, pair_eq}
use telegram_client.Dict
use telegram_client.Dict.{Dict}
use telegram_client.Engine.{ConnectResult}
use telegram_client.Engine.Clients.{
  TaskEnd, until_disconnected, session_revoked, cancelled, loop_failed, run_client_task, Clients,
  disconnect, disconnect_account, disconnect_all, discard_client, client_for_account,
}
use telegram_client.Data.{int_eq, role_eq}
use telegram_client.Engine.Clients.Kept.{
  IsKept, end_task-IsKept, lost-IsKept, disconnect_account-IsKept, disconnect_each-IsKept,
  discard_client-IsKept,
}
use telegram_client.Engine.Clients.Started.{client_for_account-IsKept}

-- What happens to the clients: the calls of the engine's methods, a client that loses its
-- connection, and a task that ends.
pub data Step (e : Clients) : Clients → Type 0 where
  asked :
      (has_credentials : Bool) (acc_id : ℕ) (result : ConnectResult)
      → Step e (client_for_account has_credentials acc_id result e).0
  discarded : (acc_id : ℕ) (client : Option ℕ) → Step e (discard_client acc_id client e)
  disconnected : (acc_id : ℕ) → Step e (disconnect_account acc_id e)
  all_disconnected : Step e (disconnect_all e)
  lost : (client : ℕ) → Step e (disconnect client e)
  ended :
      (acc_id client task : ℕ) (result : TaskEnd)
      → Step e (run_client_task acc_id client task result e)

pub data Reach (e : Clients) : Clients → Type 0 where
  here : Reach e e
  next : (e' : Clients) {e'' : Clients} → Reach e e' → Step e' e'' → Reach e e''

run_client_task-IsKept :
    (a c t : ℕ) (result : TaskEnd) (e : Clients)
    → IsKept e
    → IsKept (run_client_task a c t result e)
unfolding run_client_task
run_client_task-IsKept a c t session_revoked e kept =
    end_task-IsKept t (discard_client a (some c) e) (discard_client-IsKept a (some c) e kept)
run_client_task-IsKept a c t until_disconnected e kept = end_task-IsKept t e kept
run_client_task-IsKept a c t cancelled e kept = end_task-IsKept t e kept
run_client_task-IsKept a c t loop_failed e kept = end_task-IsKept t e kept

Step-IsKept : (e : Clients) {e' : Clients} → Step e e' → IsKept e → IsKept e'
unfolding disconnect_all
Step-IsKept e (asked credentials a result) kept =
    client_for_account-IsKept credentials a result e kept
Step-IsKept e (discarded a client) kept = discard_client-IsKept a client e kept
Step-IsKept e (disconnected a) kept = disconnect_account-IsKept a e kept
Step-IsKept e all_disconnected kept = disconnect_each-IsKept (Dict.keys e.clients) e kept
Step-IsKept e (lost c) kept = lost-IsKept c e kept
Step-IsKept e (ended a c t result) kept = run_client_task-IsKept a c t result e kept

pub Reach-IsKept : (e : Clients) {e' : Clients} → Reach e e' → IsKept e → IsKept e'
Reach-IsKept e here kept = kept
Reach-IsKept e (next e' run step) kept = Step-IsKept e' step (Reach-IsKept e run kept)
