-- ===== src/Worker/Dispatch.antt =====
-- `_dispatch_reply` of worker.py: which account answers a job, and the rules it keeps. The locks
-- around the body hold while it runs, so it is one action.
pub mod Rules
use telegram_client.Prelude.{
  ℕ, String, Bool, true, false, ◌&&◌, Option, none, some, List, [], ◌∷◌, leb, if◌then◌else◌,
  string_eq, nat_eq, pair_eq,
}
use telegram_client.Dict
use telegram_client.Dict.{Dict}
use telegram_client.Data.{
  ℤ, int_eq, Status, flood_wait, error, disabled, unauthorized, Account, Pair, Job, Level, info,
  warning, success, LogEntry, replier, role_eq,
}
use telegram_client.Redis.{Redis}
use telegram_client.World.{Action, ◌>>=◌, ◌>>◌, pure}
use telegram_client.Queue.Jobs.{requeue_for_retry}
use telegram_client.Queue.Logs.{push_worker_log}
use telegram_client.Queue.Counters.{
  get_consecutive_thread_replies, increment_consecutive_thread_replies,
  reset_consecutive_thread_replies,
}
use telegram_client.Queue.State.{get_group_pair_assignments}
use telegram_client.Worker.Accounts.{load_accounts_by_role}
use telegram_client.Worker.Texts.{is_empty}

-- The fields of `ProductionWorkerNode` that the dispatch reads. The keys of `chat_id_to_target` are
-- numbers, so that its lookup by a text finds nothing.
pub record Worker : Type 0 where
  pub worker_id : String
  pub chat_id_to_target : Dict ℤ String
  pub target_to_replier : Dict String String
  pub replier_accounts_cache : Dict String Account

-- The two calls through which the dispatch reaches Telegram: `_ensure_replier_resolved`, and
-- `reply_to_channel_message` of app/telethon_engine.py.
pub record Engine (R : Redis) : Type 0 where
  pub ensure_resolved : Account → ℤ → Action R (Unit {0})
  pub reply_to_channel_message : Account → ℤ → ℕ → String → Action R Bool

-- `status not in ("FLOOD_WAIT", "UNAUTHORIZED", "DISABLED", "ERROR")`
abbrev pub is_available : Status → Bool
is_available flood_wait = false
is_available unauthorized = false
is_available disabled = false
is_available error = false
is_available _ = true

-- `cache.get(sname) if sname else None`
abbrev pub cached : Worker → Option String → Option Account
cached node none = none
cached node (some sname) =
    if is_empty sname then none else Dict.get sname node.replier_accounts_cache

-- The target of a chat; an empty text counts as none.
abbrev pub target_of : Worker → ℤ → Option String
target_of node chat_id = elim (Dict.get chat_id node.chat_id_to_target) [
  | none ↦ none
  | some target ↦ if is_empty target then none else some target
]

abbrev pub pair_accounts : Worker → String → Option Pair → Option Account × Option Account
pair_accounts node target none = (cached node (Dict.get target node.target_to_replier), none)
pair_accounts node target (some p) = (cached node (some p.primary), cached node (some p.backup))

-- Step 1: the account, and whether it is the backup.
unfoldable pub choose : Option Account → Option Account → Option (Account × Bool)
choose none none = none
choose none (some b) = if is_available b.status then some (b, true) else none
choose (some p) none = some (p, false)
choose (some p) (some b) =
    if is_available p.status
    then some (p, false)
    else if is_available b.status
    then some (b, true)
    else some (p, false)

abbrev pub reply_log : Level → Account → ℤ → LogEntry
reply_log level acc chat_id = record {
  action = "AUTO_REPLY";
  level = level;
  phone = some acc.phone;
  server_group = some acc.server_group;
  target = some chat_id;
}

abbrev pub max_consecutive : ℕ
max_consecutive = 5

module _ {R : Redis} (E : Engine R) (node : Worker) where
  abbrev pub find_for_target : Option String → Action R (Option Account × Option Account)
  find_for_target none = pure (none, none)
  find_for_target (some target) = do
    pair_map ← get_group_pair_assignments node.worker_id
    pure (pair_accounts node target (Dict.get target pair_map))

  unfoldable pub find_primary_and_backup_for_chat : ℤ → Action R (Option Account × Option Account)
  find_primary_and_backup_for_chat chat_id = find_for_target (target_of node chat_id)

  -- Rule 2: whether the account may answer, and the reset on a top-level message.
  unfoldable pub may_reply : Account → Job → Action R Bool
  may_reply acc job =
      if job.is_reply
      then (get_consecutive_thread_replies job.chat_id acc.session_name >>= λ n.
          pure (if leb max_consecutive n then false else true))
      else (reset_consecutive_thread_replies job.chat_id acc.session_name >> pure true)

  abbrev pub count_reply : Account → Job → Action R (Unit {0})
  count_reply acc job =
      if job.is_reply
      then (increment_consecutive_thread_replies job.chat_id acc.session_name >> pure tt)
      else pure tt

  abbrev pub after_reply : Account → Job → Bool → Action R (Unit {0})
  after_reply acc job true = do
    count_reply acc job
    push_worker_log (reply_log success acc job.chat_id)
  after_reply acc job false = do requeue_for_retry job; pure tt

  -- Step 4, once the rules allow it.
  unfoldable pub send_reply : Account → Job → String → Action R (Unit {0})
  send_reply acc job msg_to_send = do
    E.ensure_resolved acc job.chat_id
    sent ← E.reply_to_channel_message acc job.chat_id job.msg_id msg_to_send
    after_reply acc job sent

  abbrev pub if_allowed : Account → Job → String → Bool → Action R (Unit {0})
  if_allowed acc job msg_to_send true = send_reply acc job msg_to_send
  if_allowed acc job msg_to_send false = push_worker_log (reply_log warning acc job.chat_id)

  -- Steps 2 to 4: rule 4 first.
  unfoldable pub reply_with : Account → Bool → Job → String → Action R (Unit {0})
  reply_with acc is_backup job msg_to_send =
      if is_backup && job.is_reply
      then push_worker_log (reply_log info acc job.chat_id)
      else (may_reply acc job >>= if_allowed acc job msg_to_send)

  -- `_get_next_rr_account`, and the requeue when there is none
  abbrev pub reply_with_first : List Account → Job → String → Action R (Unit {0})
  reply_with_first [] job msg_to_send = do requeue_for_retry job; pure tt
  reply_with_first (acc ∷ accs) job msg_to_send = reply_with acc false job msg_to_send

  abbrev pub reply_with_chosen : Option (Account × Bool) → Job → String → Action R (Unit {0})
  reply_with_chosen (some (acc, is_backup)) job msg_to_send =
      reply_with acc is_backup job msg_to_send
  reply_with_chosen none job msg_to_send = do
    accounts ← load_accounts_by_role replier
    reply_with_first accounts job msg_to_send

  unfoldable pub dispatch_reply : Job → String → Action R (Unit {0})
  dispatch_reply job msg_to_send = do
    found ← find_primary_and_backup_for_chat job.chat_id
    reply_with_chosen (choose found.0 found.1) job msg_to_send
