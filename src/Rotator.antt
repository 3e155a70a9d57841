-- ===== src/Rotator.antt =====
-- `ShiftRotator` of app/rotator.py: whose turn it is to reply, and what the master keeps in step.
-- The broadcasts to the dashboard only read, and are left out.
pub mod Turns
pub mod Shift
pub mod Restart
pub mod Loop
pub mod Shown
pub mod Dashboard
use telegram_client.Prelude.{
  ℕ, suc, ◌+◌, ◌%◌, String, Bool, true, false, ◌&&◌, Option, none, some, List, [], ◌∷◌, map, ltb,
  leb, if◌then◌else◌, length, get_elem?, ◌==◌, string_eq, nat_eq, pair_eq,
}
use telegram_client.Dict.{Dict, keys}
use telegram_client.Redis.{Redis}
use telegram_client.Data.{
  ℤ, pos, negsuc, Assignments, Status, resting, flood_wait, Account, WorkerInfo, info, LogEntry,
  int_eq, role_eq,
}
use telegram_client.World.{spells, words, SettingText, Row, Action, ◌>>=◌, ◌>>◌, pure, gets}
use telegram_client.Database.{set_db, set_setting, add_log}
use telegram_client.Queue.Connection.{disconnect}
use telegram_client.Queue.State.{
  set_active_targets, get_active_targets, set_active_messages, set_active_consumer,
  get_active_consumer, server_number,
}
use telegram_client.Worker.Texts.Numbers.{int_text}
use telegram_client.Queue.Workers.{sorted, get_registered_workers, get_alive_worker_ids}
use telegram_client.Assigner.Listeners.{auto_assign_listeners}
use telegram_client.Assigner.Repliers.{auto_assign_repliers}

-- `alive_workers.index(worker)`; `none` for the ValueError.
unfoldable pub index_of : String → List String → Option ℕ
index_of s [] = none
index_of s (x ∷ xs) =
    let later : Option ℕ = elim (index_of s xs) [ none ↦ none | some i ↦ some (suc i) ] in
    if x == s then some 0 else later

abbrev pub next_index : Option ℕ → ℕ → ℕ
next_index none n = 0
next_index (some i) n = (i + 1) % n

-- `alive_workers[next_idx]`; `none` for an IndexError.
unfoldable pub next_consumer : String → List String → Option String
unfolding index_of
next_consumer current alive = get_elem? alive (next_index (index_of current alive) (length alive))

abbrev pub rotation_log : LogEntry
rotation_log = record {
  action = "SHIFT_ROTATE";
  level = info;
  phone = none;
  server_group = none;
  target = none;
}

-- `[r["username"] for r in rows WHERE is_active = 1]`
unfoldable pub active_contents : List Row → List String
active_contents [] = []
active_contents (row ∷ rows) =
    let rest = active_contents rows in if row.is_active then row.content ∷ rest else rest

-- The fields of the rotator; the texts of sorted targets are compared as the lists themselves, and
-- the initial empty text is no list's.
pub record Rotator : Type 0 where
  pub is_running : Bool
  pub last_targets : Option (List String)
  pub last_recovery_check : ℕ

unfoldable pub same_list : List String → List String → Bool
same_list [] [] = true
same_list (x ∷ xs) (y ∷ ys) = x == y && same_list xs ys
same_list _ _ = false

abbrev pub same_targets : List String → Option (List String) → Bool
unfolding same_list
same_targets ts none = false
same_targets ts (some us) = same_list ts us

abbrev pub is_flooded : Status → Bool
is_flooded flood_wait = true
is_flooded _ = false

abbrev pub is_flood_over : ℕ → Account → Bool
is_flood_over now acc = is_flooded acc.status && (ltb 0 acc.flood_until && leb acc.flood_until now)

-- UPDATE accounts SET status = 'RESTING', flood_until = 0 WHERE status = 'FLOOD_WAIT' AND
-- flood_until > 0 AND now >= flood_until
unfoldable pub recover_floods : ℕ → List Account → List Account
recover_floods now = map (λ (acc : Account).
    if is_flood_over now acc then record acc { status = resting; flood_until = 0 } else acc)

-- The text of an integer, as a setting.
abbrev pub setting_of : ℤ → SettingText
setting_of (pos n) = spells n
setting_of (negsuc n) = words (int_text (negsuc n))

module _ {R : Redis} where
  unfoldable pub set_server : Option ℤ → Action R (Unit {0})
  set_server none = pure tt
  set_server (some n) = set_setting "current_active_server" (setting_of n)

  unfoldable pub hand_over : Option String → Action R (Option (Unit {0}))
  hand_over none = pure none
  hand_over (some next) = do
    set_active_consumer next
    now ← gets (λ w. w.now)
    set_setting "shift_started_at" (spells now)
    set_server (server_number next)
    add_log rotation_log
    pure (some tt)

  unfoldable pub rotate_among : List String → Action R (Option (Unit {0}))
  rotate_among [] = pure (some tt)
  rotate_among (x ∷ xs) = do
    current ← get_active_consumer
    hand_over (next_consumer current (x ∷ xs))

  -- The result `none` means that an exception escapes.
  unfoldable pub rotate_consumer : Action R (Option (Unit {0}))
  rotate_consumer = do alive ← get_alive_worker_ids; rotate_among alive

-- `list(workers.keys()) if workers else ["worker-1"]`
abbrev pub worker_ids : Dict String WorkerInfo → List String
worker_ids [] = "worker-1" ∷ []
worker_ids ((wid, _) ∷ ws) = wid ∷ keys ws

module _ {R : Redis} where
  abbrev pub assign_each : List String → List String → Action R (Option (Unit {0}))
  assign_each [] targets = pure (some tt)
  assign_each (wid ∷ wids) targets = do
    done ← auto_assign_repliers wid (some targets)
    elim done [ none ↦ pure none | some _ ↦ assign_each wids targets ]

  abbrev pub assign_workers : List String → Option Assignments → Action R (Option (Unit {0}))
  assign_workers targets none = pure none
  assign_workers targets (some _) = do
    workers ← get_registered_workers
    assign_each (worker_ids workers) targets

  -- The listeners, then the repliers of every worker.
  unfoldable pub assign_all : List String → Action R (Option (Unit {0}))
  assign_all targets = do
    listeners ← auto_assign_listeners (some targets) true
    assign_workers targets listeners

  abbrev pub reassign : List String → Rotator → Action R Rotator
  reassign targets r = do
    done ← assign_all targets
    pure (elim done [ none ↦ r | some _ ↦ record r { last_targets = some (sorted targets) } ])

  -- An exception ends the body, and is only logged.
  unfoldable pub sync_state_to_redis : Rotator → Action R Rotator
  sync_state_to_redis r = do
    targets ← gets (λ w. active_contents w.db.targets)
    messages ← gets (λ w. active_contents w.db.messages)
    set_active_targets targets
    set_active_messages messages
    if same_targets (sorted targets) r.last_targets then pure r else reassign targets r

  -- UPDATE accounts SET status = 'RESTING'
  abbrev pub rest_all : Action R (Unit {0})
  rest_all = set_db (λ d. record d {
    accounts = map (λ (acc : Account). record acc { status = resting }) d.accounts;
  })

  unfoldable pub stop : Rotator → Action R Rotator
  unfolding set_setting disconnect add_log
  stop r = do
    set_setting "is_rotator_running" (spells 0)
    disconnect
    rest_all
    add_log (record {
      action = "SHIFT_STOP";
      level = info;
      phone = none;
      server_group = none;
      target = none;
    })
    pure (record r { is_running = false })

  abbrev pub ensure_consumer : String → Action R (Unit {0})
  ensure_consumer current = if current == "" then set_active_consumer "worker-1" else pure tt

  abbrev pub started : Option Assignments → Action R (Option (Unit {0}))
  started none = pure none
  started (some _) = do
    add_log (record {
      action = "SHIFT_START";
      level = info;
      phone = none;
      server_group = none;
      target = none;
    })
    pure (some tt)

  -- The task of the rotation loop is created by the caller of this action. The first result is
  -- `none` when an exception escapes; the flag is set already then.
  unfoldable pub start : Rotator → Action R (Option (Unit {0}) × Rotator)
  unfolding set_setting get_active_consumer set_active_consumer get_active_targets
      auto_assign_listeners add_log
  start r = do
    set_setting "is_rotator_running" (spells 1)
    current ← get_active_consumer
    ensure_consumer current
    now ← gets (λ w. w.now)
    set_setting "shift_started_at" (spells now)
    targets ← get_active_targets
    listeners ← auto_assign_listeners (some targets) true
    done ← started listeners
    pure (done, record r { is_running = true })
