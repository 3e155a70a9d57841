-- ===== src/Rotator/Loop.antt =====
-- The rotation loop of app/rotator.py, one turn at a time, and the recovery of accounts. The sleep
-- and the broadcast at the end of a turn are left out. Times are in units of the clock, of which a
-- second has `ticks`, and Python's floats are multiples of 1/`ticks`. `float_of` is Python's `float`
-- on a text that is not the decimal of a whole number, in that measure; `none` is its ValueError. The
-- modules that a whole turn calls, such as the one that tells which workers are alive, count in
-- seconds, so that a turn is the source's with ticks = 1; the tests of time here are for any number.
pub mod Due
use telegram_client.Prelude.{
  ℕ, ◌+◌, ◌*◌, ◌/◌, ◌-◌, Bool, true, false, Option, none, some, List, [], ◌∷◌, leb, ltb, filter,
  length, if◌then◌else◌, String,
}
use telegram_client.Data.{Account, Status, error, resting, unauthorized, info, failure, LogEntry}
use telegram_client.Redis.{Redis}
use telegram_client.World.{SettingText, spells, words, Action, ◌>>=◌, ◌>>◌, pure, gets}
use telegram_client.Database.{set_db, get_setting, add_log}
use telegram_client.Queue.State.{get_active_targets}
use telegram_client.Queue.Logs.{pop_worker_logs}
use telegram_client.Rotator.{
  Rotator, rotate_consumer, recover_floods, assign_all, sync_state_to_redis,
}
use telegram_client.Engine.{Telethon, get_client_for_account, update_account, with_status}

-- `float(text)`, as a multiple of 1/ticks: with ticks = 10 the text "2.5" gives 25.
abbrev pub number_of : ℕ → (String → Option ℕ) → SettingText → Option ℕ
number_of ticks float_of (spells n) = some (n * ticks)
number_of ticks float_of (words s) = float_of s

-- `float(text)` of a time that `str(time.time())` wrote, in units of the clock.
abbrev pub time_of : (String → Option ℕ) → SettingText → Option ℕ
time_of float_of (spells n) = some n
time_of float_of (words s) = float_of s

abbrev pub is_errored : Account → Bool
is_errored acc = elim acc.status [ error ↦ true | _ ↦ false ]

abbrev pub recovery_log : Account → LogEntry
recovery_log acc = record {
  action = "RECOVERY";
  level = info;
  phone = some acc.phone;
  server_group = none;
  target = none;
}

-- `probe` is what Telethon answers to `client.is_user_authorized()`: `none` for an exception.
module _ {R : Redis} (ticks : ℕ) (T : Telethon) (probe : Account → Option Bool) where
  -- UPDATE accounts SET status = … WHERE id = ?
  abbrev pub set_status : Account → Status → Action R (Unit {0})
  set_status acc status =
      set_db (λ d. record d { accounts = update_account acc.id (with_status status) d.accounts })

  abbrev pub record_probe : Account → Option Bool → Action R ℕ
  record_probe acc (some true) = do set_status acc resting; add_log (recovery_log acc); pure 1
  record_probe acc (some false) = do set_status acc unauthorized; pure 0
  record_probe acc none = pure 0

  -- The account's client, and whether it is authorised.
  unfoldable pub probe_account : Account → Action R ℕ
  probe_account acc = do
    has_client ← get_client_for_account T acc
    record_probe acc (if has_client then probe acc else some false)

  -- The loop over the accounts in error: how many were recovered.
  unfoldable pub probe_accounts : List Account → Action R ℕ
  probe_accounts [] = pure 0
  probe_accounts (acc ∷ accs) = do
    one ← probe_account acc
    more ← probe_accounts accs
    pure (one + more)

  abbrev pub reassign_after : ℕ → Action R (Option (Unit {0}))
  reassign_after recovered =
      if ltb 0 recovered then (get_active_targets >>= assign_all) else pure (some tt)

  abbrev pub probe_and_reassign : List Account → Action R (Option (ℕ × ℕ))
  probe_and_reassign [] = pure (some (0, 0))
  probe_and_reassign (acc ∷ accs) = do
    recovered ← probe_accounts (acc ∷ accs)
    done ← reassign_after recovered
    pure (elim done [ none ↦ none | some _ ↦ some (recovered, length (acc ∷ accs) - recovered) ])

  -- How many accounts were recovered and how many are left; `none` for an exception.
  unfoldable pub recover_errored_and_flood_waited_accounts : Action R (Option (ℕ × ℕ))
  recover_errored_and_flood_waited_accounts = do
    now ← gets (λ w. w.now)
    set_db (λ d. record d { accounts = recover_floods (now / ticks) d.accounts })
    errored ← gets (λ w. filter is_errored w.db.accounts)
    probe_and_reassign errored

-- `elapsed >= shift_duration`. The times are in units, and `rotation_min` is as `number_of` gives it:
-- m minutes are m * ticks there, and last m * ticks * 60 units.
unfoldable pub is_due : ℕ → ℕ → ℕ → Bool
is_due shift_started_at rotation_min now = leb (shift_started_at + rotation_min * 60) now

-- How a turn ends: the loop goes on, or an exception has ended it.
pub data Turn : Type 0 where
  continued failed : Rotator → Turn

abbrev pub error_log : LogEntry
error_log = record {
  action = "ROTATOR_ERROR";
  level = failure;
  phone = none;
  server_group = none;
  target = none;
}

-- `recovery_interval` is in units.
module _ {R : Redis} (ticks : ℕ) (T : Telethon) (probe : Account → Option Bool)
    (float_of : String → Option ℕ) (recovery_interval : ℕ) where
  abbrev pub fail : Rotator → Action R Turn
  fail r = do add_log error_log; pure (failed r)

  abbrev pub add_logs : List LogEntry → Action R (Unit {0})
  add_logs [] = pure tt
  add_logs (entry ∷ entries) = do add_log entry; add_logs entries

  -- The end of the body, from the synchronisation on.
  unfoldable pub finish_turn : Rotator → Action R Turn
  finish_turn r = do
    r' ← sync_state_to_redis r
    entries ← pop_worker_logs 20
    add_logs entries
    pure (continued r')

  abbrev pub after_recovery : ℕ → Rotator → Option (ℕ × ℕ) → Action R Turn
  after_recovery now r none = fail r
  after_recovery now r (some _) = finish_turn (record r { last_recovery_check = now })

  unfoldable pub recover_or_not : ℕ → Rotator → Action R Turn
  recover_or_not now r =
      if leb (r.last_recovery_check + recovery_interval) now
      then (recover_errored_and_flood_waited_accounts ticks T probe >>= after_recovery now r)
      else finish_turn r

  abbrev pub after_rotation : ℕ → Rotator → Option (Unit {0}) → Action R Turn
  after_rotation now r none = fail r
  after_rotation now r (some _) = recover_or_not now r

  abbrev pub rotate_if_due : ℕ → ℕ → Action R (Option (Unit {0}))
  rotate_if_due started minutes = do
    now ← gets (λ w. w.now)
    if is_due started minutes now then rotate_consumer else pure (some tt)

  abbrev pub turn_with : Rotator → Option ℕ → Option ℕ → Action R Turn
  turn_with r (some started) (some minutes) = do
    now ← gets (λ w. w.now)
    done ← rotate_if_due started minutes
    after_rotation now r done
  turn_with r _ _ = fail r

  -- The body of the loop, and what its handlers do with an exception.
  unfoldable pub rotation_turn : Rotator → Action R Turn
  rotation_turn r = do
    time ← gets (λ w. w.now)
    started ← get_setting "shift_started_at" (spells time)
    minutes ← get_setting "rotation_interval_minutes" (spells 10)
    turn_with r (time_of float_of started) (number_of ticks float_of minutes)
