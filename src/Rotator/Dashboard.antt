-- ===== src/Rotator/Dashboard.antt =====
-- `get_current_state` of app/rotator.py: what the dashboard is told. `ticks` and
-- `float_of` are as in Loop.
use telegram_client.Prelude.{
  ℕ, ◌-◌, ◌*◌, ◌/◌, String, Bool, ◌&&◌, Option, none, some, List, ltb, nat_beq, take, filter,
  if◌then◌else◌, ◌==◌, string_eq, nat_eq, pair_eq,
}
use mathlib.Core.List.{reverse}
use telegram_client.Dict.{Dict}
use telegram_client.Data.{ℤ, Account, Assignments, WorkerInfo, LogEntry, int_eq, role_eq}
use telegram_client.Redis.{Redis}
use telegram_client.World.{SettingText, spells, words, Row, Action, ◌>>=◌, pure, gets}
use telegram_client.Database.{get_setting}
use telegram_client.Queue.State.{get_active_consumer, get_active_server, get_listener_assignments}
use telegram_client.Queue.Workers.{get_registered_workers, get_alive_worker_ids}
use telegram_client.Rotator.{Rotator}
use telegram_client.Rotator.Loop.{number_of, time_of}

-- The interval is as `number_of` gives it.
pub record Dashboard : Type 0 where
  pub active_consumer_id : String
  pub active_server : ℤ
  pub is_running : Bool
  pub rotation_interval_minutes : ℕ
  pub elapsed_seconds : ℕ
  pub remaining_seconds : ℕ
  pub total_shift_seconds : ℕ
  pub accounts : List Account
  pub active_rows : List Row × List Row
  pub logs : List LogEntry
  pub workers : Dict String WorkerInfo
  pub alive_workers : List String
  pub listeners : Assignments

-- `text == "1"`
abbrev pub is_one : SettingText → Bool
is_one (spells n) = nat_beq n 1
is_one (words s) = s == "1"

-- The times and durations in units; `int` cuts them to whole seconds in the end.
unfoldable pub elapsed : ℕ → ℕ → ℕ
elapsed shift_started_at now = if ltb 0 shift_started_at then now - shift_started_at else 0

unfoldable pub remaining : Bool → ℕ → ℕ → ℕ
remaining rotator_running total elapsed_time =
    if rotator_running then total - elapsed_time else total

-- `int(...)` of a duration.
abbrev pub whole_seconds : ℕ → ℕ → ℕ
whole_seconds ticks duration = duration / ticks

module _ {R : Redis} (ticks : ℕ) where
  abbrev pub state_with : Bool → String → Option ℕ → Option ℕ → Action R (Option Dashboard)
  state_with running consumer (some minutes) (some started) = do
    now ← gets (λ w. w.now)
    workers ← get_registered_workers
    alive ← get_alive_worker_ids
    listeners ← get_listener_assignments
    db ← gets (λ w. w.db)
    server ← get_active_server
    let total : ℕ = minutes * 60
    let gone : ℕ = elapsed started now
    pure (
        some (record {
          active_consumer_id = consumer;
          active_server = server;
          is_running = running;
          rotation_interval_minutes = minutes;
          elapsed_seconds = whole_seconds ticks gone;
          remaining_seconds = whole_seconds ticks (remaining running total gone);
          total_shift_seconds = whole_seconds ticks total;
          accounts = db.accounts;
          active_rows =
              (filter (λ r. r.is_active) db.messages, filter (λ r. r.is_active) db.targets);
          logs = take 50 (reverse db.logs);
          workers = workers;
          alive_workers = alive;
          listeners = listeners;
        }))
  state_with running consumer _ _ = pure none

  -- `none` for the ValueError of a setting that is no number.
  unfoldable pub get_current_state : (String → Option ℕ) → Rotator → Action R (Option Dashboard)
  get_current_state float_of r = do
    consumer ← get_active_consumer
    flag ← get_setting "is_rotator_running" (spells 0)
    minutes ← get_setting "rotation_interval_minutes" (spells 10)
    started ← get_setting "shift_started_at" (spells 0)
    state_with (is_one flag && r.is_running) consumer (number_of ticks float_of minutes)
        (time_of float_of started)
