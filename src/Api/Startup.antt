-- ===== src/Api/Startup.antt =====
-- The start and the end of the application, `lifespan` of app/api.py.
pub mod Published
use telegram_client.Prelude.{ℕ, String, not, ◌&&◌, Option, List, [], ◌∷◌, if◌then◌else◌}
use telegram_client.World.{◌>>=◌, ◌>>◌, pure, gets, Row, Action}
use telegram_client.Rotator.{Rotator, assign_all, stop}
use telegram_client.Redis.{Redis}
use telegram_client.Database.{init_db}
use telegram_client.Queue.Connection.{flush_redis_state, connect}
use telegram_client.Queue.State.{set_active_targets, set_active_messages, set_active_consumer}
use telegram_client.Api.Desk.{Desk, shutdown_auths}
use telegram_client.Worker.Texts.{is_empty}

-- `[r["username"] for r in rows if r["username"]]` of the active rows
unfoldable pub startup_contents : List Row → List String
startup_contents [] = []
startup_contents (row ∷ rows) =
    let rest = startup_contents rows in
    if row.is_active && not (is_empty row.content) then row.content ∷ rest else rest

module _ {R : Redis} where
  -- `none` for an exception, which ends the start.
  unfoldable pub sync_sqlite_to_redis_on_startup : Action R (Option (Unit {0}))
  sync_sqlite_to_redis_on_startup = do
    connect
    flush_redis_state
    targets ← gets (λ w. startup_contents w.db.targets)
    messages ← gets (λ w. startup_contents w.db.messages)
    set_active_targets targets
    set_active_messages messages
    set_active_consumer "worker-1"
    assign_all targets

  unfoldable pub startup : ℕ → String → Action R (Option (Unit {0}))
  startup default_api_id default_api_hash = do
    init_db default_api_id default_api_hash
    sync_sqlite_to_redis_on_startup

  abbrev pub stop_running : Rotator → Action R Rotator
  stop_running r = if r.is_running then stop r else pure r

  -- After the `yield`.
  unfoldable pub shutdown : Rotator → Desk R → Rotator × Desk R
  shutdown r d =
      let (r', w) = stop_running r d.world in (r', shutdown_auths (record d { world = w }))
