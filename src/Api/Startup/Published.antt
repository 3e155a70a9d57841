-- ===== src/Api/Startup/Published.antt =====
-- What a connected worker finds when app/api.py has started.
use telegram_client.Prelude.{true, some, ◌≡◌, refl, String, ap, ◌∙◌, inl, inr, Bool-cases}
use telegram_client.Queue.Connection.{connect, flush_redis_state}
use telegram_client.Rotator.Shown.Synced.{Keeps-messages}
use telegram_client.World.{World}
use telegram_client.Redis.{Redis, active_consumer, active_targets}
use telegram_client.Queue.Connection.{is_online, attempt}
use telegram_client.Queue.State.{
  set_active_targets, get_active_targets, set_active_messages, set_active_consumer,
}
use telegram_client.Api.Startup.{startup_contents, sync_sqlite_to_redis_on_startup}
use telegram_client.Rotator.Shown.{read_by_worker, held_after_write, Keeps, Keeps-write}
use telegram_client.Rotator.Shown.Assigned.{Keeps-all}
use telegram_client.Redis.Laws.{Laws}

module _ {R : Redis} (L : Laws R) where
  Keeps-consumer : (worker_id : String) → Keeps L (set_active_consumer worker_id)
  unfolding set_active_consumer
  Keeps-consumer worker_id =
      Keeps-write L active_consumer worker_id (λ m. record m { active_consumer = worker_id })
        (λ p. cc) (λ m. refl)

  connected-db :
      (w : World R)
      → (R.ping w.redis).0 ≡ some tt
      → ((connect w).1.db ≡ w.db) × (is_online (connect w).1 ≡ true)
  unfolding connect
  connected-db w e = rw e (refl, refl)

  flush-db :
      (w : World R)
      → ((flush_redis_state w).1.db ≡ w.db) × (is_online (flush_redis_state w).1 ≡ is_online w)
  unfolding flush_redis_state attempt
  flush-db w = elim (Bool-cases (is_online w)) [ inl e ↦ rw e (refl, e) | inr e ↦ rw e (refl, e) ]

  startup-held :
      (w : World R)
      → (R.ping w.redis).0 ≡ some tt
      → L.value active_targets (sync_sqlite_to_redis_on_startup w).1.redis
        ≡ some (startup_contents w.db.targets)
  unfolding sync_sqlite_to_redis_on_startup set_active_targets
  startup-held w pong =
      let w₁ = (connect w).1 in
      let w₂ = (flush_redis_state w₁).1 in
      let (tables₁, on₁) = connected-db w pong in
      let (tables₂, on₂) = flush-db w₁ in
      let targets = startup_contents w₂.db.targets in
      let messages = startup_contents w₂.db.messages in
      let w₃ = (set_active_targets targets w₂).1 in
      let w₄ = (set_active_messages messages w₃).1 in
      let w₅ = (set_active_consumer "worker-1" w₄).1 in
      let (_, _, _, assigned) = Keeps-all L targets w₅ in
      let (_, _, _, after_consumer) = Keeps-consumer "worker-1" w₄ in
      let (_, _, _, after_messages) = Keeps-messages L messages w₃ in
      let written =
        held_after_write L targets (λ m. record m { targets = targets }) w₂ (on₂ ∙ on₁) in
      assigned
      ∙ (after_consumer
          ∙ (after_messages
              ∙ (written ∙ ap (λ d. some (startup_contents d.targets)) (tables₂ ∙ tables₁))))

  -- The server answers the master's PING, and then every command. When the start has run, a worker,
  -- a process of its own that is connected to the same server, reads as targets the active rows of
  -- the table that are not empty, whatever Redis held before.
  pub startup-get_active_targets :
      (w worker : World R)
      → (R.ping w.redis).0 ≡ some tt
      → is_online worker ≡ true
      → worker.redis ≡ (sync_sqlite_to_redis_on_startup w).1.redis
      → (get_active_targets worker).0 ≡ startup_contents w.db.targets
  startup-get_active_targets w worker pong e same =
      read_by_worker L (startup_contents w.db.targets) worker e
        (ap (L.value active_targets) same ∙ startup-held w pong)
