-- ===== src/Rotator/Shown/Synced.antt =====
-- What a connected worker reads after a synchronisation of app/rotator.py, and so after every change through
-- app/api.py.
use telegram_client.Prelude.{true, ◌≡◌, refl, String, none, some, List, if◌then◌else◌, ap, ◌∙◌}
use telegram_client.Redis.{active_messages, Redis, active_targets}
use telegram_client.World.{World, Action, ◌>>=◌, pure, MemoryState}
use telegram_client.Rotator.{
  active_contents, Rotator, same_targets, assign_all, sync_state_to_redis, reassign,
}
use telegram_client.Queue.State.{get_active_targets, set_active_messages, set_active_targets}
use telegram_client.Queue.Connection.{is_online}
use telegram_client.Queue.Workers.{sorted}
use telegram_client.Rotator.Shown.{
  read_by_worker, held_after_write, Keeps, Keeps-then, Keeps-pure, Keeps-write, Keeps-if,
  write_key-targets,
}
use telegram_client.Rotator.Shown.Assigned.{Keeps-all}
use telegram_client.Redis.Laws.{Laws}
use telegram_client.Queue.Reads.{read_key-write_key}

module _ {R : Redis} (L : Laws R) where
  pub Keeps-messages : (messages : List String) → Keeps L (set_active_messages messages)
  unfolding set_active_messages
  Keeps-messages messages =
      Keeps-write L active_messages messages (λ m. record m { messages = messages }) (λ p. cc)
        (λ m. refl)

  Keeps-reassign : (targets : List String) (r : Rotator) → Keeps L (reassign targets r)
  Keeps-reassign targets r =
      Keeps-then L (assign_all targets)
        (λ done.
          pure
            (elim done [ none ↦ r | some _ ↦ record r { last_targets = some (sorted targets) } ]))
        (Keeps-all L targets) (λ done w. (refl, refl, refl, refl))

  after_targets : List String → List String → Rotator → Action R Rotator
  after_targets targets messages r = set_active_messages messages >>= λ _.
      if same_targets (sorted targets) r.last_targets then pure r else reassign targets r

  Keeps-after :
      (targets messages : List String) (r : Rotator) → Keeps L (after_targets targets messages r)
  unfolding after_targets
  Keeps-after targets messages r =
      let unchanged = same_targets (sorted targets) r.last_targets in
      Keeps-then L (set_active_messages messages)
        (λ _. if unchanged then pure r else reassign targets r) (Keeps-messages messages)
        (λ _.
          Keeps-if L unchanged (pure r) (reassign targets r) (Keeps-pure L r)
            (Keeps-reassign targets r))

  pub get-set_active_targets :
      (targets : List String) (w : World R)
      → ((get_active_targets (set_active_targets targets w).1).0 ≡ targets)
        × ((set_active_targets targets w).1.db.targets ≡ w.db.targets)
  unfolding set_active_targets get_active_targets
  get-set_active_targets targets w =
      let update : MemoryState → MemoryState = λ m. record m { targets = targets } in
      (
        ap (λ o. o.0)
            (read_key-write_key L active_targets targets update (λ m. m.targets) (λ m. refl) w),
        write_key-targets L active_targets targets update w,
      )

  sync-held :
      (r : Rotator) (w : World R)
      → is_online w ≡ true
      → L.value active_targets (sync_state_to_redis r w).1.redis
        ≡ some (active_contents w.db.targets)
  unfolding sync_state_to_redis after_targets set_active_targets
  sync-held r w e =
      let targets = active_contents w.db.targets in
      let w₁ = (set_active_targets targets w).1 in
      let (_, _, _, held) = Keeps-after targets (active_contents w.db.messages) r w₁ in
      held ∙ held_after_write L targets (λ m. record m { targets = targets }) w e

  sync-table : (r : Rotator) (w : World R) → (sync_state_to_redis r w).1.db.targets ≡ w.db.targets
  unfolding sync_state_to_redis after_targets
  sync-table r w =
      let targets = active_contents w.db.targets in
      let w₁ = (set_active_targets targets w).1 in
      let (_, kept, _, _) = Keeps-after targets (active_contents w.db.messages) r w₁ in
      kept ∙ (get-set_active_targets targets w).1

  -- The master is connected to Redis, and Redis answers every command. After a synchronisation a
  -- worker, a process of its own that is connected to the same server, reads as targets the active
  -- ones of the master's table, in its order, whatever the assignments that follow the write do.
  -- The table of targets is as it was.
  pub sync-get_active_targets :
      (r : Rotator) (w worker : World R)
      → is_online w ≡ true
      → is_online worker ≡ true
      → worker.redis ≡ (sync_state_to_redis r w).1.redis
      → ((get_active_targets worker).0 ≡ active_contents w.db.targets)
        × ((sync_state_to_redis r w).1.db.targets ≡ w.db.targets)
  sync-get_active_targets r w worker e e' same = (
    read_by_worker L (active_contents w.db.targets) worker e'
        (ap (L.value active_targets) same ∙ sync-held r w e),
    sync-table r w,
  )
