-- ===== src/Api/Targets/Stored.antt =====
-- What a connected worker reads after a target was added or deleted through app/api.py.
use telegram_client.Prelude.{
  ℕ, ◌≡◌, refl, String, ap, ◌∙◌, inl, inr, true, false, List, [], ◌∷◌, ◌++◌, Bool-cases, string_eq,
  nat_eq, pair_eq,
}
use telegram_client.Dict
use telegram_client.Dict.{Dict}
use telegram_client.World.{World, Row}
use telegram_client.Rotator.{active_contents, Rotator, sync_state_to_redis}
use telegram_client.Queue.Connection.{is_online}
use telegram_client.Redis.{Redis}
use telegram_client.Queue.State.{or_default, get_active_targets}
use telegram_client.Api.Targets.{
  has_content, new_row, insert_target, add_target, strip, normalised, success,
}
use telegram_client.Rotator.Shown.Synced.{sync-get_active_targets}
use telegram_client.Redis.Laws.{Laws}
use telegram_client.Worker.Texts.{is_empty}
use telegram_client.Data.{int_eq, role_eq}

active_contents-append :
    (rows : List Row) (row : Row)
    → row.is_active ≡ true
    → active_contents (rows ++ row ∷ []) ≡ active_contents rows ++ row.content ∷ []
unfolding active_contents
active_contents-append [] row h = rw h refl
active_contents-append (r ∷ rows) row h = elim (Bool-cases r.is_active) [
  | inl e ↦ rw e (ap (λ l. r.content ∷ l) (active_contents-append rows row h))
  | inr e ↦ rw e (active_contents-append rows row h)
]

module _ {R : Redis} (L : Laws R) where
  -- The master is connected to Redis, and Redis answers every command. A target is added under a
  -- name that the table does not hold: the request succeeds, and a worker, a process of its own that
  -- is connected to the same server, then reads it under its normalised name, behind the active
  -- targets that there were.
  pub get_active_targets-add_target :
      (new_id : ℕ) (payload : Dict String String) (username : String) (r : Rotator)
      (w worker : World R)
      → strip (or_default "" (Dict.get "username" payload)) ≡ username
      → is_empty username ≡ false
      → has_content (normalised username) w.db.targets ≡ false
      → is_online w ≡ true
      → is_online worker ≡ true
      → worker.redis ≡ (add_target new_id payload r w).1.redis
      → ((add_target new_id payload r w).0.0 ≡ success)
        × ((get_active_targets worker).0 ≡ active_contents w.db.targets ++ normalised username ∷ [])
  unfolding add_target insert_target
  get_active_targets-add_target new_id payload username r w worker h given new e e' same =
      let rows = w.db.targets ++ new_row new_id (normalised username) ∷ [] in
      let w₁ : World R = record w { db = record w.db { targets = rows } } in
      let shared : worker.redis ≡ (sync_state_to_redis r w₁).1.redis = rw (h, given, new) at same in
      rw (h, given)
        (
          refl,
          (sync-get_active_targets L r w₁ worker e e' shared).0
              ∙ active_contents-append w.db.targets (new_row new_id (normalised username)) refl,
        )
