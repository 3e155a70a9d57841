-- ===== src/Api/Workers.antt =====
-- `get_workers` of app/api.py: the workers that the dashboard shows.
use telegram_client.Prelude.{
  ℕ, ◌-◌, String, ◌≡◌, refl, sym, ◌∙◌, Bool, ◌&&◌, ◌||◌, List, [], ◌∷◌, arith, ltb, leb,
  if◌then◌else◌, contains, ◌==◌, string_eq, nat_eq, pair_eq, inl, inr, Bool-cases,
}
use telegram_client.Worker.Texts.Numbers.{negated}
use telegram_client.Dict.{Dict}
use telegram_client.World.{World, ◌>>=◌, pure, Action, gets}
use telegram_client.Redis.{Redis}
use telegram_client.Data.{ℤ, WorkerInfo, int_eq, role_eq, pos}
use telegram_client.Queue.State.{get_active_consumer}
use telegram_client.Queue.Workers.{
  worker_heartbeat_timeout, text_le, alive_in, get_registered_workers, get_alive_worker_ids,
}
use telegram_client.Queue.Workers.Alive.{contains-sorted}

pub record WorkerView : Type 0 where
  pub worker_id : String
  pub heartbeat : ℕ
  pub is_alive : Bool
  pub seconds_since_heartbeat : ℤ

abbrev pub seconds_between : ℕ → ℕ → ℤ
seconds_between a b = if leb a b then pos (b - a) else negated (a - b)

abbrev pub view_of : ℕ → String → WorkerInfo → WorkerView
view_of now wid entry = record {
  worker_id = wid;
  heartbeat = entry.heartbeat;
  is_alive = ltb (now - entry.heartbeat) worker_heartbeat_timeout;
  seconds_since_heartbeat = seconds_between entry.heartbeat now;
}

unfoldable pub insert_view : WorkerView → List WorkerView → List WorkerView
insert_view v [] = v ∷ []
insert_view v (u ∷ us) =
    if text_le v.worker_id u.worker_id then v ∷ u ∷ us else u ∷ insert_view v us

-- `sorted(result, key=lambda w: w["worker_id"])` of the loop's result
unfoldable pub sorted_views : ℕ → Dict String WorkerInfo → List WorkerView
unfolding insert_view
sorted_views now [] = []
sorted_views now ((wid, entry) ∷ workers) =
    insert_view (view_of now wid entry) (sorted_views now workers)

-- The workers whose status is "alive".
unfoldable pub alive_views : List WorkerView → List String
alive_views [] = []
alive_views (v ∷ vs) = let rest = alive_views vs in if v.is_alive then v.worker_id ∷ rest else rest

module _ {R : Redis} where
  unfoldable pub get_workers : Action R (String × List WorkerView)
  get_workers = do
    workers ← get_registered_workers
    now ← gets (λ w. w.now)
    active_consumer_id ← get_active_consumer
    pure (active_consumer_id, sorted_views now workers)

contains-insert_view :
    (x : String) (v : WorkerView) (vs : List WorkerView)
    → contains x (alive_views (insert_view v vs))
      ≡ ((v.is_alive && v.worker_id == x) || contains x (alive_views vs))
unfolding insert_view alive_views contains
contains-insert_view x v [] = ground arith
contains-insert_view x v (u ∷ us) = elim (Bool-cases (text_le v.worker_id u.worker_id)) [
  | inl e ↦ rw e (ground arith)
  | inr e ↦ rw e (ground (arith, contains-insert_view x v us))
]

contains-sorted_views :
    (now : ℕ) (x : String) (ws : Dict String WorkerInfo)
    → contains x (alive_views (sorted_views now ws)) ≡ contains x (alive_in now ws)
unfolding sorted_views alive_in contains alive_views
contains-sorted_views now x [] = refl
contains-sorted_views now x ((wid, i) ∷ ws) =
    contains-insert_view x (view_of now wid i) (sorted_views now ws)
    ∙ ground (arith, contains-sorted_views now x ws)

-- The dashboard shows a worker as alive exactly when the rotation counts it as alive.
pub get_workers-alive :
    {R : Redis} (x : String) (w : World R)
    → contains x (alive_views (get_workers w).0.1) ≡ contains x (get_alive_worker_ids w).0
unfolding get_workers get_alive_worker_ids
get_workers-alive x w =
    let (found, w') = get_registered_workers w in
    contains-sorted_views w'.now x found ∙ sym (contains-sorted x (alive_in w'.now found))
