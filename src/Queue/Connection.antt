-- ===== src/Queue/Connection.antt =====
-- Connecting, disconnecting, the fallback that every operation shares, and the flush at startup.
use telegram_client.Prelude.{
  string_eq, nat_eq, pair_eq, String, Bool, true, false, ◌&&◌, Option, none, some, List, [], ◌∷◌,
  ◌++◌, map, if◌then◌else◌,
}
use telegram_client.Redis.{
  Redis, Key, Reply, active_targets, active_messages, active_consumer, listener_assignments,
  replier_assignments, group_pair_assignments,
}
use telegram_client.World.{World, Action, MemoryState, initial_memory_state, ◌>>=◌, ◌>>◌}

-- The keys that the flush deletes besides those found by the two scans.
abbrev pub state_keys : List Key
state_keys = active_targets ∷ active_messages ∷ active_consumer ∷ listener_assignments ∷ []

abbrev pub delete_found :
    (R : Redis) → List String → Reply (List String) → R.State → Reply (Unit {0}) × R.State
delete_found R ws none s = (none, s)
delete_found R ws (some vs) s =
    R.delete (state_keys ++ (map replier_assignments ws ++ map group_pair_assignments vs)) s

abbrev pub scan_pairs : (R : Redis) → Reply (List String) → R.State → Reply (Unit {0}) × R.State
scan_pairs R none s = (none, s)
scan_pairs R (some ws) s =
    let (found, s') = R.scan_group_pair_assignments s in delete_found R ws found s'

-- The body of the `try`: both scans, then one DEL.
abbrev pub flush_keys : (R : Redis) → R.State → Reply (Unit {0}) × R.State
flush_keys R s = let (found, s') = R.scan_replier_assignments s in scan_pairs R found s'

module _ {R : Redis} where
  -- `self.use_redis and self.redis_client`
  abbrev pub is_online : World R → Bool
  is_online w = w.queue.use_redis && w.queue.redis_client

  -- One call of the Redis client.
  abbrev pub call {ℓ} : {A : Type ℓ} → (R.State → Reply A × R.State) → Action R (Reply A)
  call op w = let (r, s) = op w.redis in (r, record w { redis = s })

  -- The call inside `if self.use_redis and self.redis_client: try: … except Exception: log`. It
  -- gives `none` when there is no client and when the call raises: the code below runs then.
  unfoldable pub attempt {ℓ} : {A : Type ℓ} → (R.State → Reply A × R.State) → Action R (Option A)
  attempt op w = if is_online w then call op w else (none, w)

  abbrev pub set_memory : (MemoryState → MemoryState) → Action R (Unit {0})
  set_memory f w =
      (tt, record w { queue = record w.queue { memory_state = f w.queue.memory_state } })

  abbrev pub set_client : Bool → Action R (Unit {0})
  set_client b w = (tt, record w { queue = record w.queue { redis_client = b; use_redis = b } })

  -- the ping of a new client, and its exception
  abbrev pub after_ping : Reply (Unit {0}) → Action R (Unit {0})
  after_ping (some _) = set_client true
  after_ping none = set_client false

  unfoldable pub connect : Action R (Unit {0})
  connect = do pong ← call (R.ping); after_ping pong

  unfoldable pub disconnect : Action R (Unit {0})
  disconnect w = if w.queue.redis_client then set_client false w else (tt, w)

  abbrev reset_memory : Action R (Unit {0})
  reset_memory w = (
    tt,
    record w { queue = record w.queue { memory_seen = []; memory_state = initial_memory_state } },
  )

  unfoldable pub flush_redis_state : Action R (Unit {0})
  unfolding attempt
  flush_redis_state = do attempt (flush_keys R); reset_memory
