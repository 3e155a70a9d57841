-- ===== src/Api/Desk.antt =====
-- The dictionary `pending_auths` of app/api.py with the login clients in it, and how entries leave
-- it: one by one, when they are stale, and when the application ends.
pub mod Cleanup
use telegram_client.Prelude.{
  ℕ, ◌+◌, String, Bool, not, Option, none, some, List, [], ◌∷◌, ltb, if◌then◌else◌, filter, ◌==◌,
  string_eq, nat_eq, pair_eq,
}
use telegram_client.Dict
use telegram_client.World.{World}
use telegram_client.Database.{add_log}
use telegram_client.Dict.{Dict}
use telegram_client.Redis.{Redis}
use telegram_client.Data.{ℤ, LogEntry, int_eq, role_eq}
use telegram_client.Api.Payload.{Value}

-- An entry of `pending_auths`.
pub record PendingAuth : Type 0 where
  pub client : ℕ
  pub phone : Value
  pub session_name : String
  pub server_group : ℤ
  pub phone_code_hash : String
  pub api_id : ℤ
  pub api_hash : String
  pub created_at : ℕ

-- The module's state: `open_clients` are the login clients that are connected, and `next_client` is
-- the number of the next one created.
pub record Desk (R : Redis) : Type 0 where
  pub world : World R
  pub pending_auths : Dict String PendingAuth
  pub open_clients : List ℕ
  pub next_client : ℕ

-- `now - created_at > PENDING_AUTH_TTL_SECONDS`
abbrev pub is_stale : ℕ → PendingAuth → Bool
is_stale now entry = ltb (entry.created_at + 600) now

unfoldable pub stale_keys : ℕ → Dict String PendingAuth → List String
stale_keys now [] = []
stale_keys now ((k, v) ∷ d) =
    let rest = stale_keys now d in if is_stale now v then k ∷ rest else rest

module _ {R : Redis} where
  -- `if client.is_connected(): await client.disconnect()`
  abbrev pub close : ℕ → Desk R → Desk R
  close client d = record d { open_clients = filter (λ c. not (c == client)) d.open_clients }

  abbrev pub close_entry : Option PendingAuth → Desk R → Desk R
  close_entry none d = d
  close_entry (some entry) d = close entry.client d

  -- `pending_auths.pop(key, None)`, and the client of the entry is disconnected.
  unfoldable pub drop_entry : String → Desk R → Desk R
  drop_entry key d =
      close_entry (Dict.get key d.pending_auths)
        (record d { pending_auths = Dict.pop key d.pending_auths })

  unfoldable pub drop_entries : List String → Desk R → Desk R
  unfolding drop_entry
  drop_entries [] d = d
  drop_entries (key ∷ keys) d = drop_entries keys (drop_entry key d)

  unfoldable pub cleanup_stale_pending_auths : Desk R → Desk R
  unfolding drop_entries stale_keys
  cleanup_stale_pending_auths d = drop_entries (stale_keys d.world.now d.pending_auths) d

  -- The loop over `pending_auths` when the application ends.
  unfoldable pub shutdown_auths : Desk R → Desk R
  unfolding drop_entries
  shutdown_auths d = drop_entries (Dict.keys d.pending_auths) d

  abbrev pub log_auth : LogEntry → Desk R → Desk R
  log_auth entry d = record d { world = (add_log entry d.world).1 }
