-- ===== src/Worker/Loading.antt =====
-- The whole of `setup_listeners` of worker.py, the loading of the repliers, and the on-demand
-- resolution of a replier's chat. What a resolution leaves in Telethon's own cache is left out.
use telegram_client.Prelude.{
  String, Bool, true, false, ◌&&◌, Option, none, some, List, [], ◌∷◌, if◌then◌else◌, contains,
  string_eq, nat_eq, pair_eq,
}
use telegram_client.Dict
use telegram_client.Dict.{Dict}
use telegram_client.World.{◌>>=◌, ◌>>◌, Action, pure}
use telegram_client.Worker.Setup.{Listening, Session, add_self, setup_sessions}
use telegram_client.Engine.{ConnectResult, authorized, Telethon, get_client_for_account}
use telegram_client.Data.{listener, replier, ℤ, Account, Assignments, int_eq, role_eq}
use Prim.Native.String.{◌++◌}
use telegram_client.Redis.{Redis}
use telegram_client.Queue.State.{get_listener_assignments, get_replier_assignments}
use telegram_client.Assigner.Listeners.{auto_assign_listeners}
use telegram_client.Assigner.Repliers.{build_target_to_replier_map}
use telegram_client.Worker.Dispatch.{Worker, target_of}
use telegram_client.Worker.Resolve.{Entity, resolve_and_join_target}
use telegram_client.Worker.Accounts.{load_accounts_by_role}

abbrev pub with_cached : Account → Listening → Listening
with_cached acc l = record l {
  node = record l.node {
    replier_accounts_cache = Dict.put acc.session_name acc l.node.replier_accounts_cache;
  };
}

abbrev pub set_lookup : Dict String String → Listening → Listening
set_lookup lookup l = record l { node = record l.node { target_to_replier = lookup } }

abbrev pub is_authorized : ConnectResult → Bool
is_authorized authorized = true
is_authorized _ = false

-- `_ensure_replier_resolved`: the keys of `_replier_resolved_cache`, before and after.
abbrev pub note_resolved : String → Option Entity → List String → List String
note_resolved key none resolved_keys = resolved_keys
note_resolved key (some _) resolved_keys = key ∷ resolved_keys

module _ {R : Redis} (T : Telethon) (S : Session) where
  -- The account is cached, and the user id behind its client.
  abbrev pub cache_replier : Account → Listening → Action R Listening
  cache_replier acc l = do
    has_client ← get_client_for_account T acc
    let l' : Listening = with_cached acc l
    pure (if has_client then record l' { self_ids = add_self (S.get_me acc) l'.self_ids } else l')

  unfoldable pub cache_repliers : List Account → Listening → Action R Listening
  cache_repliers [] l = pure l
  cache_repliers (acc ∷ accs) l = do l' ← cache_replier acc l; cache_repliers accs l'

  unfoldable pub refresh_replier_assignments : Listening → Action R Listening
  refresh_replier_assignments l = do
    assignments ← get_replier_assignments l.node.worker_id
    pure (set_lookup (build_target_to_replier_map assignments) l)

  -- The clients of the repliers are fetched; the rest happens in Telethon.
  abbrev pub fetch_client : Option Account → Action R (Unit {0})
  fetch_client none = pure tt
  fetch_client (some acc) = do get_client_for_account T acc; pure tt

  abbrev pub fetch_clients : Worker → Assignments → Action R (Unit {0})
  fetch_clients node [] = pure tt
  fetch_clients node ((session, groups) ∷ rest) = do
    fetch_client (Dict.get session node.replier_accounts_cache)
    fetch_clients node rest

  unfoldable pub resolve_replier_targets : Worker → Action R (Unit {0})
  resolve_replier_targets node = do
    assignments ← get_replier_assignments node.worker_id
    fetch_clients node assignments

  unfoldable pub load_repliers : Option Listening → Action R (Option Listening)
  load_repliers none = pure none
  load_repliers (some l) = do
    accs ← load_accounts_by_role replier
    cached_node ← cache_repliers accs l
    refreshed ← refresh_replier_assignments cached_node
    resolve_replier_targets refreshed.node
    pure (some refreshed)

  -- After the assignments are known: without a listener on this node the function returns.
  abbrev pub setup_with : List Account → Assignments → Listening → Action R (Option Listening)
  setup_with [] assignments l = pure (some l)
  setup_with (acc ∷ accs) assignments l =
      setup_sessions T S (acc ∷ accs) assignments l >>= load_repliers

  abbrev pub setup_assigned : Option Assignments → Listening → Action R (Option Listening)
  setup_assigned none l = pure none
  setup_assigned (some []) l = pure (some l)
  setup_assigned (some (a ∷ assignments)) l = do
    accs ← load_accounts_by_role listener
    setup_with accs (a ∷ assignments) l

  abbrev pub assign_if_empty : Assignments → Action R (Option Assignments)
  assign_if_empty [] = auto_assign_listeners none false
  assign_if_empty (a ∷ assignments) = pure (some (a ∷ assignments))

  -- `none` is an exception that escapes.
  unfoldable pub setup_listeners : Listening → Action R (Option Listening)
  setup_listeners l = do
    stored ← get_listener_assignments
    assignments ← assign_if_empty stored
    setup_assigned assignments l

  abbrev pub resolve_once : Account → String → String → List String → Action R (List String)
  resolve_once acc target key resolved_keys = do
    has_client ← get_client_for_account T acc
    pure (
        if has_client && is_authorized (S.check acc)
        then note_resolved key (resolve_and_join_target (S.client acc) target) resolved_keys
        else resolved_keys)

  abbrev pub ensure_target : Account → Option String → List String → Action R (List String)
  ensure_target acc none resolved_keys = pure resolved_keys
  ensure_target acc (some target) resolved_keys =
      let key : String = acc.session_name ++ ":" ++ target in
      if contains key resolved_keys
      then pure resolved_keys
      else resolve_once acc target key resolved_keys

  unfoldable pub ensure_replier_resolved :
      Worker → Account → ℤ → List String → Action R (List String)
  ensure_replier_resolved node acc chat_id resolved_keys =
      ensure_target acc (target_of node chat_id) resolved_keys
