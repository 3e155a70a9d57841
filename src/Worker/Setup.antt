-- ===== src/Worker/Setup.antt =====
-- `setup_listeners` of worker.py and what it uses: a node's listeners are attached to their groups,
-- and the repliers' accounts and assignments are loaded. The sessions on which an answer of
-- Telethon depends are known by their account.
pub mod Attached
pub mod Kept
use Prim.Native.String.{◌++◌ as join}
use telegram_client.Prelude.{
  ◌+◌, String, Bool, false, ◌&&◌, Option, none, some, List, [], ◌∷◌, ◌++◌, nat_beq, if◌then◌else◌,
  contains, subset, filter, ◌==◌, string_eq, nat_eq, pair_eq,
}
use telegram_client.Worker.Texts.{decimal}
use telegram_client.Dict
use telegram_client.Dict.{Dict}
use telegram_client.Worker.Texts.Numbers.{negated, int_of}
use telegram_client.World.{◌>>=◌, ◌>>◌, Action, pure}
use telegram_client.Engine.{
  ConnectResult, authorized, not_authorized, auth_error_raised, error_raised, Telethon,
  handle_invalid_session, get_client_for_account,
}
use telegram_client.Redis.{Redis}
use telegram_client.Data.{ℤ, Account, Assignments, int_eq, role_eq, pos}
use telegram_client.Queue.State.{or_default}
use telegram_client.Assigner.Listeners.{handle_listener_failure}
use telegram_client.Worker.Dispatch.{Worker}
use telegram_client.Worker.Resolve.{Entity, Client, resolve_and_join_target}

-- The fields of `ProductionWorkerNode` that the setup keeps; `node` holds those that the dispatch
-- reads. A handler is known by the chats that it is attached to.
pub record Listening : Type 0 where
  pub node : Worker
  pub listener_handlers : Dict String (List Entity)
  pub listener_targets : Dict String (List String)
  pub resolved_targets : Dict String (Dict String Entity)
  pub self_ids : List ℤ

-- What Telethon answers to a listener's account: `check` is how `is_user_authorized()` ends, and
-- `get_me` is `none` for an exception or for no user.
pub record Session : Type 0 where
  pub check : Account → ConnectResult
  pub get_me : Account → Option ℤ
  pub client : Account → Client

-- The last account of each session name.
unfoldable pub account_by_session : String → List Account → Option Account
account_by_session session [] = none
account_by_session session (acc ∷ accs) = elim (account_by_session session accs) [
  | some later ↦ some later
  | none ↦ if acc.session_name == session then some acc else none
]

-- Equality of the sets of two lists.
abbrev pub same_set : List String → List String → Bool
same_set xs ys = subset xs ys && subset ys xs

abbrev pub is_listening_to : List String → Option (List String) → Bool
is_listening_to groups none = false
is_listening_to groups (some targets) = same_set targets groups

abbrev pub add_self : Option ℤ → List ℤ → List ℤ
add_self none ids = ids
add_self (some i) ids = if contains i ids then ids else ids ++ i ∷ []

-- The entries of the resolved targets that are still assigned.
abbrev pub prune : List String → Dict String Entity → Dict String Entity
prune groups = filter (λ e. contains e.0 groups)

-- `chat_id_to_target[key] = t`; the text behind the third key is always a number.
abbrev pub put_chat : Option ℤ → String → Dict ℤ String → Dict ℤ String
put_chat none target d = d
put_chat (some key) target d = Dict.put key target d

-- The three keys of an entity that has an id.
unfoldable pub register_chat : Entity → String → Dict ℤ String → Dict ℤ String
register_chat e target d =
    let keyed = Dict.put (negated (1000000000000 + e.id)) target (Dict.put (pos e.id) target d) in
    if nat_beq e.id 0 then d else put_chat (int_of (join "-100" (decimal e.id))) target keyed

-- The state of the loop over the assigned groups: the chats, the resolved targets and the map from
-- chats to targets.
pub record Resolved : Type 0 where
  pub chats : List Entity
  pub known : Dict String Entity
  pub chat_ids : Dict ℤ String

abbrev pub add_found : String → Option Entity → Resolved → Resolved
add_found target none s = s
add_found target (some e) s = record {
  chats = s.chats ++ e ∷ [];
  known = Dict.put target e s.known;
  chat_ids = register_chat e target s.chat_ids;
}

abbrev pub resolve_group : Client → String → Option Entity → Resolved → Resolved
resolve_group K target (some e) s = record s { chats = s.chats ++ e ∷ [] }
resolve_group K target none s = add_found target (resolve_and_join_target K target) s

unfoldable pub resolve_groups : Client → List String → Resolved → Resolved
unfolding Dict.get
resolve_groups K [] s = s
resolve_groups K (t ∷ ts) s = resolve_groups K ts (resolve_group K t (Dict.get t s.known) s)

-- The new handler, unless there are no chats.
abbrev pub set_handler :
    String → List Entity → Dict String (List Entity) → Dict String (List Entity)
set_handler session [] handlers = handlers
set_handler session (c ∷ cs) handlers = Dict.put session (c ∷ cs) handlers

-- The part of the `try` from the cached user id to the new handler.
unfoldable pub attach : Session → Account → String → List String → Listening → Listening
unfolding resolve_groups
attach S acc session groups l =
    let start : Resolved = record {
      chats = [];
      known = prune groups (or_default [] (Dict.get session l.resolved_targets));
      chat_ids = l.node.chat_id_to_target;
    } in
    let done = resolve_groups (S.client acc) groups start in
    let handlers = Dict.pop session l.listener_handlers in
    record {
      node = record l.node { chat_id_to_target = done.chat_ids };
      listener_handlers = set_handler session done.chats handlers;
      listener_targets = Dict.put session groups l.listener_targets;
      resolved_targets = Dict.put session done.known l.resolved_targets;
      self_ids = add_self (S.get_me acc) l.self_ids;
    }

-- The two entries that a session error removes.
abbrev pub detach : String → Listening → Listening
detach session l = record l {
  listener_handlers = Dict.pop session l.listener_handlers;
  listener_targets = Dict.pop session l.listener_targets;
}

module _ {R : Redis} (T : Telethon) (S : Session) where
  -- `handle_listener_failure` in the `try`, where an exception is only logged.
  abbrev pub fail_over : String → Listening → Action R (Option Listening)
  fail_over session l = do handle_listener_failure session; pure (some l)

  -- The same in the handler of a session error, where an exception escapes.
  abbrev pub fail_over_raising : String → Listening → Action R (Option Listening)
  fail_over_raising session l = do
    done ← handle_listener_failure session
    pure (elim done [ none ↦ none | some _ ↦ some l ])

  abbrev pub after_check :
      Account → String → List String → Listening → ConnectResult → Action R (Option Listening)
  after_check acc session groups l authorized = pure (some (attach S acc session groups l))
  after_check acc session groups l not_authorized = fail_over session l
  after_check acc session groups l auth_error_raised = do
    handle_invalid_session acc
    fail_over_raising session (detach session l)
  after_check acc session groups l error_raised = pure (some l)

  unfoldable pub setup_session :
      Account → String → List String → Listening → Action R (Option Listening)
  setup_session acc session groups l = do
    has_client ← get_client_for_account T acc
    after_check acc session groups l (if has_client then S.check acc else not_authorized)

  abbrev pub setup_if_here :
      Option Account → String → List String → Listening → Action R (Option Listening)
  setup_if_here none session groups l = pure (some l)
  setup_if_here (some acc) session groups l =
      if is_listening_to groups (Dict.get session l.listener_targets)
      then pure (some l)
      else setup_session acc session groups l

  -- The loop over the assignments; `none` is an exception that escapes.
  unfoldable pub setup_sessions :
      List Account → Assignments → Listening → Action R (Option Listening)
  setup_sessions accs [] l = pure (some l)
  setup_sessions accs ((session, groups) ∷ rest) l = do
    o ← setup_if_here (account_by_session session accs) session groups l
    elim o [ none ↦ pure none | some l' ↦ setup_sessions accs rest l' ]
