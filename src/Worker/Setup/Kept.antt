-- ===== src/Worker/Setup/Kept.antt =====
-- What becomes of a listener of worker.py that the assignments no longer name.
use telegram_client.Prelude.{
  ◌≡◌, refl, String, ◌∙◌, inl, inr, false, Option, none, some, List, [], ◌∷◌, if◌then◌else◌,
  Bool-cases, contains, ◌==◌, string_eq, nat_eq, pair_eq, subst, arith,
}
use telegram_client.Dict
use telegram_client.Dict.{Dict}
use telegram_client.World.{World, Action, pure}
use telegram_client.Engine.{
  ConnectResult, authorized, not_authorized, auth_error_raised, error_raised, Telethon,
  handle_invalid_session, get_client_for_account,
}
use telegram_client.Redis.{Redis}
use telegram_client.Data.{Account, Assignments, int_eq, role_eq}
use telegram_client.Assigner.Listeners.{handle_listener_failure}
use telegram_client.Worker.Resolve.{Entity}
use telegram_client.Worker.Setup.{
  Listening, Session, is_listening_to, set_handler, after_check, setup_session, setup_if_here,
  setup_sessions, detach, attach, account_by_session,
}

abbrev HandlersKept : String → Listening → Option Listening → Type 0
HandlersKept other l none = Unit {0}
HandlersKept other l (some l') =
    Dict.get other l'.listener_handlers ≡ Dict.get other l.listener_handlers

kept_trans :
    (other : String) (l l₁ : Listening) (o : Option Listening)
    → HandlersKept other l (some l₁)
    → HandlersKept other l₁ o
    → HandlersKept other l o
kept_trans other l l₁ none h g = tt
kept_trans other l l₁ (some l₂) h g = g ∙ h

set_handler-kept :
    (other session : String) (cs : List Entity) (handlers : Dict String (List Entity))
    → (session == other) ≡ false
    → Dict.get other (set_handler session cs (Dict.pop session handlers)) ≡ Dict.get other handlers
set_handler-kept other session [] handlers h = Dict.get-pop session other handlers ∙ rw h refl
set_handler-kept other session (c ∷ cs) handlers h =
    Dict.get-put session other (c ∷ cs) (Dict.pop session handlers)
    ∙ rw h (Dict.get-pop session other handlers ∙ rw h refl)

detach-kept :
    (other session : String) (l : Listening) (o : Option Assignments)
    → (session == other) ≡ false
    → HandlersKept other l (elim o [ none ↦ none | some _ ↦ some (detach session l) ])
detach-kept other session l none h = tt
detach-kept other session l (some a) h = Dict.get-pop session other l.listener_handlers ∙ rw h refl

module _ {R : Redis} (T : Telethon) (S : Session) where
  after_check-kept :
      (other session : String) (acc : Account) (groups : List String) (l : Listening)
      (r : ConnectResult) (w : World R)
      → (session == other) ≡ false
      → HandlersKept other l (after_check T S acc session groups l r w).0
  after_check-kept other session acc groups l authorized w h =
      unfold attach in set_handler-kept other session _ l.listener_handlers h
  after_check-kept other session acc groups l not_authorized w h = refl
  after_check-kept other session acc groups l auth_error_raised w h =
      detach-kept other session l
        (handle_listener_failure session (handle_invalid_session acc w).1).0 h
  after_check-kept other session acc groups l error_raised w h = refl

  setup_session-kept :
      (other session : String) (acc : Account) (groups : List String) (l : Listening) (w : World R)
      → (session == other) ≡ false
      → HandlersKept other l (setup_session T S acc session groups l w).0
  unfolding setup_session
  setup_session-kept other session acc groups l w h =
      let (has_client, w') = get_client_for_account T acc w in
      after_check-kept other session acc groups l
        (if has_client then S.check acc else not_authorized) w' h

  setup_if_here-kept :
      (other session : String) (o : Option Account) (groups : List String) (l : Listening)
      (w : World R)
      → (session == other) ≡ false
      → HandlersKept other l (setup_if_here T S o session groups l w).0
  setup_if_here-kept other session none groups l w h = refl
  setup_if_here-kept other session (some acc) groups l w h =
      elim (Bool-cases (is_listening_to groups (Dict.get session l.listener_targets))) [
        | inl e ↦ rw e refl
        | inr e ↦ rw e (setup_session-kept other session acc groups l w h)
      ]

  then_kept :
      (other : String) (accs : List Account) (rest : Assignments) (l : Listening)
      (o : Option Listening) (w : World R)
      → HandlersKept other l o
      → ((l₁ : Listening) → HandlersKept other l₁ (setup_sessions T S accs rest l₁ w).0)
      → HandlersKept other l
          ((let m : Action R (Option Listening) = elim o [
            | none ↦ pure none
            | some l₁ ↦ setup_sessions T S accs rest l₁
          ] in
              m)
            w).0
  then_kept other accs rest l none w h later = tt
  then_kept other accs rest l (some l₁) w h later =
      kept_trans other l l₁ (setup_sessions T S accs rest l₁ w).0 h (later l₁)

  sessions_kept :
      (other : String) (accs : List Account) (assignments : Assignments) (l : Listening)
      (w : World R)
      → contains other (Dict.keys assignments) ≡ false
      → HandlersKept other l (setup_sessions T S accs assignments l w).0
  unfolding setup_sessions contains
  sessions_kept other accs [] l w h = refl
  sessions_kept other accs ((session, groups) ∷ rest) l w h =
      let acc = account_by_session session accs in
      let (o, w') = setup_if_here T S acc session groups l w in
      then_kept other accs rest l o w'
        (setup_if_here-kept other session acc groups l w (ground arith))
        (λ l₁. sessions_kept other accs rest l₁ w' (ground arith))

  -- A listener that the assignments do not name keeps its handler, if the setup returns: it goes on
  -- passing messages on from the groups that it had.
  pub setup_sessions-kept :
      (other : String) (accs : List Account) (assignments : Assignments) (l l' : Listening)
      (w : World R)
      → contains other (Dict.keys assignments) ≡ false
      → (setup_sessions T S accs assignments l w).0 ≡ some l'
      → Dict.get other l'.listener_handlers ≡ Dict.get other l.listener_handlers
  setup_sessions-kept other accs assignments l l' w h e =
      subst (HandlersKept other l) e (sessions_kept other accs assignments l w h)
