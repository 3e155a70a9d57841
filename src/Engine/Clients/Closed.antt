-- ===== src/Engine/Clients/Closed.antt =====
-- What `disconnect_all` of app/telethon_engine.py leaves of the clients and their tasks.
use telegram_client.Prelude.{
  ℕ, refl, ◌≡◌, inl, inr, true, false, not, ◌&&◌, some, List, [], ◌∷◌, contains, arith, Bool-cases,
  Option-cases, ◌==◌, ==_iff, ==_refl, nat_eq, ap, ◌∙◌, sym, string_eq, pair_eq,
}
use telegram_client.Dict
use telegram_client.Dict.{Dict}
use telegram_client.Engine.Clients.{
  Clients, cancel_task, drop_client, disconnect_account, disconnect_each, disconnect_all,
  new_engine, is_among,
}
use telegram_client.Engine.Clients.Kept.{IsKept, has-pop, contains-without, disconnect_each-IsKept}
use telegram_client.Engine.Clients.Runs.{Reach, Reach-IsKept}
use telegram_client.Data.{int_eq, role_eq}

cancel_task-clients : (a : ℕ) (e : Clients) → (cancel_task a e).clients ≡ e.clients
unfolding cancel_task
cancel_task-clients a e = elim (Option-cases (Dict.get a e.client_tasks)) [
  | inl h ↦ rw h refl
  | inr (t, h) ↦ rw h refl
]

cancel_task-connected : (a : ℕ) (e : Clients) → (cancel_task a e).connected ≡ e.connected
unfolding cancel_task
cancel_task-connected a e = elim (Option-cases (Dict.get a e.client_tasks)) [
  | inl h ↦ rw h refl
  | inr (t, h) ↦ rw h refl
]

pop_missing : (k : ℕ) (d : Dict ℕ ℕ) → Dict.has k d ≡ false → Dict.pop k d ≡ d
unfolding Dict.pop contains
pop_missing k [] h = refl
pop_missing k ((j, v) ∷ d) h = ground (arith, pop_missing k d)

drop_client-clients : (a : ℕ) (e : Clients) → (drop_client a e).clients ≡ Dict.pop a e.clients
unfolding drop_client
drop_client-clients a e = elim (Option-cases (Dict.get a e.clients)) [
  | inl h ↦ rw h (sym (pop_missing a e.clients (Dict.has-get a e.clients h)))
  | inr (c, h) ↦ rw h refl
]

disconnect_account-clients :
    (a : ℕ) (e : Clients) → (disconnect_account a e).clients ≡ Dict.pop a e.clients
unfolding disconnect_account
disconnect_account-clients a e =
    drop_client-clients a (cancel_task a e) ∙ ap (Dict.pop a) (cancel_task-clients a e)

has-disconnect_each :
    (ks : List ℕ) (a : ℕ) (e : Clients)
    → Dict.has a (disconnect_each ks e).clients ≡ (Dict.has a e.clients && not (contains a ks))
unfolding disconnect_each contains
has-disconnect_each [] a e = ground arith
has-disconnect_each (k ∷ ks) a e =
    has-disconnect_each ks a (disconnect_account k e)
    ∙ rw (disconnect_account-clients k e, has-pop k a e.clients) (ground (arith, contains a ks))

-- A client that is not connected stays so.
drop_client-closed :
    (c a : ℕ) (e : Clients)
    → contains c e.connected ≡ false
    → contains c (drop_client a e).connected ≡ false
unfolding drop_client
drop_client-closed c a e h = elim (Option-cases (Dict.get a e.clients)) [
  | inl g ↦ rw g h
  | inr (d, g) ↦ rw (g, contains-without c d e.connected, h) refl
]

closed_account :
    (c a : ℕ) (e : Clients)
    → contains c e.connected ≡ false
    → contains c (disconnect_account a e).connected ≡ false
unfolding disconnect_account
closed_account c a e h = drop_client-closed c a (cancel_task a e) (rw (cancel_task-connected a e) h)

closed_each :
    (ks : List ℕ) (c : ℕ) (e : Clients)
    → contains c e.connected ≡ false
    → contains c (disconnect_each ks e).connected ≡ false
unfolding disconnect_each
closed_each [] c e h = h
closed_each (k ∷ ks) c e h = closed_each ks c (disconnect_account k e) (closed_account c k e h)

-- The account's own client is closed.
drop_client-own :
    (c a : ℕ) (e : Clients)
    → Dict.get a e.clients ≡ some c
    → contains c (drop_client a e).connected ≡ false
unfolding drop_client
drop_client-own c a e h = rw (h, contains-without c c e.connected) (ground (arith, ==_refl c))

own_closed :
    (c a : ℕ) (e : Clients)
    → Dict.get a e.clients ≡ some c
    → contains c (disconnect_account a e).connected ≡ false
unfolding disconnect_account
own_closed c a e h = drop_client-own c a (cancel_task a e) (rw (cancel_task-clients a e) h)

each_closed :
    (ks : List ℕ) (a c : ℕ) (e : Clients)
    → Dict.get a e.clients ≡ some c
    → contains a ks ≡ true
    → contains c (disconnect_each ks e).connected ≡ false
unfolding disconnect_each contains
each_closed [] a c e h g = cc
each_closed (k ∷ ks) a c e h g = elim (Bool-cases (k == a)) [
  | inl same ↦
      closed_each ks c (disconnect_account k e) (own_closed c k e (ground (arith, ==_iff k a)))
  | inr other ↦
      each_closed ks a c (disconnect_account k e)
        (rw (disconnect_account-clients k e, Dict.get-pop k a e.clients, other) h) (ground arith)
]

no_keys : (d : Dict ℕ ℕ) → ((a : ℕ) → Dict.has a d ≡ false) → d ≡ []
unfolding contains
no_keys [] h = refl
no_keys ((k, v) ∷ d) h = ground (arith, h k, ==_refl k)

no_elements : (xs : List ℕ) → ((a : ℕ) → contains a xs ≡ true → false ≡ true) → xs ≡ []
unfolding contains
no_elements [] h = refl
no_elements (x ∷ xs) h = ground (arith, h x, ==_refl x)

disconnect_all-clients : (e : Clients) → (disconnect_all e).clients ≡ []
unfolding disconnect_all
disconnect_all-clients e =
    no_keys (disconnect_all e).clients
      (λ a. ground (arith, has-disconnect_each (Dict.keys e.clients) a e))

IsKept-running : (e : Clients) → e.clients ≡ [] → IsKept e → e.running ≡ []
unfolding contains
IsKept-running e none_left kept = no_elements e.running (λ t h.
    let (a, g) = kept.of_task t h in
    rw (sym (kept.of_client a (Dict.has_of_get a t e.client_tasks g)), none_left) refl)

new_engine-IsKept : IsKept new_engine
unfolding contains
new_engine-IsKept = record { of_client = λ a h. cc; of_task = λ t h. cc }

own_client_closed :
    (a : ℕ) (e : Clients)
    → is_among (Dict.get a e.clients) (disconnect_each (Dict.keys e.clients) e).connected ≡ false
own_client_closed a e = elim (Option-cases (Dict.get a e.clients)) [
  | inl h ↦ rw h refl
  | inr (c, h) ↦ rw h (each_closed (Dict.keys e.clients) a c e h (Dict.has_of_get a c e.clients h))
]

-- In every state that a run of the engine reaches from the new engine, where calls do not overlap,
-- `disconnect_all` leaves no client and no running task, and the client that the engine kept for an
-- account, if any, is not connected afterwards.
pub disconnect_all-Reach :
    (e : Clients) (acc_id : ℕ)
    → Reach new_engine e
    → ((disconnect_all e).clients ≡ [])
      × ((disconnect_all e).running ≡ [])
      × (is_among (Dict.get acc_id e.clients) (disconnect_all e).connected ≡ false)
unfolding disconnect_all
disconnect_all-Reach e acc_id run = (
  disconnect_all-clients e,
  IsKept-running (disconnect_all e) (disconnect_all-clients e) (
      disconnect_each-IsKept (Dict.keys e.clients) e
        (Reach-IsKept new_engine run new_engine-IsKept)),
  own_client_closed acc_id e,
)
