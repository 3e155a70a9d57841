-- ===== src/Engine/Clients/Started.antt =====
-- The tasks of app/telethon_engine.py belong to accounts that have a client, when clients and tasks
-- are started.
use telegram_client.Prelude.{
  ℕ, ◌≡◌, inl, inr, Bool, true, some, List, ◌∷◌, contains, arith, Bool-cases, Option-cases, ◌==◌,
  ==_iff, nat_eq, string_eq, pair_eq, false, ==_refl, ◌||◌,
}
use telegram_client.Dict
use telegram_client.Dict.{Dict}
use telegram_client.Engine.{
  ConnectResult, authorized, not_authorized, auth_error_raised, error_raised,
}
use telegram_client.Engine.Clients.{
  Clients, client_for_account, is_among, start_client_loop, connect_client, settle, open_client,
  create_task, keep_client,
}
use telegram_client.Data.{int_eq, role_eq}
use telegram_client.Engine.Clients.Kept.{IsKept, discard_client-IsKept}

busy :
    (a b s : ℕ) (d : Dict ℕ ℕ) (running : List ℕ)
    → (a == b) ≡ true
    → Dict.get b d ≡ some s
    → contains s running ≡ true
    → is_among (Dict.get a d) running ≡ true
busy a b s d running same found h =
    let e : Dict.get a d ≡ some s = ground (arith, ==_iff a b) in rw e h

created-of_task :
    (a s : ℕ) (e : Clients)
    → is_among (Dict.get a e.client_tasks) e.running ≡ false
    → IsKept e
    → contains s (e.next_task ∷ e.running) ≡ true
    → (b : ℕ) × (Dict.get b (Dict.put a e.next_task e.client_tasks) ≡ some s)
unfolding contains
created-of_task a s e idle kept g = elim (Bool-cases (e.next_task == s)) [
  | inl h ↦ (
    a,
    rw (Dict.get-put a a e.next_task e.client_tasks, ==_refl a)
        (ground (arith, ==_iff e.next_task s)),
  )
  | inr h ↦
      let here : contains s e.running ≡ true = ground arith in
      let (b, found) = kept.of_task s here in
      elim (Bool-cases (a == b)) [
        | inl same ↦ cc (busy a b s e.client_tasks e.running same found here)
        | inr other ↦ (b, rw (Dict.get-put a b e.next_task e.client_tasks, other) found)
      ]
]

-- The task is started for an account that has a client, or has one from then on.
created-IsKept :
    (a : ℕ) (e : Clients) (clients : Dict ℕ ℕ)
    → is_among (Dict.get a e.client_tasks) e.running ≡ false
    → ((b : ℕ) → Dict.has b clients ≡ (a == b || Dict.has b e.clients))
    → IsKept e
    → IsKept (record (create_task a e) { clients = clients })
created-IsKept a e clients idle has_clients kept = record {
  of_client = λ b g.
      ground (arith, has_clients b, kept.of_client b, Dict.has-put a b e.next_task e.client_tasks);
  of_task = λ s g. created-of_task a s e idle kept g;
}

-- An account that gets a client.
started-IsKept :
    (a c : ℕ) (e : Clients) → IsKept e → IsKept (keep_client a c (start_client_loop a e))
unfolding start_client_loop
started-IsKept a c e kept = elim (Bool-cases (is_among (Dict.get a e.client_tasks) e.running)) [
  | inl h ↦ rw h (record {
    of_client = λ b g. ground (arith, Dict.has-put a b c e.clients, kept.of_client b);
    of_task = kept.of_task;
  })
  | inr h ↦
      rw h (created-IsKept a e (Dict.put a c e.clients) h (λ b. Dict.has-put a b c e.clients) kept)
]

-- An account that has a client already.
restarted-IsKept :
    (a : ℕ) (e : Clients) → Dict.has a e.clients ≡ true → IsKept e → IsKept (start_client_loop a e)
unfolding start_client_loop
restarted-IsKept a e has_client kept =
    elim (Bool-cases (is_among (Dict.get a e.client_tasks) e.running)) [
      | inl h ↦ rw h kept
      | inr h ↦ rw h (created-IsKept a e e.clients h (λ b. ground (arith, ==_iff a b)) kept)
    ]

settle-IsKept :
    (a c : ℕ) (result : ConnectResult) (e : Clients) → IsKept e → IsKept (settle a c result e).0
settle-IsKept a c authorized e kept = started-IsKept a c e kept
settle-IsKept a c not_authorized e kept = discard_client-IsKept a (some c) e kept
settle-IsKept a c auth_error_raised e kept = discard_client-IsKept a (some c) e kept
settle-IsKept a c error_raised e kept = kept

connect_client-IsKept :
    (credentials : Bool) (a : ℕ) (result : ConnectResult) (e : Clients)
    → IsKept e
    → IsKept (connect_client credentials a result e).0
connect_client-IsKept false a result e kept = kept
connect_client-IsKept true a result e kept =
    settle-IsKept a e.next_client result (open_client e)
      (record { of_client = kept.of_client; of_task = kept.of_task })

pub client_for_account-IsKept :
    (credentials : Bool) (a : ℕ) (result : ConnectResult) (e : Clients)
    → IsKept e
    → IsKept (client_for_account credentials a result e).0
unfolding client_for_account
client_for_account-IsKept credentials a result e kept = elim (Option-cases (Dict.get a e.clients)) [
  | inl h ↦ rw h (connect_client-IsKept credentials a result e kept)
  | inr (c, h) ↦ elim (Bool-cases (contains c e.connected)) [
    | inl on ↦ rw (h, on) (restarted-IsKept a e (Dict.has_of_get a c e.clients h) kept)
    | inr off ↦ rw (h, off) (connect_client-IsKept credentials a result e kept)
  ]
]
