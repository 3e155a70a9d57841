-- ===== src/Engine/Clients/Kept.antt =====
-- The tasks of app/telethon_engine.py belong to accounts that have a client, when clients and tasks
-- go.
use telegram_client.Prelude.{
  ℕ, refl, ◌≡◌, inl, inr, true, not, ◌&&◌, Option, some, List, [], ◌∷◌, filter, contains, arith,
  Bool-cases, Option-cases, ◌==◌, ==_iff, nat_eq, string_eq, pair_eq, false, none, ==_refl,
}
use telegram_client.Dict
use telegram_client.Dict.{Dict}
use telegram_client.Engine.Clients.{
  Clients, without, disconnect, end_task, cancel_task, disconnect_account, discard_client,
  drop_client, disconnect_each,
}
use telegram_client.Data.{int_eq, role_eq}

pub contains-without :
    (c n : ℕ) (xs : List ℕ) → contains c (without n xs) ≡ (contains c xs && not (c == n))
unfolding filter contains
contains-without c n [] = refl
contains-without c n (x ∷ xs) = elim (Bool-cases (x == n)) [
  | inl e ↦ rw e (ground (arith, ==_iff x c, ==_iff x n, ==_iff c n, contains-without c n xs))
  | inr e ↦ rw e (ground (arith, ==_iff x c, ==_iff x n, ==_iff c n, contains-without c n xs))
]

pub has-pop : (k j : ℕ) (d : Dict ℕ ℕ) → Dict.has j (Dict.pop k d) ≡ (Dict.has j d && not (k == j))
unfolding Dict.pop contains
has-pop k j [] = refl
has-pop k j ((i, v) ∷ d) = ground (arith, ==_iff i k, ==_iff i j, ==_iff k j, has-pop k j d)

-- An account that has a task has a client, and a task that runs is an account's.
pub record IsKept (e : Clients) : Type 0 where
  pub of_client : (a : ℕ) → Dict.has a e.client_tasks ≡ true → Dict.has a e.clients ≡ true
  pub of_task :
      (t : ℕ) → contains t e.running ≡ true → (a : ℕ) × (Dict.get a e.client_tasks ≡ some t)

pub end_task-IsKept : (t : ℕ) (e : Clients) → IsKept e → IsKept (end_task t e)
end_task-IsKept t e kept = record {
  of_client = kept.of_client;
  of_task = λ s h. kept.of_task s (ground (arith, contains-without s t e.running));
}

pub lost-IsKept : (c : ℕ) (e : Clients) → IsKept e → IsKept (disconnect c e)
lost-IsKept c e kept = record { of_client = kept.of_client; of_task = kept.of_task }

get_other :
    (a b t s : ℕ) (d : Dict ℕ ℕ)
    → Dict.get a d ≡ some t
    → Dict.get b d ≡ some s
    → (s == t) ≡ false
    → Dict.get b (Dict.pop a d) ≡ some s
get_other a b t s d h g n = elim (Bool-cases (a == b)) [
  | inl e ↦ ground (arith, ==_iff a b, ==_iff s t)
  | inr e ↦ rw (Dict.get-pop a b d, e) g
]

cancelled-IsKept :
    (a t : ℕ) (e : Clients)
    → Dict.get a e.client_tasks ≡ some t
    → IsKept e
    → IsKept (end_task t (record e { client_tasks = Dict.pop a e.client_tasks }))
cancelled-IsKept a t e h kept = record {
  of_client = λ b g. kept.of_client b (ground (arith, has-pop a b e.client_tasks));
  of_task = λ s g.
      let (b, found) = kept.of_task s (ground (arith, contains-without s t e.running)) in
      (
        b,
        get_other a b t s e.client_tasks h found (ground (arith, contains-without s t e.running)),
      );
}

cancel_task-IsKept : (a : ℕ) (e : Clients) → IsKept e → IsKept (cancel_task a e)
unfolding cancel_task
cancel_task-IsKept a e kept = elim (Option-cases (Dict.get a e.client_tasks)) [
  | inl h ↦ rw h kept
  | inr (t, h) ↦ rw h (cancelled-IsKept a t e h kept)
]

has-cancel_task :
    (a b : ℕ) (e : Clients)
    → Dict.has b (cancel_task a e).client_tasks ≡ (Dict.has b e.client_tasks && not (a == b))
unfolding cancel_task
has-cancel_task a b e = elim (Option-cases (Dict.get a e.client_tasks)) [
  | inl h ↦ rw h (ground (arith, ==_iff a b, Dict.has-get a e.client_tasks h))
  | inr (t, h) ↦ rw h (has-pop a b e.client_tasks)
]

drop_client-IsKept :
    (a : ℕ) (e : Clients) → Dict.has a e.client_tasks ≡ false → IsKept e → IsKept (drop_client a e)
unfolding drop_client
drop_client-IsKept a e n kept = elim (Option-cases (Dict.get a e.clients)) [
  | inl h ↦ rw h kept
  | inr (c, h) ↦ rw h (record {
    of_client = λ b g. ground (arith, ==_iff a b, has-pop a b e.clients, kept.of_client b);
    of_task = kept.of_task;
  })
]

pub disconnect_account-IsKept : (a : ℕ) (e : Clients) → IsKept e → IsKept (disconnect_account a e)
unfolding disconnect_account
disconnect_account-IsKept a e kept =
    drop_client-IsKept a (cancel_task a e) (ground (arith, ==_refl a, has-cancel_task a a e))
      (cancel_task-IsKept a e kept)

pub disconnect_each-IsKept : (ks : List ℕ) (e : Clients) → IsKept e → IsKept (disconnect_each ks e)
unfolding disconnect_each
disconnect_each-IsKept [] e kept = kept
disconnect_each-IsKept (k ∷ ks) e kept =
    disconnect_each-IsKept ks (disconnect_account k e) (disconnect_account-IsKept k e kept)

pub discard_client-IsKept :
    (a : ℕ) (o : Option ℕ) (e : Clients) → IsKept e → IsKept (discard_client a o e)
unfolding discard_client
discard_client-IsKept a none e kept =
    unfold disconnect_account in disconnect_account-IsKept a e kept
discard_client-IsKept a (some c) e kept =
    lost-IsKept c (cancel_task a e) (cancel_task-IsKept a e kept)
