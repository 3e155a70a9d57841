-- ===== src/Api/Auth/Tidy.antt =====
-- What holds of the logins of app/api.py whenever no endpoint is running.
use telegram_client.Prelude.{
  ℕ, refl, nodup, filter, ◌<◌, String, ◌≡◌, inl, inr, Bool, true, false, not, ◌&&◌, some, List, [],
  ◌∷◌, arith, if◌then◌else◌, Bool-cases, contains, ◌==◌, ==_iff, string_eq, nat_eq, pair_eq, ◌+◌,
  Option-cases,
}
use telegram_client.Dict
use telegram_client.Dict.{Dict}
use telegram_client.Redis.{Redis}
use telegram_client.Api.Desk.{Desk, PendingAuth, drop_entry, drop_entries}
use telegram_client.Data.{int_eq, role_eq}

-- No session waits twice, every waiting client is connected, no two sessions wait on one client,
-- and the numbers of the connected clients have been given out.
pub record Tidy (D : Dict String PendingAuth) (open_clients : List ℕ) (next : ℕ) : Type 0 where
  pub distinct : nodup (Dict.keys D) ≡ true
  pub is_open :
      (k : String) (e : PendingAuth) → Dict.get k D ≡ some e → contains e.client open_clients ≡ true
  pub exclusive :
      (j k : String) (e f : PendingAuth)
      → Dict.get j D ≡ some e
      → Dict.get k D ≡ some f
      → e.client ≡ f.client
      → j ≡ k
  pub below : (c : ℕ) → contains c open_clients ≡ true → c < next

abbrev pub IsTidy : {R : Redis} → Desk R → Type 0
IsTidy d = Tidy d.pending_auths d.open_clients d.next_client

pub Tidy-empty : (n : ℕ) → Tidy [] [] n
unfolding Dict.get contains nodup
Tidy-empty n = record {
  distinct = refl;
  is_open = λ k e h. cc;
  exclusive = λ j k e f h g same. cc;
  below = λ c h. cc;
}

contains-filter :
    (c : ℕ) (p : ℕ → Bool) (xs : List ℕ) → contains c (filter p xs) ≡ (contains c xs && p c)
unfolding contains filter
contains-filter c p [] = refl
contains-filter c p (x ∷ xs) = elim (Bool-cases (p x)) [
  | inl e ↦ rw e (ground (arith, ==_iff x c, contains-filter c p xs))
  | inr e ↦ rw e (ground (arith, ==_iff x c, contains-filter c p xs))
]

has-pop :
    (k j : String) (D : Dict String PendingAuth)
    → Dict.has j (Dict.pop k D) ≡ (if k == j then false else Dict.has j D)
unfolding Dict.pop contains
has-pop k j [] = ground arith
has-pop k j ((i, v) ∷ D) = ground (arith, ==_iff k j, ==_iff i k, ==_iff i j, has-pop k j D)

nodup-keys-pop :
    (k : String) (D : Dict String PendingAuth)
    → nodup (Dict.keys D) ≡ true
    → nodup (Dict.keys (Dict.pop k D)) ≡ true
unfolding Dict.pop nodup
nodup-keys-pop k [] h = refl
nodup-keys-pop k ((i, v) ∷ D) h =
    ground (arith, ==_iff k i, ==_iff i k, nodup-keys-pop k D, has-pop k i D)

module _ (D : Dict String PendingAuth) (cs : List ℕ) (n : ℕ) (tidy : Tidy D cs n) where
  get_of_pop :
      (key k : String) (e : PendingAuth)
      → Dict.get k (Dict.pop key D) ≡ some e
      → (Dict.get k D ≡ some e) × ((key == k) ≡ false)
  get_of_pop key k e h = ground (arith, Dict.get-pop key k D)

  pub Tidy-pop : (key : String) → Tidy (Dict.pop key D) cs n
  Tidy-pop key = record {
    distinct = nodup-keys-pop key D tidy.distinct;
    is_open = λ k e h. tidy.is_open k e ((get_of_pop key k e h).0);
    exclusive =
        λ j k e f h g. tidy.exclusive j k e f ((get_of_pop key j e h).0) ((get_of_pop key k f g).0);
    below = tidy.below;
  }

  stays_open :
      (key k : String) (e f : PendingAuth)
      → Dict.get key D ≡ some e
      → Dict.get k (Dict.pop key D) ≡ some f
      → contains f.client (filter (λ c. not (c == e.client)) cs) ≡ true
  stays_open key k e f h g =
      let (g', ne) = get_of_pop key k f g in
      ground (
        arith,
        contains-filter f.client (λ c. not (c == e.client)) cs,
        tidy.is_open k f g',
        ==_iff f.client e.client,
        ==_iff key k,
        tidy.exclusive key k e f h g',
      )

  pub Tidy-drop :
      (key : String) (e : PendingAuth)
      → Dict.get key D ≡ some e
      → Tidy (Dict.pop key D) (filter (λ c. not (c == e.client)) cs) n
  Tidy-drop key e h = record {
    distinct = nodup-keys-pop key D tidy.distinct;
    is_open = λ k f g. stays_open key k e f h g;
    exclusive = λ j k f f' g g'.
        tidy.exclusive j k f f' ((get_of_pop key j f g).0) ((get_of_pop key k f' g').0);
    below = λ c g. tidy.below c (ground (arith, contains-filter c (λ c'. not (c' == e.client)) cs));
  }

  pub Tidy-keep : Tidy D cs (n + 1)
  Tidy-keep = record {
    distinct = tidy.distinct;
    is_open = tidy.is_open;
    exclusive = tidy.exclusive;
    below = λ c g. omega (arith, tidy.below c g);
  }

  closed_again :
      (c : ℕ) → contains c (filter (λ c'. not (c' == n)) (n ∷ cs)) ≡ (contains c cs && not (c == n))
  unfolding contains
  closed_again c =
      ground (arith, contains-filter c (λ c'. not (c' == n)) (n ∷ cs), ==_iff n c, ==_iff c n)

  -- A new client is connected and closed again.
  pub Tidy-fail : Tidy D (filter (λ c. not (c == n)) (n ∷ cs)) (n + 1)
  Tidy-fail = record {
    distinct = tidy.distinct;
    is_open =
        λ k e h. ground (arith, closed_again e.client, tidy.is_open k e h, tidy.below e.client);
    exclusive = tidy.exclusive;
    below = λ c h. ground (arith, closed_again c, tidy.below c);
  }

  new_open :
      (key k : String) (e f : PendingAuth)
      → e.client ≡ n
      → Dict.get k (Dict.put key e D) ≡ some f
      → contains f.client (n ∷ cs) ≡ true
  unfolding contains
  new_open key k e f h g =
      ground (arith, Dict.get-put key k e D, tidy.is_open k f, ==_iff n f.client)

  new_exclusive :
      (key j k : String) (e f f' : PendingAuth)
      → e.client ≡ n
      → Dict.get j (Dict.put key e D) ≡ some f
      → Dict.get k (Dict.put key e D) ≡ some f'
      → f.client ≡ f'.client
      → j ≡ k
  new_exclusive key j k e f f' h g g' same = ground (
    arith,
    Dict.get-put key j e D,
    Dict.get-put key k e D,
    ==_iff key j,
    ==_iff key k,
    tidy.exclusive j k f f',
    tidy.is_open j f,
    tidy.is_open k f',
    tidy.below f.client,
    tidy.below f'.client,
  )

  new_below : (c : ℕ) → contains c (n ∷ cs) ≡ true → c < n + 1
  unfolding contains
  new_below c h = ground (arith, ==_iff n c, tidy.below c)

  pub Tidy-put :
      (key : String) (e : PendingAuth) → e.client ≡ n → Tidy (Dict.put key e D) (n ∷ cs) (n + 1)
  Tidy-put key e h = record {
    distinct = Dict.nodup-keys-put key e D tidy.distinct;
    is_open = λ k f g. new_open key k e f h g;
    exclusive = λ j k f f' g g' same. new_exclusive key j k e f f' h g g' same;
    below = new_below;
  }

module _ {R : Redis} where
  pub drop_entry-IsTidy : (key : String) (d : Desk R) → IsTidy d → IsTidy (drop_entry key d)
  unfolding drop_entry
  drop_entry-IsTidy key d tidy = elim (Option-cases (Dict.get key d.pending_auths)) [
    | inl e ↦ rw e (Tidy-pop d.pending_auths d.open_clients d.next_client tidy key)
    | inr (v, e) ↦ rw e (Tidy-drop d.pending_auths d.open_clients d.next_client tidy key v e)
  ]

  pub drop_entries-IsTidy :
      (keys : List String) (d : Desk R) → IsTidy d → IsTidy (drop_entries keys d)
  unfolding drop_entries
  drop_entries-IsTidy [] d tidy = tidy
  drop_entries-IsTidy (key ∷ keys) d tidy =
      drop_entries-IsTidy keys (drop_entry key d) (drop_entry-IsTidy key d tidy)
