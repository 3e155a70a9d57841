-- ===== src/Api/Desk/Cleanup.antt =====
-- What `cleanup_stale_pending_auths` and the end of the application leave of the logins.
use telegram_client.Prelude.{
  ℕ, refl, filter, String, ◌≡◌, inl, inr, Bool, true, false, not, ◌&&◌, List, [], ◌∷◌, map, arith,
  Bool-cases, contains, string_eq, nat_eq, pair_eq, ap, ◌∙◌, Option-cases, ◌==◌, ==_iff, ==_refl,
  nodup, sym, ◌+◌, ltb,
}
use telegram_client.Dict
use telegram_client.Dict.{Dict}
use telegram_client.Api.Desk.{
  Desk, PendingAuth, drop_entry, drop_entries, close, is_stale, stale_keys,
  cleanup_stale_pending_auths, shutdown_auths,
}
use telegram_client.Redis.{Redis}
use telegram_client.Data.{int_eq, role_eq}
use telegram_client.World.{World}
use mathlib.Core.Path.{fun_ext}

module _ {ℓ} {A : Type ℓ} where
  filter-filter :
      (p q : A → Bool) (xs : List A) → filter p (filter q xs) ≡ filter (λ x. q x && p x) xs
  unfolding filter
  filter-filter p q [] = refl
  filter-filter p q (x ∷ xs) = elim (Bool-cases (q x)) [
    | inl e ↦ elim (Bool-cases (p x)) [
      | inl f ↦ rw (e, f, filter-filter p q xs) refl
      | inr f ↦ rw (e, f, filter-filter p q xs) refl
    ]
    | inr e ↦ rw (e, filter-filter p q xs) refl
  ]

  filter-true : (xs : List A) → filter (λ _. true) xs ≡ xs
  unfolding filter
  filter-true [] = refl
  filter-true (x ∷ xs) = rw (filter-true xs) refl

  filter-false : (xs : List A) → filter (λ _. false) xs ≡ []
  unfolding filter
  filter-false [] = refl
  filter-false (x ∷ xs) = filter-false xs

module _ {ℓ} {V : Type ℓ} where
  pop_absent : (k : String) (d : Dict String V) → Dict.has k d ≡ false → Dict.pop k d ≡ d
  unfolding Dict.pop contains
  pop_absent k [] h = refl
  pop_absent k ((j, v) ∷ d) h = ground (arith, pop_absent k d)

  has-filter :
      (k : String) (p : String × V → Bool) (d : Dict String V)
      → Dict.has k d ≡ false
      → Dict.has k (filter p d) ≡ false
  unfolding filter contains
  has-filter k p [] h = refl
  has-filter k p ((j, v) ∷ d) h = ground (arith, has-filter k p d)

-- The clients of the entries that `p` picks.
abbrev pub clients_where : (PendingAuth → Bool) → Dict String PendingAuth → List ℕ
clients_where p d = map (λ e. e.1.client) (filter (λ e. p e.1) d)

close_more :
    (v : ℕ) (cs open_clients : List ℕ)
    → filter (λ c. not (contains c cs)) (filter (λ c. not (c == v)) open_clients)
      ≡ filter (λ c. not (contains c (v ∷ cs))) open_clients
unfolding contains
close_more v cs open_clients =
    filter-filter (λ c. not (contains c cs)) (λ c. not (c == v)) open_clients
    ∙ ap (λ f. filter f open_clients) (fun_ext (λ c. ground (arith, contains c cs)))

head_absent : (k : String) (ks : List String) → nodup (k ∷ ks) ≡ true → contains k ks ≡ false
unfolding nodup
head_absent k ks h = ground arith

tail_nodup : (k : String) (ks : List String) → nodup (k ∷ ks) ≡ true → nodup ks ≡ true
unfolding nodup
tail_nodup k ks h = ground arith

stale_keys-filter :
    (now : ℕ) (D : Dict String PendingAuth)
    → stale_keys now D ≡ Dict.keys (filter (λ e. is_stale now e.1) D)
unfolding stale_keys filter
stale_keys-filter now [] = refl
stale_keys-filter now ((k, v) ∷ D) = elim (Bool-cases (is_stale now v)) [
  | inl e ↦ rw e (ap (λ ks. k ∷ ks) (stale_keys-filter now D))
  | inr e ↦ rw e (stale_keys-filter now D)
]

module _ {R : Redis} where
  -- The desk without the entries that `p` picks, and with their clients closed.
  abbrev pub without_entries : (PendingAuth → Bool) → Desk R → Desk R
  without_entries p d = record d {
    pending_auths = filter (λ e. not (p e.1)) d.pending_auths;
    open_clients = filter (λ c. not (contains c (clients_where p d.pending_auths))) d.open_clients;
  }

  abbrev desk : World R → Dict String PendingAuth → List ℕ → ℕ → Desk R
  desk w pending clients next = record {
    world = w;
    pending_auths = pending;
    open_clients = clients;
    next_client = next;
  }

  abbrev kept : String × PendingAuth → Desk R → Desk R
  kept e d = record d { pending_auths = e ∷ d.pending_auths }

  drop_entry-kept :
      (j : String) (e : String × PendingAuth) (d : Desk R)
      → (e.0 == j) ≡ false
      → drop_entry j (kept e d) ≡ kept e (drop_entry j d)
  unfolding drop_entry Dict.get Dict.pop
  drop_entry-kept j e d h = elim (Option-cases (Dict.get j d.pending_auths)) [
    | inl n ↦ rw (h, n) refl
    | inr (v, n) ↦ rw (h, n) refl
  ]

  drop_entries-kept :
      (ks : List String) (e : String × PendingAuth) (d : Desk R)
      → contains e.0 ks ≡ false
      → drop_entries ks (kept e d) ≡ kept e (drop_entries ks d)
  unfolding drop_entries contains
  drop_entries-kept [] e d h = refl
  drop_entries-kept (j ∷ ks) e d h =
      ap (drop_entries ks) (drop_entry-kept j e d (ground (arith, ==_iff j e.0, ==_iff e.0 j)))
      ∙ drop_entries-kept ks e (drop_entry j d) (ground arith)

  drop_entry_first :
      (k : String) (v : PendingAuth) (d : Desk R)
      → Dict.has k d.pending_auths ≡ false
      → drop_entry k (kept (k, v) d) ≡ close v.client d
  unfolding drop_entry Dict.get Dict.pop
  drop_entry_first k v d h = rw (==_refl k, pop_absent k d.pending_auths h) refl

  -- One more entry, from the claim for the entries behind it.
  drop_where_step :
      (p : PendingAuth → Bool) (k : String) (v : PendingAuth) (D : Dict String PendingAuth)
      (w : World R) (cs : List ℕ) (n : ℕ)
      → nodup (k ∷ Dict.keys D) ≡ true
      → ((cs' : List ℕ)
          → drop_entries (Dict.keys (filter (λ e. p e.1) D)) (desk w D cs' n)
            ≡ without_entries p (desk w D cs' n))
      → drop_entries (Dict.keys (filter (λ e. p e.1) ((k, v) ∷ D))) (desk w ((k, v) ∷ D) cs n)
        ≡ without_entries p (desk w ((k, v) ∷ D) cs n)
  unfolding filter drop_entries
  drop_where_step p k v D w cs n h ih = elim (Bool-cases (p v)) [
    | inl e ↦ rw e (
        ap (drop_entries (Dict.keys (filter (λ x. p x.1) D)))
          (drop_entry_first k v (desk w D cs n) (head_absent k (Dict.keys D) h))
        ∙ (ih (filter (λ c. not (c == v.client)) cs)
            ∙ ap (λ cs'. desk w (filter (λ x. not (p x.1)) D) cs' n)
                (close_more v.client (clients_where p D) cs)))
    | inr e ↦ rw e (
        drop_entries-kept (Dict.keys (filter (λ x. p x.1) D)) (k, v) (desk w D cs n)
          (has-filter k (λ x. p x.1) D (head_absent k (Dict.keys D) h))
        ∙ ap (kept (k, v)) (ih cs))
  ]

  drop_where_nil :
      (p : PendingAuth → Bool) (w : World R) (cs : List ℕ) (n : ℕ)
      → drop_entries (Dict.keys (filter (λ e. p e.1) [])) (desk w [] cs n)
        ≡ without_entries p (desk w [] cs n)
  unfolding filter contains drop_entries
  drop_where_nil p w cs n = rw (filter-true cs) refl

  drop_where :
      (p : PendingAuth → Bool) (D : Dict String PendingAuth) (w : World R) (cs : List ℕ) (n : ℕ)
      → nodup (Dict.keys D) ≡ true
      → drop_entries (Dict.keys (filter (λ e. p e.1) D)) (desk w D cs n)
        ≡ without_entries p (desk w D cs n)
  drop_where p [] w cs n h = drop_where_nil p w cs n
  drop_where p ((k, v) ∷ D) w cs n h =
      drop_where_step p k v D w cs n h
        (λ cs'. drop_where p D w cs' n (tail_nodup k (Dict.keys D) h))

  -- Where no session is twice in `pending_auths`, the cleanup removes the entries that are older
  -- than ten minutes and no others, closes exactly the clients that these hold, and changes nothing
  -- else.
  pub cleanup_stale_pending_auths-without_entries :
      (d : Desk R)
      → nodup (Dict.keys d.pending_auths) ≡ true
      → cleanup_stale_pending_auths d
        ≡ without_entries (λ e. ltb (e.created_at + 600) d.world.now) d
  unfolding cleanup_stale_pending_auths
  cleanup_stale_pending_auths-without_entries d h =
      ap (λ ks. drop_entries ks d) (stale_keys-filter d.world.now d.pending_auths)
      ∙ drop_where (is_stale d.world.now) d.pending_auths d.world d.open_clients d.next_client h

  -- When the application ends every entry goes, and the clients that are closed are those of the
  -- entries.
  pub shutdown_auths_lem :
      (d : Desk R)
      → nodup (Dict.keys d.pending_auths) ≡ true
      → shutdown_auths d ≡ without_entries (λ _. true) d
  unfolding shutdown_auths
  shutdown_auths_lem d h =
      ap (λ D. drop_entries (Dict.keys D) d) (sym (filter-true d.pending_auths))
      ∙ drop_where (λ _. true) d.pending_auths d.world d.open_clients d.next_client h
