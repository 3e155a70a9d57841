-- ===== src/Dict.antt =====
-- Python's `dict`: insertion-ordered, an assignment to a present key keeps the key's place.
use telegram_client.Prelude.{
  ◌≡◌, refl, Bool, true, false, ◌||◌, Option, none, some, List, [], ◌∷◌, map, arith, Equality, ◌==◌,
  if◌then◌else◌, contains, nodup, Option-cases, inl, inr, string_eq, nat_eq, pair_eq,
}

abbrev pub Dict {ℓ κ} : Type ℓ → Type κ → Type (ℓ ⊔ κ)
Dict K V = List (K × V)

module _ {ℓ κ} {K : Type ℓ} {V : Type κ} where
  -- `list(d.keys())`
  abbrev pub keys : Dict K V → List K
  keys = map (λ e. e.0)

  -- `list(d.values())`
  abbrev pub values : Dict K V → List V
  values = map (λ e. e.1)

module _ {ℓ κ} {K : Type ℓ} {V : Type κ} ⦃e : Equality K⦄ where
  -- `d.get(k)`
  unfoldable pub get : K → Dict K V → Option V
  get k [] = none
  get k ((j, v) ∷ d) = if j == k then some v else get k d

  -- `d[k] = v`
  unfoldable pub put : K → V → Dict K V → Dict K V
  put k v [] = (k, v) ∷ []
  put k v ((j, w) ∷ d) = if j == k then (j, v) ∷ d else (j, w) ∷ put k v d

  -- `d.pop(k, None)`
  unfoldable pub pop : K → Dict K V → Dict K V
  pop k [] = []
  pop k ((j, v) ∷ d) = let rest = pop k d in if j == k then rest else (j, v) ∷ rest

  -- `k in d`
  abbrev pub has : K → Dict K V → Bool
  has k d = contains k (keys d)

  pub get-put :
      (k j : K) (v : V) (d : Dict K V) → get j (put k v d) ≡ (if k == j then some v else get j d)
  unfolding get put
  get-put k j v [] = refl
  get-put k j v ((i, w) ∷ d) =
      ground (arith, e.is_same_iff k j, e.is_same_iff i k, e.is_same_iff i j, get-put k j v d)

  pub get-pop : (k j : K) (d : Dict K V) → get j (pop k d) ≡ (if k == j then none else get j d)
  unfolding get pop
  get-pop k j [] = ground arith
  get-pop k j ((i, w) ∷ d) =
      ground (arith, e.is_same_iff k j, e.is_same_iff i k, e.is_same_iff i j, get-pop k j d)

  pub has-put : (k j : K) (v : V) (d : Dict K V) → has j (put k v d) ≡ (k == j || has j d)
  unfolding put contains
  has-put k j v [] = refl
  has-put k j v ((i, w) ∷ d) =
      ground (arith, e.is_same_iff k j, e.is_same_iff i k, e.is_same_iff i j, has-put k j v d)

  pub has-get : (k : K) (d : Dict K V) → get k d ≡ none → has k d ≡ false
  unfolding get contains
  has-get k [] h = refl
  has-get k ((i, w) ∷ d) h = ground (arith, has-get k d)

  pub has_of_get : (k : K) (v : V) (d : Dict K V) → get k d ≡ some v → has k d ≡ true
  unfolding get contains
  has_of_get k v [] h = cc
  has_of_get k v ((i, w) ∷ d) h = ground (arith, has_of_get k v d)

  pub get-has : (k : K) (d : Dict K V) → has k d ≡ true → (v : V) × (get k d ≡ some v)
  get-has k d h = elim (Option-cases (get k d)) [ inl e ↦ cc (has-get k d e) | inr found ↦ found ]

  pub keys-put : (k : K) (v : V) (d : Dict K V) → has k d ≡ true → keys (put k v d) ≡ keys d
  unfolding put contains
  keys-put k v [] h = cc
  keys-put k v ((i, w) ∷ d) h = ground (arith, keys-put k v d)

  pub nodup-keys-put :
      (k : K) (v : V) (d : Dict K V) → nodup (keys d) ≡ true → nodup (keys (put k v d)) ≡ true
  unfolding put nodup
  nodup-keys-put k v [] h = unfold contains in refl
  nodup-keys-put k v ((i, w) ∷ d) h =
      ground (arith, e.is_same_iff k i, e.is_same_iff i k, nodup-keys-put k v d, has-put k i v d)

  -- A dictionary that holds no key gives none.
  pub get-eq-none : (k : K) (d : Dict K V) → has k d ≡ false → get k d ≡ none
  unfolding get contains
  get-eq-none k [] h = refl
  get-eq-none k ((i, w) ∷ d) h = ground (arith, get-eq-none k d)

pub ruleset dict_laws = (get-put, get-pop, has-put)
