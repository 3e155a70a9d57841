-- ===== src/Redis/Laws.antt =====
-- The documented behaviour of the Redis commands that the theorems rely on, as a law record over
-- the server's state: what a key, a list and the registry hold.
use telegram_client.Prelude.{
  string_eq, ℕ, ◌≡◌, true, false, Option, none, some, List, [], ◌∷◌, ◌++◌, ◌≢◌, String, nat_eq,
  pair_eq,
}
use telegram_client.Redis.{Redis, Key, Holds, ListKey, Item}
use telegram_client.Dict
use telegram_client.Dict.{Dict}
use telegram_client.Data.{WorkerInfo, int_eq, role_eq}

-- A server that answers every command but perhaps PING: an assumption of each theorem that takes the
-- laws, which the fallbacks of the source do not make. The record holds the view of the server's
-- state, and what each command does to it.
pub record Laws (R : Redis) : Type 0 where
  pub value : (k : Key) → R.State → Option (Holds k)
  pub list : (l : ListKey) → R.State → List (Item l)
  pub get_answers : (k : Key) (s : R.State) → R.get k s ≡ (some (value k s), s)
  pub set_answers : (k : Key) (v : Holds k) (s : R.State) → (R.set k v s).0 ≡ some tt
  pub value_set : (k : Key) (v : Holds k) (s : R.State) → value k (R.set k v s).1 ≡ some v
  pub value_set_ne :
      (k j : Key) (v : Holds k) (s : R.State) → k ≢ j → value j (R.set k v s).1 ≡ value j s
  pub set_nx_absent :
      (k : Key) (v : Holds k) (ttl : ℕ) (s : R.State)
      → value k s ≡ none
      → ((R.set_nx k v ttl s).0 ≡ some true) × (value k (R.set_nx k v ttl s).1 ≡ some v)
  pub set_nx_present :
      (k : Key) (v u : Holds k) (ttl : ℕ) (s : R.State)
      → value k s ≡ some u
      → R.set_nx k v ttl s ≡ (some false, s)
  pub value_set_nx_ne :
      (k j : Key) (v : Holds k) (ttl : ℕ) (s : R.State)
      → k ≢ j
      → value j (R.set_nx k v ttl s).1 ≡ value j s
  pub value_lpop : (k : Key) (l : ListKey) (s : R.State) → value k (R.lpop l s).1 ≡ value k s
  pub list_set_nx :
      (l : ListKey) (k : Key) (v : Holds k) (ttl : ℕ) (s : R.State)
      → list l (R.set_nx k v ttl s).1 ≡ list l s
  pub value_rpush :
      (k : Key) (l : ListKey) (x : Item l) (s : R.State) → value k (R.rpush l x s).1 ≡ value k s
  pub rpush_answers : (l : ListKey) (x : Item l) (s : R.State) → (R.rpush l x s).0 ≡ some tt
  pub list_rpush :
      (l : ListKey) (x : Item l) (s : R.State) → list l (R.rpush l x s).1 ≡ list l s ++ x ∷ []
  pub list_rpush_ne :
      (l j : ListKey) (x : Item l) (s : R.State) → l ≢ j → list j (R.rpush l x s).1 ≡ list j s
  pub lpop_nil : (l : ListKey) (s : R.State) → list l s ≡ [] → R.lpop l s ≡ (some none, s)
  pub lpop_cons :
      (l : ListKey) (x : Item l) (xs : List (Item l)) (s : R.State)
      → list l s ≡ x ∷ xs
      → ((R.lpop l s).0 ≡ some (some x)) × (list l (R.lpop l s).1 ≡ xs)
  pub registry : R.State → Dict String WorkerInfo
  pub hgetall_answers : (s : R.State) → R.hgetall s ≡ (some (registry s), s)
  pub registry_set : (k : Key) (v : Holds k) (s : R.State) → registry (R.set k v s).1 ≡ registry s
  pub hset_answers : (id : String) (i : WorkerInfo) (s : R.State) → (R.hset id i s).0 ≡ some tt
  pub registry_hset :
      (id : String) (i : WorkerInfo) (s : R.State)
      → registry (R.hset id i s).1 ≡ Dict.put id i (registry s)
