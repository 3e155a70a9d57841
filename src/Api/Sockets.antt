-- ===== src/Api/Sockets.antt =====
-- `ConnectionManager` of app/api.py. A connection is known by a number.
use telegram_client.Prelude.{
  ℕ, ◌≡◌, Bool, false, List, [], ◌∷◌, ◌++◌, if◌then◌else◌, contains, ◌==◌, string_eq, nat_eq,
  pair_eq, refl, ◌∙◌, inl, inr, ◌&&◌, arith, Bool-cases, ==_iff, ==_refl, contains-append,
}
use telegram_client.Data.{int_eq, role_eq}

-- `active_connections` after `connect`
unfoldable pub connect : ℕ → List ℕ → List ℕ
connect websocket active_connections = active_connections ++ websocket ∷ []

-- `active_connections.remove(websocket)`: the first occurrence, if there is one.
unfoldable pub disconnect : ℕ → List ℕ → List ℕ
disconnect websocket [] = []
disconnect websocket (c ∷ cs) =
    let rest = disconnect websocket cs in if c == websocket then cs else c ∷ rest

-- The connections that get the message: `sends` says whether `send_json` succeeds, and its
-- exception is dropped.
unfoldable pub broadcast : (ℕ → Bool) → List ℕ → List ℕ
broadcast sends [] = []
broadcast sends (c ∷ cs) = let rest = broadcast sends cs in if sends c then c ∷ rest else rest

contains-broadcast :
    (sends : ℕ → Bool) (c : ℕ) (cs : List ℕ)
    → contains c (broadcast sends cs) ≡ (contains c cs && sends c)
unfolding contains broadcast
contains-broadcast sends c [] = refl
contains-broadcast sends c (x ∷ xs) = elim (Bool-cases (sends x)) [
  | inl e ↦ rw e (ground (arith, ==_iff x c, contains-broadcast sends c xs))
  | inr e ↦ rw e (ground (arith, ==_iff x c, contains-broadcast sends c xs))
]

disconnect-connect :
    (c : ℕ) (cs : List ℕ) → contains c cs ≡ false → disconnect c (connect c cs) ≡ cs
unfolding connect disconnect contains
disconnect-connect c [] h = rw (==_refl c) refl
disconnect-connect c (x ∷ xs) h = ground (arith, disconnect-connect c xs)

-- A new connection gets a message exactly when it can be sent to it, whatever happens to the
-- sendings before it; and when it is closed, the active connections are as they were.
pub broadcast-connect :
    (sends : ℕ → Bool) (c : ℕ) (cs : List ℕ)
    → contains c cs ≡ false
    → (contains c (broadcast sends (connect c cs)) ≡ sends c) × (disconnect c (connect c cs) ≡ cs)
unfolding connect contains
broadcast-connect sends c cs h = (
  contains-broadcast sends c (cs ++ c ∷ [])
      ∙ ground (arith, contains-append c cs (c ∷ []), ==_refl c),
  disconnect-connect c cs h,
)
