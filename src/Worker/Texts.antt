-- ===== src/Worker/Texts.antt =====
-- The operations on texts that worker.py and app/telethon_engine.py use, and the signature that
-- marks the texts that the backend sent.
pub mod Signature
pub mod Numbers
pub mod Parts
pub mod RoundTrip
use Prim.Native.Char.{Char, code}
use Prim.Native.String.{count, char_at, ◌++◌}
use telegram_client.Prelude.{
  ℕ, zero, suc, ◌+◌, ◌-◌, ◌/◌, ◌%◌, String, Bool, true, false, ◌&&◌, ◌||◌, ltb, leb, nat_beq,
  if◌then◌else◌, [], ◌∷◌,
}

-- `s.startswith(pat)`
unfoldable pub starts_with : String → String → Bool
starts_with String.[] s = true
starts_with (String.◌∷◌ p ps) String.[] = false
starts_with (String.◌∷◌ p ps) (String.◌∷◌ c s) = nat_beq (code p) (code c) && starts_with ps s

-- `pat in s`
unfoldable pub has_infix : String → String → Bool
unfolding starts_with
has_infix pat String.[] = starts_with pat String.[]
has_infix pat (String.◌∷◌ c s) = starts_with pat (String.◌∷◌ c s) || has_infix pat s

-- `s.replace(pat, "")` from where `skip` more characters of a match are left out.
unfoldable pub without : String → ℕ → String → String
unfolding starts_with
without pat skip String.[] = String.[]
without pat (suc skip) (String.◌∷◌ c s) = without pat skip s
without pat zero (String.◌∷◌ c s) =
    let is_match : Bool = starts_with pat (String.◌∷◌ c s) in
    let rest : String = without pat (if is_match then count pat - 1 else 0) s in
    if is_match then rest else String.◌∷◌ c rest

-- `c.isspace()`
abbrev pub is_space : Char → Bool
is_space c =
    let n : ℕ = code c in
    (leb 9 n && leb n 13)
    || (leb 28 n && leb n 32)
    || nat_beq n 133
    || nat_beq n 160
    || nat_beq n 5760
    || (leb 8192 n && leb n 8202)
    || nat_beq n 8232
    || nat_beq n 8233
    || nat_beq n 8239
    || nat_beq n 8287
    || nat_beq n 12288

abbrev pub is_empty : String → Bool
is_empty String.[] = true
is_empty (String.◌∷◌ c s) = false

-- `s.rstrip()`
unfoldable pub rstrip : String → String
rstrip String.[] = String.[]
rstrip (String.◌∷◌ c s) =
    let rest : String = rstrip s in
    if is_empty rest && is_space c then String.[] else String.◌∷◌ c rest

-- `s.endswith("#")`
unfoldable pub ends_with_hash : String → Bool
ends_with_hash String.[] = false
ends_with_hash (String.◌∷◌ c s) = if is_empty s then nat_beq (code c) 35 else ends_with_hash s

-- The handler's test for the backend's own texts.
unfoldable pub is_own_text : String → Bool
unfolding has_infix rstrip ends_with_hash
is_own_text msg_text = has_infix "ref_" msg_text && ends_with_hash (rstrip msg_text)

-- `str(n)` of a number, given fuel above it.
abbrev pub digit : ℕ → String
digit n = String.◌∷◌ (char_at "0123456789" n) String.[]

unfoldable pub decimal_within : ℕ → ℕ → String
decimal_within zero n = String.[]
decimal_within (suc fuel) n =
    let rest : String = decimal_within fuel (n / 10) in
    if ltb n 10 then digit n else rest ++ digit (n % 10)

unfoldable pub decimal : ℕ → String
unfolding decimal_within
decimal n = decimal_within (n + 1) n

-- `f"{message_text}\n\nref_{ref_num}#"`
unfoldable pub full_message : String → ℕ → String
unfolding decimal
full_message message_text ref_num = message_text ++ "\n\nref_" ++ decimal ref_num ++ "#"
