-- ===== src/Worker/Texts/Numbers.antt =====
-- `int(text)` and `str(number)`. Of the digits that Python's `int` reads, those outside ASCII are
-- left out.
use Prim.Native.Char.{Char, code}
use telegram_client.Prelude.{
  ℕ, zero, suc, ◌+◌, ◌-◌, ◌*◌, String, Bool, false, ◌&&◌, ◌||◌, Option, none, some, leb, nat_beq,
  if◌then◌else◌,
}
use telegram_client.Data.{ℤ, pos, negsuc}
use telegram_client.Worker.Texts.{is_space, rstrip, decimal}

-- `s.lstrip()`
unfoldable pub lstrip : String → String
lstrip String.[] = String.[]
lstrip (String.◌∷◌ c s) =
    let rest : String = lstrip s in if is_space c then rest else String.◌∷◌ c s

-- `s.strip()`
unfoldable pub strip : String → String
unfolding lstrip rstrip
strip s = lstrip (rstrip s)

abbrev pub is_digit : Char → Bool
is_digit c = leb 48 (code c) && leb (code c) 57

abbrev pub digit_of : Char → ℕ
digit_of c = code c - 48

-- The digits that are left, where `after_digit` says that the character before was one: an
-- underscore may stand between two digits. `none` is the ValueError.
unfoldable pub read_digits : Bool → ℕ → String → Option ℕ
read_digits after_digit acc String.[] = if after_digit then some acc else none
read_digits after_digit acc (String.◌∷◌ c s) =
    let value : ℕ = if is_digit c then acc * 10 + digit_of c else acc in
    let rest : Option ℕ = read_digits (is_digit c) value s in
    if is_digit c || (nat_beq (code c) 95 && after_digit) then rest else none

abbrev pub negated : ℕ → ℤ
negated zero = pos 0
negated (suc n) = negsuc n

abbrev pub mapped : (ℕ → ℤ) → Option ℕ → Option ℤ
mapped f none = none
mapped f (some n) = some (f n)

abbrev pub read_signed : String → Option ℤ
read_signed String.[] = none
read_signed (String.◌∷◌ c s) =
    if nat_beq (code c) 45
    then mapped negated (read_digits false 0 s)
    else if nat_beq (code c) 43
    then mapped pos (read_digits false 0 s)
    else mapped pos (read_digits false 0 (String.◌∷◌ c s))

-- `int(s)`; `none` for its ValueError.
unfoldable pub int_of : String → Option ℤ
unfolding strip read_digits
int_of s = read_signed (strip s)

-- `str(n)` of an integer
unfoldable pub int_text : ℤ → String
int_text (pos n) = decimal n
int_text (negsuc n) = String.◌∷◌ "-" (decimal (n + 1))
