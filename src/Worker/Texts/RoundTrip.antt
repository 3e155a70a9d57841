-- ===== src/Worker/Texts/RoundTrip.antt =====
-- The decimal digits of a number, read back as `int` reads them.
use Prim.Native.Char.{Char, code}
use Prim.Native.String.{◌++◌}
use text.Mathlib.TextLemmas.{nil-append, cons-append}
use telegram_client.Prelude.{
  ℕ, subst, ◌+◌, ◌*◌, ◌<◌, String, ◌≡◌, Bool, true, ◌&&◌, some, arith, zero, suc, refl, inl, inr,
  if◌then◌else◌, Bool-cases, ◌/◌, ◌%◌, false, ltb, ap, ◌∙◌, nat_beq,
}
use telegram_client.Data.{pos}
use telegram_client.Worker.Texts.{
  digit, is_empty, decimal_within, starts_with, is_space, rstrip, without, decimal,
}
use telegram_client.Worker.Texts.Signature.{starts_with-append}
use telegram_client.Worker.Texts.Numbers.{
  is_digit, digit_of, read_digits, read_signed, int_of, lstrip, strip, mapped,
}

-- The last character of a number's text.
digit_lem : (d : ℕ) → d < 10 → (c : Char) × (digit d ≡ String.◌∷◌ c String.[]) × (code c ≡ 48 + d)
digit_lem zero h = ("0", refl, refl)
digit_lem (suc zero) h = ("1", refl, refl)
digit_lem (suc (suc zero)) h = ("2", refl, refl)
digit_lem (suc (suc (suc zero))) h = ("3", refl, refl)
digit_lem (suc (suc (suc (suc zero)))) h = ("4", refl, refl)
digit_lem (suc (suc (suc (suc (suc zero))))) h = ("5", refl, refl)
digit_lem (suc (suc (suc (suc (suc (suc zero)))))) h = ("6", refl, refl)
digit_lem (suc (suc (suc (suc (suc (suc (suc zero))))))) h = ("7", refl, refl)
digit_lem (suc (suc (suc (suc (suc (suc (suc (suc zero)))))))) h = ("8", refl, refl)
digit_lem (suc (suc (suc (suc (suc (suc (suc (suc (suc zero))))))))) h = ("9", refl, refl)
digit_lem (suc (suc (suc (suc (suc (suc (suc (suc (suc (suc n)))))))))) h = absurd (omega arith)

-- Every character is an ASCII digit.
unfoldable pub all_digits : String → Bool
all_digits String.[] = true
all_digits (String.◌∷◌ c s) = is_digit c && all_digits s

all_digits-append :
    (s t : String) → all_digits s ≡ true → all_digits t ≡ true → all_digits (s ++ t) ≡ true
unfolding all_digits
all_digits-append String.[] t h g = rw (nil-append t) g
all_digits-append (String.◌∷◌ c s) t h g =
    rw (cons-append c s t) (ground (arith, all_digits-append s t))

is_digit_of_value : (c : Char) (n : ℕ) → code c ≡ 48 + n → n < 10 → is_digit c ≡ true
is_digit_of_value c n e h = ground arith

read_digit :
    (b : Bool) (acc : ℕ) (c : Char)
    → is_digit c ≡ true
    → read_digits b acc (String.◌∷◌ c String.[]) ≡ some (acc * 10 + digit_of c)
unfolding read_digits
read_digit b acc c d = rw d refl

all_digits-digit : (c : Char) → is_digit c ≡ true → all_digits (String.◌∷◌ c String.[]) ≡ true
unfolding all_digits
all_digits-digit c d = rw d refl

is_empty-append_char : (s : String) (c : Char) → is_empty (s ++ String.◌∷◌ c String.[]) ≡ false
is_empty-append_char String.[] c = rw (nil-append (String.◌∷◌ c String.[])) refl
is_empty-append_char (String.◌∷◌ e s) c = rw (cons-append e s (String.◌∷◌ c String.[])) refl

-- A digit more is read as a digit more.
read_digits-append :
    (b : Bool) (acc v : ℕ) (s : String) (c : Char)
    → read_digits b acc s ≡ some v
    → is_digit c ≡ true
    → read_digits b acc (s ++ String.◌∷◌ c String.[]) ≡ some (v * 10 + digit_of c)
unfolding read_digits
read_digits-append true acc v String.[] c h d =
    let same : acc ≡ v = ground (arith) in
    rw (same, nil-append (String.◌∷◌ c String.[])) (read_digit true v c d)
read_digits-append false acc v String.[] c h d = absurd (ground arith)
read_digits-append b acc v (String.◌∷◌ e s) c h d =
    let value : ℕ = if is_digit e then acc * 10 + digit_of e else acc in
    rw (cons-append e s (String.◌∷◌ c String.[]))
      (ground (arith, read_digits-append (is_digit e) value v s c))

decimal_within_lem :
    (fuel n : ℕ)
    → n < fuel
    → (all_digits (decimal_within fuel n) ≡ true)
      × (read_digits false 0 (decimal_within fuel n) ≡ some n)
      × (is_empty (decimal_within fuel n) ≡ false)
unfolding decimal_within
decimal_within_lem zero n h = absurd (omega arith)
decimal_within_lem (suc fuel) n h = elim (Bool-cases (ltb n 10)) [
  | inl small ↦
      let (c, shape, value) = digit_lem n (ground arith) in
      let d = is_digit_of_value c n value (ground arith) in
      let same : 0 * 10 + digit_of c ≡ n = omega (arith, value) in
      rw (small, shape) (all_digits-digit c d, read_digit false 0 c d ∙ ap some same, refl)
  | inr big ↦
      let (c, shape, value) = digit_lem (n % 10) (omega arith) in
      let (digits, reads, _) = decimal_within_lem fuel (n / 10) (ground arith) in
      let d = is_digit_of_value c (n % 10) value (omega arith) in
      let same : n / 10 * 10 + digit_of c ≡ n = omega (arith, value) in
      let front = decimal_within fuel (n / 10) in
      rw (big, shape)
        (
          all_digits-append front (String.◌∷◌ c String.[]) digits (all_digits-digit c d),
          read_digits-append false 0 (n / 10) front c reads d ∙ ap some same,
          is_empty-append_char front c,
        )
]

digit-not_space : (c : Char) → is_digit c ≡ true → is_space c ≡ false
digit-not_space c d = ground arith

rstrip-all_digits : (s : String) → all_digits s ≡ true → rstrip s ≡ s
unfolding all_digits rstrip
rstrip-all_digits String.[] h = refl
rstrip-all_digits (String.◌∷◌ c s) h =
    let rest = rstrip-all_digits s (ground arith) in
    let plain = digit-not_space c (ground arith) in
    rw (rest, plain) (elim (Bool-cases (is_empty s)) [ inl e ↦ rw e refl | inr e ↦ rw e refl ])

lstrip-all_digits : (s : String) → all_digits s ≡ true → lstrip s ≡ s
unfolding all_digits lstrip
lstrip-all_digits String.[] h = refl
lstrip-all_digits (String.◌∷◌ c s) h = rw (digit-not_space c (ground arith)) refl

read_signed-all_digits :
    (s : String) (n : ℕ)
    → all_digits s ≡ true
    → read_digits false 0 s ≡ some n
    → read_signed s ≡ some (pos n)
unfolding all_digits read_digits
read_signed-all_digits String.[] n h r = absurd (ground arith)
read_signed-all_digits (String.◌∷◌ c s) n h r =
    let minus : nat_beq (code c) 45 ≡ false = ground arith in
    let plus : nat_beq (code c) 43 ≡ false = ground arith in rw (minus, plus) (ap (mapped pos) r)

-- Every number is read back from its decimal digits.
pub int_of-decimal : (n : ℕ) → int_of (decimal n) ≡ some (pos n)
unfolding int_of strip decimal
int_of-decimal n =
    let (digits, reads, _) = decimal_within_lem (n + 1) n (omega arith) in
    let text = decimal_within (n + 1) n in
    rw (rstrip-all_digits text digits, lstrip-all_digits text digits)
      (read_signed-all_digits text n digits reads)

-- A pattern that begins with a letter does not occur among digits.
without-all_digits : (s : String) → all_digits s ≡ true → without "worker-" 0 s ≡ s
unfolding all_digits without starts_with
without-all_digits String.[] h = refl
without-all_digits (String.◌∷◌ c s) h =
    let other : nat_beq 119 (code c) ≡ false = ground arith in
    rw (other, without-all_digits s (ground arith)) refl

abbrev size : String → ℕ
size String.[] = 0
size (String.◌∷◌ c s) = suc (size s)

-- What is left of a match is skipped.
without-skip : (pat p s : String) → without pat (size p) (p ++ s) ≡ without pat 0 s
unfolding without
without-skip pat String.[] s = rw (nil-append s) refl
without-skip pat (String.◌∷◌ c p) s = rw (cons-append c p s) (without-skip pat p s)

-- The number of a worker is read back from its name.
pub without-worker : (n : ℕ) → without "worker-" 0 ("worker-" ++ decimal n) ≡ decimal n
unfolding decimal without
without-worker n =
    let text = decimal_within (n + 1) n in
    let (digits, _, _) = decimal_within_lem (n + 1) n (omega arith) in
    let found : starts_with "worker-" (String.◌∷◌ "w" ("orker-" ++ text)) ≡ true =
      subst (λ s. starts_with "worker-" s ≡ true) (cons-append "w" "orker-" text)
        (starts_with-append "worker-" text) in
    rw (cons-append "w" "orker-" text, found)
      (without-skip "worker-" "orker-" text ∙ without-all_digits text digits)
