-- ===== src/Worker/Texts/Signature.antt =====
-- The signature on the backend's own texts, and the test that the handler makes for it.
use Prim.Native.String.{◌++◌}
use text.Mathlib.TextLemmas.{nil-append, cons-append, append_assoc}
use telegram_client.Prelude.{ℕ, String, ◌≡◌, refl, true, false, arith, sym, ap, ◌∙◌}
use telegram_client.Worker.Texts.{
  starts_with, has_infix, rstrip, is_empty, ends_with_hash, is_own_text, full_message, decimal,
}

pub starts_with-append : (pat s : String) → starts_with pat (pat ++ s) ≡ true
unfolding starts_with
starts_with-append String.[] s = refl
starts_with-append (String.◌∷◌ p ps) s =
    rw (cons-append p ps s) (ground (arith, starts_with-append ps s))

has_infix_of_starts_with : (pat s : String) → starts_with pat s ≡ true → has_infix pat s ≡ true
unfolding has_infix
has_infix_of_starts_with pat String.[] h = h
has_infix_of_starts_with pat (String.◌∷◌ c s) h = rw h refl

has_infix-append : (pat s t : String) → has_infix pat t ≡ true → has_infix pat (s ++ t) ≡ true
unfolding has_infix
has_infix-append pat String.[] t h = rw (nil-append t) h
has_infix-append pat (String.◌∷◌ c s) t h =
    rw (cons-append c s t) (ground (arith, has_infix-append pat s t h))

is_empty-append_hash : (s : String) → is_empty (s ++ "#") ≡ false
is_empty-append_hash String.[] = refl
is_empty-append_hash (String.◌∷◌ c s) = rw (cons-append c s "#") refl

rstrip-append_hash : (s : String) → rstrip (s ++ "#") ≡ s ++ "#"
unfolding rstrip
rstrip-append_hash String.[] = refl
rstrip-append_hash (String.◌∷◌ c s) =
    rw (cons-append c s "#", rstrip-append_hash s, is_empty-append_hash s) refl

ends_with_hash-append : (s : String) → ends_with_hash (s ++ "#") ≡ true
unfolding ends_with_hash
ends_with_hash-append String.[] = refl
ends_with_hash-append (String.◌∷◌ c s) =
    rw (cons-append c s "#", is_empty-append_hash s) (ends_with_hash-append s)

-- Every text that the engine sends, for any message and number, passes the handler's test for
-- the backend's own texts.
pub is_own_text-full_message :
    (message_text : String) (ref_num : ℕ) → is_own_text (full_message message_text ref_num) ≡ true
unfolding is_own_text full_message
is_own_text-full_message m n =
    let t = decimal n ++ "#" in
    let infix_found = has_infix_of_starts_with "ref_" ("ref_" ++ t) (starts_with-append "ref_" t) in
    let found = has_infix-append "ref_" "\n\n" ("ref_" ++ t) infix_found in
    let split : "\n\nref_" ++ t ≡ "\n\n" ++ ("ref_" ++ t) = append_assoc "\n\n" "ref_" t in
    let tail : String = "\n\nref_" ++ decimal n in
    let regroup : m ++ ("\n\nref_" ++ t) ≡ (m ++ tail) ++ "#" =
      sym (append_assoc m tail "#" ∙ ap (λ x. m ++ x) (append_assoc "\n\nref_" (decimal n) "#")) in
    let present : has_infix "ref_" (m ++ ("\n\nref_" ++ t)) ≡ true =
      has_infix-append "ref_" m ("\n\nref_" ++ t) (rw split found) in
    let last : ends_with_hash (rstrip (m ++ ("\n\nref_" ++ t))) ≡ true =
      rw (regroup, rstrip-append_hash (m ++ tail)) (ends_with_hash-append (m ++ tail)) in
    rw (present, last) refl
