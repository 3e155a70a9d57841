-- ===== src/Api/Names/Spellings.antt =====
-- The spellings of a target that `add_target` of app/api.py takes for one another.
use Prim.Native.Char.{Char}
use Prim.Native.String.{◌++◌, ◌∷◌}
use text.Mathlib.TextLemmas.{nil-append, cons-append}
use telegram_client.Prelude.{
  refl, ◌≡◌, String, inl, inr, true, false, ◌||◌, arith, Bool-cases, ap, ◌∙◌, if◌then◌else◌,
}
use telegram_client.Api.Names.{normalised, with_at, invite_link}
use telegram_client.Worker.Texts.Parts.{
  drop_chars, after_last, lstrip_slash, rstrip_slash, is_slash,
}
use telegram_client.Worker.Texts.{starts_with, has_infix}
use telegram_client.Worker.Texts.Signature.{starts_with-append}

more : (c : Char) (p s t : String) → p ++ s ≡ t → c ∷ p ++ s ≡ c ∷ t
more c p s t h = cons-append c p s ∙ ap (λ r. c ∷ r) h

at_cons : (s : String) → "@" ++ s ≡ "@" ∷ s
at_cons s = more "@" "" s s (nil-append s)

t_me_cons : (s : String) → "t.me/" ++ s ≡ "t" ∷ "." ∷ "m" ∷ "e" ∷ "/" ∷ s
t_me_cons s =
    more "t" ".me/" s _
      (more "." "me/" s _ (more "m" "e/" s _ (more "e" "/" s _ (more "/" "" s s (nil-append s)))))

https_cons :
    (s : String)
    → "https://t.me/" ++ s
      ≡ "h" ∷ "t" ∷ "t" ∷ "p" ∷ "s" ∷ ":" ∷ "/" ∷ "/" ∷ "t" ∷ "." ∷ "m" ∷ "e" ∷ "/" ∷ s
https_cons s = more "h" "ttps://t.me/" s _ (
    more "t" "tps://t.me/" s _ (
      more "t" "ps://t.me/" s _ (
        more "p" "s://t.me/" s _ (
          more "s" "://t.me/" s _ (
            more ":" "//t.me/" s _ (more "/" "/t.me/" s _ (more "/" "t.me/" s _ (t_me_cons s))))))))

with_at_starts : (s : String) → starts_with "@" (with_at s) ≡ true
with_at_starts s = elim (Bool-cases (starts_with "@" s)) [
  | inl e ↦ rw (e, e) refl
  | inr e ↦ rw e (starts_with-append "@" s)
]

http_first : (s : String) → starts_with "http" ("h" ∷ "t" ∷ "t" ∷ "p" ∷ s) ≡ true
unfolding starts_with
http_first s = refl

invite_link_starts : (s : String) → starts_with "http" (invite_link s) ≡ true
invite_link_starts s = elim (Bool-cases (starts_with "http" s)) [
  | inl e ↦ rw (e, e) refl
  | inr e ↦
      rw (e, https_cons (if starts_with "t.me" s then drop_chars 2 s else lstrip_slash s))
        (http_first _)
]

-- A stored name starts with "@" or is a link.
pub normalised_starts :
    (username : String)
    → (starts_with "@" (normalised username) || starts_with "http" (normalised username)) ≡ true
unfolding normalised
normalised_starts username =
    elim (Bool-cases (has_infix "+" username || has_infix "joinchat/" username)) [
      | inl e ↦ rw e (ground (arith, invite_link_starts username))
      | inr e ↦ elim (Bool-cases (has_infix "t.me/" username)) [
        | inl f ↦
            rw (e, f)
              (ground
                (arith, with_at_starts (lstrip_slash (rstrip_slash (after_last "t.me/" username)))))
        | inr f ↦ rw (e, f) (ground (arith, with_at_starts username))
      ]
    ]

no_slash :
    (c : Char) (s : String)
    → has_infix "/" (c ∷ s) ≡ false
    → (is_slash c ≡ false) × (has_infix "/" s ≡ false)
unfolding has_infix starts_with
no_slash c s h = ground arith

lstrip_slash-id : (s : String) → has_infix "/" s ≡ false → lstrip_slash s ≡ s
unfolding lstrip_slash
lstrip_slash-id String.[] h = refl
lstrip_slash-id (String.◌∷◌ c s) h = rw ((no_slash c s h).0) refl

rstrip_slash-id : (s : String) → has_infix "/" s ≡ false → rstrip_slash s ≡ s
unfolding rstrip_slash
rstrip_slash-id String.[] h = refl
rstrip_slash-id (String.◌∷◌ c s) h =
    let (other, later) = no_slash c s h in ground (arith, rstrip_slash-id s later)

-- The part behind the last "t.me/" of a link.
after_last-link :
    (name : String)
    → has_infix "t.me/" name ≡ false
    → after_last "t.me/" ("t" ∷ "." ∷ "m" ∷ "e" ∷ "/" ∷ name) ≡ name
unfolding after_last has_infix starts_with drop_chars
after_last-link name h = rw h refl

abbrev t_me : String → String
t_me name = "t" ∷ "." ∷ "m" ∷ "e" ∷ "/" ∷ name

abbrev https_t_me : String → String
https_t_me name = "h" ∷ "t" ∷ "t" ∷ "p" ∷ "s" ∷ ":" ∷ "/" ∷ "/" ∷ t_me name

-- Where the marks of a link are found in the two links.
infix-t_me :
    (name : String)
    → (has_infix "+" (t_me name) ≡ has_infix "+" name)
      × (has_infix "joinchat/" (t_me name) ≡ has_infix "joinchat/" name)
      × (has_infix "t.me/" (t_me name) ≡ true)
unfolding has_infix starts_with
infix-t_me name = (refl, refl, refl)

infix-https_t_me :
    (name : String)
    → (has_infix "+" (https_t_me name) ≡ has_infix "+" name)
      × (has_infix "joinchat/" (https_t_me name) ≡ has_infix "joinchat/" name)
      × (has_infix "t.me/" (https_t_me name) ≡ true)
unfolding has_infix starts_with
infix-https_t_me name = (refl, refl, refl)

infix-at :
    (name : String)
    → (has_infix "+" ("@" ∷ name) ≡ has_infix "+" name)
      × (has_infix "joinchat/" ("@" ∷ name) ≡ has_infix "joinchat/" name)
      × (has_infix "t.me/" ("@" ∷ name) ≡ has_infix "t.me/" name)
      × (starts_with "@" ("@" ∷ name) ≡ true)
unfolding has_infix starts_with
infix-at name = (refl, refl, refl, refl)

after_last-https :
    (name : String) → has_infix "t.me/" name ≡ false → after_last "t.me/" (https_t_me name) ≡ name
unfolding after_last has_infix starts_with drop_chars
after_last-https name h = rw h refl

-- A text with the marks of a public link, of which `name` is the last part.
normalised_link :
    (username name : String)
    → (has_infix "+" username || has_infix "joinchat/" username) ≡ false
    → has_infix "t.me/" username ≡ true
    → after_last "t.me/" username ≡ name
    → has_infix "/" name ≡ false
    → starts_with "@" name ≡ false
    → normalised username ≡ "@" ++ name
unfolding normalised
normalised_link username name private link last slash at =
    rw (private, link, last, rstrip_slash-id name slash, lstrip_slash-id name slash, at) refl

-- For a name of a public group, with no "@" at its start and none of "+", "/", "t.me/" and
-- "joinchat/" in it: the name, the name after "@", and the two links to it are all stored as the
-- same text, the name after "@".
pub normalised_public :
    (name : String)
    → starts_with "@" name ≡ false
    → has_infix "+" name ≡ false
    → has_infix "/" name ≡ false
    → has_infix "t.me/" name ≡ false
    → has_infix "joinchat/" name ≡ false
    → (normalised name ≡ "@" ++ name)
      × (normalised ("@" ++ name) ≡ "@" ++ name)
      × (normalised ("t.me/" ++ name) ≡ "@" ++ name)
      × (normalised ("https://t.me/" ++ name) ≡ "@" ++ name)
unfolding normalised
normalised_public name at plus slash link joinchat =
    let (p, j, l, a) = infix-at name in
    let (p₁, j₁, l₁) = infix-t_me name in
    let (p₂, j₂, l₂) = infix-https_t_me name in
    (
      rw (plus, joinchat, link, at) refl,
      rw (at_cons name, p, j, l, plus, joinchat, link, a) refl,
      rw (t_me_cons name) (
          normalised_link (t_me name) name (rw (p₁, j₁, plus, joinchat) refl) l₁
            (after_last-link name link) slash at),
      rw (https_cons name) (
          normalised_link (https_t_me name) name (rw (p₂, j₂, plus, joinchat) refl) l₂
            (after_last-https name link) slash at),
    )

invite-t_me :
    (rest : String)
    → (starts_with "http" (t_me rest) ≡ false)
      × (starts_with "t.me" (t_me rest) ≡ true)
      × (drop_chars 2 (t_me rest) ≡ "m" ∷ "e" ∷ "/" ∷ rest)
unfolding starts_with drop_chars
invite-t_me rest = (refl, refl, refl)

-- A private invitation spelled "t.me/…" is stored as a link that does not lead to it: two
-- characters are cut, so that "me/" stays between the "https://t.me/" in front and the rest.
pub normalised_invite :
    (rest : String)
    → (has_infix "+" rest || has_infix "joinchat/" rest) ≡ true
    → normalised ("t.me/" ++ rest) ≡ "https://t.me/" ++ ("me/" ++ rest)
unfolding normalised
normalised_invite rest h =
    let (p, j, _) = infix-t_me rest in
    let (http, t, cut) = invite-t_me rest in
    rw
      (
        t_me_cons rest,
        p,
        j,
        h,
        http,
        t,
        cut,
        more "m" "e/" rest _ (more "e" "/" rest _ (more "/" "" rest rest (nil-append rest))),
      )
      refl
