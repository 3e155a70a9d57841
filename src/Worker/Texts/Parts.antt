-- ===== src/Worker/Texts/Parts.antt =====
-- Parts of texts that app/api.py and worker.py cut out of links.
use Prim.Native.Char.{Char, code}
use Prim.Native.String.{count}
use telegram_client.Prelude.{ℕ, suc, zero, String, Bool, ◌&&◌, nat_beq, if◌then◌else◌}
use telegram_client.Worker.Texts.{has_infix, starts_with, is_empty}

-- `s[n:]`
unfoldable pub drop_chars : ℕ → String → String
drop_chars zero s = s
drop_chars (suc n) String.[] = String.[]
drop_chars (suc n) (String.◌∷◌ c s) = drop_chars n s

-- `s.split(pat)[-1]`, for a `pat` of which no two occurrences overlap.
unfoldable pub after_last : String → String → String
unfolding drop_chars
after_last pat String.[] = String.[]
after_last pat (String.◌∷◌ c s) =
    let rest : String = after_last pat s in
    if has_infix pat s
    then rest
    else if starts_with pat (String.◌∷◌ c s)
    then drop_chars (count pat) (String.◌∷◌ c s)
    else String.◌∷◌ c s

abbrev pub is_slash : Char → Bool
is_slash c = nat_beq (code c) 47

-- `s.lstrip("/")`
unfoldable pub lstrip_slash : String → String
lstrip_slash String.[] = String.[]
lstrip_slash (String.◌∷◌ c s) =
    let rest : String = lstrip_slash s in if is_slash c then rest else String.◌∷◌ c s

-- `s.rstrip("/")`
unfoldable pub rstrip_slash : String → String
rstrip_slash String.[] = String.[]
rstrip_slash (String.◌∷◌ c s) =
    let rest : String = rstrip_slash s in
    if is_empty rest && is_slash c then String.[] else String.◌∷◌ c rest
