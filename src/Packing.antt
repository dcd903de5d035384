-- ===== src/Packing.antt =====
-- A text format that examples use where the program writes JSON: numbers and texts one after the other,
-- each of which can be read back.
use Prim.Native.Char.{Char, code}
use Prim.Native.String.{String}
use hhc_line_function_bot.Prelude.{
  ℕ, zero, suc, ◌≡◌, refl, ap, Bool, ◌&&◌, Option, none, some, leb, if◌then◌else◌,
}

abbrev is_more : Char → Bool
is_more c = leb 43 (code c) && leb (code c) 43

unfoldable pub pack_number : ℕ → String → String
pack_number zero rest = String.◌∷◌ "." rest
pack_number (suc n) rest = String.◌∷◌ "+" (pack_number n rest)

abbrev more : ℕ × String → ℕ × String
more (n, rest) = (suc n, rest)

unfoldable pub unpack_number : String → ℕ × String
unpack_number String.[] = (0, String.[])
unpack_number (String.◌∷◌ c s) =
    let tail = unpack_number s in if is_more c then more tail else (0, s)

pub unpack-pack_number : (n : ℕ) (rest : String) → unpack_number (pack_number n rest) ≡ (n, rest)
unfolding pack_number unpack_number
unpack-pack_number zero rest = refl
unpack-pack_number (suc n) rest = ap more (unpack-pack_number n rest)

unfoldable pub pack_text : String → String → String
pack_text String.[] rest = String.◌∷◌ "." rest
pack_text (String.◌∷◌ c s) rest = String.◌∷◌ "+" (String.◌∷◌ c (pack_text s rest))

abbrev put : Char → String × String → String × String
put c (t, rest) = (String.◌∷◌ c t, rest)

unfoldable pub unpack_text : String → String × String
unpack_text String.[] = (String.[], String.[])
unpack_text (String.◌∷◌ x String.[]) = (String.[], String.[])
unpack_text (String.◌∷◌ x (String.◌∷◌ c s)) =
    let tail = unpack_text s in if is_more x then put c tail else (String.[], String.◌∷◌ c s)

pub unpack-pack_text : (t rest : String) → unpack_text (pack_text t rest) ≡ (t, rest)
unfolding pack_text unpack_text
unpack-pack_text String.[] String.[] = refl
unpack-pack_text String.[] (String.◌∷◌ c s) = refl
unpack-pack_text (String.◌∷◌ c s) rest = ap (put c) (unpack-pack_text s rest)

-- An optional number is one more than it is, or 0.
abbrev pub from_option : Option ℕ → ℕ
from_option none = 0
from_option (some n) = suc n

abbrev pub to_option : ℕ → Option ℕ
to_option zero = none
to_option (suc n) = some n
