-- ===== src/Prelude/Uri.antt =====
-- `encodeURIComponent`: the unreserved characters stand for themselves, and every other one becomes
-- the bytes of its UTF-8, each written `%XY` in upper-case hexadecimal. A native text holds no lone
-- surrogate, so the `URIError` case of the language cannot arise.
use Prim.Native.Nat.{ℕ, ◌+◌, ◌/◌, ◌%◌}
use Prim.Native.Char.{Char, code}
use Prim.Native.String.{String, char_at}
use mathlib.Core.Bool.{Bool, ◌||◌, ◌&&◌}
use mathlib.Core.List.{List, [], ◌∷◌}
use hhc_line_function_bot.Prelude.Tests.{ltb, leb, if◌then◌else◌}

is_unreserved : ℕ → Bool
is_unreserved c =
    (leb b'A' c && leb c b'Z')
    || (leb b'a' c && leb c b'z')
    || (leb b'0' c && leb c b'9')
    || (leb 45 c && leb c 46)
    || (leb 95 c && leb c 95)
    || (leb 33 c && leb c 33)
    || (leb 126 c && leb c 126)
    || (leb 39 c && leb c 42)

hex_digit : ℕ → Char
hex_digit d = char_at "0123456789ABCDEF" d

utf8_bytes : ℕ → List ℕ
utf8_bytes c =
    if ltb c 128
    then c ∷ []
    else if ltb c 2048
    then (192 + c / 64) ∷ (128 + c % 64) ∷ []
    else if ltb c 65536
    then (224 + c / 4096) ∷ (128 + (c / 64) % 64) ∷ (128 + c % 64) ∷ []
    else (240 + c / 262144) ∷ (128 + (c / 4096) % 64) ∷ (128 + (c / 64) % 64) ∷ (128 + c % 64) ∷ []

percent_bytes : List ℕ → String → String
unfolding hex_digit
percent_bytes [] rest = rest
percent_bytes (b ∷ bs) rest =
    String.◌∷◌ (char_at "%" 0)
      (String.◌∷◌ (hex_digit (b / 16)) (String.◌∷◌ (hex_digit (b % 16)) (percent_bytes bs rest)))

unfoldable pub encode_uri_component : String → String
unfolding is_unreserved utf8_bytes percent_bytes
encode_uri_component String.[] = ""
encode_uri_component (String.◌∷◌ c s) =
    let rest = encode_uri_component s in
    if is_unreserved (code c) then String.◌∷◌ c rest else percent_bytes (utf8_bytes (code c)) rest
