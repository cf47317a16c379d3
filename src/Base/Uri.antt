-- ===== src/Base/Uri.antt =====
-- Texts of URLs: `url.replace(/\/$/, '')` and `encodeURIComponent`.
use Prim.Native.Nat.{ℕ, ◌+◌, ◌/◌, ◌%◌}
use Prim.Native.Char.{Char, code}
use Prim.Native.String
use Prim.Native.String.{String}
use mathlib.Core.Bool.{Bool, ◌&&◌, ◌||◌}
use mathlib.Core.List.{[], ◌∷◌}
use c_stateless_relay_tran.Base.Booleans.{ltb, leb, ◌==◌, if◌then◌else◌}
use c_stateless_relay_tran.Base.Text.{concat}

-- c ∷ s without a slash at its end
strip_from : Char → String → String
strip_from c String.[] = if code c == b'/' then "" else String.◌∷◌ c ""
strip_from c (String.◌∷◌ d s) = String.◌∷◌ c (strip_from d s)

-- One slash at the end is taken off.
unfoldable pub strip_slash : String → String
unfolding strip_from
strip_slash String.[] = ""
strip_slash (String.◌∷◌ c s) = strip_from c s

abbrev hex_digit : ℕ → String
hex_digit d =
    if d == 0
    then "0"
    else if d == 1
    then "1"
    else if d == 2
    then "2"
    else if d == 3
    then "3"
    else if d == 4
    then "4"
    else if d == 5
    then "5"
    else if d == 6
    then "6"
    else if d == 7
    then "7"
    else if d == 8
    then "8"
    else if d == 9
    then "9"
    else if d == 10
    then "A"
    else if d == 11
    then "B"
    else if d == 12
    then "C"
    else if d == 13
    then "D"
    else if d == 14
    then "E"
    else "F"

-- One byte as %XX.
percent : ℕ → String
unfolding concat
percent b = concat ("%" ∷ hex_digit (b / 16) ∷ hex_digit (b % 16) ∷ [])

is_alphanumeric : ℕ → Bool
is_alphanumeric c =
    (leb b'A' c && leb c b'Z') || ((leb b'a' c && leb c b'z') || (leb b'0' c && leb c b'9'))

-- - _ . ! ~ * ' ( )
is_mark : ℕ → Bool
is_mark c =
    c == 45
    || (c == 95
        || (c == 46 || (c == 33 || (c == 126 || (c == 42 || (c == 39 || (c == 40 || c == 41)))))))

-- The UTF-8 bytes of a code point from 128 on.
percent_bytes : ℕ → String
unfolding percent concat
percent_bytes c =
    if ltb c 2048
    then concat (percent (192 + c / 64) ∷ percent (128 + c % 64) ∷ [])
    else if ltb c 65536
    then concat
        (percent (224 + c / 4096) ∷ percent (128 + c / 64 % 64) ∷ percent (128 + c % 64) ∷ [])
    else concat (
        percent (240 + c / 262144)
        ∷ percent (128 + c / 4096 % 64)
        ∷ percent (128 + c / 64 % 64)
        ∷ percent (128 + c % 64)
        ∷ [])

encode_char : Char → String
unfolding is_alphanumeric is_mark percent percent_bytes
encode_char ch =
    let c = code ch in
    if is_alphanumeric c || is_mark c
    then String.◌∷◌ ch ""
    else if ltb c 128
    then percent c
    else percent_bytes c

unfoldable pub encode_uri_component : String → String
unfolding encode_char
encode_uri_component String.[] = ""
encode_uri_component (String.◌∷◌ c s) = String.◌++◌ (encode_char c) (encode_uri_component s)
