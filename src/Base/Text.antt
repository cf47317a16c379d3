-- ===== src/Base/Text.antt =====
-- Text as code points, with the tests that the program's regular expressions and
-- `String.prototype.includes` make.
use Prim.Native.Nat.{ℕ, zero, suc, ◌+◌, ◌/◌, ◌%◌}
use Prim.Native.Char.{code}
use Prim.Native.String
use Prim.Native.String.{String}
use mathlib.Core.Path.{◌≡◌, refl, ap, ◌∙◌}
use mathlib.Core.Bool.{Bool, true, false, ◌&&◌, ◌||◌}
use mathlib.Core.List.{List, [], ◌∷◌, ◌++◌, map, map-append}
use native.Mathlib.Omega.{arith}
use text.Mathlib.TextLemmas.{nil-append, cons-append}
use c_stateless_relay_tran.Base.Booleans.{leb, ltb, ◌==◌, if◌then◌else◌}

abbrev pub codes : String → List ℕ
codes String.[] = []
codes (String.◌∷◌ c s) = code c ∷ codes s

-- The `i` flag, for ASCII letters.
abbrev pub lower : ℕ → ℕ
lower c = if leb b'A' c && leb c b'Z' then c + 32 else c

unfoldable pub is_prefix : List ℕ → List ℕ → Bool
is_prefix [] s = true
is_prefix (p ∷ ps) [] = false
is_prefix (p ∷ ps) (c ∷ s) = p == c && is_prefix ps s

unfoldable pub includes : List ℕ → List ℕ → Bool
unfolding is_prefix
includes p [] = is_prefix p []
includes p (c ∷ s) = is_prefix p (c ∷ s) || includes p s

-- /sub/i.test(s), for a lower-case `sub`.
unfoldable pub includes_ci : String → String → Bool
unfolding includes
includes_ci sub s = includes (codes sub) (map lower (codes s))

unfoldable pub any_of_ci : List String → String → Bool
unfolding includes_ci
any_of_ci [] s = false
any_of_ci (sub ∷ subs) s = includes_ci sub s || any_of_ci subs s

pub codes-append : (s t : String) → codes (String.◌++◌ s t) ≡ codes s ++ codes t
codes-append String.[] t = ap codes (nil-append t)
codes-append (String.◌∷◌ c s) t =
    ap codes (cons-append c s t) ∙ ap (λ (r : List ℕ). code c ∷ r) (codes-append s t)

is_prefix_self : (p s : List ℕ) → is_prefix p (p ++ s) ≡ true
unfolding is_prefix
is_prefix_self [] s = refl
is_prefix_self (c ∷ p) s = ground (arith, is_prefix_self p s)

includes-prefix : (p s : List ℕ) → is_prefix p s ≡ true → includes p s ≡ true
unfolding includes
includes-prefix p [] h = h
includes-prefix p (c ∷ s) h = rw h

-- What stands in the middle is found.
pub includes-append : (a p b : List ℕ) → includes p (a ++ (p ++ b)) ≡ true
unfolding includes
includes-append [] p b = includes-prefix p (p ++ b) (is_prefix_self p b)
includes-append (c ∷ a) p b = ground (arith, includes-append a p b)

-- What a part includes the whole includes.
pub includes-append_left : (p a b : List ℕ) → includes p b ≡ true → includes p (a ++ b) ≡ true
unfolding includes
includes-append_left p [] b h = h
includes-append_left p (c ∷ a) b h = ground (arith, includes-append_left p a b h)

is_prefix-append : (p a b : List ℕ) → is_prefix p a ≡ true → is_prefix p (a ++ b) ≡ true
unfolding is_prefix
is_prefix-append [] a b h = refl
is_prefix-append (c ∷ p) [] b h = cc
is_prefix-append (c ∷ p) (d ∷ a) b h = ground (arith, is_prefix-append p a b)

pub includes-append_right : (p a b : List ℕ) → includes p a ≡ true → includes p (a ++ b) ≡ true
unfolding includes
includes-append_right p [] b h = includes-prefix p b (is_prefix-append p [] b h)
includes-append_right p (c ∷ a) b h =
    ground (arith, is_prefix-append p (c ∷ a) b, includes-append_right p a b)

pub includes_ci-append_left :
    (sub s t : String) → includes_ci sub t ≡ true → includes_ci sub (String.◌++◌ s t) ≡ true
unfolding includes_ci
includes_ci-append_left sub s t h =
    rw codes-append (
      rw map-append
        (includes-append_left (codes sub) (map lower (codes s)) (map lower (codes t)) h))

pub includes_ci-append_right :
    (sub s t : String) → includes_ci sub s ≡ true → includes_ci sub (String.◌++◌ s t) ≡ true
unfolding includes_ci
includes_ci-append_right sub s t h = rw codes-append (
    rw map-append (includes-append_right (codes sub) (map lower (codes s)) (map lower (codes t)) h))

pub any_of_ci-mem :
    (before after : List String) (sub s : String)
    → includes_ci sub s ≡ true
    → any_of_ci (before ++ sub ∷ after) s ≡ true
unfolding any_of_ci
any_of_ci-mem [] after sub s h = rw h
any_of_ci-mem (x ∷ before) after sub s h = ground (arith, any_of_ci-mem before after sub s h)

-- A template literal: the parts in order.
unfoldable pub concat : List String → String
concat [] = ""
concat (s ∷ parts) = String.◌++◌ s (concat parts)

pub codes-concat :
    (s : String) (parts : List String)
    → codes (concat (s ∷ parts)) ≡ codes s ++ codes (concat parts)
unfolding concat
codes-concat s parts = codes-append s (concat parts)

abbrev digit : ℕ → String
digit d =
    if d == 0
    then "0"
    else if d == 1
    then "1"
    else if d == 2
    then "2"
    else if d == 3
    then "3"
    else if d == 4
    then "4"
    else if d == 5
    then "5"
    else if d == 6
    then "6"
    else if d == 7
    then "7"
    else if d == 8
    then "8"
    else "9"

decimal_from : ℕ → ℕ → String
decimal_from zero n = ""
decimal_from (suc fuel) n =
    let more = String.◌++◌ (decimal_from fuel (n / 10)) (digit (n % 10)) in
    if ltb n 10 then digit n else more

-- String(n) for a natural number; a number has fewer digits than n + 1.
unfoldable pub decimal : ℕ → String
unfolding decimal_from
decimal n = decimal_from (n + 1) n

-- A character that `trim` strips, as far as ASCII goes.
abbrev is_space : ℕ → Bool
is_space c = c == 32 || (leb 9 c && leb c 13)

unfoldable pub is_blank : List ℕ → Bool
is_blank [] = true
is_blank (c ∷ s) = is_space c && is_blank s
