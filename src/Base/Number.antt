-- ===== src/Base/Number.antt =====
-- JavaScript numbers, as far as the program computes with them: the special values, and finite
-- numbers by sign and whole part, with a flag that says whether a fractional part follows.
-- `pos w true` lies strictly between w and w + 1. What the program does (comparisons with whole
-- constants, `Math.trunc`, `Math.min`, `Math.max`, `Math.ceil` of a quotient) does not depend on
-- the fraction's value.
use Prim.Native.Nat.{ℕ}
use mathlib.Core.Bool.{Bool, true, false, not, ◌&&◌, ◌||◌}
use c_stateless_relay_tran.Base.Booleans.{ltb, leb, ◌==◌, if◌then◌else◌}

pub data Number : Type 0 where
  nan infinity neg_infinity : Number
  pos : ℕ → Bool → Number
  neg : ℕ → Bool → Number

abbrev pub whole : ℕ → Number
whole n = pos n false

-- Number.isFinite
abbrev pub is_finite : Number → Bool
is_finite nan = false
is_finite infinity = false
is_finite neg_infinity = false
is_finite (pos w f) = true
is_finite (neg w f) = true

-- x < k
abbrev pub lt_whole : Number → ℕ → Bool
lt_whole nan k = false
lt_whole infinity k = false
lt_whole neg_infinity k = true
lt_whole (pos w f) k = ltb w k
lt_whole (neg w f) k = ltb 0 k || (ltb 0 w || f)

-- x <= k
abbrev pub le_whole : Number → ℕ → Bool
le_whole nan k = false
le_whole infinity k = false
le_whole neg_infinity k = true
le_whole (pos w f) k = if f then ltb w k else leb w k
le_whole (neg w f) k = true

-- x > k
abbrev pub gt_whole : Number → ℕ → Bool
gt_whole nan k = false
gt_whole infinity k = true
gt_whole neg_infinity k = false
gt_whole (pos w f) k = if f then leb k w else ltb k w
gt_whole (neg w f) k = false

-- x >= k
abbrev pub ge_whole : Number → ℕ → Bool
ge_whole nan k = false
ge_whole infinity k = true
ge_whole neg_infinity k = false
ge_whole (pos w f) k = leb k w
ge_whole (neg w f) k = k == 0 && (w == 0 && not f)

-- Math.trunc
abbrev pub trunc : Number → Number
trunc nan = nan
trunc infinity = infinity
trunc neg_infinity = neg_infinity
trunc (pos w f) = pos w false
trunc (neg w f) = neg w false

-- Math.min(x, k)
abbrev pub min_whole : Number → ℕ → Number
min_whole nan k = nan
min_whole infinity k = whole k
min_whole neg_infinity k = neg_infinity
min_whole (pos w f) k = if ltb w k then pos w f else whole k
min_whole (neg w f) k = neg w f

-- Math.max(x, k)
abbrev pub max_whole : Number → ℕ → Number
max_whole nan k = nan
max_whole infinity k = infinity
max_whole neg_infinity k = whole k
max_whole (pos w f) k = if ltb w k then whole k else pos w f
max_whole (neg w f) k = whole k

-- x === 0; minus zero passes too
abbrev pub is_zero : Number → Bool
is_zero (pos w f) = w == 0 && not f
is_zero (neg w f) = w == 0 && not f
is_zero _ = false
