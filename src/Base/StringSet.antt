-- ===== src/Base/StringSet.antt =====
-- A JavaScript `Set` of strings: `[...new Set(xs)]` keeps the first occurrence of each string.
use Prim.Native.String.{String}
use mathlib.Core.Path.{◌≡◌, refl}
use mathlib.Core.Bool.{Bool, false, ◌||◌}
use mathlib.Core.List.{List, [], ◌∷◌, ◌++◌}
use native.Mathlib.Omega.{arith}
use text.Mathlib.Text.{◌==◌ as str_eq}
use text.Mathlib.TextEquality.{eq_iff}
use c_stateless_relay_tran.Base.Booleans.{if◌then◌else◌}

unfoldable pub contains : String → List String → Bool
contains k [] = false
contains k (x ∷ xs) = str_eq x k || contains k xs

-- Set.prototype.add
unfoldable pub add : String → List String → List String
add k s = if contains k s then s else s ++ k ∷ []

-- The set of a list's strings, added to `s` one by one.
unfoldable pub add_all : List String → List String → List String
add_all [] s = s
add_all (x ∷ xs) s = add_all xs (add x s)

-- Set.prototype.delete
unfoldable pub remove : String → List String → List String
remove k [] = []
remove k (x ∷ xs) = let rest = remove k xs in if str_eq x k then rest else x ∷ rest

unfoldable pub unique : List String → List String
unfolding add_all add contains
unique xs = add_all xs []

pub contains-append :
    (k : String) (xs ys : List String) → contains k (xs ++ ys) ≡ (contains k xs || contains k ys)
unfolding contains
contains-append k [] ys = refl
contains-append k (x ∷ xs) ys = ground (arith, contains-append k xs ys)

pub contains-add :
    (k x : String) (s : List String) → contains k (add x s) ≡ (str_eq x k || contains k s)
unfolding add contains
contains-add k x s = ground (arith, contains-append k s (x ∷ []), eq_iff x k)

pub contains-add_all :
    (k : String) (xs s : List String) → contains k (add_all xs s) ≡ (contains k xs || contains k s)
unfolding add_all contains
contains-add_all k [] s = refl
contains-add_all k (x ∷ xs) s = ground (arith, contains-add_all k xs (add x s), contains-add k x s)

-- The set has the members of the list.
pub contains-unique : (k : String) (xs : List String) → contains k (unique xs) ≡ contains k xs
unfolding unique contains
contains-unique k xs = ground (arith, contains-add_all k xs [])

pub contains-remove :
    (k x : String) (s : List String)
    → contains k (remove x s) ≡ (if str_eq x k then false else contains k s)
unfolding remove contains
contains-remove k x [] = ground arith
contains-remove k x (y ∷ s) =
    ground (arith, contains-remove k x s, eq_iff x k, eq_iff y x, eq_iff y k)
