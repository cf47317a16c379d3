-- ===== src/Base/Lists.antt =====
-- Lists measured by native numbers, under the library's names, and predicates on lists.
use Prim.Native.Nat.{ℕ, zero, suc, ◌+◌, ◌-◌, ◌≤◌, min}
use mathlib.Core.Path.{◌≡◌, refl, ap, ◌∙◌}
use mathlib.Core.List.{List, [], ◌∷◌, ◌++◌}
use mathlib.Core.Option.{Option, none, some}
use native.Mathlib.Omega.{arith}
use native.Mathlib.Numerals.{unary_clauses}

module _ {ℓ} {A : Type ℓ} where
  abbrev pub length : List A → ℕ
  length [] = 0
  length (x ∷ xs) = suc (length xs)

  abbrev pub get_elem? : List A → ℕ → Option A
  get_elem? [] i = none
  get_elem? (x ∷ xs) zero = some x
  get_elem? (x ∷ xs) (suc i) = get_elem? xs i

  abbrev pub take : ℕ → List A → List A
  take zero xs = []
  take (suc n) [] = []
  take (suc n) (x ∷ xs) = x ∷ take n xs

  abbrev pub drop : ℕ → List A → List A
  drop zero xs = xs
  drop (suc n) [] = []
  drop (suc n) (x ∷ xs) = drop n xs

  abbrev pub flatten : List (List A) → List A
  flatten [] = []
  flatten (xs ∷ xss) = xs ++ flatten xss

  pub length-append : (xs ys : List A) → length (xs ++ ys) ≡ length xs + length ys
  length-append [] ys = omega arith
  length-append (x ∷ xs) ys = omega (arith, length-append xs ys)

  pub take-append-drop : (n : ℕ) (xs : List A) → take n xs ++ drop n xs ≡ xs
  take-append-drop zero xs = refl
  take-append-drop (suc n) [] = refl
  take-append-drop (suc n) (x ∷ xs) = rw (take-append-drop n xs)

  pub length-take : (n : ℕ) (xs : List A) → length (take n xs) ≡ min n (length xs)
  length-take zero xs = omega arith
  length-take (suc n) [] = omega arith
  length-take (suc n) (x ∷ xs) = omega (arith, length-take n xs)

  pub length-drop : (n : ℕ) (xs : List A) → length (drop n xs) ≡ length xs - n
  length-drop zero xs = omega arith
  length-drop (suc n) [] = omega arith
  length-drop (suc n) (x ∷ xs) = omega (arith, length-drop n xs)

  pub take-append-take : (m n : ℕ) (xs : List A) → take m xs ++ take n (drop m xs) ≡ take (m + n) xs
  take-append-take zero n xs = let same : n ≡ 0 + n = omega arith in ap (λ k. take k xs) same
  take-append-take (suc m) zero [] = simp unary_clauses refl
  take-append-take (suc m) (suc n) [] = simp unary_clauses refl
  take-append-take (suc m) n (x ∷ xs) =
      let up : suc (m + n) ≡ suc m + n = omega arith in
      ap (λ ys. x ∷ ys) (take-append-take m n xs) ∙ ap (λ k. take k (x ∷ xs)) up

  pub drop-drop : (m n : ℕ) (xs : List A) → drop n (drop m xs) ≡ drop (m + n) xs
  drop-drop zero n xs = let same : n ≡ 0 + n = omega arith in ap (λ k. drop k xs) same
  drop-drop (suc m) zero [] = simp unary_clauses refl
  drop-drop (suc m) (suc n) [] = simp unary_clauses refl
  drop-drop (suc m) n (x ∷ xs) =
      let up : suc (m + n) ≡ suc m + n = omega arith in
      drop-drop m n xs ∙ ap (λ k. drop k (x ∷ xs)) up

  pub take_all : (n : ℕ) (xs : List A) → length xs ≤ n → take n xs ≡ xs
  take_all zero [] h = refl
  take_all zero (x ∷ xs) h = absurd (omega arith)
  take_all (suc n) [] h = refl
  take_all (suc n) (x ∷ xs) h = rw (take_all n xs (omega arith))

module _ {ℓ κ} {A : Type ℓ} (P : A → Type κ) where
  abbrev pub All : List A → Type κ
  All [] = Unit
  All (x ∷ xs) = P x × All xs

  pub All-append : (xs ys : List A) → All xs → All ys → All (xs ++ ys)
  All-append [] ys hx hy = hy
  All-append (x ∷ xs) ys hx hy = (hx.0, All-append xs ys hx.1 hy)
