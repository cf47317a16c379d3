-- ===== src/Base/StringMap.antt =====
-- A JavaScript `Map` with string keys: the entries in insertion order.
use Prim.Native.String.{String}
use mathlib.Core.Path.{◌≡◌, refl}
use mathlib.Core.Logic.{inl, inr}
use mathlib.Core.Bool.{Bool, true, false}
use mathlib.Core.Option.{Option, none, some}
use mathlib.Core.List.{List, [], ◌∷◌}
use native.Mathlib.Omega.{arith}
use text.Mathlib.Text.{◌==◌ as str_eq}
use text.Mathlib.TextEquality.{eq_iff}
use c_stateless_relay_tran.Base.Booleans.{if◌then◌else◌, Bool-cases}

abbrev pub StringMap {ℓ} : Type ℓ → Type ℓ
StringMap V = List (String × V)

module _ {ℓ} {V : Type ℓ} where
  unfoldable pub get : String → StringMap V → Option V
  get k [] = none
  get k ((j, v) ∷ m) = if str_eq j k then some v else get k m

  unfoldable pub has : String → StringMap V → Bool
  has k [] = false
  has k ((j, v) ∷ m) = if str_eq j k then true else has k m

  -- A key that is there keeps its place.
  unfoldable pub set : String → V → StringMap V → StringMap V
  set k v [] = (k, v) ∷ []
  set k v ((j, w) ∷ m) = if str_eq j k then (j, v) ∷ m else (j, w) ∷ set k v m

  unfoldable pub delete : String → StringMap V → StringMap V
  delete k [] = []
  delete k ((j, w) ∷ m) = let rest = delete k m in if str_eq j k then rest else (j, w) ∷ rest

  unfoldable pub keys : StringMap V → List String
  keys [] = []
  keys ((j, w) ∷ m) = j ∷ keys m

  pub get-set :
      (k j : String) (v : V) (m : StringMap V)
      → get j (set k v m) ≡ (if str_eq k j then some v else get j m)
  unfolding get set
  get-set k j v [] = refl
  get-set k j v ((i, w) ∷ m) = ground (arith, eq_iff k j, eq_iff i k, eq_iff i j, get-set k j v m)

  pub get-delete :
      (k j : String) (m : StringMap V) → get j (delete k m) ≡ (if str_eq k j then none else get j m)
  unfolding get delete
  get-delete k j [] = ground arith
  get-delete k j ((i, w) ∷ m) = ground (arith, get-delete k j m, eq_iff i k, eq_iff i j, eq_iff k j)

  pub has-set :
      (k j : String) (v : V) (m : StringMap V)
      → has j (set k v m) ≡ (if str_eq k j then true else has j m)
  unfolding has set
  has-set k j v [] = refl
  has-set k j v ((i, w) ∷ m) = ground (arith, eq_iff k j, eq_iff i k, eq_iff i j, has-set k j v m)

  pub has-get : (k : String) (m : StringMap V) → has k m ≡ true → (v : V) × (get k m ≡ some v)
  unfolding has get
  has-get k [] h = cc
  has-get k ((j, v) ∷ m) h = elim (Bool-cases (str_eq j k)) [
    | inl e ↦ (v, rw e)
    | inr e ↦ rw e (has-get k m (ground arith))
  ]

  pub get-missing : (k : String) (m : StringMap V) → has k m ≡ false → get k m ≡ none
  unfolding get has
  get-missing k [] h = refl
  get-missing k ((j, v) ∷ m) h = elim (Bool-cases (str_eq j k)) [
    | inl e ↦ let there = rw e at h in cc
    | inr e ↦ rw e (get-missing k m (rw e at h))
  ]

pub ruleset map_laws = (get-set, get-delete, has-set)
