-- ===== src/Base/Outcome.antt =====
-- What the program throws, and results that may be thrown values.
use Prim.Native.Nat.{ℕ}
use Prim.Native.String.{String}
use mathlib.Core.Path.{◌≡◌, refl}
use mathlib.Core.Logic.{◌⊎◌, inl, inr}
use mathlib.Core.List.{List}
use mathlib.Core.Option.{Option}

pub record OccupiedTokenInfo : Type 0 where
  pub token : String
  pub expiry_at : String
  pub block_hash : Option String

-- An instance of `Error` by its class; `value` is a thrown value that is no `Error`.
pub data Thrown : Type 0 where
  error : String → Thrown
  type_error : String → Thrown
  placement_expired : String → Thrown
  tokens_occupied : List OccupiedTokenInfo → Thrown
  retry_exhausted : ℕ → Thrown → Thrown
  upload_put_error : String → ℕ → Thrown → Thrown
  reservation_exhausted : ℕ → List OccupiedTokenInfo → Thrown
  value : String → Thrown

pub data Result {ℓ} (A : Type ℓ) : Type ℓ where
  ok : A → Result A
  err : Thrown → Result A

infixl 5 ◌>>=◌
-- The value goes on; what was thrown is passed up.
abbrev pub ◌>>=◌ {ℓ κ} : {A : Type ℓ} {B : Type κ} → Result A → (A → Result B) → Result B
r >>= next = elim r [ ok a ↦ next a | err e ↦ err e ]

infixl 5 ◌>>◌
-- A check that returns nothing, then the rest.
abbrev pub ◌>>◌ {ℓ} : {B : Type ℓ} → Result (Unit {0}) → Result B → Result B
check >> rest = elim check [ ok _ ↦ rest | err e ↦ err e ]

pub Result-cases {ℓ} :
    {A : Type ℓ} (r : Result A) → ((a : A) × (r ≡ ok a)) ⊎ ((e : Thrown) × (r ≡ err e))
Result-cases (ok a) = inl (a, refl)
Result-cases (err e) = inr (e, refl)
