-- ===== src/Download/Act.antt =====
-- Code that awaits: a step may change the world and may throw. What was changed before stays changed.
use c_stateless_relay_tran.Base.{Result, ok, err}

abbrev pub Act {ℓ} : Type 0 → Type ℓ → Type ℓ
Act W A = W → Result A × W

module _ {W : Type 0} where
  abbrev pub lift {ℓ} : {A : Type ℓ} → Result A → Act W A
  lift r w = (r, w)

  abbrev pub next_step {ℓ κ} :
      {A : Type ℓ} {B : Type κ} → Result A × W → (A → Act W B) → Result B × W
  next_step (ok a, w) next = next a w
  next_step (err e, w) next = (err e, w)

  infixl 5 ◌>>=◌
  abbrev pub ◌>>=◌ {ℓ κ} : {A : Type ℓ} {B : Type κ} → Act W A → (A → Act W B) → Act W B
  ◌>>=◌ step next w = next_step (step w) next
