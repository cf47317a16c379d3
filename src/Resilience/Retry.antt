-- ===== src/Resilience/Retry.antt =====
-- client/transfer/src/resilience/retry-policy.ts and the loop of put-with-retry.ts.
-- The upload client is a parameter: one PUT takes the world to a result and the next world. The
-- loop takes fuel; `Attempts` shows that the larger of the two attempt limits is enough.
pub mod Attempts
use c_stateless_relay_tran.Base.{
  ℕ, zero, suc, ◌+◌, ◌-◌, ◌*◌, ◌^◌, Bool, true, false, if◌then◌else◌, leb, ◌==◌, Option, none, some,
  List, [], ◌∷◌, ◌++◌, Result, ok, err, Thrown, error, retry_exhausted,
}
use c_stateless_relay_tran.Resilience.Failure.{is_transient_put_failure}

-- Attempts are counted from 1.
unfoldable pub backoff_delay_ms : ℕ → ℕ → ℕ
backoff_delay_ms base_delay_ms attempt = base_delay_ms * 2 ^ (attempt - 1)

abbrev pub default_put_transient_max_attempts : ℕ
default_put_transient_max_attempts = 8

-- The limits and the delay are natural numbers.
pub record PutRetryPolicy : Type 0 where
  pub max_attempts : ℕ
  pub base_delay_ms : ℕ
  pub transient_max_attempts : Option ℕ

abbrev pub transient_limit : PutRetryPolicy → ℕ
transient_limit policy = elim policy.transient_max_attempts [
  | none ↦ default_put_transient_max_attempts
  | some n ↦ n
]

abbrev pub limit_for : PutRetryPolicy → Thrown → ℕ
limit_for policy e =
    if is_transient_put_failure e then transient_limit policy else policy.max_attempts

-- What the loop has done when it ends: its result, the world, and the delays it slept, in order.
pub record Finished (W : Type 0) : Type 0 where
  pub result : Result (Unit {0})
  pub world : W
  pub slept : List ℕ

module _ {W : Type 0} (put : W → Result (Unit {0}) × W) (policy : PutRetryPolicy) where
  after_put :
      (ℕ → W → List ℕ → Option (Finished W))
      → ℕ
      → List ℕ
      → Result (Unit {0})
      → W
      → Option (Finished W)
  after_put again attempt slept (ok _) w =
      some (record { result = ok tt; world = w; slept = slept })
  after_put again attempt slept (err e) w =
      let next =
        again (attempt + 1) w (slept ++ backoff_delay_ms policy.base_delay_ms attempt ∷ []) in
      if leb (limit_for policy e) attempt
      then some (record { result = err (retry_exhausted attempt e); world = w; slept = slept })
      else next

  -- while (true), from the attempt that is made next; none means that the fuel ran out.
  attempts_from : ℕ → ℕ → W → List ℕ → Option (Finished W)
  unfolding after_put
  attempts_from zero attempt w slept = none
  attempts_from (suc fuel) attempt w slept =
      let (r, w') = put w in after_put (attempts_from fuel) attempt slept r w'

  unfoldable pub put_with_retry : ℕ → W → Option (Finished W)
  unfolding attempts_from
  put_with_retry fuel w =
      if policy.max_attempts == 0
      then some (record {
        result = err (error "maxAttempts must be greater than zero");
        world = w;
        slept = [];
      })
      else attempts_from fuel 1 w []
