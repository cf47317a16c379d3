-- ===== src/Resilience/Retry/Attempts.antt =====
-- How many PUTs the retry loop makes, and what it returns.
use mathlib.Core.Path.{subst}
use mathlib.Core.List.{append-nil, append_assoc}
use native.Mathlib.Decide.{dec_le}
use c_stateless_relay_tran.Base.{
  ℕ, zero, suc, ◌+◌, ◌-◌, ◌≤◌, ◌<◌, ◌≡◌, ◌⊎◌, inl, inr, refl, false, max, Option, some, List, [],
  ◌∷◌, ◌++◌, Result, ok, err, Thrown, retry_exhausted, arith, leb, le→leb, ◌==◌,
}
use c_stateless_relay_tran.Resilience.Failure.{is_transient_put_failure}
use c_stateless_relay_tran.Resilience.Retry.{
  PutRetryPolicy, Finished, limit_for, transient_limit, backoff_delay_ms, put_with_retry,
  attempts_from, after_put,
}

limit-le-max :
    (policy : PutRetryPolicy) (e : Thrown)
    → limit_for policy e ≤ max policy.max_attempts (transient_limit policy)
limit-le-max policy e = ground arith

Result-cases : (r : Result (Unit {0})) → (r ≡ ok tt) ⊎ ((e : Thrown) × (r ≡ err e))
Result-cases (ok tt) = inl refl
Result-cases (err e) = inr (e, refl)

module _ {W : Type 0} (put : W → Result (Unit {0}) × W) (policy : PutRetryPolicy) where
  -- The world after n PUTs, and the result of the PUT that follows them.
  abbrev pub world_after : ℕ → W → W
  world_after zero w = w
  world_after (suc n) w = world_after n (put w).1

  -- From the world w and the attempt numbered `attempt`, n PUTs fail below their limits.
  abbrev pub Fails : ℕ → ℕ → W → Type 0
  Fails attempt zero w = Unit {0}
  Fails attempt (suc n) w =
      (e : Thrown) × ((put w).0 ≡ err e)
      × (attempt < limit_for policy e)
      × Fails (attempt + 1) n (put w).1

  -- The delays slept between the attempts.
  abbrev pub delays : ℕ → ℕ → List ℕ
  delays attempt zero = []
  delays attempt (suc n) = backoff_delay_ms policy.base_delay_ms attempt ∷ delays (attempt + 1) n

  -- The PUT made at w, as the attempt numbered `attempt`, is the last one, with the given result.
  abbrev pub Settles : ℕ → W → Result (Unit {0}) → Type 0
  Settles attempt w r =
      (((put w).0 ≡ ok tt) × (r ≡ ok tt))
      ⊎ ((e : Thrown) × ((put w).0 ≡ err e)
          × (limit_for policy e ≤ attempt)
          × (r ≡ err (retry_exhausted attempt e)))

  Ends : ℕ → W → List ℕ → Option (Finished W) → Type 0
  Ends attempt w slept o =
      (n : ℕ) × (r : Result (Unit {0})) × Fails attempt n w
      × Settles (attempt + n) (world_after n w) r
      × (o
          ≡ some (record {
            result = r;
            world = world_after (suc n) w;
            slept = slept ++ delays attempt n;
          }))

  -- The last attempt, whether it succeeds or reaches its limit.
  last-Ends :
      (fuel attempt : ℕ) (w : W) (slept : List ℕ) (r : Result (Unit {0}))
      → Settles attempt w r
      → Ends attempt w slept (attempts_from put policy (suc fuel) attempt w slept)
  unfolding Ends attempts_from
  last-Ends fuel attempt w slept r (inl (p, q)) =
      (0, r, tt, inl (p, q), rw (p, after_put) (ground (arith, append-nil slept)))
  last-Ends fuel attempt w slept r (inr (e, p, h, q)) = (
    0,
    r,
    tt,
    inr (e, p, omega arith, ground arith),
    rw (p, after_put) (rw (le→leb _ _ h) (ground (arith, append-nil slept))),
  )

  -- An attempt that fails below its limit is followed by the rest.
  next-Ends :
      (fuel attempt : ℕ) (w : W) (slept : List ℕ) (e : Thrown)
      → (put w).0 ≡ err e
      → attempt < limit_for policy e
      → Ends (attempt + 1) (put w).1 (slept ++ backoff_delay_ms policy.base_delay_ms attempt ∷ []) (
          attempts_from put policy fuel
            (attempt + 1)
            (put w).1
            (slept ++ backoff_delay_ms policy.base_delay_ms attempt ∷ []))
      → Ends attempt w slept (attempts_from put policy (suc fuel) attempt w slept)
  unfolding Ends attempts_from
  next-Ends fuel attempt w slept e p h (n, r, fails, settles, q) =
      let shift : (attempt + 1) + n ≡ attempt + suc n = omega arith in
      let more : leb (limit_for policy e) attempt ≡ false = ground arith in
      (
        suc n,
        r,
        (e, p, h, fails),
        subst (λ k. Settles k (world_after n (put w).1) r) shift settles,
        rw (p, after_put) (rw more (rw append_assoc at q)),
      )

  loop-Ends :
      (fuel attempt : ℕ) (w : W) (slept : List ℕ)
      → max policy.max_attempts (transient_limit policy) < attempt + fuel
      → 0 < fuel
      → Ends attempt w slept (attempts_from put policy fuel attempt w slept)
  loop-Ends zero attempt w slept h pos = absurd (omega arith)
  loop-Ends (suc fuel) attempt w slept h pos = elim (Result-cases (put w).0) [
    | inl p ↦ last-Ends fuel attempt w slept (ok tt) (inl (p, refl))
    | inr (e, p) ↦ elim (dec_le (limit_for policy e) attempt) [
      | yes q ↦ last-Ends fuel attempt w slept _ (inr (e, p, q, refl))
      | no q ↦ next-Ends fuel attempt w slept e p (omega arith) (
          loop-Ends fuel (attempt + 1) (put w).1 _ (omega arith)
            (omega (arith, limit-le-max policy e)))
    ]
  ]

  Fails-bound :
      (attempt n : ℕ) (w : W)
      → Fails attempt (suc n) w
      → attempt + n < max policy.max_attempts (transient_limit policy)
  Fails-bound attempt zero w (e, p, h, fails) = omega (arith, limit-le-max policy e)
  Fails-bound attempt (suc n) w (e, p, h, fails) =
      omega (arith, Fails-bound (attempt + 1) n (put w).1 fails)

  few_attempts :
      (n : ℕ) (w : W)
      → 0 < policy.max_attempts
      → Fails 1 n w
      → n < max policy.max_attempts (transient_limit policy)
  few_attempts zero w pos fails = omega arith
  few_attempts (suc n) w pos fails = omega (arith, Fails-bound 1 n w fails)

  -- With a positive attempt limit, and fuel for the larger of the two limits, the loop ends: some n
  -- PUTs fail, each below the limit for its kind of failure, and the next PUT is the last, which
  -- succeeds or fails at its limit. It makes no more PUTs than the larger limit, sleeps the backoff
  -- delay after each of the n, and a failure carries the number of attempts and the last error.
  pub retry-Ends :
      (fuel : ℕ) (w : W)
      → 0 < policy.max_attempts
      → max policy.max_attempts (transient_limit policy) < suc fuel
      → (n : ℕ) × (r : Result (Unit {0})) × (n < max policy.max_attempts (transient_limit policy))
        × Fails 1 n w
        × Settles (1 + n) (world_after n w) r
        × (put_with_retry put policy fuel w
            ≡ some (record { result = r; world = world_after (suc n) w; slept = delays 1 n }))
  unfolding put_with_retry Ends
  retry-Ends fuel w pos h =
      let positive : policy.max_attempts == 0 ≡ false = ground arith in
      let (n, r, fails, settles, q) = loop-Ends fuel 1 w [] (omega arith) (omega arith) in
      (n, r, few_attempts n w pos fails, fails, settles, rw positive q)

  Fails-same :
      (e : Thrown)
      → ((k : W) → (put k).0 ≡ err e)
      → (attempt n : ℕ) (w : W) → Fails attempt (suc n) w
      → attempt + n < limit_for policy e
  Fails-same e always attempt zero w (e', p, h, fails) =
      let same : e ≡ e' = cc (always w) in rw same (omega arith)
  Fails-same e always attempt (suc n) w (e', p, h, fails) =
      omega (arith, Fails-same e always (attempt + 1) n (put w).1 fails)

  Fails-count :
      (e : Thrown)
      → ((k : W) → (put k).0 ≡ err e)
      → (n : ℕ) (w : W) → 0 < policy.max_attempts
      → limit_for policy e ≡ policy.max_attempts
      → Fails 1 n w
      → limit_for policy e ≤ 1 + n
      → n ≡ policy.max_attempts - 1
  Fails-count e always zero w pos limit fails h = omega arith
  Fails-count e always (suc n) w pos limit fails h = omega (arith, Fails-same e always 1 n w fails)

  Settles-failed :
      (e : Thrown) (attempt : ℕ) (w : W) (r : Result (Unit {0}))
      → (put w).0 ≡ err e
      → Settles attempt w r
      → (limit_for policy e ≤ attempt) × (r ≡ err (retry_exhausted attempt e))
  Settles-failed e attempt w r p (inl (q, _)) = cc
  Settles-failed e attempt w r p (inr (e', q, h, x)) =
      let same : e' ≡ e = cc in (rw (← same) h, rw (← same) x)

  recount :
      (m n : ℕ) (w : W) (e : Thrown)
      → 0 < m
      → n ≡ m - 1
      → (r : Result (Unit {0})) → r ≡ err (retry_exhausted (1 + n) e)
      → (o : Option (Finished W))
      → o ≡ some (record { result = r; world = world_after (suc n) w; slept = delays 1 n })
      → o
        ≡ some (record {
          result = err (retry_exhausted m e);
          world = world_after m w;
          slept = delays 1 (m - 1);
        })
  recount zero n w e pos count r thrown o q = absurd (omega arith)
  recount (suc m) n w e pos count r thrown o q =
      let last : n ≡ m = omega arith in
      let made : 1 + n ≡ suc m = omega arith in cc (last, made, count)

  -- A PUT that always fails in one way that is not transient is made exactly maxAttempts times, and
  -- the error that is thrown counts them.
  pub permanent_failure :
      (fuel : ℕ) (w : W) (e : Thrown)
      → 0 < policy.max_attempts
      → max policy.max_attempts (transient_limit policy) < suc fuel
      → ((k : W) → (put k).0 ≡ err e)
      → is_transient_put_failure e ≡ false
      → put_with_retry put policy fuel w
        ≡ some (record {
          result = err (retry_exhausted policy.max_attempts e);
          world = world_after policy.max_attempts w;
          slept = delays 1 (policy.max_attempts - 1);
        })
  permanent_failure fuel w e pos h always lasting =
      let (n, r, few, fails, settles, q) = retry-Ends fuel w pos h in
      let limit : limit_for policy e ≡ policy.max_attempts = rw lasting in
      let (reached, thrown) = Settles-failed e (1 + n) (world_after n w) r (always _) settles in
      let count : n ≡ policy.max_attempts - 1 = Fails-count e always n w pos limit fails reached in
      recount policy.max_attempts n w e pos count r thrown _ q
