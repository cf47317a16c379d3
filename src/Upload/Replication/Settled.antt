-- ===== src/Upload/Replication/Settled.antt =====
-- How often each replica job is delivered or fails.
use c_stateless_relay_tran.Base.{
  ℕ, zero, suc, ◌+◌, ◌<◌, ◌≡◌, refl, ap, ◌∙◌, min, ltb, ◌==◌, if◌then◌else◌, Option, none, some,
  List, [], ◌∷◌, ◌++◌, length, get_elem?, Result, ok, err, arith, Bool-cases, inl, inr,
}
use c_stateless_relay_tran.Upload.Registration.{ReplicaReplicationJob}
use c_stateless_relay_tran.Upload.Replication.{
  ReplicaReplicationFailure, Replication, not_begun, start_from, start_replication, without_worker,
  with_job, next_job, settle_job, settle_index, end_put, replication_step, replication_run,
}
use c_stateless_relay_tran.Upload.Replication.Attempts.{
  IsTried, there, known_at, end-IsTried, replication-IsTried,
}
use c_stateless_relay_tran.Upload.Stripe.Order.{upto}

abbrev pub times : ℕ → List ℕ → ℕ
times x [] = 0
times x (y ∷ ys) = (if x == y then 1 else 0) + times x ys

-- 1 for a number below n, 0 for any other
abbrev pub below : ℕ → ℕ → ℕ
below x n = if ltb x n then 1 else 0

below-suc : (x n : ℕ) → below x (suc n) ≡ below x n + (if x == n then 1 else 0)
below-suc x n = ground arith

times-append :
    (x : ℕ) (ys : List ℕ) (y : ℕ) → times x (ys ++ y ∷ []) ≡ times x ys + (if x == y then 1 else 0)
times-append x [] y = omega arith
times-append x (z ∷ ys) y = omega (arith, times-append x ys y)

times-with_job :
    (x : ℕ) (busy : List ℕ) (k i next : ℕ)
    → get_elem? busy k ≡ some i
    → times x (with_job busy k next) + (if x == i then 1 else 0)
      ≡ times x busy + (if x == next then 1 else 0)
times-with_job x [] k i next e = cc
times-with_job x (j ∷ busy) zero i next e = let same : j ≡ i = cc in rw same (omega arith)
times-with_job x (j ∷ busy) (suc k) i next e = omega (arith, times-with_job x busy k i next e)

times-without_worker :
    (x : ℕ) (busy : List ℕ) (k i : ℕ)
    → get_elem? busy k ≡ some i
    → times x (without_worker busy k) + (if x == i then 1 else 0) ≡ times x busy
times-without_worker x [] k i e = cc
times-without_worker x (j ∷ busy) zero i e = let same : j ≡ i = cc in rw same (omega arith)
times-without_worker x (j ∷ busy) (suc k) i e = omega (arith, times-without_worker x busy k i e)

module _ (jobs : List ReplicaReplicationJob) where
  -- The failures name the token and the relay of these jobs, one for one.
  pub data Names : List ℕ → List ReplicaReplicationFailure → Type 0 where
    no_names : Names [] []
    named :
        {failed : List ℕ} {failures : List ReplicaReplicationFailure} (i : ℕ)
        (job : ReplicaReplicationJob) (failure : ReplicaReplicationFailure)
        → get_elem? jobs i ≡ some job
        → failure.token ≡ job.token
        → failure.relay_id ≡ job.relay_id
        → Names failed failures
        → Names (failed ++ i ∷ []) (failures ++ failure ∷ [])

  -- Of the first n jobs each was once delivered, failed, or is under way, and of the others none was.
  abbrev pub Settles : List ℕ → List ReplicaReplicationFailure → List ℕ → ℕ → Type 0
  Settles delivered failures busy n =
      (failed : List ℕ) × Names failed failures
      × ((x : ℕ) → times x delivered + times x failed + times x busy ≡ below x n)

  abbrev IsSettled : Replication → Type 0
  IsSettled r = Settles r.delivered r.failures r.busy r.next_index

  start-IsSettled : (n : ℕ) (r : Replication) → IsSettled r → IsSettled (start_from n r)
  unfolding start_from
  start-IsSettled zero r s = s
  start-IsSettled (suc n) r (failed, names, once) = start-IsSettled n _ (
    failed,
    names,
    λ x. omega (arith, once x, times-append x r.busy r.next_index, below-suc x r.next_index),
  )

  -- The worker of the job i, which has settled, goes on or returns.
  next-IsSettled :
      (k i : ℕ) (r : Replication) (failed : List ℕ)
      → get_elem? r.busy k ≡ some i
      → Names failed r.failures
      → ((x : ℕ)
          → times x r.delivered + times x failed + times x r.busy
            ≡ below x r.next_index + (if x == i then 1 else 0))
      → IsSettled (next_job jobs k r)
  unfolding next_job
  next-IsSettled k i r failed e names twice = elim (Bool-cases (ltb r.next_index (length jobs))) [
    | inl more ↦ rw more (
      failed,
      names,
      λ x.
          omega
            (arith, twice x, times-with_job x r.busy k i r.next_index e, below-suc x r.next_index),
    )
    | inr none_left ↦
        rw none_left
          (failed, names, λ x. omega (arith, twice x, times-without_worker x r.busy k i e))
  ]

  settle-IsSettled :
      (k i : ℕ) (outcome : Result (Unit {0})) (r : Replication) (job : ReplicaReplicationJob)
      → get_elem? r.busy k ≡ some i
      → get_elem? jobs i ≡ some job
      → IsSettled r
      → IsSettled (next_job jobs k (settle_job job i outcome r))
  unfolding settle_job
  settle-IsSettled k i (ok _) r job e there_is (failed, names, once) =
      next-IsSettled k i _ failed e names (λ x. omega (arith, once x, times-append x r.delivered i))
  settle-IsSettled k i (err cause) r job e there_is (failed, names, once) =
      next-IsSettled k i _ (failed ++ i ∷ []) e (named i job _ there_is refl refl names)
        (λ x. omega (arith, once x, times-append x failed i))

  end-IsSettled :
      (concurrency k : ℕ) (outcome : Result (Unit {0})) (r : Replication) (o : Option ℕ)
      → get_elem? r.busy k ≡ o
      → IsTried jobs concurrency r
      → IsSettled r
      → IsSettled (end_put jobs k outcome r o)
  unfolding end_put settle_index
  end-IsSettled concurrency k outcome r none e tried s = s
  end-IsSettled concurrency k outcome r (some i) e tried s =
      let (job, q) =
        there jobs concurrency jobs i (known_at jobs concurrency r.busy k i e tried.known) in
      rw q (settle-IsSettled k i outcome r job e q s)

  run-IsSettled :
      (concurrency : ℕ) (es : List (ℕ × Result (Unit {0}))) (r : Replication)
      → IsTried jobs concurrency r
      → IsSettled r
      → IsSettled (replication_run jobs r es)
  unfolding replication_run replication_step
  run-IsSettled concurrency [] r tried s = s
  run-IsSettled concurrency ((k, outcome) ∷ es) r tried s =
      run-IsSettled concurrency es (replication_step jobs r (k, outcome))
        (end-IsTried jobs concurrency k outcome r (get_elem? r.busy k) refl tried)
        (end-IsSettled concurrency k outcome r (get_elem? r.busy k) refl tried s)

  -- When no worker is left, with at least one allowed: the PUTs are those of all jobs, in order and each
  -- once; each job was delivered once or failed once, and not both; and the recorded failures
  -- name the token and the relay of the jobs that failed, one for one.
  pub replication_done :
      (concurrency : ℕ) (es : List (ℕ × Result (Unit {0})))
      → 0 < concurrency
      → (replication_run jobs (start_replication jobs concurrency) es).busy ≡ []
      → ((replication_run jobs (start_replication jobs concurrency) es).puts ≡ upto (length jobs))
        × Settles
            (replication_run jobs (start_replication jobs concurrency) es).delivered
            (replication_run jobs (start_replication jobs concurrency) es).failures
            []
            (length jobs)
  unfolding start_replication replication_run
  replication_done concurrency es allowed idle =
      let t = replication-IsTried jobs concurrency es in
      let begun = replication-IsTried jobs concurrency [] in
      let r = replication_run jobs (start_replication jobs concurrency) es in
      let none_busy : length r.busy ≡ 0 = ap length idle in
      let w = t.staffed in
      let n = t.in_range in
      let finished : r.next_index ≡ length jobs = omega arith in
      let (failed, names, once) =
        run-IsSettled concurrency es (start_replication jobs concurrency) begun (
          start-IsSettled (min concurrency (length jobs)) not_begun
            ([], no_names, λ x. ground arith)) in
      let settled = rw (idle, finished) at once in
      (t.ordered ∙ ap upto finished, (failed, names, settled))
