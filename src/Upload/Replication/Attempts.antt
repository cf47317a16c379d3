-- ===== src/Upload/Replication/Attempts.antt =====
-- Every replica job is tried once, in order.
use c_stateless_relay_tran.Base.{
  ℕ, zero, suc, ◌+◌, ◌≤◌, ◌<◌, ◌≡◌, ◌⊎◌, inl, inr, refl, ap, min, ltb, ltb→lt, Option, none, some,
  List, [], ◌∷◌, ◌++◌, length, length-append, get_elem?, Result, ok, err, arith, All, All-append,
  Bool-cases,
}
use c_stateless_relay_tran.Upload.Registration.{ReplicaReplicationJob}
use c_stateless_relay_tran.Upload.Replication.{
  Replication, not_begun, start_from, start_replication, without_worker, with_job, next_job,
  settle_job, settle_index, end_put, replication_step, replication_run,
}
use c_stateless_relay_tran.Upload.Stripe.Order.{upto}

-- What holds between the ends of PUTs, for the given jobs and concurrency.
pub record IsTried (jobs : List ReplicaReplicationJob) (concurrency : ℕ) (r : Replication)
    : Type 0 where
  pub ordered : r.puts ≡ upto r.next_index
  pub in_range : r.next_index ≤ length jobs
  -- every job begun was delivered, failed, or is under way
  pub split : length r.delivered + length r.failures + length r.busy ≡ r.next_index
  pub limited : length r.busy ≤ min concurrency (length jobs)
  -- a worker returns only when no job is left
  pub staffed : (length r.busy ≡ min concurrency (length jobs)) ⊎ (r.next_index ≡ length jobs)
  pub known : All (λ i. i < length jobs) r.busy

module _ (jobs : List ReplicaReplicationJob) (concurrency : ℕ) where
  start-IsTried :
      (n : ℕ) (r : Replication)
      → r.puts ≡ upto r.next_index
      → length r.delivered + length r.failures + length r.busy ≡ r.next_index
      → length r.busy + n ≡ min concurrency (length jobs)
      → length r.busy ≡ r.next_index
      → All (λ i. i < length jobs) r.busy
      → IsTried jobs concurrency (start_from n r)
  unfolding start_from
  start-IsTried zero r o s b e k = record {
    ordered = o;
    in_range = omega arith;
    split = s;
    limited = omega arith;
    staffed = inl (omega arith);
    known = k;
  }
  start-IsTried (suc n) r o s b e k =
      let longer = length-append r.busy (r.next_index ∷ []) in
      start-IsTried n _ (ap (λ ps. ps ++ r.next_index ∷ []) o) (omega arith) (omega arith)
        (omega arith) (All-append (λ i. i < length jobs) r.busy _ k (omega arith, tt))

  pub there :
      (xs : List ReplicaReplicationJob) (i : ℕ)
      → i < length xs
      → (job : ReplicaReplicationJob) × (get_elem? xs i ≡ some job)
  there [] i h = absurd (omega arith)
  there (x ∷ xs) zero h = (x, refl)
  there (x ∷ xs) (suc i) h = there xs i (omega arith)

  pub known_at :
      (busy : List ℕ) (k i : ℕ)
      → get_elem? busy k ≡ some i
      → All (λ i. i < length jobs) busy
      → i < length jobs
  known_at [] k i e h = cc
  known_at (j ∷ busy) zero i e h = let same : j ≡ i = cc in omega (arith, h.0)
  known_at (j ∷ busy) (suc k) i e h = known_at busy k i e h.1

  length-with_job : (busy : List ℕ) (k next : ℕ) → length (with_job busy k next) ≡ length busy
  length-with_job [] k next = refl
  length-with_job (i ∷ busy) zero next = refl
  length-with_job (i ∷ busy) (suc k) next = omega (arith, length-with_job busy k next)

  length-without_worker :
      (busy : List ℕ) (k i : ℕ)
      → get_elem? busy k ≡ some i
      → suc (length (without_worker busy k)) ≡ length busy
  length-without_worker [] k i e = cc
  length-without_worker (j ∷ busy) zero i e = refl
  length-without_worker (j ∷ busy) (suc k) i e = omega (arith, length-without_worker busy k i e)

  with_job-known :
      (busy : List ℕ) (k next : ℕ)
      → next < length jobs
      → All (λ i. i < length jobs) busy
      → All (λ i. i < length jobs) (with_job busy k next)
  with_job-known [] k next h a = tt
  with_job-known (i ∷ busy) zero next h a = (h, a.1)
  with_job-known (i ∷ busy) (suc k) next h a = (a.0, with_job-known busy k next h a.1)

  without_worker-known :
      (busy : List ℕ) (k : ℕ)
      → All (λ i. i < length jobs) busy
      → All (λ i. i < length jobs) (without_worker busy k)
  without_worker-known [] k a = tt
  without_worker-known (i ∷ busy) zero a = a.1
  without_worker-known (i ∷ busy) (suc k) a = (a.0, without_worker-known busy k a.1)

  -- After a job has settled, the worker that sent it is counted twice.
  next-IsTried :
      (k i : ℕ) (r : Replication)
      → get_elem? r.busy k ≡ some i
      → r.puts ≡ upto r.next_index
      → r.next_index ≤ length jobs
      → length r.delivered + length r.failures + length r.busy ≡ suc r.next_index
      → length r.busy ≤ min concurrency (length jobs)
      → (length r.busy ≡ min concurrency (length jobs)) ⊎ (r.next_index ≡ length jobs)
      → All (λ i. i < length jobs) r.busy
      → IsTried jobs concurrency (next_job jobs k r)
  unfolding next_job
  next-IsTried k i r e o n s l w a = elim (Bool-cases (ltb r.next_index (length jobs))) [
    | inl p ↦
        let more : r.next_index < length jobs = ltb→lt _ _ p in
        let same = length-with_job r.busy k r.next_index in
        rw p (record {
          ordered = ap (λ ps. ps ++ r.next_index ∷ []) o;
          in_range = omega arith;
          split = omega arith;
          limited = omega arith;
          staffed = omega arith;
          known = with_job-known r.busy k r.next_index more a;
        })
    | inr p ↦
        let none_left : r.next_index ≡ length jobs = ground arith in
        let fewer = length-without_worker r.busy k i e in
        rw p (record {
          ordered = o;
          in_range = n;
          split = omega arith;
          limited = omega arith;
          staffed = inr none_left;
          known = without_worker-known r.busy k a;
        })
  ]

  settled-IsTried :
      (k i : ℕ) (outcome : Result (Unit {0})) (r : Replication) (job : ReplicaReplicationJob)
      → get_elem? r.busy k ≡ some i
      → IsTried jobs concurrency r
      → IsTried jobs concurrency (next_job jobs k (settle_job job i outcome r))
  unfolding settle_job
  settled-IsTried k i (ok _) r job e t =
      let longer = length-append r.delivered (i ∷ []) in
      let split = t.split in
      next-IsTried k i _ e t.ordered t.in_range (omega arith) t.limited t.staffed t.known
  settled-IsTried k i (err x) r job e t =
      let longer =
        length-append r.failures (record { token = job.token; relay_id = job.relay_id } ∷ []) in
      let split = t.split in
      next-IsTried k i _ e t.ordered t.in_range (omega arith) t.limited t.staffed t.known

  pub end-IsTried :
      (k : ℕ) (outcome : Result (Unit {0})) (r : Replication) (o : Option ℕ)
      → get_elem? r.busy k ≡ o
      → IsTried jobs concurrency r
      → IsTried jobs concurrency (end_put jobs k outcome r o)
  unfolding end_put settle_index
  end-IsTried k outcome r none e t = t
  end-IsTried k outcome r (some i) e t =
      let (job, q) = there jobs i (known_at r.busy k i e t.known) in
      rw q (settled-IsTried k i outcome r job e t)

  run-IsTried :
      (es : List (ℕ × Result (Unit {0}))) (r : Replication)
      → IsTried jobs concurrency r
      → IsTried jobs concurrency (replication_run jobs r es)
  unfolding replication_run replication_step
  run-IsTried [] r t = t
  run-IsTried ((k, outcome) ∷ es) r t =
      run-IsTried es (replication_step jobs r (k, outcome))
        (end-IsTried k outcome r (get_elem? r.busy k) refl t)

  -- In every order in which the PUTs end: the PUTs are those of the jobs, in order and each once; no
  -- more are under way than the concurrency allows; and every job begun was delivered, failed, or is
  -- under way.
  pub replication-IsTried :
      (es : List (ℕ × Result (Unit {0})))
      → IsTried jobs concurrency (replication_run jobs (start_replication jobs concurrency) es)
  unfolding start_replication
  replication-IsTried es =
      run-IsTried es (start_from (min concurrency (length jobs)) not_begun)
        (start-IsTried (min concurrency (length jobs)) not_begun refl refl (omega arith) refl tt)
