-- ===== src/Upload/Hashing/Progress.antt =====
-- The counters of the pool in every interleaving, and that a drain is not forgotten.
use c_stateless_relay_tran.Base.{
  ℕ, zero, suc, ◌+◌, ◌≤◌, ◌<◌, ◌≡◌, ap, ◌∙◌, inl, inr, refl, ◌==◌, Bool, true, false, if◌then◌else◌,
  List, [], ◌∷◌, length, length-append, ok, err, Thrown, arith, Bool-cases,
}
use c_stateless_relay_tran.Upload.Hashing.{
  HashJob, HashPool, fresh_pool, new_pool, pump, is_pending, maybe_resolve_drain, enqueue, close,
  drain, PoolEvent, enqueues, ends, drains, or_same, pool_step, pool_run,
}
use c_stateless_relay_tran.Upload.Hashing.Pumping.{
  IsPooled, pump-IsPumped, resolve-IsPooled, end-IsPooled,
}

unless_closed :
    (b : Bool) (e : Thrown) (pool next : HashPool)
    → IsPooled pool
    → (b ≡ false → IsPooled next)
    → IsPooled (or_same pool (if b then err e else ok next))
unless_closed true e pool next p q = p
unless_closed false e pool next p q = q refl

pump-IsPooled :
    (pool : HashPool)
    → 0 < pool.concurrency
    → pool.in_flight ≡ length pool.running
    → pool.in_flight ≤ pool.concurrency
    → pool.completed + pool.in_flight + length pool.queue ≡ pool.total_enqueued
    → pool.drain_waiters ≡ 0
    → IsPooled (pump pool)
unfolding pump
pump-IsPooled pool a c l t w =
    let n = pump-IsPumped pool.queue pool a c l in
    record {
      allowed = n.allowed;
      counted = n.counted;
      limited = n.limited;
      total = omega (arith, n.same_completed, n.moved, n.same_total);
      busy = n.busy;
      shut = inl (n.same_waiters ∙ w);
      awaited = inl (n.same_waiters ∙ w);
    }

enqueue-IsPooled :
    (job : HashJob) (pool : HashPool) → IsPooled pool → IsPooled (or_same pool (enqueue job pool))
unfolding enqueue
enqueue-IsPooled job pool p = unless_closed pool.closed _ pool _ p (λ still_open.
    let t = p.total in
    let s = p.shut in
    let none_waits : pool.drain_waiters ≡ 0 = ground arith in
    pump-IsPooled _ p.allowed p.counted p.limited
      (omega (arith, length-append pool.queue (job ∷ []))) none_waits)

close-closed : (pool : HashPool) → (close pool).closed ≡ true
unfolding close maybe_resolve_drain
close-closed pool = elim (Bool-cases (is_pending pool)) [ inl p ↦ rw p refl | inr p ↦ rw p refl ]

close-IsPooled : (pool : HashPool) → IsPooled pool → IsPooled (close pool)
unfolding close
close-IsPooled pool p = resolve-IsPooled _ (record {
  allowed = p.allowed;
  counted = p.counted;
  limited = p.limited;
  total = p.total;
  busy = p.busy;
  shut = inr refl;
})

drain_on :
    (b : Bool) (pool : HashPool)
    → is_pending pool ≡ b
    → pool.closed ≡ true
    → IsPooled pool
    → IsPooled (
        if b
        then record pool { drain_waiters = suc pool.drain_waiters }
        else record pool { drained = suc pool.drained })
drain_on true pool e is_closed p =
    let t = p.total in
    record {
      allowed = p.allowed;
      counted = p.counted;
      limited = p.limited;
      total = t;
      busy = p.busy;
      shut = inr is_closed;
      awaited = inr (ground arith);
    }
drain_on false pool e is_closed p = record {
  allowed = p.allowed;
  counted = p.counted;
  limited = p.limited;
  total = p.total;
  busy = p.busy;
  shut = p.shut;
  awaited = p.awaited;
}

drain-IsPooled : (pool : HashPool) → IsPooled pool → IsPooled (drain pool)
unfolding drain
drain-IsPooled pool p =
    drain_on (is_pending (close pool)) (close pool) refl (close-closed pool) (close-IsPooled pool p)

step-IsPooled : (pool : HashPool) (e : PoolEvent) → IsPooled pool → IsPooled (pool_step pool e)
unfolding pool_step
step-IsPooled pool (enqueues job) p = enqueue-IsPooled job pool p
step-IsPooled pool (ends i digest) p = end-IsPooled i digest pool _ refl p
step-IsPooled pool drains p = drain-IsPooled pool p

-- From a pool in such a state, after any enqueues, ended hashes and drains, in any order: no more
-- hashes are under way than allowed, no block waits while there is room, every enqueued block is
-- done, under way or queued, and a drain waits only while blocks are left.
pub run-IsPooled :
    (es : List PoolEvent) (pool : HashPool) → IsPooled pool → IsPooled (pool_run pool es)
unfolding pool_run
run-IsPooled [] pool p = p
run-IsPooled (e ∷ es) pool p = run-IsPooled es (pool_step pool e) (step-IsPooled pool e p)

suc_positive : (n : ℕ) → (suc n == 0) ≡ false
suc_positive n = ground arith

pub new-IsPooled :
    (concurrency : ℕ) (pool : HashPool) → new_pool concurrency ≡ ok pool → IsPooled pool
unfolding new_pool
new-IsPooled zero pool h = ground arith
new-IsPooled (suc n) pool h =
    let made = rw (suc_positive n) at h in
    let same : fresh_pool (suc n) ≡ pool = cc in
    rw (← same) (record {
      allowed = omega arith;
      counted = refl;
      limited = omega arith;
      total = refl;
      busy = inl refl;
      shut = inl refl;
      awaited = inl refl;
    })

length-zero : (jobs : List HashJob) → length jobs ≡ 0 → jobs ≡ []
length-zero [] h = refl
length-zero (job ∷ jobs) h = absurd (omega arith)

-- In a pool that the constructor gave, after any enqueues, ended hashes and drains: when no hash is
-- under way, every enqueued block is done, none is queued, and no drain waits.
pub drain_completes :
    (concurrency : ℕ) (pool : HashPool) (es : List PoolEvent)
    → new_pool concurrency ≡ ok pool
    → (pool_run pool es).running ≡ []
    → ((pool_run pool es).completed ≡ (pool_run pool es).total_enqueued)
      × ((pool_run pool es).queue ≡ [])
      × ((pool_run pool es).drain_waiters ≡ 0)
drain_completes concurrency pool es h idle =
    let p = run-IsPooled es pool (new-IsPooled concurrency pool h) in
    let a = p.allowed in
    let c = p.counted in
    let t = p.total in
    let none_runs = ap length idle in
    let none_in_flight : (pool_run pool es).in_flight ≡ 0 = omega arith in
    let none_queued : length (pool_run pool es).queue ≡ 0 = omega (arith, p.busy) in
    (omega arith, length-zero (pool_run pool es).queue none_queued, omega (arith, p.awaited))
