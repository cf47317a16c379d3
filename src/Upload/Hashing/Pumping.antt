-- ===== src/Upload/Hashing/Pumping.antt =====
-- What the pump keeps, and the end of a hash with it.
use c_stateless_relay_tran.Base.{
  ℕ, zero, suc, ◌+◌, ◌≤◌, ◌<◌, ◌≡◌, ◌⊎◌, inl, inr, refl, ltb, ◌||◌, not, true, String, Option, none,
  some, List, [], ◌∷◌, ◌++◌, length, length-append, get_elem?, Result, arith, Bool-cases, ltb→lt,
}
use c_stateless_relay_tran.Upload.Hashing.{
  HashJob, HashPool, pump_from, pump, is_pending, maybe_resolve_drain, without, run_job_end,
}

-- What holds between the events.
pub record IsPooled (pool : HashPool) : Type 0 where
  pub allowed : 0 < pool.concurrency
  pub counted : pool.in_flight ≡ length pool.running
  pub limited : pool.in_flight ≤ pool.concurrency
  pub total : pool.completed + pool.in_flight + length pool.queue ≡ pool.total_enqueued
  -- no job waits while there is room
  pub busy : (length pool.queue ≡ 0) ⊎ (pool.in_flight ≡ pool.concurrency)
  pub shut : (pool.drain_waiters ≡ 0) ⊎ (pool.closed ≡ true)
  -- a drain waits only while jobs are left
  pub awaited : (pool.drain_waiters ≡ 0) ⊎ (pool.completed < pool.total_enqueued)

-- The pump moves jobs from the queue to those under way.
pub record IsPumped (jobs : List HashJob) (before after : HashPool) : Type 0 where
  pub allowed : 0 < after.concurrency
  pub counted : after.in_flight ≡ length after.running
  pub limited : after.in_flight ≤ after.concurrency
  pub moved : after.in_flight + length after.queue ≡ before.in_flight + length jobs
  pub busy : (length after.queue ≡ 0) ⊎ (after.in_flight ≡ after.concurrency)
  pub same_completed : after.completed ≡ before.completed
  pub same_total : after.total_enqueued ≡ before.total_enqueued
  pub same_waiters : after.drain_waiters ≡ before.drain_waiters
  pub same_closed : after.closed ≡ before.closed

pub pump-IsPumped :
    (jobs : List HashJob) (pool : HashPool)
    → 0 < pool.concurrency
    → pool.in_flight ≡ length pool.running
    → pool.in_flight ≤ pool.concurrency
    → IsPumped jobs pool (pump_from jobs pool)
unfolding pump_from
pump-IsPumped [] pool a c l = record {
  allowed = a;
  counted = c;
  limited = l;
  moved = omega arith;
  busy = inl refl;
  same_completed = refl;
  same_total = refl;
  same_waiters = refl;
  same_closed = refl;
}
pump-IsPumped (job ∷ jobs) pool a c l = elim (Bool-cases (ltb pool.in_flight pool.concurrency)) [
  | inl room ↦
      let next : HashPool = record pool {
        queue = jobs;
        in_flight = suc pool.in_flight;
        running = pool.running ++ job ∷ [];
      } in
      let n =
        pump-IsPumped jobs next a (omega (arith, length-append pool.running (job ∷ [])))
          (omega (arith, ltb→lt _ _ room)) in
      rw room (record {
        allowed = n.allowed;
        counted = n.counted;
        limited = n.limited;
        moved = omega (arith, n.moved);
        busy = n.busy;
        same_completed = n.same_completed;
        same_total = n.same_total;
        same_waiters = n.same_waiters;
        same_closed = n.same_closed;
      })
  | inr full ↦ rw full (record {
    allowed = a;
    counted = c;
    limited = l;
    moved = omega arith;
    busy = inr (ground arith);
    same_completed = refl;
    same_total = refl;
    same_waiters = refl;
    same_closed = refl;
  })
]

length-without :
    (jobs : List HashJob) (i : ℕ) (job : HashJob)
    → get_elem? jobs i ≡ some job
    → suc (length (without jobs i)) ≡ length jobs
length-without [] i job h = cc
length-without (j ∷ jobs) zero job h = refl
length-without (j ∷ jobs) (suc i) job h = omega (arith, length-without jobs i job h)

-- What the pump leaves, before the drains are looked at.
pub record IsSettled (pool : HashPool) : Type 0 where
  pub allowed : 0 < pool.concurrency
  pub counted : pool.in_flight ≡ length pool.running
  pub limited : pool.in_flight ≤ pool.concurrency
  pub total : pool.completed + pool.in_flight + length pool.queue ≡ pool.total_enqueued
  pub busy : (length pool.queue ≡ 0) ⊎ (pool.in_flight ≡ pool.concurrency)
  pub shut : (pool.drain_waiters ≡ 0) ⊎ (pool.closed ≡ true)

still_awaited :
    (pool : HashPool)
    → IsSettled pool
    → not pool.closed || is_pending pool ≡ true
    → (pool.drain_waiters ≡ 0) ⊎ (pool.completed < pool.total_enqueued)
still_awaited pool s p = elim s.shut [
  | inl none_waits ↦ inl none_waits
  | inr is_closed ↦ let t = s.total in inr (ground arith)
]

pub resolve-IsPooled : (pool : HashPool) → IsSettled pool → IsPooled (maybe_resolve_drain pool)
unfolding maybe_resolve_drain
resolve-IsPooled pool s = elim (Bool-cases (not pool.closed || is_pending pool)) [
  | inl p ↦ rw p (record {
    allowed = s.allowed;
    counted = s.counted;
    limited = s.limited;
    total = s.total;
    busy = s.busy;
    shut = s.shut;
    awaited = still_awaited pool s p;
  })
  | inr p ↦ rw p (record {
    allowed = s.allowed;
    counted = s.counted;
    limited = s.limited;
    total = s.total;
    busy = s.busy;
    shut = inl refl;
    awaited = inl refl;
  })
]

pump-IsSettled :
    (pool : HashPool)
    → 0 < pool.concurrency
    → pool.in_flight ≡ length pool.running
    → pool.in_flight ≤ pool.concurrency
    → pool.completed + pool.in_flight + length pool.queue ≡ pool.total_enqueued
    → (pool.drain_waiters ≡ 0) ⊎ (pool.closed ≡ true)
    → IsSettled (pump pool)
unfolding pump
pump-IsSettled pool a c l t w =
    let n = pump-IsPumped pool.queue pool a c l in
    record {
      allowed = n.allowed;
      counted = n.counted;
      limited = n.limited;
      total = omega (arith, n.same_completed, n.moved, n.same_total);
      busy = n.busy;
      shut = rw (n.same_waiters, n.same_closed) w;
    }

pub end-IsPooled :
    (i : ℕ) (digest : Result String) (pool : HashPool) (o : Option HashJob)
    → get_elem? pool.running i ≡ o
    → IsPooled pool
    → IsPooled (run_job_end i digest pool o)
unfolding run_job_end
end-IsPooled i digest pool none e p = p
end-IsPooled i digest pool (some job) e p =
    let fewer = length-without pool.running i job e in
    let c = p.counted in
    let l = p.limited in
    let t = p.total in
    resolve-IsPooled _ (pump-IsSettled _ p.allowed (omega arith) (omega arith) (omega arith) p.shut)
