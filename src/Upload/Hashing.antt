-- ===== src/Upload/Hashing.antt =====
-- BlockHashPool of client/transfer/src/protocol/block-hash-pool.ts: blocks are hashed as they come,
-- so many at a time. A hash that is under way ends in an event, with the digest or a failure; the
-- digest itself is the platform's.
pub mod Pumping
pub mod Progress
use c_stateless_relay_tran.Base.{
  ℕ, zero, suc, ◌+◌, ◌-◌, ltb, ◌||◌, ◌&&◌, not, Bool, true, false, if◌then◌else◌, ◌==◌, String,
  Option, none, some, List, [], ◌∷◌, ◌++◌, length, get_elem?, Result, ok, err, error, Thrown,
}
use c_stateless_relay_tran.Base.StringMap
use c_stateless_relay_tran.Base.StringMap.{StringMap}

abbrev pub default_block_hash_concurrency : ℕ
default_block_hash_concurrency = 12

pub record HashJob : Type 0 where
  pub token : String
  pub data_bytes : List ℕ

pub record HashPool : Type 0 where
  pub concurrency : ℕ
  pub results : StringMap String
  pub queue : List HashJob
  -- the jobs under way; the source counts them
  pub running : List HashJob
  pub in_flight : ℕ
  pub completed : ℕ
  pub total_enqueued : ℕ
  -- the drains that wait, and those that may go on
  pub drain_waiters : ℕ
  pub drained : ℕ
  pub closed : Bool
  -- the calls of onProgress
  pub progress : List (ℕ × ℕ)

abbrev pub fresh_pool : ℕ → HashPool
fresh_pool concurrency = record {
  concurrency = concurrency;
  results = [];
  queue = [];
  running = [];
  in_flight = 0;
  completed = 0;
  total_enqueued = 0;
  drain_waiters = 0;
  drained = 0;
  closed = false;
  progress = [];
}

unfoldable pub new_pool : ℕ → Result HashPool
new_pool concurrency =
    if concurrency == 0
    then err (error "block hash concurrency must be greater than zero")
    else ok (fresh_pool concurrency)

-- The loop of pump, on the queue.
unfoldable pub pump_from : List HashJob → HashPool → HashPool
pump_from [] pool = record pool { queue = [] }
pump_from (job ∷ jobs) pool =
    let rest = pump_from jobs (record pool {
      queue = jobs;
      in_flight = suc pool.in_flight;
      running = pool.running ++ job ∷ [];
    }) in
    if ltb pool.in_flight pool.concurrency then rest else record pool { queue = job ∷ jobs }

unfoldable pub pump : HashPool → HashPool
unfolding pump_from
pump pool = pump_from pool.queue pool

abbrev pub is_pending : HashPool → Bool
is_pending pool = ltb pool.completed pool.total_enqueued || ltb 0 pool.in_flight

unfoldable pub maybe_resolve_drain : HashPool → HashPool
maybe_resolve_drain pool =
    if not pool.closed || is_pending pool
    then pool
    else record pool { drain_waiters = 0; drained = pool.drained + pool.drain_waiters }

unfoldable pub enqueue : HashJob → HashPool → Result HashPool
unfolding pump
enqueue job pool =
    if pool.closed
    then err (error "block hash pool is closed")
    else ok (
        pump (record pool {
          total_enqueued = suc pool.total_enqueued;
          queue = pool.queue ++ job ∷ [];
        }))

unfoldable pub close : HashPool → HashPool
unfolding maybe_resolve_drain
close pool = maybe_resolve_drain (record pool { closed = true })

-- drain, up to its await.
unfoldable pub drain : HashPool → HashPool
unfolding close
drain pool =
    let closing = close pool in
    if is_pending closing
    then record closing { drain_waiters = suc closing.drain_waiters }
    else record closing { drained = suc closing.drained }

abbrev pub without : List HashJob → ℕ → List HashJob
without [] i = []
without (job ∷ jobs) zero = jobs
without (job ∷ jobs) (suc i) = job ∷ without jobs i

abbrev pub with_hash : HashJob → Result String → StringMap String → StringMap String
with_hash job (ok block_hash) results = StringMap.set job.token block_hash results
with_hash job (err e) results = results

-- The rest of runJob, when the digest of the i-th job under way has come or failed.
unfoldable pub run_job_end : ℕ → Result String → HashPool → Option HashJob → HashPool
unfolding pump maybe_resolve_drain
run_job_end i digest pool none = pool
run_job_end i digest pool (some job) = maybe_resolve_drain (
    pump (record pool {
      results = with_hash job digest pool.results;
      running = without pool.running i;
      in_flight = pool.in_flight - 1;
      completed = suc pool.completed;
      progress = pool.progress ++ (suc pool.completed, pool.total_enqueued) ∷ [];
    }))

pub data PoolEvent : Type 0 where
  enqueues : HashJob → PoolEvent
  ends : ℕ → Result String → PoolEvent
  drains : PoolEvent

-- An enqueue that throws leaves the pool as it is.
abbrev pub or_same : HashPool → Result HashPool → HashPool
or_same pool (ok next) = next
or_same pool (err e) = pool

unfoldable pub pool_step : HashPool → PoolEvent → HashPool
unfolding enqueue run_job_end drain
pool_step pool (enqueues job) = or_same pool (enqueue job pool)
pool_step pool (ends i digest) = run_job_end i digest pool (get_elem? pool.running i)
pool_step pool drains = drain pool

unfoldable pub pool_run : HashPool → List PoolEvent → HashPool
unfolding pool_step
pool_run pool [] = pool
pool_run pool (e ∷ es) = pool_run (pool_step pool e) es
