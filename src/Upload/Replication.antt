-- ===== src/Upload/Replication.antt =====
-- runAsyncReplicaReplication of client/transfer/src/session/replica-replication.ts: workers copy the
-- blocks to the replicas; what cannot be copied is abandoned in one call. A worker runs from the end
-- of its PUT to the start of its next one without a pause, so an event is the end of one PUT.
pub mod Attempts
pub mod Settled
use c_stateless_relay_tran.Base.{
  ℕ, zero, suc, ◌+◌, min, ltb, Bool, true, false, if◌then◌else◌, String, Option, none, some, List,
  [], ◌∷◌, ◌++◌, length, get_elem?, Result, ok, err,
}
use c_stateless_relay_tran.Upload.Registration.{ReplicaReplicationJob}

pub record ReplicaReplicationFailure : Type 0 where
  pub token : String
  pub relay_id : String

-- `busy` has, for each worker that has not returned, the index of the job that it sends.
pub record Replication : Type 0 where
  pub busy : List ℕ
  pub next_index : ℕ
  pub failures : List ReplicaReplicationFailure
  -- the jobs that were delivered, and the PUTs that were begun, by their index
  pub delivered : List ℕ
  pub puts : List ℕ

-- The workers take their first jobs one after the other.
unfoldable pub start_from : ℕ → Replication → Replication
start_from zero r = r
start_from (suc n) r = start_from n (record r {
  busy = r.busy ++ r.next_index ∷ [];
  next_index = suc r.next_index;
  puts = r.puts ++ r.next_index ∷ [];
})

abbrev pub not_begun : Replication
not_begun = record { busy = []; next_index = 0; failures = []; delivered = []; puts = [] }

unfoldable pub start_replication : List ReplicaReplicationJob → ℕ → Replication
unfolding start_from
start_replication jobs concurrency = start_from (min concurrency (length jobs)) not_begun

abbrev pub without_worker : List ℕ → ℕ → List ℕ
without_worker [] k = []
without_worker (i ∷ busy) zero = busy
without_worker (i ∷ busy) (suc k) = i ∷ without_worker busy k

abbrev pub with_job : List ℕ → ℕ → ℕ → List ℕ
with_job [] k next = []
with_job (i ∷ busy) zero next = next ∷ busy
with_job (i ∷ busy) (suc k) next = i ∷ with_job busy k next

-- The worker goes on with the next job, or returns.
unfoldable pub next_job : List ReplicaReplicationJob → ℕ → Replication → Replication
next_job jobs k r =
    if ltb r.next_index (length jobs)
    then record r {
      busy = with_job r.busy k r.next_index;
      next_index = suc r.next_index;
      puts = r.puts ++ r.next_index ∷ [];
    }
    else record r { busy = without_worker r.busy k }

-- putWithRetry resolved or threw.
unfoldable pub settle_job :
    ReplicaReplicationJob → ℕ → Result (Unit {0}) → Replication → Replication
settle_job job i (ok _) r = record r { delivered = r.delivered ++ i ∷ [] }
settle_job job i (err e) r = record r {
  failures = r.failures ++ record { token = job.token; relay_id = job.relay_id } ∷ [];
}

unfoldable pub settle_index :
    ℕ → Result (Unit {0}) → Replication → Option ReplicaReplicationJob → Replication
unfolding settle_job
settle_index i outcome r none = r
settle_index i outcome r (some job) = settle_job job i outcome r

unfoldable pub end_put :
    List ReplicaReplicationJob → ℕ → Result (Unit {0}) → Replication → Option ℕ → Replication
unfolding next_job settle_index
end_put jobs k outcome r none = r
end_put jobs k outcome r (some i) = next_job jobs k (settle_index i outcome r (get_elem? jobs i))

-- The end of the PUT of the k-th worker.
unfoldable pub replication_step :
    List ReplicaReplicationJob → Replication → ℕ × Result (Unit {0}) → Replication
unfolding end_put
replication_step jobs r (k, outcome) = end_put jobs k outcome r (get_elem? r.busy k)

unfoldable pub replication_run :
    List ReplicaReplicationJob → Replication → List (ℕ × Result (Unit {0})) → Replication
unfolding replication_step
replication_run jobs r [] = r
replication_run jobs r (e ∷ es) = replication_run jobs (replication_step jobs r e) es

-- The call of abandonReplicaPlacements after Promise.all, if there is one.
unfoldable pub abandoned : Replication → Option (List ReplicaReplicationFailure)
abandoned r = elim r.failures [ [] ↦ none | failure ∷ failures ↦ some (failure ∷ failures) ]
