-- ===== src/Tests/Pools.antt =====
-- The hash pool on two blocks, and the plan of a download.
use c_stateless_relay_tran.Base.{ℕ, ◌≡◌, ◌⊎◌, refl, String, List, [], ◌∷◌, ◌++◌, ok, arith}
use c_stateless_relay_tran.Base.Text.{decimal}
use c_stateless_relay_tran.Download.Plan.{
  ReceiveDownloadPlan, tokens_from, compute_receive_download_plan,
}
use c_stateless_relay_tran.Download.Plan.Partition.{plan-partition}
use c_stateless_relay_tran.Upload.Hashing.{
  HashJob, fresh_pool, PoolEvent, enqueues, ends, drains, pool_run, new_pool,
}
use c_stateless_relay_tran.Upload.Hashing.Pumping.{IsPooled}
use c_stateless_relay_tran.Upload.Hashing.Progress.{new-IsPooled, drain_completes}

abbrev token_of : ℕ → String
token_of index = decimal index

plan-partition_example :
    (plan : ReceiveDownloadPlan) × (compute_receive_download_plan token_of 2 5 ≡ ok plan)
    × (plan.initial_prefetch ≡ tokens_from token_of 0 2)
    × (plan.initial_prefetch ++ plan.fetch_after_smb
        ≡ tokens_from token_of 0 5 ++ plan.cancel_after_smb)
    × ((plan.fetch_after_smb ≡ []) ⊎ (plan.cancel_after_smb ≡ []))
plan-partition_example = plan-partition token_of 2 5 (omega arith)

abbrev block : String → HashJob
block token = record { token = token; data_bytes = 1 ∷ [] }

abbrev one_at_a_time : List PoolEvent
one_at_a_time =
    enqueues (block "a") ∷ enqueues (block "b") ∷ drains ∷ ends 0 (ok "h1") ∷ ends 0 (ok "h2") ∷ []

fresh_one-IsPooled : IsPooled (fresh_pool 1)
unfolding new_pool
fresh_one-IsPooled = new-IsPooled 1 (fresh_pool 1) refl

drain_completes_example :
    ((pool_run (fresh_pool 1) one_at_a_time).completed
      ≡ (pool_run (fresh_pool 1) one_at_a_time).total_enqueued)
    × ((pool_run (fresh_pool 1) one_at_a_time).queue ≡ [])
    × ((pool_run (fresh_pool 1) one_at_a_time).drain_waiters ≡ 0)
unfolding new_pool pool_run
drain_completes_example = drain_completes 1 (fresh_pool 1) one_at_a_time refl refl
