-- ===== src/Tests/Sessions.antt =====
-- A reservation of one block, its replica, and the concurrency of an upload.
use c_stateless_relay_tran.Base.{
  ℕ, ◌≡◌, ◌≢◌, refl, true, false, Option, none, some, List, [], ◌∷◌, length, Result, ok, err, error,
  arith, All,
}
use c_stateless_relay_tran.Base.StringMap
use c_stateless_relay_tran.Registry.Records.{
  primary, replica, RelayRegistryRecord, RelayRegistryMap, RelayEndpoint,
}
use c_stateless_relay_tran.Registry.Endpoints.{
  endpoints_from_registry_map, endpoint_from_registry_record, replica_targets_from_registry_map,
}
use c_stateless_relay_tran.Policy.Environment.{Environment}
use c_stateless_relay_tran.Resilience.Ramp.{unknown}
use c_stateless_relay_tran.Upload.Blocks.{UploadMap}
use c_stateless_relay_tran.Upload.Registration.{
  BlockHashEntry, UploadReservationMeta, UploadRoutePlan, ReplicaReplicationJob, Reserve,
  reserve_and_register_upload_blocks, entries_or, collect_replica_jobs,
}
use c_stateless_relay_tran.Upload.Registration.Coverage.{IsReserved, reserve-IsReserved}
use c_stateless_relay_tran.Upload.Registration.Jobs.{
  AllCopied, IsPlanned, replica_count, collect-AllCopied,
}
use c_stateless_relay_tran.Upload.Replication.{start_replication, replication_run}
use c_stateless_relay_tran.Upload.Replication.Settled.{Settles, replication_done}
use c_stateless_relay_tran.Upload.Session.{UploadSessionOptions, stripe_job}
use c_stateless_relay_tran.Upload.Session.Concurrency.{upload_sends_all}
use c_stateless_relay_tran.Upload.Stripe.{Job, Event, goes_on, resolves, run, start}
use c_stateless_relay_tran.Upload.Stripe.Order.{upto}

abbrev routes : RelayRegistryMap
routes =
    (
      "t",
      record {
        targets =
            record { role = primary; relay_id = "r1"; relay_base_url = "https://a" }
            ∷ record { role = replica; relay_id = "r2"; relay_base_url = "https://b" }
            ∷ [];
        headers = none;
        resolve_status = none;
      },
    )
    ∷ []

abbrev terms : UploadReservationMeta
terms = record {
  granted_ttl_seconds = 60;
  requested_ttl_seconds = 60;
  degraded = false;
  placement_plan = none;
}

abbrev one_block : UploadMap
one_block = ("t", 1 ∷ 2 ∷ []) ∷ []

abbrev one_hash : List BlockHashEntry
one_hash = record { token = "t"; block_hash = "h" } ∷ []

abbrev granting : Reserve
granting entries ttl_seconds = ok (record { routes = routes; meta = terms })

abbrev primary_endpoint : RelayEndpoint
primary_endpoint = record { url = "https://a/t"; headers = some []; fallbacks = none }

abbrev route_plan : UploadRoutePlan
route_plan = record {
  primary_endpoints = ("t", primary_endpoint) ∷ [];
  replicas =
      (
        "t",
        record {
          relay_id = "r2";
          endpoint = record { url = "https://b/t"; headers = none; fallbacks = none };
        }
            ∷ [],
      )
      ∷ [];
  reservation = some terms;
}

reserve-IsReserved_example :
    (entries : List BlockHashEntry) × (entries_or (some one_hash) (err (error "not hashed"))
      ≡ ok entries)
    × IsReserved one_block granting none entries route_plan
unfolding reserve_and_register_upload_blocks StringMap.keys StringMap.has StringMap.set
    endpoints_from_registry_map endpoint_from_registry_record
    c_stateless_relay_tran.Registry.Records.find_primary
    c_stateless_relay_tran.Registry.Endpoints.endpoint_from_base replica_targets_from_registry_map
    c_stateless_relay_tran.Registry.Endpoints.merge_headers
reserve-IsReserved_example =
    reserve-IsReserved one_block granting none (some one_hash) (err (error "not hashed")) route_plan
      refl

collect-AllCopied_example :
    AllCopied route_plan (collect_replica_jobs one_block route_plan) one_block
    × All (IsPlanned one_block route_plan) (collect_replica_jobs one_block route_plan)
    × (length (collect_replica_jobs one_block route_plan) ≡ replica_count one_block route_plan)
collect-AllCopied_example = collect-AllCopied one_block route_plan

abbrev one_job : List ReplicaReplicationJob
one_job =
    record {
      token = "t";
      relay_id = "r2";
      blob = 1 ∷ 2 ∷ [];
      endpoint = record { url = "https://b/t"; headers = none; fallbacks = none };
    }
    ∷ []

abbrev refused : List (ℕ × Result (Unit {0}))
refused = (0, err (error "HTTP 500")) ∷ []

replication_done_example :
    ((replication_run one_job (start_replication one_job 4) refused).puts ≡ upto 1)
    × Settles one_job
        (replication_run one_job (start_replication one_job 4) refused).delivered
        (replication_run one_job (start_replication one_job 4) refused).failures
        []
        1
unfolding replication_run start_replication
replication_done_example = replication_done one_job 4 refused (omega arith) refl

abbrev no_browser : Environment
no_browser = record { has_window = false; navigator = none }

abbrev with_concurrency : Option ℕ → UploadSessionOptions
with_concurrency concurrency = record {
  concurrency = concurrency;
  put_max_attempts = none;
  put_transient_max_attempts = none;
  stripe_ramp_concurrency = none;
  wire_block_bytes = none;
  has_registry = true;
}

abbrev job_with : Option ℕ → Job
job_with concurrency =
    stripe_job no_browser one_block (with_concurrency concurrency) route_plan unknown

not_zero : (with_concurrency none).concurrency ≢ some 0
not_zero h = ground arith

abbrev sent : List Event
sent = goes_on 0 ∷ resolves 0 ∷ goes_on 0 ∷ []

upload_sends_all_example :
    ((run (job_with none) (start (job_with none)) sent).completed ≡ 1)
    × ((run (job_with none) (start (job_with none)) sent).completed_bytes ≡ 2)
unfolding run start stripe_job StringMap.get
    c_stateless_relay_tran.Upload.Session.resolve_primary_put_concurrency
    c_stateless_relay_tran.Resilience.Ramp.resolve_stripe_ramp_concurrency
    c_stateless_relay_tran.Policy.WireBlock.resolve_upload_uses_32_mib_wire_blocks
    c_stateless_relay_tran.Policy.WireBlock.upload_map_uses_32_mib_wire_blocks
upload_sends_all_example =
    upload_sends_all no_browser one_block (with_concurrency none) route_plan unknown sent
      (omega arith) not_zero refl
