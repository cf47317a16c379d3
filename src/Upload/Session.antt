-- ===== src/Upload/Session.antt =====
-- uploadPrepared of client/transfer/src/session/upload-session.ts: the blocks are reserved, sent to
-- their primaries by the upload workers, and their replicas are begun. The route plan, the probe of
-- the protocol and what the workers come to are parameters.
pub mod Concurrency
use c_stateless_relay_tran.Base.{
  ℕ, min, ltb, ◌==◌, Bool, true, false, if◌then◌else◌, String, Option, none, some, List, [], ◌∷◌,
  length, Result, ok, err, error, ◌>>=◌, ◌>>◌,
}
use c_stateless_relay_tran.Base.StringMap
use c_stateless_relay_tran.Registry.Records.{RelayEndpoint, RelayEndpointMap}
use c_stateless_relay_tran.Policy.Environment.{Environment}
use c_stateless_relay_tran.Policy.WireBlock.{resolve_upload_uses_32_mib_wire_blocks}
use c_stateless_relay_tran.Resilience.Ramp.{
  RelayHopProtocol, h2, http1, unknown, is_h2, resolve_stripe_ramp_concurrency,
}
use c_stateless_relay_tran.Resilience.Retry.{default_put_transient_max_attempts}
use c_stateless_relay_tran.Upload.Blocks.{UploadMap}
use c_stateless_relay_tran.Upload.Registration.{
  UploadRoutePlan, UploadReservationMeta, ReplicaReplicationJob, collect_replica_jobs,
}
use c_stateless_relay_tran.Upload.Stripe.{Job}

abbrev pub default_put_max_attempts : ℕ
default_put_max_attempts = 3

abbrev pub default_browser_primary_put_concurrency : ℕ
default_browser_primary_put_concurrency = 6

abbrev pub default_browser_h2_primary_put_concurrency : ℕ
default_browser_h2_primary_put_concurrency = 12

-- The options that uploadPrepared reads itself; the replication policy has one value.
pub record UploadSessionOptions : Type 0 where
  pub concurrency : Option ℕ
  pub put_max_attempts : Option ℕ
  pub put_transient_max_attempts : Option ℕ
  pub stripe_ramp_concurrency : Option Bool
  pub wire_block_bytes : Option ℕ
  pub has_registry : Bool

-- o ?? k
abbrev pub or_number : Option ℕ → ℕ → ℕ
or_number none k = k
or_number (some n) k = n

unfoldable pub resolve_primary_put_concurrency : Environment → ℕ → Option ℕ → RelayHopProtocol → ℕ
resolve_primary_put_concurrency env total explicit hop_protocol = elim explicit [
  | some n ↦ n
  | none ↦
      if env.has_window
      then min total (
          if is_h2 hop_protocol
          then default_browser_h2_primary_put_concurrency
          else default_browser_primary_put_concurrency)
      else total
]

unfoldable pub first_primary_endpoint_url : RelayEndpointMap → Option String
first_primary_endpoint_url [] = none
first_primary_endpoint_url ((_, endpoint) ∷ endpoints) = some endpoint.url

hop_protocol_of : (String → RelayHopProtocol) → Option String → RelayHopProtocol
hop_protocol_of probe none = unknown
hop_protocol_of probe (some sample_url) = probe sample_url

-- routePlan.reservation?.placementPlan?.relayCount
relay_count_of : Option UploadReservationMeta → Option ℕ
relay_count_of none = none
relay_count_of (some meta) = elim meta.placement_plan [
  | none ↦ none
  | some plan ↦ some plan.relay_count
]

-- The arguments of uploadStripePrimaryBlocks.
unfoldable pub stripe_job :
    Environment → UploadMap → UploadSessionOptions → UploadRoutePlan → RelayHopProtocol → Job
unfolding resolve_primary_put_concurrency relay_count_of resolve_upload_uses_32_mib_wire_blocks
stripe_job env uploads options plan hop_protocol = record {
  entries = uploads;
  primary_endpoints = plan.primary_endpoints;
  max_concurrency =
      resolve_primary_put_concurrency env (length uploads) options.concurrency hop_protocol;
  ramp_concurrency = resolve_stripe_ramp_concurrency (record {
    relay_count = relay_count_of plan.reservation;
    explicit = options.stripe_ramp_concurrency;
    hop_protocol = hop_protocol;
    uses_32_mib_wire_blocks =
        resolve_upload_uses_32_mib_wire_blocks uploads options.wire_block_bytes;
    is_browser = env.has_window;
  });
  put_transient_max_attempts =
      or_number options.put_transient_max_attempts default_put_transient_max_attempts;
}

-- The replica jobs that were begun, if any, and the terms of the reservation.
pub record UploadPreparedResult : Type 0 where
  pub replica_sync : Option (List ReplicaReplicationJob)
  pub reservation : Option UploadReservationMeta

begun : Bool → List ReplicaReplicationJob → Option (List ReplicaReplicationJob)
begun has_registry [] = none
begun false (job ∷ jobs) = none
begun true (job ∷ jobs) = some (job ∷ jobs)

unfoldable pub upload_prepared :
    Environment
    → UploadMap
    → UploadSessionOptions
    → Result UploadRoutePlan
    → (String → RelayHopProtocol)
    → (Job → Result (Unit {0}))
    → Result UploadPreparedResult
unfolding stripe_job hop_protocol_of first_primary_endpoint_url begun
upload_prepared env uploads options resolved probe send =
    if length uploads == 0
    then ok (record { replica_sync = none; reservation = none })
    else if or_number options.put_max_attempts default_put_max_attempts == 0
    then err (error "putMaxAttempts must be greater than zero")
    else (resolved >>= λ plan.
        let hop_protocol =
          hop_protocol_of probe (first_primary_endpoint_url plan.primary_endpoints) in
        send (stripe_job env uploads options plan hop_protocol)
        >> ok (record {
          replica_sync = begun options.has_registry (collect_replica_jobs uploads plan);
          reservation = plan.reservation;
        }))
