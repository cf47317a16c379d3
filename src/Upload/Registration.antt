-- ===== src/Upload/Registration.antt =====
-- client/transfer/src/session/upload-registry.ts: the tokens of an upload are reserved with their
-- block hashes, and the registry's routes become endpoints and replica jobs. What hashing the blocks
-- comes to, the registry's answer to a reservation and the router's answer are parameters.
pub mod Coverage
pub mod Jobs
use c_stateless_relay_tran.Base.{
  ℕ, ◌==◌, Bool, true, false, not, if◌then◌else◌, String, Option, none, some, List, [], ◌∷◌, ◌++◌,
  map, length, Result, ok, err, error, ◌>>=◌, ◌>>◌, Thrown,
}
use c_stateless_relay_tran.Base.StringMap
use c_stateless_relay_tran.Base.StringMap.{StringMap}
use c_stateless_relay_tran.Base.Text.{concat, decimal}
use c_stateless_relay_tran.Registry.Records.{RelayEndpoint, RelayEndpointMap, RelayRegistryMap}
use c_stateless_relay_tran.Registry.Endpoints.{
  ReplicaUploadTarget, endpoints_from_registry_map, replica_targets_from_registry_map,
}
use c_stateless_relay_tran.Upload.Blocks.{UploadMap}

pub record BlockHashEntry : Type 0 where
  pub token : String
  pub block_hash : String

pub record UploadPlacementPlan : Type 0 where
  pub stripe_count : ℕ
  pub replica_factor : ℕ
  pub relay_count : ℕ
  pub ideal_relay_count : ℕ

-- ReserveUploadBlocksResult without its routes
pub record UploadReservationMeta : Type 0 where
  pub granted_ttl_seconds : ℕ
  pub requested_ttl_seconds : ℕ
  pub degraded : Bool
  pub placement_plan : Option UploadPlacementPlan

pub record ReserveUploadBlocksResult : Type 0 where
  pub routes : RelayRegistryMap
  pub meta : UploadReservationMeta

pub record UploadRoutePlan : Type 0 where
  pub primary_endpoints : RelayEndpointMap
  pub replicas : StringMap (List ReplicaUploadTarget)
  pub reservation : Option UploadReservationMeta

pub record ReplicaReplicationJob : Type 0 where
  pub token : String
  pub relay_id : String
  pub blob : List ℕ
  pub endpoint : RelayEndpoint

-- new Map(entries.map((entry) => [entry.token, entry.blockHash])), after a given map
unfoldable pub hashes_into : StringMap String → List BlockHashEntry → StringMap String
hashes_into hashes [] = hashes
hashes_into hashes (entry ∷ entries) =
    hashes_into (StringMap.set entry.token entry.block_hash hashes) entries

unfoldable pub check_hashes : StringMap String → List String → Result (Unit {0})
unfolding concat
check_hashes hashes [] = ok tt
check_hashes hashes (token ∷ tokens) =
    let rest = check_hashes hashes tokens in
    if StringMap.has token hashes
    then rest
    else err (error (concat ("missing block hash for token: " ∷ token ∷ [])))

unfoldable pub check_count : ℕ → ℕ → Result (Unit {0})
unfolding concat decimal
check_count expected got =
    if got == expected
    then ok tt
    else err (
        error (
          concat (
            "block hash count mismatch: expected "
            ∷ decimal expected
            ∷ ", got "
            ∷ decimal got
            ∷ [])))

-- precomputedBlockHashes ?? await computeUploadBlockHashesParallel(…)
abbrev pub entries_or :
    Option (List BlockHashEntry) → Result (List BlockHashEntry) → Result (List BlockHashEntry)
entries_or none hashed = hashed
entries_or (some entries) hashed = ok entries

abbrev pub Reserve : Type 0
Reserve = List BlockHashEntry → Option ℕ → Result ReserveUploadBlocksResult

unfoldable pub reserve_and_register_upload_blocks :
    UploadMap
    → Reserve
    → Option ℕ
    → Option (List BlockHashEntry)
    → Result (List BlockHashEntry)
    → Result UploadRoutePlan
unfolding check_hashes check_count hashes_into
reserve_and_register_upload_blocks uploads reserve ttl_seconds precomputed hashed =
    entries_or precomputed hashed >>= λ entries.
    check_count (length uploads) (length entries)
    >> (check_hashes (hashes_into [] entries) (StringMap.keys uploads)
        >> (reserve entries ttl_seconds >>= λ result.
            endpoints_from_registry_map result.routes >>= λ primary_endpoints. ok (record {
              primary_endpoints = primary_endpoints;
              replicas = replica_targets_from_registry_map result.routes;
              reservation = some result.meta;
            })))

-- Without a registry the router says where the blocks go.
unfoldable pub route_without_registry :
    UploadMap → (List String → Result RelayEndpointMap) → Result UploadRoutePlan
route_without_registry [] resolve_many =
    ok (record { primary_endpoints = []; replicas = []; reservation = none })
route_without_registry (entry ∷ uploads) resolve_many =
    resolve_many (StringMap.keys (entry ∷ uploads)) >>= λ endpoints.
    ok (record { primary_endpoints = endpoints; replicas = []; reservation = none })

unfoldable pub resolve_upload_endpoints :
    UploadMap
    → (List String → Result RelayEndpointMap)
    → Option Reserve
    → Option ℕ
    → Option (List BlockHashEntry)
    → Result (List BlockHashEntry)
    → Result UploadRoutePlan
unfolding reserve_and_register_upload_blocks route_without_registry
resolve_upload_endpoints uploads resolve_many (some reserve) ttl_seconds precomputed hashed =
    reserve_and_register_upload_blocks uploads reserve ttl_seconds precomputed hashed
resolve_upload_endpoints uploads resolve_many none ttl_seconds precomputed hashed =
    route_without_registry uploads resolve_many

abbrev pub replica_job : String → List ℕ → ReplicaUploadTarget → ReplicaReplicationJob
replica_job token blob target = record {
  token = token;
  relay_id = target.relay_id;
  blob = blob;
  endpoint = target.endpoint;
}

abbrev pub targets_of : Option (List ReplicaUploadTarget) → List ReplicaUploadTarget
targets_of none = []
targets_of (some targets) = targets

unfoldable pub collect_replica_jobs : UploadMap → UploadRoutePlan → List ReplicaReplicationJob
collect_replica_jobs [] plan = []
collect_replica_jobs ((token, blob) ∷ uploads) plan =
    map (replica_job token blob) (targets_of (StringMap.get token plan.replicas))
    ++ collect_replica_jobs uploads plan
