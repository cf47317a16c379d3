-- ===== src/Registry/Endpoints.antt =====
-- client/transfer/src/router/endpoints-from-registry.ts: from a registry record to the endpoints of
-- uploads, of replicas and of downloads.
use c_stateless_relay_tran.Base.{
  String, Option, none, some, List, [], ◌∷◌, map, Result, ok, err, error, ◌>>=◌,
}
use c_stateless_relay_tran.Base.StringMap
use c_stateless_relay_tran.Base.StringMap.{StringMap}
use c_stateless_relay_tran.Base.Text.{concat}
use c_stateless_relay_tran.Base.Uri.{strip_slash, encode_uri_component}
use c_stateless_relay_tran.Registry.Records.{
  primary, replica, RelayTargetRecord, Headers, RelayRegistryRecord, Target, RelayEndpoint,
  RelayRegistryMap, RelayEndpointMap, find_primary,
}

unfoldable pub endpoint_from_base : String → String → Option Headers → Target
unfolding concat strip_slash encode_uri_component
endpoint_from_base relay_base_url token headers = record {
  url = concat (strip_slash relay_base_url ∷ "/" ∷ encode_uri_component token ∷ []);
  headers = headers;
}

abbrev pub as_endpoint : Target → Option (List Target) → RelayEndpoint
as_endpoint target fallbacks = record {
  url = target.url;
  headers = target.headers;
  fallbacks = fallbacks;
}

-- The spread `...o` of an object, or of undefined, into another.
spread : Headers → Headers → Headers
spread into [] = into
spread into ((k, v) ∷ rest) = spread (StringMap.set k v into) rest

abbrev headers_of : Option Headers → Headers
headers_of none = []
headers_of (some h) = h

-- { ...record.headers, ...headers }
unfoldable pub merge_headers : Option Headers → Option Headers → Headers
unfolding spread
merge_headers first second = spread (headers_of first) (headers_of second)

pub record ReplicaUploadTarget : Type 0 where
  pub relay_id : String
  pub endpoint : RelayEndpoint

unfoldable pub endpoint_from_registry_record :
    String → RelayRegistryRecord → Option Headers → Result RelayEndpoint
unfolding concat
endpoint_from_registry_record token rec headers = elim (find_primary rec.targets) [
  | none ↦ err (error (concat ("registry record for " ∷ token ∷ " missing primary target" ∷ [])))
  | some target ↦ ok (
      as_endpoint
        (endpoint_from_base target.relay_base_url token (some (merge_headers rec.headers headers)))
        none)
]

abbrev pub target_endpoint : String → Option Headers → RelayTargetRecord → Target
target_endpoint token headers target = endpoint_from_base target.relay_base_url token headers

download_endpoint : String → Option Headers → List RelayTargetRecord → Result RelayEndpoint
unfolding concat
download_endpoint token headers [] =
    err (error (concat ("registry record for " ∷ token ∷ " has no download targets" ∷ [])))
download_endpoint token headers (preferred ∷ rest) = ok (
    as_endpoint (target_endpoint token headers preferred)
      (some (map (target_endpoint token headers) rest)))

unfoldable pub download_endpoint_from_registry_record :
    String → RelayRegistryRecord → Option Headers → Result RelayEndpoint
unfolding download_endpoint
download_endpoint_from_registry_record token rec headers =
    download_endpoint token (some (merge_headers rec.headers headers)) rec.targets

-- The loop of endpointsFromRegistryMap: the first record without a primary target throws.
endpoints_into : RelayEndpointMap → RelayRegistryMap → Result RelayEndpointMap
endpoints_into endpoints [] = ok endpoints
endpoints_into endpoints ((token, rec) ∷ routes) =
    endpoint_from_registry_record token rec none >>= λ endpoint.
    endpoints_into (StringMap.set token endpoint endpoints) routes

unfoldable pub endpoints_from_registry_map : RelayRegistryMap → Result RelayEndpointMap
unfolding endpoints_into
endpoints_from_registry_map routes = endpoints_into [] routes

-- targets.filter((target) => target.role === 'replica')
unfoldable pub replica_targets : List RelayTargetRecord → List RelayTargetRecord
replica_targets [] = []
replica_targets (target ∷ targets) =
    let rest = replica_targets targets in
    elim target.role [ primary ↦ rest | replica ↦ target ∷ rest ]

abbrev pub replica_upload_target : String → Option Headers → RelayTargetRecord → ReplicaUploadTarget
replica_upload_target token headers target = record {
  relay_id = target.relay_id;
  endpoint = as_endpoint (endpoint_from_base target.relay_base_url token headers) none;
}

abbrev set_targets :
    String
    → List ReplicaUploadTarget
    → StringMap (List ReplicaUploadTarget)
    → StringMap (List ReplicaUploadTarget)
set_targets token [] replicas = replicas
set_targets token (target ∷ targets) replicas = StringMap.set token (target ∷ targets) replicas

replicas_into :
    StringMap (List ReplicaUploadTarget) → RelayRegistryMap → StringMap (List ReplicaUploadTarget)
unfolding replica_targets
replicas_into replicas [] = replicas
replicas_into replicas ((token, rec) ∷ routes) =
    replicas_into
      (set_targets token
        (map (replica_upload_target token rec.headers) (replica_targets rec.targets)) replicas)
      routes

unfoldable pub replica_targets_from_registry_map :
    RelayRegistryMap → StringMap (List ReplicaUploadTarget)
unfolding replicas_into
replica_targets_from_registry_map routes = replicas_into [] routes
