-- ===== src/Registry/HttpClient.antt =====
-- HttpRegistryClient of client/transfer/src/router/registry-client.ts. The parameter `fetch` says what a
-- request comes to, and `string_of` how a header's value is sent.
pub mod Batches
use c_stateless_relay_tran.Base.{
  ℕ, ltb, leb, ◌&&◌, ◌==◌, Bool, false, if◌then◌else◌, String, Option, none, some, List, [], ◌∷◌,
  Result, ok, err, error, tokens_occupied, ◌>>=◌,
}
use c_stateless_relay_tran.Base.StringMap
use c_stateless_relay_tran.Base.StringMap.{StringMap}
use c_stateless_relay_tran.Base.StringSet.{unique}
use c_stateless_relay_tran.Base.Text.{concat, decimal}
use c_stateless_relay_tran.Base.Uri.{strip_slash}
use c_stateless_relay_tran.Registry.Json.{
  Json, number, chars, array, object, Items, no_items, item, Fields, no_fields, field, fields,
  property, as_text,
}
use c_stateless_relay_tran.Registry.Records.{Headers, RelayRegistryMap}
use c_stateless_relay_tran.Registry.Endpoints.{merge_headers}
use c_stateless_relay_tran.Registry.Response.{default_parse_response}
use c_stateless_relay_tran.Registry.Response.Reservation.{
  parse_reserve_upload_response, parse_occupied_tokens,
}
use c_stateless_relay_tran.Upload.Registration.{
  BlockHashEntry, ReserveUploadBlocksResult, hashes_into,
}

pub record HttpRegistryClientOptions : Type 0 where
  pub registry_base_url : String
  pub headers : Option Headers
  pub resolve_url : Option (String → String)
  pub build_resolve_request_body : Option (List String → Json)
  pub parse_response : Option (Json → List String → Result RelayRegistryMap)

-- A POST with a JSON body.
pub record Post : Type 0 where
  pub url : String
  pub headers : Headers
  pub body : Json

pub record HttpResponse : Type 0 where
  pub status : ℕ
  -- response.json()
  pub json : Result Json

-- response.ok
abbrev pub is_ok : HttpResponse → Bool
is_ok response = leb 200 response.status && ltb response.status 300

unfoldable pub default_resolve_url : String → String
unfolding concat strip_slash
default_resolve_url registry_base_url =
    concat (strip_slash registry_base_url ∷ "/api/relay/resolve" ∷ [])

abbrev texts : List String → Items
texts [] = no_items
texts (s ∷ rest) = item (chars s) (texts rest)

unfoldable pub default_build_resolve_request_body : List String → Json
default_build_resolve_request_body tokens = object (fields (("tokens", array (texts tokens)) ∷ []))

-- option ?? value
abbrev given_or {ℓ} : {A : Type ℓ} → A → Option A → A
given_or value none = value
given_or value (some given) = given

json_headers : Option Headers → Headers
unfolding merge_headers
json_headers headers = merge_headers (some (("Content-Type", "application/json") ∷ [])) headers

-- `: ${detail}` of an error's body; a body that is no JSON has none.
detail_of : Result Json → String
unfolding concat property
detail_of (err e) = ""
detail_of (ok body) = elim (as_text (property "detail" body)) [
  | none ↦ ""
  | some detail ↦ concat (": " ∷ detail ∷ [])
]

failed_status : String → HttpResponse → String → String
unfolding concat decimal
failed_status what response detail =
    concat ("registry " ∷ what ∷ " failed: HTTP " ∷ decimal response.status ∷ detail ∷ [])

abbrev block_items : StringMap String → Items
block_items [] = no_items
block_items ((token, block_hash) ∷ rest) =
    item (object (fields (("token", chars token) ∷ ("blockHash", chars block_hash) ∷ [])))
      (block_items rest)

abbrev ttl_fields : Option ℕ → Fields
ttl_fields none = no_fields
ttl_fields (some ttl) = field "ttlSeconds" (number ttl) no_fields

pub record ReplicaPlacementFailure : Type 0 where
  pub token : String
  pub relay_id : String

abbrev failure_items : List ReplicaPlacementFailure → Items
failure_items [] = no_items
failure_items (failure ∷ rest) =
    item
      (object (fields (("token", chars failure.token) ∷ ("relayId", chars failure.relay_id) ∷ [])))
      (failure_items rest)

module _ (string_of : Json → String) (fetch : Post → Result HttpResponse)
    (options : HttpRegistryClientOptions) where
  unfoldable pub parse_lookup : List String → HttpResponse → Result RelayRegistryMap
  unfolding default_parse_response failed_status detail_of
  parse_lookup tokens response =
      if is_ok response
      then (response.json >>= λ body.
          given_or (default_parse_response string_of) options.parse_response body tokens)
      else err (error (failed_status "batch lookup" response (detail_of response.json)))

  unfoldable pub lookup_request : List String → Post
  unfolding default_resolve_url default_build_resolve_request_body json_headers
  lookup_request tokens = record {
    url = given_or default_resolve_url options.resolve_url options.registry_base_url;
    headers = json_headers options.headers;
    body = given_or default_build_resolve_request_body options.build_resolve_request_body tokens;
  }

  unfoldable pub lookup_distinct : List String → Result RelayRegistryMap
  unfolding parse_lookup lookup_request
  lookup_distinct [] = ok []
  lookup_distinct (token ∷ tokens) =
      fetch (lookup_request (token ∷ tokens)) >>= parse_lookup (token ∷ tokens)

  -- HttpRegistryClient.lookupRelays
  unfoldable pub http_lookup_relays : List String → Result RelayRegistryMap
  unfolding lookup_distinct
  http_lookup_relays tokens = lookup_distinct (unique tokens)

  api_url : String → String
  unfolding concat strip_slash
  api_url path = concat (strip_slash options.registry_base_url ∷ path ∷ [])

  unfoldable pub parse_reservation :
      StringMap String → Option ℕ → HttpResponse → Result ReserveUploadBlocksResult
  unfolding parse_reserve_upload_response parse_occupied_tokens failed_status
  parse_reservation hashes ttl response =
      if response.status == 409
      then (response.json >>= λ body. err (tokens_occupied (parse_occupied_tokens body)))
      else if is_ok response
      then (response.json >>= λ body.
          parse_reserve_upload_response string_of body (StringMap.keys hashes) ttl)
      else err (error (failed_status "reserve-tokens" response ""))

  -- HttpRegistryClient.reserveUploadBlocks
  unfoldable pub reserve_upload_blocks :
      List BlockHashEntry → Option ℕ → Result ReserveUploadBlocksResult
  unfolding parse_reservation api_url json_headers hashes_into
  reserve_upload_blocks [] ttl = ok (record {
    routes = [];
    meta = record {
      granted_ttl_seconds = given_or 0 ttl;
      requested_ttl_seconds = given_or 0 ttl;
      degraded = false;
      placement_plan = none;
    };
  })
  reserve_upload_blocks (entry ∷ entries) ttl =
      let hashes = hashes_into [] (entry ∷ entries) in
      fetch (record {
        url = api_url "/api/relay/reserve-tokens";
        headers = json_headers options.headers;
        body = object (field "blocks" (array (block_items hashes)) (ttl_fields ttl));
      })
      >>= parse_reservation hashes ttl

  check_abandoned : HttpResponse → Result (Unit {0})
  unfolding failed_status
  check_abandoned response =
      if is_ok response
      then ok tt
      else err (error (failed_status "abandon-replica-placements" response ""))

  -- HttpRegistryClient.abandonReplicaPlacements
  unfoldable pub abandon_replica_placements : List ReplicaPlacementFailure → Result (Unit {0})
  unfolding check_abandoned api_url json_headers
  abandon_replica_placements [] = ok tt
  abandon_replica_placements (failure ∷ failures) =
      fetch (record {
        url = api_url "/api/relay/abandon-replica-placements";
        headers = json_headers options.headers;
        body = object (fields (("failures", array (failure_items (failure ∷ failures))) ∷ []));
      })
      >>= check_abandoned
