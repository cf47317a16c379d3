-- ===== src/Registry/Router.antt =====
-- client/transfer/src/router/relay-router.ts: the routers of uploads and downloads. What the
-- registry answers to `lookupRelays` is an argument.
pub mod Resolution
use c_stateless_relay_tran.Base.{
  ℕ, String, Bool, true, false, if◌then◌else◌, Option, none, some, List, [], ◌∷◌, Result, Thrown,
  ok, err, error, placement_expired, ◌>>=◌,
}
use c_stateless_relay_tran.Base.StringMap
use c_stateless_relay_tran.Base.Text.{concat}
use c_stateless_relay_tran.Base.StringSet.{unique}
use c_stateless_relay_tran.Registry.Records.{
  RelayResolveStatus, expired, RelayRegistryRecord, RelayRegistryMap, RelayEndpoint,
  RelayEndpointMap, Headers, is_resolvable_registry_record,
}
use c_stateless_relay_tran.Registry.Endpoints.{
  endpoint_from_base, as_endpoint, download_endpoint_from_registry_record,
}

-- StaticRelayRouter.resolveMany
static_into : String → Option Headers → RelayEndpointMap → List String → RelayEndpointMap
static_into base_url headers endpoints [] = endpoints
static_into base_url headers endpoints (token ∷ tokens) =
    static_into base_url headers
      (StringMap.set token (as_endpoint (endpoint_from_base base_url token headers) none) endpoints)
      tokens

unfoldable pub static_resolve_many : String → Option Headers → List String → RelayEndpointMap
unfolding static_into
static_resolve_many base_url headers tokens = static_into base_url headers [] (unique tokens)

-- StaticRelayRouter.resolve
unfoldable pub static_resolve : String → Option Headers → String → Result RelayEndpoint
unfolding static_resolve_many concat
static_resolve base_url headers token =
    elim (StringMap.get token (static_resolve_many base_url headers (token ∷ []))) [
      | none ↦ err (error (concat ("failed to resolve token: " ∷ token ∷ [])))
      | some endpoint ↦ ok endpoint
    ]

unfoldable pub missing_token : String → Thrown
unfolding concat
missing_token token = error (concat ("registry missing token " ∷ token ∷ []))

-- lookupRelay, applied to the registry's answer for the one token
unfoldable pub lookup_relay : Result RelayRegistryMap → String → Result RelayRegistryRecord
unfolding missing_token
lookup_relay (err e) token = err e
lookup_relay (ok routes) token = elim (StringMap.get token routes) [
  | none ↦ err (missing_token token)
  | some rec ↦ if is_resolvable_registry_record rec then ok rec else err (missing_token token)
]

-- RegistryRelayRouter.resolve
unfoldable pub registry_resolve :
    Option Headers → Result RelayRegistryMap → String → Result RelayEndpoint
unfolding lookup_relay
registry_resolve default_headers answer token = do
  rec ← lookup_relay answer token
  download_endpoint_from_registry_record token rec default_headers

abbrev is_expired : Option RelayRegistryRecord → Bool
is_expired none = false
is_expired (some rec) = elim rec.resolve_status [
  | none ↦ false
  | some status ↦ elim status [ RelayResolveStatus.expired ↦ true | _ ↦ false ]
]

-- One round of the loop of RegistryRelayRouter.resolveMany.
unfoldable pub route_token :
    Option Headers
    → String
    → Option RelayRegistryRecord
    → RelayEndpointMap
    → Result RelayEndpointMap
route_token headers token none endpoints = ok endpoints
route_token headers token (some rec) endpoints =
    if is_expired (some rec)
    then err (placement_expired token)
    else if is_resolvable_registry_record rec
    then (do
      endpoint ← download_endpoint_from_registry_record token rec headers
      ok (StringMap.set token endpoint endpoints))
    else ok endpoints

route_tokens :
    Option Headers → RelayRegistryMap → RelayEndpointMap → List String → Result RelayEndpointMap
unfolding route_token
route_tokens headers records endpoints [] = ok endpoints
route_tokens headers records endpoints (token ∷ tokens) =
    route_token headers token (StringMap.get token records) endpoints >>= λ more.
    route_tokens headers records more tokens

resolve_distinct :
    Option Headers → (List String → Result RelayRegistryMap) → List String → Result RelayEndpointMap
unfolding route_tokens
resolve_distinct headers lookup_relays [] = ok []
resolve_distinct headers lookup_relays (token ∷ rest) =
    lookup_relays (token ∷ rest) >>= λ records. route_tokens headers records [] (token ∷ rest)

-- RegistryRelayRouter.resolveMany, on the registry's answer for the distinct tokens.
unfoldable pub registry_resolve_many :
    Option Headers → (List String → Result RelayRegistryMap) → List String → Result RelayEndpointMap
unfolding resolve_distinct
registry_resolve_many headers lookup_relays tokens =
    resolve_distinct headers lookup_relays (unique tokens)
