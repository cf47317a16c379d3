-- ===== src/Registry/Router/Resolution.antt =====
-- What RegistryRelayRouter.resolveMany returns, for every list of tokens and every registry answer.
use text.Mathlib.Text.{◌==◌ as str_eq}
use text.Mathlib.TextPositions.{eq_refl}
use c_stateless_relay_tran.Base.{
  ◌≡◌, refl, ◌⊎◌, inl, inr, ◌&&◌, true, false, if◌then◌else◌, String, Option, none, some, List, [],
  ◌∷◌, Result, ok, err, placement_expired, arith, Bool-cases, str_eq-cases, ◌∙◌, map,
}
use c_stateless_relay_tran.Base.StringMap
use c_stateless_relay_tran.Base.StringMap.{get-set}
use c_stateless_relay_tran.Base.StringSet.{contains, unique}
use c_stateless_relay_tran.Policy.Prefetch.{or_else}
use c_stateless_relay_tran.Registry.Records.{
  RelayTargetRecord, Headers, RelayRegistryRecord, RelayRegistryMap, RelayEndpoint,
  RelayEndpointMap, is_resolvable_registry_record, find_primary,
}
use c_stateless_relay_tran.Registry.Endpoints.{
  download_endpoint_from_registry_record, as_endpoint, target_endpoint, merge_headers,
}
use c_stateless_relay_tran.Registry.Router.{
  is_expired, route_token, route_tokens, resolve_distinct, registry_resolve_many,
}

abbrev to_option {ℓ} : {A : Type ℓ} → Result A → Option A
to_option (ok a) = some a
to_option (err e) = none

-- The endpoint that a token gets from its record: none if there is no record, or none that says
-- where to download from.
pub endpoint_for : Option Headers → String → Option RelayRegistryRecord → Option RelayEndpoint
endpoint_for headers token none = none
endpoint_for headers token (some rec) =
    if is_resolvable_registry_record rec
    then to_option (download_endpoint_from_registry_record token rec headers)
    else none

download_targets :
    (headers : Option Headers) (token : String) (rec : RelayRegistryRecord)
    (targets : List RelayTargetRecord)
    → rec.targets ≡ targets
    → is_resolvable_registry_record rec ≡ true
    → (endpoint : RelayEndpoint) × (download_endpoint_from_registry_record token rec headers
        ≡ ok endpoint)
unfolding is_resolvable_registry_record download_endpoint_from_registry_record find_primary
download_targets headers token rec [] e h = ground arith
download_targets headers token rec (t ∷ ts) e h = (
  as_endpoint (target_endpoint token (some (merge_headers rec.headers headers)) t)
      (some (map (target_endpoint token (some (merge_headers rec.headers headers))) ts)),
  ground arith,
)

download_total :
    (headers : Option Headers) (token : String) (rec : RelayRegistryRecord)
    → is_resolvable_registry_record rec ≡ true
    → (endpoint : RelayEndpoint) × (download_endpoint_from_registry_record token rec headers
        ≡ ok endpoint)
download_total headers token rec h = download_targets headers token rec rec.targets refl h

put_found : String → Option RelayEndpoint → RelayEndpointMap → RelayEndpointMap
put_found token none endpoints = endpoints
put_found token (some endpoint) endpoints = StringMap.set token endpoint endpoints

route_token-live :
    (headers : Option Headers) (token : String) (o : Option RelayRegistryRecord)
    (endpoints : RelayEndpointMap)
    → is_expired o ≡ false
    → route_token headers token o endpoints
      ≡ ok (put_found token (endpoint_for headers token o) endpoints)
unfolding route_token put_found endpoint_for
route_token-live headers token none endpoints h = refl
route_token-live headers token (some rec) endpoints h =
    elim (Bool-cases (is_resolvable_registry_record rec)) [
      | inl found ↦
          let (endpoint, e) = download_total headers token rec found in rw h (rw (found, e))
      | inr lost ↦ rw h (rw lost)
    ]

route_token-expired :
    (headers : Option Headers) (token : String) (o : Option RelayRegistryRecord)
    (endpoints : RelayEndpointMap)
    → is_expired o ≡ true
    → route_token headers token o endpoints ≡ err (placement_expired token)
unfolding route_token
route_token-expired headers token none endpoints h = cc
route_token-expired headers token (some rec) endpoints h = rw h

get-put_found :
    (token t : String) (o : Option RelayEndpoint) (endpoints : RelayEndpointMap)
    → StringMap.get t (put_found token o endpoints) ≡ (
        if str_eq token t then or_else o (StringMap.get t endpoints) else StringMap.get t endpoints)
unfolding put_found
get-put_found token t none endpoints = ground arith
get-put_found token t (some endpoint) endpoints = get-set token t endpoint endpoints

-- The requested tokens that the records let through.
abbrev pub chosen : Option Headers → RelayRegistryMap → List String → String → Option RelayEndpoint
chosen headers records tokens t =
    if contains t tokens then endpoint_for headers t (StringMap.get t records) else none

abbrev pub Routed :
    Option Headers
    → RelayRegistryMap
    → List String
    → RelayEndpointMap
    → Result RelayEndpointMap
    → Type 0
Routed headers records tokens endpoints r =
    ((out : RelayEndpointMap) × (r ≡ ok out)
      × ((t : String)
          → StringMap.get t out
            ≡ or_else (chosen headers records tokens t) (StringMap.get t endpoints))
      × ((t : String) → (contains t tokens && is_expired (StringMap.get t records)) ≡ false))
    ⊎ ((t : String) × (contains t tokens ≡ true)
        × (is_expired (StringMap.get t records) ≡ true)
        × (r ≡ err (placement_expired t)))

chosen-cons :
    (headers : Option Headers) (records : RelayRegistryMap) (token t : String)
    (tokens : List String) (endpoints : RelayEndpointMap)
    → or_else (chosen headers records tokens t) (
        StringMap.get t
          (put_found token (endpoint_for headers token (StringMap.get token records)) endpoints))
      ≡ or_else (chosen headers records (token ∷ tokens) t) (StringMap.get t endpoints)
unfolding contains
chosen-cons headers records token t tokens endpoints =
    rw get-put_found (elim (str_eq-cases token t) [
      | inl (e, p) ↦ rw e (rw p (ground arith))
      | inr (e, p) ↦ rw e refl
    ])

contains-cons-live :
    (records : RelayRegistryMap) (token t : String) (tokens : List String)
    → is_expired (StringMap.get token records) ≡ false
    → (contains t tokens && is_expired (StringMap.get t records)) ≡ false
    → (contains t (token ∷ tokens) && is_expired (StringMap.get t records)) ≡ false
unfolding contains
contains-cons-live records token t tokens live rest = elim (str_eq-cases token t) [
  | inl (e, p) ↦
      let same : is_expired (StringMap.get t records) ≡ false = rw (← p) live in ground arith
  | inr (e, p) ↦ rw e rest
]

contains-here : (token : String) (tokens : List String) → contains token (token ∷ tokens) ≡ true
unfolding contains
contains-here token tokens = rw eq_refl

contains-later :
    (token t : String) (tokens : List String)
    → contains t tokens ≡ true
    → contains t (token ∷ tokens) ≡ true
unfolding contains
contains-later token t tokens h = ground arith

Routed-cons :
    (headers : Option Headers) (records : RelayRegistryMap) (endpoints : RelayEndpointMap)
    (token : String) (tokens : List String) (r : Result RelayEndpointMap)
    → is_expired (StringMap.get token records) ≡ false
    → Routed headers records tokens
        (put_found token (endpoint_for headers token (StringMap.get token records)) endpoints)
        r
    → Routed headers records (token ∷ tokens) endpoints r
Routed-cons headers records endpoints token tokens r live (inl (out, p, q, all_live)) = inl (
  out,
  p,
  λ t. q t ∙ chosen-cons headers records token t tokens endpoints,
  λ t. contains-cons-live records token t tokens live (all_live t),
)
Routed-cons headers records endpoints token tokens r live (inr (t, h, gone, p)) =
    inr (t, contains-later token t tokens h, gone, p)

route_tokens-Routed :
    (headers : Option Headers) (records : RelayRegistryMap) (tokens : List String)
    (endpoints : RelayEndpointMap)
    → Routed headers records tokens endpoints (route_tokens headers records endpoints tokens)
unfolding route_tokens
route_tokens-Routed headers records [] endpoints =
    inl (endpoints, refl, λ t. (unfold contains in refl), λ t. (unfold contains in refl))
route_tokens-Routed headers records (token ∷ tokens) endpoints =
    elim (Bool-cases (is_expired (StringMap.get token records))) [
      | inl gone ↦ inr (
        token,
        contains-here token tokens,
        gone,
        rw (route_token-expired headers token (StringMap.get token records) endpoints gone),
      )
      | inr live ↦ Routed-cons headers records endpoints token tokens _ live (
          rw (route_token-live headers token (StringMap.get token records) endpoints live) (
            route_tokens-Routed headers records tokens (
              put_found token (endpoint_for headers token (StringMap.get token records))
                endpoints)))
    ]

distinct-Routed :
    (headers : Option Headers) (lookup_relays : List String → Result RelayRegistryMap)
    (tokens : List String) (records : RelayRegistryMap)
    → lookup_relays tokens ≡ ok records
    → Routed headers records tokens [] (resolve_distinct headers lookup_relays tokens)
unfolding resolve_distinct
distinct-Routed headers lookup_relays [] records h =
    inl ([], refl, λ t. (unfold contains StringMap.get in refl), λ t. (unfold contains in refl))
distinct-Routed headers lookup_relays (token ∷ rest) records h =
    rw h (route_tokens-Routed headers records (token ∷ rest) [])

-- Where the registry answers the lookup of the distinct tokens with `records`: either some requested
-- token has expired and the call throws the expiry of such a token, or none has, and the map that is
-- returned gives each requested token the endpoint of its record if that names a primary relay, and
-- gives nothing to any other token.
pub resolve_many-Routed :
    (headers : Option Headers) (lookup_relays : List String → Result RelayRegistryMap)
    (tokens : List String) (records : RelayRegistryMap)
    → lookup_relays (unique tokens) ≡ ok records
    → Routed headers records (unique tokens) [] (registry_resolve_many headers lookup_relays tokens)
unfolding registry_resolve_many
resolve_many-Routed headers lookup_relays tokens records h =
    distinct-Routed headers lookup_relays (unique tokens) records h
