-- ===== src/Registry/Response/Reservation.antt =====
-- client/transfer/src/router/registry-client.ts: the answers to a reservation, granted or refused.
use c_stateless_relay_tran.Base.{
  ℕ, ltb, ◌||◌, ◌≡◌, ◌≤◌, arith, Bool, true, false, if◌then◌else◌, String, Option, none, some, List,
  [], ◌∷◌, Result, ok, ◌>>=◌, OccupiedTokenInfo, Bool-cases, Result-cases, inl, inr,
}
use c_stateless_relay_tran.Registry.Json.{
  Json, boolean, Items, no_items, item, is_object, property, as_text, as_number, as_array,
}
use c_stateless_relay_tran.Registry.Response.{default_parse_response}
use c_stateless_relay_tran.Upload.Registration.{
  UploadPlacementPlan, UploadReservationMeta, ReserveUploadBlocksResult,
}

plan_from : Option ℕ → Option ℕ → Option ℕ → Option ℕ → Option UploadPlacementPlan
plan_from (some stripe_count) (some replica_factor) (some relay_count) (some ideal_relay_count) =
    some (record {
      stripe_count = stripe_count;
      replica_factor = replica_factor;
      relay_count = relay_count;
      ideal_relay_count = ideal_relay_count;
    })
plan_from _ _ _ _ = none

plan_of : Option Json → Option UploadPlacementPlan
unfolding plan_from property
plan_of none = none
plan_of (some value) =
    plan_from (as_number (property "stripeCount" value))
      (as_number (property "replicaFactor" value)) (as_number (property "relayCount" value))
      (as_number (property "idealRelayCount" value))

-- On a missing property, as on any other value, the plan is undefined.
unfoldable pub parse_placement_plan : Option Json → Option UploadPlacementPlan
unfolding plan_of
parse_placement_plan value = plan_of value

abbrev number_or : Option ℕ → ℕ → ℕ
number_or none other = other
number_or (some n) other = n

abbrev is_true_value : Option Json → Bool
is_true_value (some (boolean true)) = true
is_true_value _ = false

-- plan !== undefined && plan.relayCount < plan.idealRelayCount
abbrev lacks_relays : Option UploadPlacementPlan → Bool
lacks_relays none = false
lacks_relays (some plan) = ltb plan.relay_count plan.ideal_relay_count

meta_from : ℕ → ℕ → Bool → Option UploadPlacementPlan → UploadReservationMeta
meta_from requested granted degraded plan = record {
  granted_ttl_seconds = granted;
  requested_ttl_seconds = requested;
  degraded = degraded || (ltb granted requested || lacks_relays plan);
  placement_plan = plan;
}

-- requestedFromBody ?? fallbackRequestedTtlSeconds ?? grantedFromBody ?? 0
unfoldable pub requested_ttl : Option ℕ → Option ℕ → Option ℕ → ℕ
requested_ttl from_body fallback granted =
    number_or from_body (number_or fallback (number_or granted 0))

unfoldable pub reservation_meta : Json → Option ℕ → UploadReservationMeta
unfolding meta_from requested_ttl parse_placement_plan property
reservation_meta body fallback =
    let granted = as_number (property "grantedTtlSeconds" body) in
    let requested =
      requested_ttl (as_number (property "requestedTtlSeconds" body)) fallback granted in
    if is_object body
    then meta_from requested (number_or granted requested)
        (is_true_value (property "degraded" body))
        (parse_placement_plan (property "placementPlan" body))
    else record {
      granted_ttl_seconds = number_or fallback 0;
      requested_ttl_seconds = number_or fallback 0;
      degraded = false;
      placement_plan = none;
    }

module _ (string_of : Json → String) where
  unfoldable pub parse_reserve_upload_response :
      Json → List String → Option ℕ → Result ReserveUploadBlocksResult
  unfolding default_parse_response reservation_meta
  parse_reserve_upload_response body tokens fallback =
      default_parse_response string_of body tokens >>= λ routes.
      ok (record { routes = routes; meta = reservation_meta body fallback })

occupied_from :
    Option String → Option String → Option String → List OccupiedTokenInfo → List OccupiedTokenInfo
occupied_from (some token) (some expiry_at) block_hash rest =
    record { token = token; expiry_at = expiry_at; block_hash = block_hash } ∷ rest
occupied_from _ _ _ rest = rest

occupied_tokens : Option Items → List OccupiedTokenInfo
unfolding occupied_from property
occupied_tokens none = []
occupied_tokens (some no_items) = []
occupied_tokens (some (item entry items)) =
    occupied_from (as_text (property "token" entry)) (as_text (property "expiryAt" entry))
      (as_text (property "blockHash" entry)) (occupied_tokens (some items))

-- What is not as expected is skipped.
unfoldable pub parse_occupied_tokens : Json → List OccupiedTokenInfo
unfolding occupied_tokens property
parse_occupied_tokens body = occupied_tokens (as_array (property "occupiedTokens" body))

-- A plan that has as many relays as it wants.
abbrev pub HasRelays : Option UploadPlacementPlan → Type 0
HasRelays none = Unit
HasRelays (some plan) = plan.ideal_relay_count ≤ plan.relay_count

abbrev pub IsKept : UploadReservationMeta → Type 0
IsKept meta =
    (meta.requested_ttl_seconds ≤ meta.granted_ttl_seconds) × HasRelays meta.placement_plan

meta_from-IsKept :
    (requested granted : ℕ) (degraded : Bool) (plan : Option UploadPlacementPlan)
    → (meta_from requested granted degraded plan).degraded ≡ false
    → IsKept (meta_from requested granted degraded plan)
unfolding meta_from
meta_from-IsKept requested granted degraded none h = (ground arith, tt)
meta_from-IsKept requested granted degraded (some plan) h = (ground arith, ground arith)

meta-IsKept :
    (body : Json) (fallback : Option ℕ)
    → (reservation_meta body fallback).degraded ≡ false
    → IsKept (reservation_meta body fallback)
unfolding reservation_meta
meta-IsKept body fallback = elim (Bool-cases (is_object body)) [
  | inl e ↦ rw e (meta_from-IsKept _ _ _ _)
  | inr e ↦ rw e (λ h. (ground arith, tt))
]

-- A reservation that is not reported as degraded grants at least the lifetime that its own record has as
-- the requested one, and its plan, where there is one, has at least as many relays as it wants.
pub reserve-IsKept :
    (string_of : Json → String) (body : Json) (tokens : List String) (fallback : Option ℕ)
    (result : ReserveUploadBlocksResult)
    → parse_reserve_upload_response string_of body tokens fallback ≡ ok result
    → result.meta.degraded ≡ false
    → IsKept result.meta
unfolding parse_reserve_upload_response
reserve-IsKept string_of body tokens fallback result h kept =
    elim (Result-cases (default_parse_response string_of body tokens)) [
      | inl (routes, e) ↦
          let parsed = rw e at h in
          let same : reservation_meta body fallback ≡ result.meta = cc in
          let all = meta-IsKept body fallback in (rw same at all) kept
      | inr (e, p) ↦ let failed = rw p at h in cc
    ]
