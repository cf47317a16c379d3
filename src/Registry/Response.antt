-- ===== src/Registry/Response.antt =====
-- client/transfer/src/router/registry-client.ts: the parsers of the registry's answers. The code takes
-- the headers of a record as they come, whatever the values are; a request that is sent with them turns
-- each value into a text, which the parameter `string_of` stands for.
pub mod Answer
pub mod Reservation
use text.Mathlib.Text.{◌==◌ as str_eq}
use c_stateless_relay_tran.Base.{
  ℕ, Bool, true, false, not, ◌||◌, ltb, if◌then◌else◌, String, Option, none, some, List, [], ◌∷◌,
  ◌++◌, Result, ok, err, error, ◌>>=◌, OccupiedTokenInfo,
}
use c_stateless_relay_tran.Base.StringMap
use c_stateless_relay_tran.Base.Text.{concat}
use c_stateless_relay_tran.Base.Uri.{strip_slash}
use c_stateless_relay_tran.Registry.Json.{
  Json, boolean, Items, no_items, item, is_object, property, as_text, as_number, as_array, as_texts,
}
use c_stateless_relay_tran.Registry.Records.{
  Role, primary, replica, RelayTargetRecord, RelayResolveStatus, ready, expired, unavailable,
  RelayRegistryRecord, RelayRegistryMap, find_primary,
}
use c_stateless_relay_tran.Upload.Registration.{
  UploadPlacementPlan, UploadReservationMeta, ReserveUploadBlocksResult,
}

-- The message `registry … for ${token} …`.
unfoldable pub refusal : String → String → String → String
unfolding concat
refusal what token why = concat ("registry " ∷ what ∷ " for " ∷ token ∷ why ∷ [])

unfoldable pub parse_role : Option String → Option Role
parse_role none = none
parse_role (some s) =
    if str_eq s "primary" then some primary else if str_eq s "replica" then some replica else none

target_from : String → Role → Option String → Option String → Result RelayTargetRecord
unfolding refusal strip_slash
target_from token role (some relay_id) (some relay_base_url) =
    ok (record { role = role; relay_id = relay_id; relay_base_url = strip_slash relay_base_url })
target_from token role _ _ = err (error (refusal "target" token " missing relayId or relayBaseUrl"))

normalize_object : String → Option Role → Option String → Option String → Result RelayTargetRecord
unfolding target_from refusal
normalize_object token none relay_id relay_base_url =
    err (error (refusal "target" token " has invalid role"))
normalize_object token (some role) relay_id relay_base_url =
    target_from token role relay_id relay_base_url

unfoldable pub normalize_target : Json → String → Result RelayTargetRecord
unfolding normalize_object parse_role property refusal
normalize_target target token =
    if is_object target
    then normalize_object token (parse_role (as_text (property "role" target)))
        (as_text (property "relayId" target)) (as_text (property "relayBaseUrl" target))
    else err (error (refusal "target" token " is not an object"))

unfoldable pub parse_resolve_status : Option String → Option RelayResolveStatus
parse_resolve_status none = none
parse_resolve_status (some s) =
    if str_eq s "ready"
    then some ready
    else if str_eq s "expired"
    then some expired
    else if str_eq s "unavailable"
    then some unavailable
    else none

-- value ?? status
abbrev pub status_or : RelayResolveStatus → Option RelayResolveStatus → RelayResolveStatus
status_or status none = status
status_or status (some s) = s

-- record.targets.map((target) => normalizeTarget(target, token))
unfoldable pub normalize_targets : Items → String → Result (List RelayTargetRecord)
unfolding normalize_target
normalize_targets no_items token = ok []
normalize_targets (item target rest) token = normalize_target target token >>= λ first.
    normalize_targets rest token >>= λ others. ok (first ∷ others)

-- The record of an entry whose targets array is not empty.
unfoldable pub with_targets :
    String
    → Option (StringMap.StringMap String)
    → Option RelayResolveStatus
    → List RelayTargetRecord
    → Result RelayRegistryRecord
unfolding refusal
with_targets token headers status targets = elim (find_primary targets) [
  | none ↦ err (error (refusal "entry" token " missing primary target"))
  | some target ↦ ok (record {
    targets = targets;
    headers = headers;
    resolve_status = some (status_or ready status);
  })
]

unfoldable pub record_from :
    String
    → Option (StringMap.StringMap String)
    → Option RelayResolveStatus
    → Option Items
    → Result RelayRegistryRecord
unfolding refusal normalize_targets with_targets
record_from token headers status none = err (error (refusal "entry" token " missing targets array"))
record_from token headers status (some no_items) = ok (record {
  targets = [];
  headers = headers;
  resolve_status = some (status_or unavailable status);
})
record_from token headers status (some (item target rest)) =
    normalize_targets (item target rest) token >>= λ targets.
    with_targets token headers status targets

abbrev pub unavailable_record : RelayRegistryRecord
unavailable_record = record { targets = []; headers = none; resolve_status = some unavailable }

-- for (const token of tokens) …: a token that the answer leaves out is unavailable.
unfoldable pub fill_missing : List String → RelayRegistryMap → RelayRegistryMap
fill_missing [] routes = routes
fill_missing (token ∷ tokens) routes =
    fill_missing tokens
      (if StringMap.has token routes then routes else StringMap.set token unavailable_record routes)

module _ (string_of : Json → String) where
  unfoldable pub normalize_record : Json → String → Result RelayRegistryRecord
  unfolding record_from parse_resolve_status property refusal as_texts
  normalize_record entry token =
      if is_object entry
      then record_from token (as_texts string_of (property "headers" entry))
          (parse_resolve_status (as_text (property "resolveStatus" entry)))
          (as_array (property "targets" entry))
      else err (error (refusal "entry" token " is not an object"))

  -- One round of the loop over the routes.
  unfoldable pub add_entry : Json → Option String → RelayRegistryMap → Result RelayRegistryMap
  unfolding normalize_record
  add_entry entry none routes = ok routes
  add_entry entry (some token) routes =
      normalize_record entry token >>= λ rec. ok (StringMap.set token rec routes)

  -- An entry that is no object, or has no token, is skipped.
  unfoldable pub routes_from : Items → RelayRegistryMap → Result RelayRegistryMap
  unfolding add_entry property
  routes_from no_items routes = ok routes
  routes_from (item entry rest) routes =
      add_entry entry (as_text (property "token" entry)) routes >>= λ more. routes_from rest more

  unfoldable pub parse_routes : Option Items → List String → Result RelayRegistryMap
  unfolding routes_from fill_missing
  parse_routes none tokens = err (error "registry batch response missing routes array")
  parse_routes (some routes) tokens =
      routes_from routes [] >>= λ found. ok (fill_missing tokens found)

  unfoldable pub default_parse_response : Json → List String → Result RelayRegistryMap
  unfolding parse_routes property
  default_parse_response body tokens =
      if is_object body
      then parse_routes (as_array (property "routes" body)) tokens
      else err (error "registry batch response is not an object")
