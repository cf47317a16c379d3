-- ===== src/Tests/Registries.antt =====
-- The registry's answers and the coalescing of lookups, on small inputs.
use c_stateless_relay_tran.Base.{
  ◌≡◌, ◌≤◌, ◌≢◌, ◌⊎◌, refl, ltb, String, if◌then◌else◌, none, some, List, [], ◌∷◌, Result, ok, true,
  false,
}
use c_stateless_relay_tran.Base.StringMap
use c_stateless_relay_tran.Base.StringSet.{contains, unique}
use c_stateless_relay_tran.Registry.Json.{
  Json, null, number, chars, array, object, no_items, item, fields,
}
use c_stateless_relay_tran.Registry.Records.{
  RelayRegistryRecord, RelayRegistryMap, primary, ready, find_primary,
}
use c_stateless_relay_tran.Registry.Response.{default_parse_response, unavailable_record}
use c_stateless_relay_tran.Registry.Response.Answer.{AllReadable, parse_response-IsAnswer}
use c_stateless_relay_tran.Registry.Response.Reservation.{parse_reserve_upload_response}
use c_stateless_relay_tran.Registry.Coalescing.{
  Waiter, fresh, batch_from, settle, looks_up, flushes, answers, CoalescingEvent, coalescing_run,
}
use c_stateless_relay_tran.Registry.Coalescing.Settlement.{settlements, lookup_settled_once}
use c_stateless_relay_tran.Registry.Coalescing.Contract.{TellsAll}
use c_stateless_relay_tran.Registry.HttpClient.{
  HttpRegistryClientOptions, Post, HttpResponse, http_lookup_relays,
}
use c_stateless_relay_tran.Registry.HttpClient.Batches.{record_in, http_batch_answers}
use c_stateless_relay_tran.Upload.Registration.{ReserveUploadBlocksResult}

abbrev string_of : Json → String
string_of (chars s) = s
string_of _ = ""

abbrev entry : Json
entry = object (
    fields (
      ("token", chars "t")
      ∷ (
        "targets",
        array (
            item
              (object (
                fields (
                  ("role", chars "primary")
                  ∷ ("relayId", chars "a")
                  ∷ ("relayBaseUrl", chars "https://a/")
                  ∷ [])))
              no_items),
      )
      ∷ []))

abbrev body : Json
body = object (
    fields (
      ("routes", array (item entry (item null no_items)))
      ∷ ("grantedTtlSeconds", number 60)
      ∷ ("requestedTtlSeconds", number 60)
      ∷ []))

abbrev held : RelayRegistryRecord
held = record {
  targets = record { role = primary; relay_id = "a"; relay_base_url = "https://a" } ∷ [];
  headers = none;
  resolve_status = some ready;
}

abbrev routes : RelayRegistryMap
routes = ("t", held) ∷ ("u", unavailable_record) ∷ []

parsed : default_parse_response string_of body ("t" ∷ "u" ∷ []) ≡ ok routes
unfolding default_parse_response find_primary StringMap.has StringMap.set
parsed = refl

parse_response-IsAnswer_example :
    AllReadable routes
    × ((token : String)
        → contains token ("t" ∷ "u" ∷ []) ≡ true
        → (rec : RelayRegistryRecord) × (StringMap.get token routes ≡ some rec))
parse_response-IsAnswer_example =
    parse_response-IsAnswer string_of body ("t" ∷ "u" ∷ []) routes parsed

abbrev granted : ReserveUploadBlocksResult
granted = record {
  routes = ("t", held) ∷ [];
  meta = record {
    granted_ttl_seconds = 60;
    requested_ttl_seconds = 60;
    degraded = false;
    placement_plan = none;
  };
}

reserved : parse_reserve_upload_response string_of body ("t" ∷ []) (some 60) ≡ ok granted
unfolding parse_reserve_upload_response find_primary StringMap.has StringMap.set
reserved = refl

abbrev two_lookups : List CoalescingEvent
two_lookups = looks_up ("t" ∷ []) ∷ looks_up ("u" ∷ "t" ∷ []) ∷ flushes ∷ answers 0 (ok routes) ∷ []

lookup_settled_once_example :
    (settlements 1 (coalescing_run fresh two_lookups).settled ≤ 1)
    × (((coalescing_run fresh two_lookups).flush_scheduled ≡ true)
        ⊎ (((coalescing_run fresh two_lookups).batches ≢ [])
            ⊎ (settlements 1 (coalescing_run fresh two_lookups).settled
                ≡ (if ltb 1 (coalescing_run fresh two_lookups).made then 1 else 0))))
lookup_settled_once_example = lookup_settled_once two_lookups 1

abbrev waiting : List Waiter
waiting =
    record { lookup = 0; tokens = "t" ∷ [] } ∷ record { lookup = 1; tokens = "u" ∷ "t" ∷ [] } ∷ []

abbrev client : HttpRegistryClientOptions
client = record {
  registry_base_url = "https://r/";
  headers = none;
  resolve_url = none;
  build_resolve_request_body = none;
  parse_response = none;
}

abbrev answering : Post → Result HttpResponse
answering post = ok (record { status = 200; json = ok body })

looked_up : http_lookup_relays string_of answering client (batch_from [] waiting) ≡ ok routes
unfolding http_lookup_relays batch_from unique find_primary StringMap.has StringMap.set
looked_up = refl

http_batch_answers_example : TellsAll (record_in routes) waiting (settle (ok routes) waiting)
http_batch_answers_example =
    http_batch_answers string_of answering client refl waiting routes looked_up
