-- ===== src/Registry/HttpClient/Batches.antt =====
-- The coalescing client over the HTTP client: what a batch comes to for those who wait for it.
use c_stateless_relay_tran.Base.{
  ◌≡◌, refl, Bool, true, false, if◌then◌else◌, String, Option, none, some, List, [], ◌∷◌, Result,
  ok, arith, Bool-cases, Result-cases, inl, inr, ◌∙◌,
}
use c_stateless_relay_tran.Base.StringMap
use c_stateless_relay_tran.Base.StringSet.{contains, unique, contains-unique}
use c_stateless_relay_tran.Registry.Json.{Json}
use c_stateless_relay_tran.Registry.Records.{RelayRegistryRecord, RelayRegistryMap}
use c_stateless_relay_tran.Registry.Response.{unavailable_record}
use c_stateless_relay_tran.Registry.Response.Answer.{parse_response-IsAnswer}
use c_stateless_relay_tran.Registry.Coalescing.{Waiter, batch_from, settle}
use c_stateless_relay_tran.Registry.Coalescing.Contract.{TellsAll, batch_refines_lookups}
use c_stateless_relay_tran.Registry.HttpClient.{
  HttpRegistryClientOptions, Post, HttpResponse, is_ok, lookup_request, parse_lookup,
  lookup_distinct, http_lookup_relays,
}

-- The record that the answer has for a token.
abbrev pub record_in : RelayRegistryMap → String → RelayRegistryRecord
record_in routes token = elim (StringMap.get token routes) [
  | none ↦ unavailable_record
  | some rec ↦ rec
]

covered :
    (o : Option RelayRegistryRecord) (rec : RelayRegistryRecord)
    → o ≡ some rec
    → o ≡ some (elim o [ none ↦ unavailable_record | some r ↦ r ])
covered none rec e = cc
covered (some r) rec e = refl

covered_if :
    (routes : RelayRegistryMap) (token : String) (asked : Bool)
    → (asked ≡ true → (rec : RelayRegistryRecord) × (StringMap.get token routes ≡ some rec))
    → (if asked then StringMap.get token routes else some (record_in routes token))
      ≡ some (record_in routes token)
covered_if routes token true h = let (rec, e) = h refl in covered (StringMap.get token routes) rec e
covered_if routes token false h = refl

module _ (string_of : Json → String) (fetch : Post → Result HttpResponse)
    (options : HttpRegistryClientOptions) (parser : options.parse_response ≡ none) where
  abbrev HasAll : List String → RelayRegistryMap → Type 0
  HasAll tokens routes =
      (token : String)
      → contains token tokens ≡ true
      → (rec : RelayRegistryRecord) × (StringMap.get token routes ≡ some rec)

  parse_lookup-HasAll :
      (tokens : List String) (response : HttpResponse) (routes : RelayRegistryMap)
      → parse_lookup string_of fetch options tokens response ≡ ok routes
      → HasAll tokens routes
  unfolding parse_lookup
  parse_lookup-HasAll tokens response routes h = elim (Bool-cases (is_ok response)) [
    | inr refused ↦ let failed = rw refused at h in ground arith
    | inl accepted ↦ elim (Result-cases response.json) [
      | inr (e, p) ↦ let failed = rw (accepted, p) at h in ground arith
      | inl (body, p) ↦
          let parsed = rw (accepted, p, parser) at h in
          (parse_response-IsAnswer string_of body tokens routes parsed).1
    ]
  ]

  lookup-HasAll :
      (tokens : List String) (routes : RelayRegistryMap)
      → lookup_distinct string_of fetch options tokens ≡ ok routes
      → HasAll tokens routes
  unfolding lookup_distinct contains
  lookup-HasAll [] routes h = λ token asked. ground arith
  lookup-HasAll (t ∷ tokens) routes h =
      elim (Result-cases (fetch (lookup_request string_of fetch options (t ∷ tokens)))) [
        | inr (e, p) ↦ let failed = rw p at h in ground arith
        | inl (response, p) ↦
            let answered = rw p at h in parse_lookup-HasAll (t ∷ tokens) response routes answered
      ]

  -- Where the client has the parser that it comes with: when its request for a batch succeeds, each
  -- waiter of the batch is settled, in order, with exactly the records of its own tokens in the answer,
  -- and none of them is rejected for a token that the registry left out.
  pub http_batch_answers :
      (waiters : List Waiter) (routes : RelayRegistryMap)
      → http_lookup_relays string_of fetch options (batch_from [] waiters) ≡ ok routes
      → TellsAll (record_in routes) waiters (settle (ok routes) waiters)
  unfolding http_lookup_relays
  http_batch_answers waiters routes h =
      batch_refines_lookups (record_in routes) waiters routes (λ token.
        covered_if routes token (contains token (batch_from [] waiters)) (λ asked.
          lookup-HasAll (unique (batch_from [] waiters)) routes h token
            (contains-unique token (batch_from [] waiters) ∙ asked)))
