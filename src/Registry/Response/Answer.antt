-- ===== src/Registry/Response/Answer.antt =====
-- What the parsers of the registry's answers promise to those who use the records.
use text.Mathlib.TextEquality.{eq_iff}
use text.Mathlib.Text.{◌==◌ as str_eq}
use c_stateless_relay_tran.Base.{
  ◌≡◌, ◌⊎◌, inl, inr, refl, true, ◌||◌, String, Option, none, some, List, [], ◌∷◌, Result, ok, err,
  arith, Bool-cases, Option-cases, Result-cases,
}
use c_stateless_relay_tran.Base.StringMap
use c_stateless_relay_tran.Base.StringMap.{get-set, has-set, has-get}
use c_stateless_relay_tran.Base.StringSet.{contains}
use c_stateless_relay_tran.Registry.Json.{
  Json, Items, no_items, item, is_object, property, as_text, as_array, as_texts,
}
use c_stateless_relay_tran.Registry.Records.{
  RelayResolveStatus, RelayTargetRecord, RelayRegistryRecord, RelayRegistryMap, find_primary,
}
use c_stateless_relay_tran.Registry.Response.{
  unavailable_record, normalize_targets, with_targets, record_from, fill_missing, normalize_record,
  add_entry, routes_from, parse_routes, default_parse_response, parse_resolve_status,
}

-- A record that a router can read: it says how available the token is, and it has a primary target
-- unless it has no target.
abbrev pub IsReadable : RelayRegistryRecord → Type 0
IsReadable rec =
    ((status : RelayResolveStatus) × (rec.resolve_status ≡ some status))
    × ((rec.targets ≡ [])
        ⊎ ((target : RelayTargetRecord) × (find_primary rec.targets ≡ some target)))

-- The result, where there is one, is readable.
abbrev ReadableResult : Result RelayRegistryRecord → Type 0
ReadableResult (ok rec) = IsReadable rec
ReadableResult (err e) = Unit

abbrev pub AllReadable : RelayRegistryMap → Type 0
AllReadable routes =
    (token : String) (rec : RelayRegistryRecord)
    → StringMap.get token routes ≡ some rec
    → IsReadable rec

abbrev ReadableRoutes : Result RelayRegistryMap → Type 0
ReadableRoutes (ok routes) = AllReadable routes
ReadableRoutes (err e) = Unit

with_targets-Readable :
    (token : String) (headers : Option (StringMap.StringMap String))
    (status : Option RelayResolveStatus) (targets : List RelayTargetRecord)
    → ReadableResult (with_targets token headers status targets)
unfolding with_targets
with_targets-Readable token headers status targets = elim (Option-cases (find_primary targets)) [
  | inl e ↦ rw (e, ReadableResult) tt
  | inr (target, e) ↦ rw (e, ReadableResult) ((_, refl), inr (target, e))
]

record-Readable :
    (token : String) (headers : Option (StringMap.StringMap String))
    (status : Option RelayResolveStatus) (targets : Option Items)
    → ReadableResult (record_from token headers status targets)
unfolding record_from
record-Readable token headers status none = tt
record-Readable token headers status (some no_items) = ((_, refl), inl refl)
record-Readable token headers status (some (item target rest)) =
    elim (Result-cases (normalize_targets (item target rest) token)) [
      | inl (targets, e) ↦
          rw (e, ReadableResult) (with_targets-Readable token headers status targets)
      | inr (e, p) ↦ rw (p, ReadableResult) tt
    ]

set-AllReadable :
    (token : String) (rec : RelayRegistryRecord) (routes : RelayRegistryMap)
    → IsReadable rec
    → AllReadable routes
    → AllReadable (StringMap.set token rec routes)
set-AllReadable token rec routes readable h t r e = elim (Bool-cases (str_eq token t)) [
  | inl same ↦
      let there : some rec ≡ some r = ground (arith, get-set token t rec routes) in
      let is_it : rec ≡ r = cc in rw is_it at readable
  | inr other ↦ h t r (ground (arith, get-set token t rec routes))
]

fill-AllReadable :
    (tokens : List String) (routes : RelayRegistryMap)
    → AllReadable routes
    → AllReadable (fill_missing tokens routes)
unfolding fill_missing
fill-AllReadable [] routes h = h
fill-AllReadable (token ∷ tokens) routes h = elim (Bool-cases (StringMap.has token routes)) [
  | inl e ↦ rw e (fill-AllReadable tokens routes h)
  | inr e ↦ rw e (
      fill-AllReadable tokens (StringMap.set token unavailable_record routes)
        (set-AllReadable token unavailable_record routes ((_, refl), inl refl) h))
]

has-fill_missing :
    (token : String) (tokens : List String) (routes : RelayRegistryMap)
    → StringMap.has token (fill_missing tokens routes)
      ≡ (contains token tokens || StringMap.has token routes)
unfolding fill_missing contains
has-fill_missing token [] routes = refl
has-fill_missing token (t ∷ tokens) routes = elim (Bool-cases (StringMap.has t routes)) [
  | inl e ↦ rw e (ground (arith, has-fill_missing token tokens routes, eq_iff t token))
  | inr e ↦ rw e (
      ground (
        arith,
        has-fill_missing token tokens (StringMap.set t unavailable_record routes),
        has-set t token unavailable_record routes,
      ))
]

module _ (string_of : Json → String) where
  normalize-Readable :
      (entry : Json) (token : String) → ReadableResult (normalize_record string_of entry token)
  unfolding normalize_record
  normalize-Readable entry token = elim (Bool-cases (is_object entry)) [
    | inl e ↦ rw e (
        record-Readable token (as_texts string_of (property "headers" entry))
          (parse_resolve_status (as_text (property "resolveStatus" entry)))
          (as_array (property "targets" entry)))
    | inr e ↦ rw e tt
  ]

  add-Readable :
      (entry : Json) (token : Option String) (routes : RelayRegistryMap)
      → AllReadable routes
      → ReadableRoutes (add_entry string_of entry token routes)
  unfolding add_entry
  add-Readable entry none routes h = h
  add-Readable entry (some token) routes h =
      let readable = normalize-Readable entry token in
      elim (Result-cases (normalize_record string_of entry token)) [
        | inl (rec, e) ↦
            let first = rw e at readable in
            rw (e, ReadableRoutes) (set-AllReadable token rec routes first h)
        | inr (e, p) ↦ rw (p, ReadableRoutes) tt
      ]

  routes-Readable :
      (items : Items) (routes : RelayRegistryMap)
      → AllReadable routes
      → ReadableRoutes (routes_from string_of items routes)
  unfolding routes_from
  routes-Readable no_items routes h = h
  routes-Readable (item entry rest) routes h =
      let readable = add-Readable entry (as_text (property "token" entry)) routes h in
      elim (Result-cases (add_entry string_of entry (as_text (property "token" entry)) routes)) [
        | inl (more, e) ↦
            let first = rw e at readable in rw (e, ReadableRoutes) (routes-Readable rest more first)
        | inr (e, p) ↦ rw (p, ReadableRoutes) tt
      ]

  fill-IsAnswer :
      (found : RelayRegistryMap) (tokens : List String) (routes : RelayRegistryMap)
      → AllReadable found
      → fill_missing tokens found ≡ routes
      → AllReadable routes
        × ((token : String)
            → contains token tokens ≡ true
            → (rec : RelayRegistryRecord) × (StringMap.get token routes ≡ some rec))
  fill-IsAnswer found tokens routes h e =
      let filled = fill-AllReadable tokens found h in
      (
        rw e at filled,
        λ token asked. has-get token routes (ground (arith, has-fill_missing token tokens found)),
      )

  empty-AllReadable : AllReadable []
  unfolding StringMap.get
  empty-AllReadable token rec e = ground arith

  answer_from :
      (items : Option Items) (tokens : List String) (routes : RelayRegistryMap)
      → parse_routes string_of items tokens ≡ ok routes
      → AllReadable routes
        × ((token : String)
            → contains token tokens ≡ true
            → (rec : RelayRegistryRecord) × (StringMap.get token routes ≡ some rec))
  unfolding parse_routes
  answer_from none tokens routes h = cc
  answer_from (some items) tokens routes h =
      let readable = routes-Readable items [] empty-AllReadable in
      elim (Result-cases (routes_from string_of items [])) [
        | inl (found, e) ↦
            let parsed = rw e at h in
            let first = rw e at readable in fill-IsAnswer found tokens routes first (cc)
        | inr (e, p) ↦ let failed = rw p at h in cc
      ]

  -- When an answer of the registry parses: each token that was asked for has a record, whether the
  -- registry named it or not, and each record can be read by a router: it says how available the token
  -- is, and has a primary target unless it has no target.
  pub parse_response-IsAnswer :
      (body : Json) (tokens : List String) (routes : RelayRegistryMap)
      → default_parse_response string_of body tokens ≡ ok routes
      → AllReadable routes
        × ((token : String)
            → contains token tokens ≡ true
            → (rec : RelayRegistryRecord) × (StringMap.get token routes ≡ some rec))
  unfolding default_parse_response
  parse_response-IsAnswer body tokens routes h = elim (Bool-cases (is_object body)) [
    | inl e ↦
        let parsed = rw e at h in
        answer_from (as_array (property "routes" body)) tokens routes parsed
    | inr e ↦ let failed = rw e at h in cc
  ]
