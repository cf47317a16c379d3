-- ===== src/Resilience/Fallbacks/Order.antt =====
-- Which targets a GET tries, in which order, and what it returns.
use c_stateless_relay_tran.Base.{
  ◌≡◌, refl, ◌⊎◌, inl, inr, ◌++◌, Bool, true, false, String, Option, none, some, List, [], ◌∷◌, map,
  Result, ok, err, Thrown, arith, ap, ℕ, Bool-cases,
}
use c_stateless_relay_tran.Registry.Records.{
  Headers, Target, RelayEndpoint, RelayRegistryRecord, RelayTargetRecord,
}
use c_stateless_relay_tran.Registry.Endpoints.{
  download_endpoint_from_registry_record, target_endpoint, merge_headers,
}
use c_stateless_relay_tran.Resilience.Fallbacks.{
  Response, candidates, try_target, try_targets, caught, all_failed, get_with_fallbacks,
}

-- The targets of a download are those of the registry's record, in its order.
pub candidates-download_endpoint :
    (token : String) (rec : RelayRegistryRecord) (headers : Option Headers)
    (endpoint : RelayEndpoint)
    → download_endpoint_from_registry_record token rec headers ≡ ok endpoint
    → candidates endpoint
      ≡ map (target_endpoint token (some (merge_headers rec.headers headers))) rec.targets
unfolding candidates download_endpoint_from_registry_record
candidates-download_endpoint token rec headers endpoint h = go rec.targets refl
  where
    go :
        (targets : List RelayTargetRecord)
        → rec.targets ≡ targets
        → candidates endpoint
          ≡ map (target_endpoint token (some (merge_headers rec.headers headers))) rec.targets
    go [] e = ground arith
    go (t ∷ ts) e = ground arith

Result-cases {ℓ} :
    {A : Type ℓ} (r : Result A) → ((a : A) × (r ≡ ok a)) ⊎ ((e : Thrown) × (r ≡ err e))
Result-cases (ok a) = inl (a, refl)
Result-cases (err e) = inr (e, refl)

module _ {W : Type 0} (fetch_fn : String → Option Headers → W → Result Response × W)
    (is_aborted : W → Bool) (token : String) (headers : Option Headers) (reject_non_ok : Bool) where
  abbrev pub attempt : Target → W → Result (List ℕ) × W
  attempt = try_target fetch_fn is_aborted token headers reject_non_ok

  -- The targets fail one after the other from w, with the signal quiet after each.
  abbrev pub Failing : List Target → W → Type 0
  Failing [] w = Unit {0}
  Failing (candidate ∷ rest) w =
      (e : Thrown) × ((attempt candidate w).0 ≡ err e)
      × (is_aborted (attempt candidate w).1 ≡ false)
      × Failing rest (attempt candidate w).1

  abbrev pub world_after : List Target → W → W
  world_after [] w = w
  world_after (candidate ∷ rest) w = world_after rest (attempt candidate w).1

  -- The error of the last one tried.
  abbrev pub last_error : Option Thrown → List Target → W → Option Thrown
  last_error last [] w = last
  last_error last (candidate ∷ rest) w =
      last_error (elim (attempt candidate w).0 [ ok _ ↦ last | err e ↦ some e ]) rest
        (attempt candidate w).1

  -- How the GET ends, once the targets `tried` have failed and `rest` remain.
  abbrev pub Ends : Option Thrown → List Target → List Target → W → Result (List ℕ) × W → Type 0
  Ends last tried [] w r =
      r ≡ (err (all_failed token (last_error last tried w)), world_after tried w)
  Ends last tried (next ∷ more) w r =
      ((bytes : List ℕ) × ((attempt next (world_after tried w)).0 ≡ ok bytes)
        × (r ≡ (ok bytes, (attempt next (world_after tried w)).1)))
      ⊎ ((e : Thrown) × ((attempt next (world_after tried w)).0 ≡ err e)
          × (is_aborted (attempt next (world_after tried w)).1 ≡ true)
          × (r ≡ (err e, (attempt next (world_after tried w)).1)))

  abbrev Shape : Option Thrown → List Target → W → Result (List ℕ) × W → Type 0
  Shape last targets w r =
      (tried : List Target) × (rest : List Target) × (targets ≡ tried ++ rest)
      × Failing tried w
      × Ends last tried rest w r

  Ends-later :
      (last : Option Thrown) (candidate : Target) (e : Thrown) (tried rest : List Target) (w : W)
      (r : Result (List ℕ) × W)
      → (attempt candidate w).0 ≡ err e
      → Ends (some e) tried rest (attempt candidate w).1 r
      → Ends last (candidate ∷ tried) rest w r
  Ends-later last candidate e tried [] w r p h = rw p h
  Ends-later last candidate e tried (next ∷ more) w r p h = h

  loop-Shape :
      (targets : List Target) (last : Option Thrown) (w : W)
      → Shape last targets w
          (try_targets fetch_fn is_aborted token headers reject_non_ok targets last w)
  unfolding try_targets
  loop-Shape [] last w = ([], [], refl, tt, refl)
  loop-Shape (candidate ∷ rest) last w = elim (Result-cases (attempt candidate w).0) [
    | inl (bytes, p) ↦ ([], candidate ∷ rest, refl, tt, inl (bytes, p, rw (p, caught)))
    | inr (e, p) ↦ elim (Bool-cases (is_aborted (attempt candidate w).1)) [
      | inl stop ↦ ([], candidate ∷ rest, refl, tt, inr (e, p, stop, rw (p, caught) (rw stop)))
      | inr quiet ↦
          let (tried, left, split, failing, ends) =
            loop-Shape rest (some e) (attempt candidate w).1 in
          (
            candidate ∷ tried,
            left,
            ap (λ (l : List Target). candidate ∷ l) split,
            (e, p, quiet, failing),
            Ends-later last candidate e tried left w _ p (rw (p, caught) (rw quiet ends)),
          )
    ]
  ]

-- A GET tries the targets in order. Some of them, from the first on, fail with the signal quiet;
-- then either none is left and the last error is thrown (replaced by a message of its own if it is
-- no `Error`), or the next one's body is returned, or the next one fails with the signal aborted and
-- its error is thrown. No further target is fetched.
pub get_with_fallbacks-Ends :
    {W : Type 0} (fetch_fn : String → Option Headers → W → Result Response × W)
    (is_aborted : W → Bool) (token : String) (endpoint : RelayEndpoint) (reject_non_ok : Bool)
    (w : W)
    → (tried : List Target) × (rest : List Target) × (candidates endpoint ≡ tried ++ rest)
      × Failing fetch_fn is_aborted token endpoint.headers reject_non_ok tried w
      × Ends fetch_fn is_aborted token endpoint.headers reject_non_ok none tried rest w
          (get_with_fallbacks fetch_fn is_aborted token endpoint reject_non_ok w)
unfolding get_with_fallbacks
get_with_fallbacks-Ends fetch_fn is_aborted token endpoint reject_non_ok w =
    loop-Shape fetch_fn is_aborted token endpoint.headers reject_non_ok (candidates endpoint) none w
