-- ===== src/Resilience/Fallbacks.antt =====
-- client/transfer/src/resilience/get-with-fallbacks.ts: a GET that goes on to the next target when
-- one fails. The fetch of one target, with the reading of its body, takes the world to an outcome
-- and the next world; `is_aborted` says whether the signal is aborted in a world.
pub mod Order
use c_stateless_relay_tran.Base.{
  ℕ, Bool, true, false, not, ◌&&◌, if◌then◌else◌, String, Option, none, some, List, [], ◌∷◌, Result,
  ok, err, Thrown, error, value,
}
use c_stateless_relay_tran.Base.Text.{concat, decimal}
use c_stateless_relay_tran.Registry.Records.{Headers, Target, RelayEndpoint}
use c_stateless_relay_tran.Transport.Put.{is_ok_status}

-- A response with the outcome of reading its body.
pub record Response : Type 0 where
  pub status : ℕ
  pub body : Result (List ℕ)

abbrev fallbacks_of : Option (List Target) → List Target
fallbacks_of none = []
fallbacks_of (some targets) = targets

-- [endpoint, ...(endpoint.fallbacks ?? [])]
unfoldable pub candidates : RelayEndpoint → List Target
candidates endpoint =
    record { url = endpoint.url; headers = endpoint.headers } ∷ fallbacks_of endpoint.fallbacks

-- a ?? b
abbrev headers_or : Option Headers → Option Headers → Option Headers
headers_or none b = b
headers_or (some a) b = some a

unfoldable pub read_response : String → Bool → Result Response → Result (List ℕ)
unfolding concat decimal
read_response token reject_non_ok (err e) = err e
read_response token reject_non_ok (ok response) =
    if reject_non_ok && not (is_ok_status response.status)
    then err (error (concat ("GET " ∷ token ∷ " failed: HTTP " ∷ decimal response.status ∷ [])))
    else response.body

-- throw lastError instanceof Error ? lastError : new Error(…)
unfoldable pub all_failed : String → Option Thrown → Thrown
unfolding concat
all_failed token none = error (concat ("GET " ∷ token ∷ " failed on all targets" ∷ []))
all_failed token (some (value s)) = error (concat ("GET " ∷ token ∷ " failed on all targets" ∷ []))
all_failed token (some e) = e

module _ {W : Type 0} (fetch_fn : String → Option Headers → W → Result Response × W)
    (is_aborted : W → Bool) (token : String) (endpoint_headers : Option Headers)
    (reject_non_ok : Bool) where
  -- One round of the loop, up to the catch.
  unfoldable pub try_target : Target → W → Result (List ℕ) × W
  try_target candidate w =
      let (response, w') =
        fetch_fn candidate.url (headers_or candidate.headers endpoint_headers) w in
      (read_response token reject_non_ok response, w')

  caught : (Option Thrown → W → Result (List ℕ) × W) → Result (List ℕ) → W → Result (List ℕ) × W
  caught again (ok bytes) w = (ok bytes, w)
  caught again (err e) w = let next = again (some e) w in if is_aborted w then (err e, w) else next

  try_targets : List Target → Option Thrown → W → Result (List ℕ) × W
  unfolding try_target caught all_failed
  try_targets [] last_error w = (err (all_failed token last_error), w)
  try_targets (candidate ∷ rest) last_error w =
      let (r, w') = try_target candidate w in caught (try_targets rest) r w'

module _ {W : Type 0} (fetch_fn : String → Option Headers → W → Result Response × W)
    (is_aborted : W → Bool) where
  unfoldable pub get_with_fallbacks : String → RelayEndpoint → Bool → W → Result (List ℕ) × W
  unfolding try_targets candidates
  get_with_fallbacks token endpoint reject_non_ok w =
      try_targets fetch_fn is_aborted token endpoint.headers reject_non_ok (candidates endpoint)
        none w
