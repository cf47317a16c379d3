-- ===== src/Resilience/Ramp.antt =====
-- client/transfer/src/resilience/stripe-put-concurrency.ts: how many block PUTs may run at once. The
-- polling loop `waitForStripePutSlot` is a part of the upload workers, in Upload/Stripe.
use text.Mathlib.Text.{◌==◌ as str_eq, starts_with}
use c_stateless_relay_tran.Base.{
  ℕ, ◌+◌, ◌≤◌, ◌<◌, min, ◌||◌, ◌&&◌, not, Bool, true, false, if◌then◌else◌, ltb, leb, ◌==◌, String,
  Option, none, some, List, [], ◌∷◌, drop, map, Result, ok, err, arith,
}
use c_stateless_relay_tran.Base.Text.{codes, lower, includes_ci}

pub data RelayHopProtocol : Type 0 where
  h2 http1 unknown : RelayHopProtocol

unfoldable pub resolve_ramped_stripe_concurrency : ℕ → ℕ → ℕ
resolve_ramped_stripe_concurrency completed_blocks max_concurrency =
    let staged =
      if leb 3 completed_blocks
      then 6
      else if leb 2 completed_blocks
      then 4
      else if leb 1 completed_blocks
      then 2
      else 1 in
    min max_concurrency staged

same_codes : List ℕ → List ℕ → Bool
same_codes [] [] = true
same_codes (c ∷ s) (d ∷ t) = c == d && same_codes s t
same_codes _ _ = false

-- `toLowerCase` is `lower` at each code point, for ASCII.
parse_hop_protocol : Option String → RelayHopProtocol
unfolding same_codes includes_ci
parse_hop_protocol none = unknown
parse_hop_protocol (some raw) =
    if str_eq raw ""
    then unknown
    else if same_codes (map lower (codes raw)) (codes "h2") || includes_ci "http/2" raw
    then h2
    else if includes_ci "http/1" raw
    then http1
    else unknown

-- A PerformanceResourceTiming entry.
pub record ResourceEntry : Type 0 where
  pub name : String
  pub next_hop_protocol : Option String

-- The last of the entries that is for the URL.
last_match : String → Option ResourceEntry → List ResourceEntry → Option ResourceEntry
last_match url found [] = found
last_match url found (entry ∷ entries) =
    last_match url
      (if str_eq entry.name url || starts_with entry.name url then some entry else found) entries

last_entry : Option ResourceEntry → List ResourceEntry → Option ResourceEntry
last_entry last [] = last
last_entry last (entry ∷ entries) = last_entry (some entry) entries

hop_of : Option ResourceEntry → Option ResourceEntry → RelayHopProtocol
unfolding parse_hop_protocol
hop_of none none = parse_hop_protocol none
hop_of none (some last) = parse_hop_protocol last.next_hop_protocol
hop_of (some entry) last = parse_hop_protocol entry.next_hop_protocol

-- The probe: whether `performance` is there, the entries before it, the outcome of the HEAD request,
-- and the entries after it.
unfoldable pub detect_relay_hop_protocol :
    Bool → String → ℕ → Result (Unit {0}) → List ResourceEntry → RelayHopProtocol
unfolding last_match last_entry hop_of
detect_relay_hop_protocol has_performance sample_url before_count (err e) entries = unknown
detect_relay_hop_protocol has_performance sample_url before_count (ok _) entries =
    if not has_performance
    then unknown
    else hop_of (last_match sample_url none (drop before_count entries)) (last_entry none entries)

pub record ResolveStripeRampConcurrencyOptions : Type 0 where
  pub relay_count : Option ℕ
  pub explicit : Option Bool
  pub hop_protocol : RelayHopProtocol
  pub uses_32_mib_wire_blocks : Bool
  pub is_browser : Bool

abbrev more_than_one : Option ℕ → Bool
more_than_one none = false
more_than_one (some n) = ltb 1 n

abbrev pub is_h2 : RelayHopProtocol → Bool
is_h2 h2 = true
is_h2 http1 = false
is_h2 unknown = false

unfoldable pub resolve_stripe_ramp_concurrency : ResolveStripeRampConcurrencyOptions → Bool
resolve_stripe_ramp_concurrency options = elim options.explicit [
  | some explicit ↦ explicit
  | none ↦
      if not options.uses_32_mib_wire_blocks
      then false
      else if more_than_one options.relay_count
      then false
      else if not options.is_browser
      then false
      else not (is_h2 options.hop_protocol)
]

-- The staged limit never exceeds the maximum or 6, is positive where the maximum is, and does not
-- fall as blocks complete.
pub ramped_limit :
    (done more max_concurrency : ℕ)
    → 0 < max_concurrency
    → (resolve_ramped_stripe_concurrency done max_concurrency ≤ max_concurrency)
      × (resolve_ramped_stripe_concurrency done max_concurrency ≤ 6)
      × (0 < resolve_ramped_stripe_concurrency done max_concurrency)
      × (resolve_ramped_stripe_concurrency done max_concurrency
          ≤ resolve_ramped_stripe_concurrency (done + more) max_concurrency)
unfolding resolve_ramped_stripe_concurrency
ramped_limit done more max_concurrency h = ground arith
