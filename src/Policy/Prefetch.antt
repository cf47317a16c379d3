-- ===== src/Policy/Prefetch.antt =====
-- client/transfer/src/protocol/receive-prefetch-policy.ts: how many wire blocks are fetched at once.
pub mod Budget
use c_stateless_relay_tran.Base.{
  ℕ, ◌/◌, ◌||◌, not, Bool, true, false, if◌then◌else◌, ◌==◌, ltb, leb, min, max, Option, none, some,
}
use c_stateless_relay_tran.Base.Number.{
  Number, nan, infinity, neg_infinity, pos, neg, whole, is_finite, le_whole, gt_whole, trunc,
  min_whole, max_whole,
}
use c_stateless_relay_tran.Policy.Environment.{Environment, Navigator, mib}
use c_stateless_relay_tran.Policy.WireBlock.{resolve_mobile, default_relay_max_body_bytes}

abbrev pub default_browser_receive_memory_budget_bytes : ℕ
default_browser_receive_memory_budget_bytes = mib 96

abbrev pub mobile_browser_receive_memory_budget_bytes : ℕ
mobile_browser_receive_memory_budget_bytes = mib 48

abbrev pub min_browser_receive_memory_budget_bytes : ℕ
min_browser_receive_memory_budget_bytes = mib 32

abbrev pub max_browser_receive_memory_budget_bytes : ℕ
max_browser_receive_memory_budget_bytes = mib 192

abbrev pub max_mobile_browser_receive_memory_budget_bytes : ℕ
max_mobile_browser_receive_memory_budget_bytes = mib 64

abbrev pub min_browser_receive_prefetch : ℕ
min_browser_receive_prefetch = 2

abbrev pub max_browser_receive_prefetch : ℕ
max_browser_receive_prefetch = 64

abbrev pub default_initial_tokens : ℕ
default_initial_tokens = 64

usable_memory : Option Number → Option Number
usable_memory none = none
usable_memory (some value) = if not (is_finite value) || le_whole value 0 then none else some value

unfoldable pub read_navigator_device_memory_gib : Environment → Option Number
unfolding usable_memory
read_navigator_device_memory_gib env = elim env.navigator [
  | none ↦ none
  | some nav ↦ usable_memory nav.device_memory
]

-- a ?? b
abbrev pub or_else {ℓ} : {A : Type ℓ} → Option A → Option A → Option A
or_else (some a) b = some a
or_else none b = b

abbrev pub or_default {ℓ} : {A : Type ℓ} → Option A → A → A
or_default (some a) b = a
or_default none b = b

budget_for : Bool → Option Number → ℕ
budget_for mobile none =
    if mobile
    then mobile_browser_receive_memory_budget_bytes
    else default_browser_receive_memory_budget_bytes
budget_for mobile (some gib) =
    if le_whole gib 1
    then mib 32
    else if le_whole gib 2
    then mib 48
    else if le_whole gib 4
    then mib 96
    else if le_whole gib 8
    then mib 128
    else mib 192

unfoldable pub probe_browser_receive_memory_budget_bytes :
    Environment → Option Number → Option Bool → ℕ
unfolding budget_for resolve_mobile
probe_browser_receive_memory_budget_bytes env device_memory_gib is_mobile =
    let mobile = resolve_mobile env is_mobile in
    let budget =
      budget_for mobile (or_else device_memory_gib (read_navigator_device_memory_gib env)) in
    let capped =
      if mobile then min budget max_mobile_browser_receive_memory_budget_bytes else budget in
    max min_browser_receive_memory_budget_bytes (min max_browser_receive_memory_budget_bytes capped)

-- The budget and the limits are whole numbers.
pub record ResolveReceivePrefetchCountOptions : Type 0 where
  pub explicit : Option Number
  pub memory_budget_bytes : Option ℕ
  pub min_count : Option ℕ
  pub max_count : Option ℕ
  pub device_memory_gib : Option Number
  pub is_mobile : Option Bool
  pub relay_max_body_bytes : Option Number

-- Math.floor(budget / w), with the quotients by zero.
abbrev pub floor_div : ℕ → ℕ → Number
floor_div budget w = if w == 0 then (if budget == 0 then nan else infinity) else whole (budget / w)

abbrev whole_part : Number → ℕ
whole_part (pos w f) = w
whole_part _ = 0

clamp_count : ℕ → ℕ → Number → Number
clamp_count low high x = max_whole (min_whole x high) low

unfoldable pub resolve_browser_receive_prefetch_count :
    Environment → Number → ResolveReceivePrefetchCountOptions → Number
unfolding clamp_count
resolve_browser_receive_prefetch_count env wire_block_bytes options = elim options.explicit [
  | some explicit ↦ max_whole (trunc explicit) 1
  | none ↦
      let budget = or_default options.memory_budget_bytes (
        probe_browser_receive_memory_budget_bytes env options.device_memory_gib
          options.is_mobile) in
      let low = or_default options.min_count min_browser_receive_prefetch in
      let high = or_default options.max_count max_browser_receive_prefetch in
      if not (is_finite wire_block_bytes) || le_whole wire_block_bytes 0
      then whole low
      else clamp_count low high (floor_div budget (whole_part wire_block_bytes))
]

unfoldable pub resolve_receive_prefetch_count :
    Environment → Number → ResolveReceivePrefetchCountOptions → Number
unfolding resolve_browser_receive_prefetch_count
resolve_receive_prefetch_count env wire_block_bytes options =
    let block_bytes =
      if gt_whole wire_block_bytes 0
      then wire_block_bytes
      else or_default options.relay_max_body_bytes (whole default_relay_max_body_bytes) in
    if env.has_window
    then resolve_browser_receive_prefetch_count env block_bytes options
    else or_default options.explicit (whole default_initial_tokens)
