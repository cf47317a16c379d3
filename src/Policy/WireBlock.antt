-- ===== src/Policy/WireBlock.antt =====
-- client/transfer/src/wire-block-policy.ts: the size limit of a wire block.
pub mod Bounds
use c_stateless_relay_tran.Base.{
  ℕ, ◌||◌, ◌&&◌, not, Bool, true, false, if◌then◌else◌, ltb, length, String, Option, none, some,
  List, [], ◌∷◌, Result, ok, err, error, ◌>>=◌,
}
use c_stateless_relay_tran.Base.Number.{
  Number, whole, is_finite, lt_whole, le_whole, trunc, min_whole,
}
use c_stateless_relay_tran.Base.StringMap.{StringMap}
use c_stateless_relay_tran.Base.Text.{any_of_ci}
use c_stateless_relay_tran.Policy.Environment.{Environment, Navigator, mib}

abbrev pub wire_block_bytes_16_mib : ℕ
wire_block_bytes_16_mib = mib 16

abbrev pub wire_block_bytes_32_mib : ℕ
wire_block_bytes_32_mib = mib 32

abbrev pub default_relay_max_body_bytes : ℕ
default_relay_max_body_bytes = wire_block_bytes_32_mib

abbrev pub large_file_wire_block_threshold_bytes : ℕ
large_file_wire_block_threshold_bytes = mib 128

pub record ChooseEffectiveWireBlockBytesOptions : Type 0 where
  pub file_size_bytes : Number
  pub relay_max_body_bytes : Option Number
  pub prefer_conservative : Option Bool
  pub is_mobile : Option Bool

-- o === true
abbrev pub is_true : Option Bool → Bool
is_true none = false
is_true (some b) = b

-- o !== false
abbrev pub is_not_false : Option Bool → Bool
is_not_false none = true
is_not_false (some b) = b

likely_mobile : Navigator → Bool
unfolding any_of_ci
likely_mobile nav =
    if is_true nav.ua_data_mobile
    then true
    else any_of_ci ("android" ∷ "iphone" ∷ "ipad" ∷ "ipod" ∷ "mobile" ∷ []) nav.user_agent

unfoldable pub is_likely_mobile_browser : Environment → Bool
unfolding likely_mobile
is_likely_mobile_browser env = elim env.navigator [ none ↦ false | some nav ↦ likely_mobile nav ]

-- isMobile === true || (isMobile !== false && isLikelyMobileBrowser())
unfoldable pub resolve_mobile : Environment → Option Bool → Bool
resolve_mobile env is_mobile =
    is_true is_mobile || (is_not_false is_mobile && is_likely_mobile_browser env)

unfoldable pub choose_policy_wire_block_bytes :
    Environment → ChooseEffectiveWireBlockBytesOptions → Result ℕ
unfolding resolve_mobile
choose_policy_wire_block_bytes env options =
    if not (is_finite options.file_size_bytes) || lt_whole options.file_size_bytes 0
    then err (error "fileSizeBytes must be a non-negative finite number")
    else if is_true options.prefer_conservative
        || (resolve_mobile env options.is_mobile
            || lt_whole options.file_size_bytes large_file_wire_block_threshold_bytes)
    then ok wire_block_bytes_16_mib
    else ok wire_block_bytes_32_mib

-- The argument is config.relay?.maxBodyBytes.
unfoldable pub resolve_relay_max_body_bytes : Option Number → Result Number
resolve_relay_max_body_bytes none = ok (whole default_relay_max_body_bytes)
resolve_relay_max_body_bytes (some value) =
    if not (is_finite value) || le_whole value 0
    then err (error "relay.maxBodyBytes must be a positive finite number")
    else ok (trunc value)

abbrev pub or_whole : Option Number → ℕ → Number
or_whole none k = whole k
or_whole (some x) k = x

unfoldable pub resolve_effective_wire_block_bytes :
    Environment → ChooseEffectiveWireBlockBytesOptions → Result Number
resolve_effective_wire_block_bytes env options = do
  let relay_max = or_whole options.relay_max_body_bytes default_relay_max_body_bytes
  policy ← choose_policy_wire_block_bytes env options
  ok (min_whole relay_max policy)

-- A block is the list of its bytes.
unfoldable pub upload_map_uses_32_mib_wire_blocks : StringMap (List ℕ) → Bool
upload_map_uses_32_mib_wire_blocks [] = false
upload_map_uses_32_mib_wire_blocks ((_, blob) ∷ uploads) =
    if ltb wire_block_bytes_16_mib (length blob)
    then true
    else upload_map_uses_32_mib_wire_blocks uploads

unfoldable pub resolve_upload_uses_32_mib_wire_blocks : StringMap (List ℕ) → Option ℕ → Bool
unfolding upload_map_uses_32_mib_wire_blocks
resolve_upload_uses_32_mib_wire_blocks uploads (some wire_block_bytes) =
    ltb wire_block_bytes_16_mib wire_block_bytes
resolve_upload_uses_32_mib_wire_blocks uploads none = upload_map_uses_32_mib_wire_blocks uploads
