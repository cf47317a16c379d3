-- ===== src/Policy/Segment.antt =====
-- client/transfer/src/segment-policy.ts: which segment_code a file gets, and how many GCM segments
-- a file has under a code.
pub mod Coverage
use c_stateless_relay_tran.Base.{
  ℕ, suc, ◌+◌, ◌-◌, ◌*◌, ◌/◌, ◌^◌, ◌==◌, ◌&&◌, ◌||◌, not, Bool, true, false, if◌then◌else◌, Result,
  ok, err, error, ◌>>=◌, ◌>>◌,
}
use c_stateless_relay_tran.Base.Number.{
  Number, nan, infinity, neg_infinity, pos, neg, whole, is_finite, lt_whole, le_whole, gt_whole,
  ge_whole, is_zero,
}
use c_stateless_relay_tran.Policy.Environment.{mib}

abbrev pub v2_segment_code_whole_file : ℕ
v2_segment_code_whole_file = 0

abbrev pub v21_segment_code_min : ℕ
v21_segment_code_min = 1

abbrev pub v21_segment_code_max : ℕ
v21_segment_code_max = 5

abbrev pub v21_default_segment_code_large_file : ℕ
v21_default_segment_code_large_file = 4

abbrev pub v21_browser_segment_code_threshold_bytes : ℕ
v21_browser_segment_code_threshold_bytes = mib 64

abbrev pub v21_segment_code_64_mib : ℕ
v21_segment_code_64_mib = 3

abbrev pub v21_whole_file_threshold_bytes : ℕ
v21_whole_file_threshold_bytes = mib 16

unfoldable pub select_segment_code_for_file_size : Number → Result ℕ
select_segment_code_for_file_size byte_length =
    if not (is_finite byte_length) || lt_whole byte_length 0
    then err (error "byteLength must be a non-negative finite number")
    else if le_whole byte_length v21_whole_file_threshold_bytes
    then ok v2_segment_code_whole_file
    else if gt_whole byte_length v21_browser_segment_code_threshold_bytes
    then ok v21_segment_code_64_mib
    else ok v21_default_segment_code_large_file

unfoldable pub is_v2_whole_file_segment_code : Number → Bool
is_v2_whole_file_segment_code segment_code = is_zero segment_code

unfoldable pub is_v21_segment_code : Number → Bool
is_v21_segment_code segment_code =
    ge_whole segment_code v21_segment_code_min && le_whole segment_code v21_segment_code_max

-- The message leaves out the code.
unfoldable pub validate_segment_code : Number → Result (Unit {0})
unfolding is_v2_whole_file_segment_code is_v21_segment_code
validate_segment_code segment_code =
    if is_v2_whole_file_segment_code segment_code || is_v21_segment_code segment_code
    then ok tt
    else err (error "unsupported segment_code")

-- (1 << (index + 4)) * 1024 * 1024, index = segmentCode - 1. The shift count is truncated to an
-- integer, and it is at most 8 for a valid code, so the 32-bit shift does not wrap.
abbrev segment_bytes : Number → ℕ
segment_bytes (pos w f) = 2 ^ ((w - 1) + 4) * 1048576
segment_bytes _ = 0

unfoldable pub decode_segment_plaintext_bytes_v21 : Number → Result ℕ
unfolding validate_segment_code
decode_segment_plaintext_bytes_v21 segment_code = do
  validate_segment_code segment_code
  if is_v2_whole_file_segment_code segment_code
      then err (error "decodeSegmentPlaintextBytesV21 requires a V2.1 segment_code")
      else ok (segment_bytes segment_code)

-- Math.ceil(x / b), for a positive b.
abbrev ceil_div : Number → ℕ → ℕ
ceil_div (pos w f) b = if f then w / b + 1 else (w + (b - 1)) / b
ceil_div _ b = 0

unfoldable pub count_gcm_segments_for_file_size : Number → Number → Result ℕ
unfolding decode_segment_plaintext_bytes_v21
count_gcm_segments_for_file_size byte_length segment_code =
    if not (is_finite byte_length) || lt_whole byte_length 0
    then err (error "byteLength must be a non-negative finite number")
    else do
      validate_segment_code segment_code
      if is_zero byte_length || is_v2_whole_file_segment_code segment_code then ok 1 else do
        bytes ← decode_segment_plaintext_bytes_v21 segment_code
        ok (ceil_div byte_length bytes)
