-- ===== src/Policy/Segment/Coverage.antt =====
-- The segments that `countGcmSegmentsForFileSize` counts cover the file, with none to spare; the
-- selected code is valid.
use native.Mathlib.Nat.{one-le-pow}
use c_stateless_relay_tran.Base.{◌^◌, ℕ, suc, ◌+◌, ◌-◌, ◌*◌, ◌/◌, ◌≤◌, ◌<◌, ◌≡◌, ok, arith}
use c_stateless_relay_tran.Base.Number.{Number, whole}
use c_stateless_relay_tran.Policy.Segment.{
  select_segment_code_for_file_size, validate_segment_code, decode_segment_plaintext_bytes_v21,
  count_gcm_segments_for_file_size,
}

-- The code that is selected for a size is one that the other functions accept.
pub select-valid :
    (byte_length : Number) (code : ℕ)
    → select_segment_code_for_file_size byte_length ≡ ok code
    → validate_segment_code (whole code) ≡ ok tt
unfolding select_segment_code_for_file_size validate_segment_code
select-valid byte_length code h = ground arith

ceil_bounds : (w b : ℕ) → 0 < b → (w ≤ (w + (b - 1)) / b * b) × ((w + (b - 1)) / b * b < w + b)
ceil_bounds w b q = grind arith

decode_value :
    (code bytes : ℕ)
    → decode_segment_plaintext_bytes_v21 (whole code) ≡ ok bytes
    → bytes ≡ 2 ^ ((code - 1) + 4) * 1048576
unfolding decode_segment_plaintext_bytes_v21
decode_value code bytes h = ground arith

pub decode_pos :
    (code bytes : ℕ) → decode_segment_plaintext_bytes_v21 (whole code) ≡ ok bytes → 0 < bytes
decode_pos code bytes h =
    omega (arith, decode_value code bytes h, one-le-pow ((code - 1) + 4) 2 (omega arith))

count_value :
    (w code bytes n : ℕ)
    → decode_segment_plaintext_bytes_v21 (whole code) ≡ ok bytes
    → count_gcm_segments_for_file_size (whole (suc w)) (whole code) ≡ ok n
    → n ≡ (suc w + (bytes - 1)) / bytes
unfolding count_gcm_segments_for_file_size
count_value w code bytes n d h = ground arith

-- Under a V2.1 code a non-empty file of whole length has as many segments as cover it: together
-- they hold it, and without the last one they would not.
pub segments_cover :
    (w code bytes n : ℕ)
    → decode_segment_plaintext_bytes_v21 (whole code) ≡ ok bytes
    → count_gcm_segments_for_file_size (whole (suc w)) (whole code) ≡ ok n
    → (suc w ≤ n * bytes) × (n * bytes < suc w + bytes)
segments_cover w code bytes n d h =
    rw (count_value w code bytes n d h) (ceil_bounds (suc w) bytes (decode_pos code bytes d))
