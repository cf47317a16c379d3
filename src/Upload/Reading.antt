-- ===== src/Upload/Reading.antt =====
-- readFileByGcmSegments and feedUploadSessionWithYield of
-- client/transfer/src/session/upload-session.ts: the slices in which a file is read, and the parts in
-- which a slice is fed to the cryptography session, which is a parameter. The loops take fuel; one
-- more than the bytes that are left is enough.
pub mod Tiling
pub mod Feeding
use c_stateless_relay_tran.Base.{
  ℕ, zero, suc, ◌+◌, ◌-◌, min, ltb, leb, Bool, true, false, if◌then◌else◌, List, [], ◌∷◌, ◌++◌, map,
  length, take, drop, Result, ok, err, ◌>>=◌, ◌&&◌, Thrown,
}
use c_stateless_relay_tran.Base.Number.{whole}
use c_stateless_relay_tran.Policy.Segment.{
  is_v2_whole_file_segment_code, decode_segment_plaintext_bytes_v21,
}

abbrev pub upload_feed_yield_chunk_bytes : ℕ
upload_feed_yield_chunk_bytes = 262144

abbrev pub upload_worker_feed_chunk_bytes : ℕ
upload_worker_feed_chunk_bytes = 4194304

abbrev pub upload_file_read_slice_bytes : ℕ
upload_file_read_slice_bytes = 2097152

abbrev pub upload_progress_report_interval_bytes : ℕ
upload_progress_report_interval_bytes = 4194304

-- file.slice(start, end), chunk.subarray(start, end)
unfoldable pub slice {ℓ} : {A : Type ℓ} → List A → ℕ × ℕ → List A
slice bytes (start, end) = take (end - start) (drop start bytes)

-- The pieces of at most `step` from `offset` to `end`.
unfoldable pub pieces : ℕ → ℕ → ℕ → ℕ → List (ℕ × ℕ)
pieces step zero offset end = []
pieces step (suc fuel) offset end =
    let piece_end = offset + min step (end - offset) in
    let rest = pieces step fuel piece_end end in
    if ltb offset end then (offset, piece_end) ∷ rest else []

-- The outer loop: the slices of one segment after the other.
unfoldable pub segment_slices : ℕ → ℕ → ℕ → ℕ → List (ℕ × ℕ)
unfolding pieces
segment_slices segment_bytes zero offset size = []
segment_slices segment_bytes (suc fuel) offset size =
    let segment_end = min (offset + segment_bytes) size in
    let slices =
      pieces upload_file_read_slice_bytes (suc (segment_end - offset)) offset segment_end in
    let rest = segment_slices segment_bytes fuel segment_end size in
    if ltb offset size then slices ++ rest else []

-- The slices of a file of the given size.
unfoldable pub file_slices : ℕ → ℕ → Result (List (ℕ × ℕ))
unfolding segment_slices
file_slices segment_code size =
    if is_v2_whole_file_segment_code (whole segment_code)
    then ok (if ltb 0 size then (0, size) ∷ [] else [])
    else do
      segment_bytes ← decode_segment_plaintext_bytes_v21 (whole segment_code)
      ok (segment_slices segment_bytes (suc size) 0 size)

unfoldable pub read_file_by_gcm_segments {ℓ} : {A : Type ℓ} → ℕ → List A → Result (List (List A))
unfolding file_slices slice
read_file_by_gcm_segments segment_code file = do
  slices ← file_slices segment_code (length file)
  ok (map (slice file) slices)

-- What feeding leaves: the session, and the deltas that onPartialBytesFed was called with.
pub record Fed (S : Type 0) : Type 0 where
  pub session : S
  pub deltas : List ℕ

module _ {S : Type 0} (feed : List ℕ → S → Result S) where
  last_report : ℕ → Fed S → Fed S
  last_report unreported fed =
      if ltb 0 unreported then record fed { deltas = fed.deltas ++ unreported ∷ [] } else fed

  -- One round: a part is fed, and a report is made when enough has gathered.
  feed_parts : List ℕ → List (ℕ × ℕ) → ℕ → Fed S → Result (Fed S)
  unfolding slice last_report
  feed_parts chunk [] unreported fed = ok (last_report unreported fed)
  feed_parts chunk ((offset, end) ∷ parts) unreported fed =
      let gathered = unreported + (end - offset) in
      feed (slice chunk (offset, end)) fed.session >>= λ session.
      if leb upload_progress_report_interval_bytes gathered
      then feed_parts chunk parts 0
          (record { session = session; deltas = fed.deltas ++ gathered ∷ [] })
      else feed_parts chunk parts gathered (record { session = session; deltas = fed.deltas })

  unfoldable pub feed_upload_session_with_yield : List ℕ → S → Result (Fed S)
  unfolding feed_parts pieces
  feed_upload_session_with_yield chunk session =
      feed_parts chunk (pieces upload_feed_yield_chunk_bytes (suc (length chunk)) 0 (length chunk))
        0 (record { session = session; deltas = [] })
