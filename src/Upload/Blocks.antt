-- ===== src/Upload/Blocks.antt =====
-- The wire blocks that a preparation collects and the progress that it reports, of
-- client/transfer/src/session/upload-session.ts.
use c_stateless_relay_tran.Base.{
  ℕ, ◌+◌, ◌-◌, ◌/◌, min, max, ◌==◌, Bool, if◌then◌else◌, String, List, [], ◌∷◌, ◌++◌, Result, ok,
  ◌>>=◌,
}
use c_stateless_relay_tran.Base.Number.{whole}
use c_stateless_relay_tran.Base.StringMap
use c_stateless_relay_tran.Base.StringMap.{StringMap}
use c_stateless_relay_tran.Policy.Segment.{
  is_v2_whole_file_segment_code, decode_segment_plaintext_bytes_v21,
  count_gcm_segments_for_file_size,
}

abbrev pub UploadMap : Type 0
UploadMap = StringMap (List ℕ)

pub record UploadWireBlock : Type 0 where
  pub token : String
  pub data_bytes : List ℕ

-- onProgress with phase 'preparing'
pub record Preparing : Type 0 where
  pub bytes_fed : ℕ
  pub total_bytes : ℕ
  pub segment_index : ℕ
  pub segment_total : ℕ

-- The file's size, its number of segments, and the bytes of a segment.
pub record Layout : Type 0 where
  pub whole_file : Bool
  pub size : ℕ
  pub segment_total : ℕ
  pub segment_bytes : ℕ

pub record Prepared (S : Type 0) : Type 0 where
  pub session : S
  pub uploads : UploadMap
  pub bytes_fed : ℕ
  pub reports : List Preparing

unfoldable pub store_wire_block : UploadMap → UploadWireBlock → UploadMap
store_wire_block uploads block = StringMap.set block.token block.data_bytes uploads

unfoldable pub store_wire_blocks : UploadMap → List UploadWireBlock → UploadMap
unfolding store_wire_block
store_wire_blocks uploads [] = uploads
store_wire_blocks uploads (block ∷ blocks) =
    store_wire_blocks (store_wire_block uploads block) blocks

unfoldable pub layout_of : ℕ → ℕ → Result Layout
layout_of code size = do
  segment_total ← count_gcm_segments_for_file_size (whole size) (whole code)
  segment_bytes ←
      (if is_v2_whole_file_segment_code (whole code)
        then ok size
        else decode_segment_plaintext_bytes_v21 (whole code))
  ok (record {
    whole_file = is_v2_whole_file_segment_code (whole code);
    size = size;
    segment_total = segment_total;
    segment_bytes = segment_bytes;
  })

-- Math.min(segmentTotal, Math.max(1, Math.ceil(bytesFed / segmentBytes)))
unfoldable pub segment_index : Layout → ℕ → ℕ
segment_index layout bytes_fed =
    if layout.whole_file
    then 1
    else min layout.segment_total
        (max 1 ((bytes_fed + (layout.segment_bytes - 1)) / layout.segment_bytes))

abbrev pub report_at : Layout → ℕ → ℕ → Preparing
report_at layout bytes_fed index = record {
  bytes_fed = bytes_fed;
  total_bytes = layout.size;
  segment_index = index;
  segment_total = layout.segment_total;
}

unfoldable pub first_report : Layout → Preparing
first_report layout = report_at layout 0 (if layout.size == 0 then 0 else 1)

unfoldable pub last_report : Layout → Preparing
last_report layout = report_at layout layout.size layout.segment_total

-- The callback of feedUploadSessionWithYield, for each of its deltas.
unfoldable pub report_deltas : {S : Type 0} → Layout → List ℕ → Prepared S → Prepared S
unfolding segment_index
report_deltas layout [] p = p
report_deltas layout (delta ∷ deltas) p =
    let bytes_fed = p.bytes_fed + delta in
    report_deltas layout deltas (record p {
      bytes_fed = bytes_fed;
      reports = p.reports ++ report_at layout bytes_fed (segment_index layout bytes_fed) ∷ [];
    })
