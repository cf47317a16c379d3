-- ===== src/Tests/Preparing.antt =====
-- The preparation of a file of three bytes.
use c_stateless_relay_tran.Base.{
  ℕ, zero, suc, ◌≤◌, ◌≡◌, ◌≢◌, ◌⊎◌, inl, inr, refl, Bool, true, false, String, Option, none, some,
  List, [], ◌∷◌, ◌++◌, length, flatten, Result, ok, err, Thrown, error, arith, All,
}
use c_stateless_relay_tran.Base.Number.{nan, whole}
use c_stateless_relay_tran.Policy.Environment.{Environment}
use c_stateless_relay_tran.Policy.Segment.{
  decode_segment_plaintext_bytes_v21, count_gcm_segments_for_file_size,
}
use c_stateless_relay_tran.Policy.WireBlock.{
  resolve_effective_wire_block_bytes, choose_policy_wire_block_bytes,
}
use c_stateless_relay_tran.Upload.Reading.{
  read_file_by_gcm_segments, Fed, feed_upload_session_with_yield, upload_feed_yield_chunk_bytes,
}
use c_stateless_relay_tran.Upload.Reading.Tiling.{read-whole_file}
use c_stateless_relay_tran.Upload.Reading.Feeding.{sum, feed_each, feed-whole_chunk}
use c_stateless_relay_tran.Upload.Blocks.{Preparing, Layout, Prepared, layout_of, last_report}
use c_stateless_relay_tran.Upload.Prepare.{
  PrepareSession, PrepareUploadOptions, prepare_upload_streaming_on_main_thread,
  prepare_upload_streaming, prepare_upload, resolve_prepare_max_wire_block_bytes,
}
use c_stateless_relay_tran.Upload.Prepare.Progress.{Within, main_thread_progress}
use c_stateless_relay_tran.Upload.Prepare.Fallback.{prepare_streaming-prepare_upload}

abbrev small_file : List ℕ
small_file = 7 ∷ 8 ∷ 9 ∷ []

read-whole_file_example : flatten (small_file ∷ []) ≡ small_file
unfolding read_file_by_gcm_segments decode_segment_plaintext_bytes_v21
read-whole_file_example = read-whole_file 1 small_file (small_file ∷ []) refl

-- A session that keeps what it was fed with, and makes one block of it.
abbrev keeping : PrepareSession (List ℕ)
keeping = record {
  feed = λ part fed. ok (fed ++ part);
  take_ready_blocks = λ fed. ([], fed);
  finalize = λ fed. ok (record { token = "t0"; data_bytes = fed });
}

abbrev fed_once : Fed (List ℕ)
fed_once = record { session = small_file; deltas = 3 ∷ [] }

feed-whole_chunk_example :
    (parts : List (List ℕ)) × (flatten parts ≡ small_file)
    × All (λ part. length part ≤ upload_feed_yield_chunk_bytes) parts
    × (feed_each keeping.feed parts [] ≡ ok small_file)
    × (sum (3 ∷ []) ≡ length small_file)
unfolding feed_upload_session_with_yield
feed-whole_chunk_example = feed-whole_chunk keeping.feed small_file [] fed_once refl

abbrev at_start : Preparing
at_start = record { bytes_fed = 0; total_bytes = 3; segment_index = 1; segment_total = 1 }

abbrev at_end : Preparing
at_end = record { bytes_fed = 3; total_bytes = 3; segment_index = 1; segment_total = 1 }

abbrev prepared : Prepared (List ℕ)
prepared = record {
  session = small_file;
  uploads = ("t0", small_file) ∷ [];
  bytes_fed = 3;
  reports = at_start ∷ at_end ∷ at_end ∷ [];
}

main_thread_progress_example :
    (layout : Layout) × (layout_of 1 3 ≡ ok layout)
    × (3 ≡ length small_file)
    × All (Within layout) prepared.reports
    × ((earlier : List Preparing) × (prepared.reports ≡ earlier ++ last_report layout ∷ []))
unfolding prepare_upload_streaming_on_main_thread count_gcm_segments_for_file_size
    c_stateless_relay_tran.Base.StringMap.set
main_thread_progress_example = main_thread_progress keeping (ok []) 1 small_file prepared refl

abbrev no_browser : Environment
no_browser = record { has_window = false; navigator = none }

abbrev plain : PrepareUploadOptions
plain = record {
  relay_max_body_bytes = none;
  max_wire_block_bytes = none;
  prefer_conservative_wire_blocks = none;
}

plain-not-nan : resolve_prepare_max_wire_block_bytes no_browser 3 plain ≢ ok nan
unfolding resolve_prepare_max_wire_block_bytes choose_policy_wire_block_bytes
    c_stateless_relay_tran.Policy.WireBlock.is_likely_mobile_browser
plain-not-nan e =
    let value : resolve_prepare_max_wire_block_bytes no_browser 3 plain ≡ ok (whole 16777216) =
      refl in
    let numbers : ok (whole 16777216) ≡ ok nan = rw value at e in ground arith

prepare_streaming-prepare_upload_example :
    prepare_upload_streaming no_browser plain none 3 (λ code cap. ok code)
    ≡ prepare_upload no_browser plain none 3 (λ code cap. ok code)
prepare_streaming-prepare_upload_example =
    prepare_streaming-prepare_upload no_browser plain none 3 (λ code cap. ok code) plain-not-nan
