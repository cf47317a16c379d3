-- ===== src/Upload/Prepare.antt =====
-- prepareUploadStreaming of client/transfer/src/session/upload-session.ts: a file is read in slices
-- and encrypted, in a worker or on the main thread, into the map of its wire blocks. The cryptography
-- session and the worker's client are parameters; progress reports are kept where the preparation
-- returns.
pub mod Progress
pub mod Fallback
use c_stateless_relay_tran.Base.{
  ℕ, zero, suc, ◌+◌, ◌-◌, ◌/◌, min, max, ltb, leb, ◌==◌, Bool, true, false, not, ◌&&◌, ◌||◌,
  if◌then◌else◌, String, Option, none, some, List, [], ◌∷◌, ◌++◌, map, length, Result, ok, err,
  ◌>>=◌, ◌>>◌, Thrown, error, value,
}
use c_stateless_relay_tran.Base.Number.{Number, whole, is_finite, le_whole, gt_whole, trunc}
use c_stateless_relay_tran.Base.StringMap
use c_stateless_relay_tran.Base.StringMap.{StringMap}
use c_stateless_relay_tran.Base.Text.{includes_ci}
use c_stateless_relay_tran.Policy.Environment.{Environment}
use c_stateless_relay_tran.Policy.Segment.{
  select_segment_code_for_file_size, validate_segment_code, is_v2_whole_file_segment_code,
  decode_segment_plaintext_bytes_v21, count_gcm_segments_for_file_size,
}
use c_stateless_relay_tran.Policy.WireBlock.{
  wire_block_bytes_16_mib, default_relay_max_body_bytes, resolve_effective_wire_block_bytes,
  is_true, is_not_false, or_whole,
}
use c_stateless_relay_tran.Resilience.Failure.{message_of}
use c_stateless_relay_tran.Upload.Reading.{
  slice, pieces, read_file_by_gcm_segments, Fed, feed_upload_session_with_yield,
  upload_worker_feed_chunk_bytes,
}
use c_stateless_relay_tran.Upload.Blocks.{
  UploadMap, UploadWireBlock, Preparing, Layout, Prepared, store_wire_block, store_wire_blocks,
  layout_of, segment_index, report_at, first_report, last_report, report_deltas,
}

is_wire_layout_failure : Thrown → Bool
unfolding message_of includes_ci
is_wire_layout_failure e = elim (message_of e) [
  | none ↦ false
  | some message ↦ includes_ci "wire layout failed" message
]

-- What twelveC.createUploadPrepareSession returns.
pub record PrepareSession (S : Type 0) : Type 0 where
  pub feed : List ℕ → S → Result S
  pub take_ready_blocks : S → List UploadWireBlock × S
  pub finalize : S → Result UploadWireBlock

module _ {S : Type 0} (ops : PrepareSession S) where
  -- The loop over the slices on the main thread.
  encrypt_chunks : Layout → List (List ℕ) → Prepared S → Result (Prepared S)
  unfolding report_deltas store_wire_blocks feed_upload_session_with_yield
  encrypt_chunks layout [] p = ok p
  encrypt_chunks layout (chunk ∷ chunks) p =
      feed_upload_session_with_yield ops.feed chunk p.session >>= λ fed.
      let reported = report_deltas layout fed.deltas p in
      let (blocks, session) = ops.take_ready_blocks fed.session in
      encrypt_chunks layout chunks
        (record reported { session = session; uploads = store_wire_blocks p.uploads blocks })

  unfoldable pub prepare_upload_streaming_on_main_thread :
      Result S → ℕ → List ℕ → Result (Prepared S)
  unfolding layout_of encrypt_chunks first_report last_report store_wire_block
      read_file_by_gcm_segments
  prepare_upload_streaming_on_main_thread create_session code file =
      layout_of code (length file) >>= λ layout. create_session >>= λ session.
      read_file_by_gcm_segments code file >>= λ chunks.
      encrypt_chunks layout chunks (record {
        session = session;
        uploads = [];
        bytes_fed = 0;
        reports = first_report layout ∷ [];
      })
      >>= λ p. ops.finalize p.session >>= λ token0. ok (record p {
        uploads = store_wire_block p.uploads token0;
        reports = p.reports ++ last_report layout ∷ [];
      })

-- The worker first, where one can be had; its failure is passed on only where it was asked for.
unfoldable pub execute_prepare_upload_streaming {ℓ} :
    {A : Type ℓ} → Option Bool → Bool → Result A → Result A → Result A
execute_prepare_upload_streaming prefer_worker worker_available in_worker on_main_thread =
    if is_not_false prefer_worker && worker_available
    then elim in_worker [
      | ok p ↦ ok p
      | err e ↦ if is_true prefer_worker then err e else on_main_thread
    ]
    else on_main_thread

pub record PrepareUploadOptions : Type 0 where
  pub relay_max_body_bytes : Option Number
  pub max_wire_block_bytes : Option Number
  pub prefer_conservative_wire_blocks : Option Bool

unfoldable pub resolve_prepare_max_wire_block_bytes :
    Environment → ℕ → PrepareUploadOptions → Result Number
unfolding resolve_effective_wire_block_bytes
resolve_prepare_max_wire_block_bytes env size options = elim options.max_wire_block_bytes [
  | some limit ↦
      if not (is_finite limit) || le_whole limit 0
      then err (error "maxWireBlockBytes must be a positive finite number")
      else ok (trunc limit)
  | none ↦ resolve_effective_wire_block_bytes env (record {
    file_size_bytes = whole size;
    relay_max_body_bytes =
        some (or_whole options.relay_max_body_bytes default_relay_max_body_bytes);
    prefer_conservative = options.prefer_conservative_wire_blocks;
    is_mobile = none;
  })
]

-- segmentCode ?? selectSegmentCodeForFileSize(file.size)
unfoldable pub resolve_segment_code : Option ℕ → ℕ → Result ℕ
resolve_segment_code none size = select_segment_code_for_file_size (whole size)
resolve_segment_code (some code) size = ok code

-- A layout failure with a larger block cap is tried again with 16 MiB.
unfoldable pub retry_layout {ℓ} : {A : Type ℓ} → Number → Result A → (Number → Result A) → Result A
unfolding is_wire_layout_failure
retry_layout cap (ok a) execute = ok a
retry_layout cap (err e) execute =
    if not (is_wire_layout_failure e) || le_whole cap wire_block_bytes_16_mib
    then err e
    else execute (whole wire_block_bytes_16_mib)

-- `execute` prepares under a segment code and a block cap.
unfoldable pub prepare_upload_streaming {ℓ} :
    {A : Type ℓ}
    → Environment
    → PrepareUploadOptions
    → Option ℕ
    → ℕ
    → (ℕ → Number → Result A)
    → Result A
unfolding resolve_segment_code resolve_prepare_max_wire_block_bytes retry_layout
prepare_upload_streaming env options segment_code size execute = do
  code ← resolve_segment_code segment_code size
  validate_segment_code (whole code)
  cap ← resolve_prepare_max_wire_block_bytes env size options
  retry_layout cap (execute code cap) (execute code)

-- prepareUpload retries in the same way, with the test the other way round.
unfoldable pub prepare_upload {ℓ} :
    {A : Type ℓ}
    → Environment
    → PrepareUploadOptions
    → Option ℕ
    → ℕ
    → (ℕ → Number → Result A)
    → Result A
unfolding resolve_segment_code resolve_prepare_max_wire_block_bytes is_wire_layout_failure
prepare_upload env options segment_code size execute = do
  code ← resolve_segment_code segment_code size
  validate_segment_code (whole code)
  cap ← resolve_prepare_max_wire_block_bytes env size options
  elim (execute code cap) [
    | ok a ↦ ok a
    | err e ↦
        if is_wire_layout_failure e && gt_whole cap wire_block_bytes_16_mib
        then execute code (whole wire_block_bytes_16_mib)
        else err e
  ]
