-- ===== src/Upload/Prepare/Fallback.antt =====
-- What the two fallbacks of a preparation, to the main thread and to smaller blocks, come to.
use c_stateless_relay_tran.Base.{
  ℕ, ◌≡◌, ◌≢◌, ◌⊎◌, inl, inr, refl, not, ◌&&◌, Bool, true, false, if◌then◌else◌, Option, Result, ok,
  err, arith, Result-cases, Bool-cases,
}
use c_stateless_relay_tran.Base.Number.{Number, nan, whole, le_whole, gt_whole}
use c_stateless_relay_tran.Policy.Environment.{Environment}
use c_stateless_relay_tran.Policy.Segment.{validate_segment_code}
use c_stateless_relay_tran.Policy.WireBlock.{wire_block_bytes_16_mib, is_true, is_not_false}
use c_stateless_relay_tran.Upload.Prepare.{
  PrepareUploadOptions, execute_prepare_upload_streaming, prepare_upload_streaming, prepare_upload,
  resolve_segment_code, resolve_prepare_max_wire_block_bytes, retry_layout, is_wire_layout_failure,
}

-- Unless the worker was asked for, a file that the main thread can prepare is prepared: by the
-- worker, or by the main thread where there is no worker or it failed.
pub worker_failure_recovers {ℓ} :
    {A : Type ℓ} (prefer_worker : Option Bool) (available : Bool) (in_worker : Result A) (a : A)
    → is_true prefer_worker ≡ false
    → (b : A) × (execute_prepare_upload_streaming prefer_worker available in_worker (ok a) ≡ ok b)
      × ((b ≡ a) ⊎ (in_worker ≡ ok b))
unfolding execute_prepare_upload_streaming
worker_failure_recovers prefer_worker true (ok p) a h =
    elim (Bool-cases (is_not_false prefer_worker)) [
      | inl q ↦ (p, ground arith, inr refl)
      | inr q ↦ (a, ground arith, inl refl)
    ]
worker_failure_recovers prefer_worker false (ok p) a h = (a, ground arith, inl refl)
worker_failure_recovers prefer_worker available (err e) a h = (a, ground arith, inl refl)

not_above :
    (cap : Number)
    → cap ≢ nan
    → gt_whole cap wire_block_bytes_16_mib ≡ not (le_whole cap wire_block_bytes_16_mib)
not_above cap h = ground arith

retry_same {ℓ} :
    {A : Type ℓ} (cap : Number) (r : Result A) (execute : Number → Result A)
    → cap ≢ nan
    → retry_layout cap r execute ≡ elim r [
      | ok a ↦ ok a
      | err e ↦
          if is_wire_layout_failure e && gt_whole cap wire_block_bytes_16_mib
          then execute (whole wire_block_bytes_16_mib)
          else err e
    ]
unfolding retry_layout
retry_same cap (ok a) execute h = refl
retry_same cap (err e) execute h = ground (arith, not_above cap h)

-- The streamed and the buffered preparation fall back alike, though they are written with opposite
-- tests: with the same way to prepare they return the same, as long as the block cap is a number.
pub prepare_streaming-prepare_upload {ℓ} :
    {A : Type ℓ} (env : Environment) (options : PrepareUploadOptions) (segment_code : Option ℕ)
    (size : ℕ) (execute : ℕ → Number → Result A)
    → resolve_prepare_max_wire_block_bytes env size options ≢ ok nan
    → prepare_upload_streaming env options segment_code size execute
      ≡ prepare_upload env options segment_code size execute
unfolding prepare_upload_streaming prepare_upload
prepare_streaming-prepare_upload env options segment_code size execute h =
    elim (Result-cases (resolve_segment_code segment_code size)) [
      | inr (e, p) ↦ rw p refl
      | inl (code, p) ↦ elim (Result-cases (validate_segment_code (whole code))) [
        | inr (e, q) ↦ rw p (rw q refl)
        | inl (_, q) ↦ elim (Result-cases (resolve_prepare_max_wire_block_bytes env size options)) [
          | inr (e, r) ↦ rw p (rw q (rw r refl))
          | inl (cap, r) ↦
              rw p (rw q (rw r (retry_same cap (execute code cap) (execute code) (ground arith))))
        ]
      ]
    ]
