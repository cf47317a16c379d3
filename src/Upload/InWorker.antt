-- ===== src/Upload/InWorker.antt =====
-- prepareUploadStreamingInWorker of client/transfer/src/session/upload-session.ts: a file is encrypted
-- in a worker, whose client is a parameter.
use c_stateless_relay_tran.Base.{
  ℕ, zero, suc, List, [], ◌∷◌, ◌++◌, length, Result, ok, err, ◌>>=◌, Thrown, error, value,
}
use c_stateless_relay_tran.Upload.Reading.{
  slice, pieces, read_file_by_gcm_segments, upload_worker_feed_chunk_bytes,
}
use c_stateless_relay_tran.Upload.Blocks.{
  UploadWireBlock, Layout, Prepared, store_wire_block, store_wire_blocks, layout_of, segment_index,
  report_at, first_report, last_report,
}

-- The client of the worker: what a feed answers, with the bytes fed so far. Its dispose, which ends
-- the worker whatever came before, gives nothing back and is left out.
pub record FeedResult : Type 0 where
  pub bytes_fed : ℕ
  pub blocks : List UploadWireBlock

pub record WorkerClient (C : Type 0) : Type 0 where
  -- new UploadPrepareWorkerClient(createWorker()), then init
  pub create_and_init : ℕ → Result C
  pub feed : List ℕ → C → Result (FeedResult × C)
  pub finalize : C → Result (UploadWireBlock × C)

-- throw lastError instanceof Error ? lastError : new Error(String(lastError))
as_error : Thrown → Thrown
as_error (value s) = error s
as_error e = e

abbrev pub upload_prepare_worker_create_attempts : ℕ
upload_prepare_worker_create_attempts = 2

module _ {C : Type 0} (ops : WorkerClient C) where
  -- The attempts that are left, the number of the next one, and the error of the last one.
  create_attempts : ℕ → ℕ → Thrown → Result C
  unfolding as_error
  create_attempts zero attempt last_error = err (as_error last_error)
  create_attempts (suc n) attempt last_error = elim (ops.create_and_init attempt) [
    | ok client ↦ ok client
    | err e ↦ create_attempts n (suc attempt) e
  ]

  unfoldable pub create_initialized_upload_prepare_worker : Result C
  unfolding create_attempts
  create_initialized_upload_prepare_worker =
      create_attempts upload_prepare_worker_create_attempts 1
        (error "upload prepare worker create failed")

  -- The parts of a slice go to the worker.
  feed_worker : Layout → List ℕ → List (ℕ × ℕ) → Prepared C → Result (Prepared C)
  unfolding slice segment_index store_wire_blocks
  feed_worker layout chunk [] p = ok p
  feed_worker layout chunk (part ∷ parts) p =
      ops.feed (slice chunk part) p.session >>= λ (answer, client).
      feed_worker layout chunk parts (record {
        session = client;
        uploads = store_wire_blocks p.uploads answer.blocks;
        bytes_fed = answer.bytes_fed;
        reports =
            p.reports
            ++ report_at layout answer.bytes_fed (segment_index layout answer.bytes_fed) ∷ [];
      })

  feed_worker_chunks : Layout → List (List ℕ) → Prepared C → Result (Prepared C)
  unfolding feed_worker pieces
  feed_worker_chunks layout [] p = ok p
  feed_worker_chunks layout (chunk ∷ chunks) p =
      feed_worker layout chunk
        (pieces upload_worker_feed_chunk_bytes (suc (length chunk)) 0 (length chunk)) p
      >>= feed_worker_chunks layout chunks

  unfoldable pub prepare_upload_streaming_in_worker : ℕ → List ℕ → Result (Prepared C)
  unfolding layout_of feed_worker_chunks first_report last_report store_wire_block
      create_initialized_upload_prepare_worker read_file_by_gcm_segments
  prepare_upload_streaming_in_worker code file = layout_of code (length file) >>= λ layout.
      create_initialized_upload_prepare_worker >>= λ client.
      read_file_by_gcm_segments code file >>= λ chunks.
      feed_worker_chunks layout chunks (record {
        session = client;
        uploads = [];
        bytes_fed = 0;
        reports = first_report layout ∷ [];
      })
      >>= λ p. ops.finalize p.session >>= λ (token0, client'). ok (record {
        session = client';
        uploads = store_wire_block p.uploads token0;
        bytes_fed = p.bytes_fed;
        reports = p.reports ++ last_report layout ∷ [];
      })
