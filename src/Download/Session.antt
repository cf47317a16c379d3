-- ===== src/Download/Session.antt =====
-- client/transfer/src/session/download-session.ts: the download of a file, first a window of blocks
-- that holds the one with the metadata, then the rest, which is decrypted as it comes or at once. The
-- transport is a parameter, a world with the operations of ReceiveTransport, and so is the cryptography
-- client. The status reports are left to Download/Status.
pub mod Calls
pub mod Content
pub mod Order
pub mod Window
use c_stateless_relay_tran.Base.{
  ◌>>◌, ℕ, zero, suc, ◌+◌, ◌-◌, ltb, leb, ◌==◌, min, if◌then◌else◌, String, Option, none, some,
  List, [], ◌∷◌, length, ok, err, error,
}
use c_stateless_relay_tran.Base.StringMap
use c_stateless_relay_tran.Policy.Segment.{v21_whole_file_threshold_bytes}
use c_stateless_relay_tran.Upload.Blocks.{UploadMap}
use c_stateless_relay_tran.Download.Act.{Act, lift, ◌>>=◌}
use c_stateless_relay_tran.Download.Plan.{
  ReceiveDownloadPlan, derive_index_tokens, compute_receive_download_plan,
}
use c_stateless_relay_tran.Download.Interfaces.{
  SmbMetadata, TwelveC, ReceiveTransport, assert_wire_block_size, or_failure, to_safe_byte_length,
  check_size,
}
use c_stateless_relay_tran.Download.Credential.{CodeUnits, split_credential}
use c_stateless_relay_tran.Download.Accumulator.{
  Accumulator, create_accumulator, drain_session, finalize_to_blob,
}

abbrev length_or : ℕ → Option ℕ → ℕ
length_or n none = n
length_or n (some m) = m

module _ {W D : Type 0} (transport : ReceiveTransport W) (twelve_c : TwelveC D)
    (search_code : CodeUnits) where
  unfoldable pub prefetch_index_range : ℕ → ℕ → Act W (Unit {0})
  unfolding derive_index_tokens
  prefetch_index_range from_inclusive to_exclusive =
      if leb to_exclusive from_inclusive then lift (ok tt) else (do
        tokens ← lift (
            derive_index_tokens (twelve_c.derive_upload_token search_code) from_inclusive
              to_exclusive)
        transport.start_concurrent_get tokens)

  cancel : List String → Act W (Unit {0})
  cancel tokens w = (ok tt, transport.cancel_pending tokens w)

  unfoldable pub cancel_index_range : ℕ → ℕ → Act W (Unit {0})
  unfolding derive_index_tokens cancel
  cancel_index_range from_inclusive to_exclusive =
      if leb to_exclusive from_inclusive then lift (ok tt) else (do
        tokens ← lift (
            derive_index_tokens (twelve_c.derive_upload_token search_code) from_inclusive
              to_exclusive)
        cancel tokens)

  -- The loop of decryptDownloadedLargeFile over the n tokens from `index` on.
  unfoldable pub decrypt_tokens : ℕ → ℕ → ℕ → ℕ → ℕ → Accumulator × D → Act W (Accumulator × D)
  unfolding prefetch_index_range assert_wire_block_size drain_session
  decrypt_tokens wire_block_size total concurrent zero index state = lift (ok state)
  decrypt_tokens wire_block_size total concurrent (suc n) index (plaintext, session) = do
    started ← prefetch_index_range (suc index) (min total (index + concurrent))
    received ← transport.get (twelve_c.derive_upload_token search_code index)
    wire ← lift (
        assert_wire_block_size (twelve_c.derive_upload_token search_code index) received
          wire_block_size)
    fed ← lift (twelve_c.session.add_wire_token index wire session)
    drained ← lift (drain_session twelve_c.session.take_plaintext_chunk plaintext fed)
    decrypt_tokens wire_block_size total concurrent n (suc index) drained

  -- decryptDownloadedLargeFile
  unfoldable pub decrypt_downloaded_large_file : CodeUnits → List ℕ → ℕ → ℕ → ℕ → ℕ → Act W (List ℕ)
  unfolding or_failure to_safe_byte_length create_accumulator decrypt_tokens finalize_to_blob
  decrypt_downloaded_large_file credential token0_wire wire_block_size total original_file_length
        concurrent =
      do
        session ← lift (or_failure (twelve_c.create_receive_decrypt_session credential token0_wire))
        expected ← lift (
            to_safe_byte_length
              (length_or original_file_length (twelve_c.session.original_file_length session))
              "originalFileLength")
        state ←
            decrypt_tokens wire_block_size total concurrent (total - 1) 1
              (create_accumulator expected, session)
        lift (finalize_to_blob twelve_c.session state.0 state.1 twelve_c.session.complete_finalize)

  start_if_any : List String → Act W (Unit {0})
  start_if_any [] = lift (ok tt)
  start_if_any (token ∷ tokens) = transport.start_concurrent_get (token ∷ tokens)

  cancel_if_any : List String → Act W (Unit {0})
  unfolding cancel
  cancel_if_any [] = lift (ok tt)
  cancel_if_any (token ∷ tokens) = cancel (token ∷ tokens)

  -- The loop that gathers the n tokens from `index` on.
  unfoldable pub gather_tokens : ℕ → ℕ → ℕ → UploadMap → Act W UploadMap
  unfolding assert_wire_block_size
  gather_tokens wire_block_size zero index uploads = lift (ok uploads)
  gather_tokens wire_block_size (suc n) index uploads = do
    received ← transport.get (twelve_c.derive_upload_token search_code index)
    wire ← lift (
        assert_wire_block_size (twelve_c.derive_upload_token search_code index) received
          wire_block_size)
    gather_tokens wire_block_size n (suc index)
        (StringMap.set (twelve_c.derive_upload_token search_code index) wire uploads)

  -- The way of a file that is decrypted as it comes.
  streamed : CodeUnits → List ℕ → SmbMetadata → ℕ → Act W (List ℕ)
  unfolding decrypt_downloaded_large_file check_size
  streamed credential token0_wire metadata concurrent = do
    plaintext ←
        decrypt_downloaded_large_file credential token0_wire metadata.wire_block_size
          metadata.num_tokens metadata.original_file_length concurrent
    lift (
        check_size "decrypted file" (length plaintext) metadata.original_file_length
        >> ok plaintext)

  -- The way of a file that is decrypted at once.
  gathered : CodeUnits → List ℕ → SmbMetadata → ReceiveDownloadPlan → Act W (List ℕ)
  unfolding start_if_any gather_tokens
  gathered credential token0_wire metadata plan = do
    started ← start_if_any plan.fetch_after_smb
    uploads ←
        gather_tokens metadata.wire_block_size (metadata.num_tokens - 1) 1
          ((twelve_c.derive_upload_token search_code 0, token0_wire) ∷ [])
    lift (twelve_c.receive_from_upload_map credential uploads)

  -- What follows the metadata.
  unfoldable pub after_metadata : CodeUnits → ℕ → ℕ → List ℕ → SmbMetadata → Act W (List ℕ)
  unfolding cancel_index_range cancel_if_any streamed gathered check_size
      compute_receive_download_plan
  after_metadata credential estimated concurrent token0_wire metadata = do
    sized ← lift (check_size "token0 wire" (length token0_wire) metadata.wire_block_size)
    plan ← lift (
        compute_receive_download_plan (twelve_c.derive_upload_token search_code) concurrent
          metadata.num_tokens)
    spared ← cancel_index_range concurrent estimated
    cancelled ← cancel_if_any plan.cancel_after_smb
    (if ltb v21_whole_file_threshold_bytes metadata.original_file_length
        then streamed credential token0_wire metadata concurrent
        else gathered credential token0_wire metadata plan)

module _ {W D : Type 0} (transport : ReceiveTransport W) (twelve_c : TwelveC D) where
  -- The first window, with the block of the metadata in it.
  unfoldable pub download_with : CodeUnits → ℕ → (ℕ → ℕ) → CodeUnits → Act W (List ℕ)
  unfolding prefetch_index_range after_metadata
  download_with credential estimated prefetch_count search_code = do
    started ← prefetch_index_range transport twelve_c search_code 0 estimated
    token0_wire ← transport.get (twelve_c.derive_upload_token search_code 0)
    metadata ← lift (twelve_c.parse_smb_encrypted credential token0_wire)
    after_metadata transport twelve_c search_code credential estimated
        (prefetch_count metadata.wire_block_size) token0_wire metadata

  -- downloadAdaptive. `prefetch_count` is resolveReceivePrefetchCount of the session's options, a
  -- function of the size of a wire block, which is 0 as long as it is not known.
  unfoldable pub download_adaptive : CodeUnits → (ℕ → ℕ) → Act W (List ℕ)
  unfolding download_with split_credential
  download_adaptive credential prefetch_count =
      if prefetch_count 0 == 0
      then lift (err (error "initial token count must be greater than zero"))
      else (do
        parts ← lift (split_credential credential)
        download_with credential (prefetch_count 0) prefetch_count parts.search_code)
