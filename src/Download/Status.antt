-- ===== src/Download/Status.antt =====
-- The status reports of a download: DownloadStatusUpdate of client/transfer/src/session/download-status.ts
-- and, in client/transfer/src/session/download-session.ts, how the transport's activities become
-- statuses and how reportStatus passes them on. The counts are natural numbers; the
-- optional numbers of a block that is awaited are given, as they are wherever such a status is made.
pub mod Progress
use text.Mathlib.Text.{◌==◌ as str_eq}
use c_stateless_relay_tran.Base.{
  ℕ, ◌+◌, ◌*◌, max, min, ltb, ◌==◌, not, ◌&&◌, ◌||◌, Bool, true, false, if◌then◌else◌, String,
  Option, none, some, List, [], ◌∷◌,
}

pub data WaitingReason : Type 0 where
  registry relay : WaitingReason

pub record Bytes : Type 0 where
  pub transfer_bytes_transferred : ℕ
  pub transfer_bytes_total : ℕ

pub data DownloadStatusUpdate : Type 0 where
  -- from, to, total
  resolving_initial : ℕ → ℕ → ℕ → DownloadStatusUpdate
  resolving_window : ℕ → ℕ → ℕ → DownloadStatusUpdate
  -- prefetchCount, prefetchBytesReceived, prefetchBytesCeiling
  awaiting_metadata_block : ℕ → ℕ → ℕ → DownloadStatusUpdate
  waiting_metadata_block : WaitingReason → ℕ → DownloadStatusUpdate
  parsing_metadata : DownloadStatusUpdate
  -- completed, total, inFlight, the bytes where they are known
  downloading : ℕ → ℕ → ℕ → Option Bytes → DownloadStatusUpdate
  decrypting : ℕ → DownloadStatusUpdate

pub record DownloadActivityContext : Type 0 where
  pub smb_parsed : Bool
  pub total_tokens : ℕ
  pub completed : ℕ
  pub wire_block_size : ℕ
  pub prefetch_count : ℕ
  pub prefetch_bytes_ceiling : ℕ

transfer_bytes : ℕ → ℕ → ℕ → ℕ → Bytes
transfer_bytes completed total wire_block_size received = record {
  transfer_bytes_transferred =
      min (wire_block_size * total) (completed * wire_block_size + received);
  transfer_bytes_total = wire_block_size * total;
}

-- downloadingStatus, with what the transport says of its lanes
unfoldable pub downloading_status : ℕ → ℕ → ℕ → ℕ → ℕ → DownloadStatusUpdate
unfolding transfer_bytes
downloading_status in_flight received completed total wire_block_size =
    downloading completed total in_flight (
      if ltb 0 wire_block_size && ltb 0 total
      then some (transfer_bytes completed total wire_block_size received)
      else none)

unfoldable pub download_transfer_bytes : DownloadActivityContext → ℕ → Option Bytes
unfolding transfer_bytes
download_transfer_bytes context received =
    if not context.smb_parsed || (context.total_tokens == 0 || context.wire_block_size == 0)
    then none
    else some
        (transfer_bytes context.completed context.total_tokens context.wire_block_size received)

unfoldable pub prefetch_awaiting_status : DownloadActivityContext → ℕ → ℕ → DownloadStatusUpdate
prefetch_awaiting_status context in_flight received =
    awaiting_metadata_block (max (max context.prefetch_count in_flight) 1) received
      context.prefetch_bytes_ceiling

-- ReceiveTransportActivity
pub data Activity : Type 0 where
  resolving : ℕ → Activity
  download_started : String → Activity
  -- receivedBytesNotConsumed
  download_byte_progress : ℕ → Activity
  waiting : String → WaitingReason → ℕ → Activity

lane_status : DownloadActivityContext → ℕ → ℕ → Option DownloadStatusUpdate
unfolding prefetch_awaiting_status download_transfer_bytes
lane_status context in_flight received =
    if not context.smb_parsed
    then some (prefetch_awaiting_status context in_flight received)
    else if context.total_tokens == 0
    then none
    else some (
        downloading context.completed context.total_tokens in_flight
          (download_transfer_bytes context received))

unfoldable pub map_transport_activity_to_status :
    Activity → String → DownloadActivityContext → ℕ → ℕ → Option DownloadStatusUpdate
unfolding lane_status
map_transport_activity_to_status (resolving token_count) token0 context in_flight received =
    if not context.smb_parsed || ltb 0 context.completed
    then none
    else some (resolving_window 0 token_count context.total_tokens)
map_transport_activity_to_status (download_started token) token0 context in_flight received =
    lane_status context in_flight received
map_transport_activity_to_status (download_byte_progress not_consumed) token0 context in_flight
      received =
    lane_status context in_flight not_consumed
map_transport_activity_to_status (waiting token reason attempt) token0 context in_flight received =
    if str_eq token token0 then some (waiting_metadata_block reason attempt) else none

pub record Reporter : Type 0 where
  pub context : DownloadActivityContext
  pub transfer_bytes_high_water : ℕ
  pub prefetch_bytes_high_water : ℕ

completed_at : ℕ → Reporter → Reporter
completed_at n r = record r { context = record r.context { completed = n } }

-- reportStatus: what is passed on, and the reporter that follows.
unfoldable pub report_status : DownloadStatusUpdate → Reporter → DownloadStatusUpdate × Reporter
unfolding completed_at
report_status (awaiting_metadata_block count received ceiling) r =
    let high = max r.prefetch_bytes_high_water received in
    (
      awaiting_metadata_block (max count r.context.prefetch_count) high ceiling,
      record r { prefetch_bytes_high_water = high },
    )
report_status (downloading completed total in_flight (some bytes)) r =
    let high = max r.transfer_bytes_high_water bytes.transfer_bytes_transferred in
    (
      downloading completed total in_flight (
          some (record bytes { transfer_bytes_transferred = min bytes.transfer_bytes_total high })),
      record (completed_at completed r) { transfer_bytes_high_water = high },
    )
report_status (downloading completed total in_flight none) r =
    (downloading completed total in_flight none, completed_at completed r)
report_status status r = (status, r)

-- The statuses that the listener gets, for those that are reported one after the other.
unfoldable pub report_all : List DownloadStatusUpdate → Reporter → List DownloadStatusUpdate
unfolding report_status
report_all [] r = []
report_all (status ∷ statuses) r =
    let (passed, next) = report_status status r in passed ∷ report_all statuses next
