-- ===== src/Download/Status/Progress.antt =====
-- The numbers that a listener sees do not go back.
use c_stateless_relay_tran.Base.{ℕ, ◌≤◌, ◌≡◌, max, min, none, some, List, [], ◌∷◌, All, arith}
use c_stateless_relay_tran.Download.Status.{
  DownloadStatusUpdate, resolving_initial, resolving_window, awaiting_metadata_block,
  waiting_metadata_block, parsing_metadata, downloading, decrypting, Reporter, report_status,
  report_all, completed_at,
}

-- The transferred bytes, and the bytes of the first window, as they are reported.
abbrev pub transferred_in : List DownloadStatusUpdate → List ℕ
transferred_in [] = []
transferred_in (downloading completed total in_flight (some bytes) ∷ rest) =
    bytes.transfer_bytes_transferred ∷ transferred_in rest
transferred_in (status ∷ rest) = transferred_in rest

abbrev pub prefetched_in : List DownloadStatusUpdate → List ℕ
prefetched_in [] = []
prefetched_in (awaiting_metadata_block count received ceiling ∷ rest) =
    received ∷ prefetched_in rest
prefetched_in (status ∷ rest) = prefetched_in rest

abbrev pub HasTotal : ℕ → DownloadStatusUpdate → Type 0
HasTotal total (downloading completed tokens in_flight (some bytes)) =
    bytes.transfer_bytes_total ≡ total
HasTotal total status = Unit

-- Each number is at least the one before it.
abbrev pub Ascends : ℕ → List ℕ → Type 0
Ascends low [] = Unit
Ascends low (x ∷ xs) = (low ≤ x) × Ascends x xs

abbrev pub AtMost : ℕ → List ℕ → Type 0
AtMost high = All (λ x. x ≤ high)

-- Where all reports speak of the same number of bytes in total: the transferred bytes that the listener
-- sees never go back and never exceed that total, whatever the order in which the session and the
-- transport report; nor do the bytes of the first window go back.
pub report_all-Ascends :
    (statuses : List DownloadStatusUpdate) (r : Reporter) (total : ℕ)
    → All (HasTotal total) statuses
    → Ascends (min total r.transfer_bytes_high_water) (transferred_in (report_all statuses r))
      × AtMost total (transferred_in (report_all statuses r))
      × Ascends r.prefetch_bytes_high_water (prefetched_in (report_all statuses r))
unfolding report_all report_status completed_at
report_all-Ascends [] r total h = (tt, tt, tt)
report_all-Ascends (resolving_initial a b c ∷ rest) r total h = report_all-Ascends rest r total h.1
report_all-Ascends (resolving_window a b c ∷ rest) r total h = report_all-Ascends rest r total h.1
report_all-Ascends (waiting_metadata_block a b ∷ rest) r total h =
    report_all-Ascends rest r total h.1
report_all-Ascends (parsing_metadata ∷ rest) r total h = report_all-Ascends rest r total h.1
report_all-Ascends (decrypting a ∷ rest) r total h = report_all-Ascends rest r total h.1
report_all-Ascends (downloading a b c none ∷ rest) r total h =
    report_all-Ascends rest (completed_at a r) total h.1
report_all-Ascends (awaiting_metadata_block a received c ∷ rest) r total h =
    let next = record r { prefetch_bytes_high_water = max r.prefetch_bytes_high_water received } in
    let (p, q, s) = report_all-Ascends rest next total h.1 in (p, q, (omega arith, s))
report_all-Ascends (downloading a b c (some bytes) ∷ rest) r total h =
    let high = max r.transfer_bytes_high_water bytes.transfer_bytes_transferred in
    let (p, q, s) =
      report_all-Ascends rest (record (completed_at a r) { transfer_bytes_high_water = high }) total
        h.1 in
    let same : bytes.transfer_bytes_total ≡ total = h.0 in
    ((omega arith, rw same p), (omega arith, q), s)
