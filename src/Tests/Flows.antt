-- ===== src/Tests/Flows.antt =====
-- Sending with one refusal, and the reports of a download.
use c_stateless_relay_tran.Base.{
  ℕ, zero, suc, String, some, List, [], ◌∷◌, Result, ok, err, tokens_occupied, true, arith, refl,
}
use c_stateless_relay_tran.App.Sending.{ReservationRetry, send_file, SendEnds, send_file-SendEnds}
use c_stateless_relay_tran.Download.Status.{
  DownloadStatusUpdate, awaiting_metadata_block, downloading, Reporter, report_all,
}
use c_stateless_relay_tran.Download.Status.Progress.{
  transferred_in, prefetched_in, Ascends, AtMost, report_all-Ascends,
}

-- The world counts the credentials; the first one meets occupied tokens.
abbrev new_credential : ℕ → String × ℕ
new_credential w = ("abcdefghijkl", suc w)

abbrev upload : String → ℕ → Result ℕ × ℕ
upload credential zero = (ok 0, zero)
upload credential (suc zero) = (err (tokens_occupied []), suc zero)
upload credential (suc (suc w)) = (ok 7, suc (suc w))

abbrev ignore : ReservationRetry → ℕ → ℕ
ignore retry w = w

send_file-SendEnds_example :
    SendEnds new_credential upload ignore 5 5 1 [] 0
      (send_file new_credential upload ignore (some 5) 0).0
send_file-SendEnds_example = send_file-SendEnds new_credential upload ignore 5 0 (omega arith)

abbrev reporter : Reporter
reporter = record {
  context = record {
    smb_parsed = true;
    total_tokens = 2;
    completed = 1;
    wire_block_size = 10;
    prefetch_count = 2;
    prefetch_bytes_ceiling = 64;
  };
  transfer_bytes_high_water = 0;
  prefetch_bytes_high_water = 0;
}

-- The second report would go back.
abbrev reports : List DownloadStatusUpdate
reports =
    awaiting_metadata_block 2 5 64
    ∷ downloading 1 2 1
        (some (record { transfer_bytes_transferred = 15; transfer_bytes_total = 20 }))
    ∷ downloading 1 2 1
        (some (record { transfer_bytes_transferred = 10; transfer_bytes_total = 20 }))
    ∷ []

report_all-Ascends_example :
    Ascends 0 (transferred_in (report_all reports reporter))
    × AtMost 20 (transferred_in (report_all reports reporter))
    × Ascends 0 (prefetched_in (report_all reports reporter))
report_all-Ascends_example = report_all-Ascends reports reporter 20 (tt, (refl, (refl, tt)))
