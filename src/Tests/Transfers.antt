-- ===== src/Tests/Transfers.antt =====
-- The byte meter and the throttled listener on short histories.
use c_stateless_relay_tran.Download.Status.Progress.{Ascends}
use c_stateless_relay_tran.Transport.Body.{read_streaming}
use c_stateless_relay_tran.Transport.Body.Whole.{transferred_of, read_streaming-whole}
use c_stateless_relay_tran.Base.{ℕ, ◌≡◌, refl, some, List, [], ◌∷◌, ◌++◌}
use c_stateless_relay_tran.Transport.Put.{ByteTransferProgress}
use c_stateless_relay_tran.Transport.Meter.{Lanes, no_lanes}
use c_stateless_relay_tran.Transport.Meter.Lanes.{
  Update, begins, sets_total, sets_transferred, ends, AllCapped, apply_all, apply_all-AllCapped,
}
use c_stateless_relay_tran.Transport.Throttle.{fresh}
use c_stateless_relay_tran.Transport.Throttle.Delivery.{
  Event, progress, fires, run, IsTimed, run-fresh-IsTimed,
}

abbrev two_lanes : List Update
two_lanes =
    begins "a" 10
    ∷ begins "b" 0
    ∷ sets_transferred "a" 40
    ∷ sets_transferred "b" 7
    ∷ sets_total "b" 5
    ∷ ends "a"
    ∷ []

apply_all-AllCapped_example : AllCapped (apply_all two_lanes no_lanes)
apply_all-AllCapped_example = apply_all-AllCapped two_lanes no_lanes tt

abbrev half_way : Lanes
half_way = ("a", record { transferred = 4; total = 10 }) ∷ []

abbrev at : ℕ → ByteTransferProgress
at n = record { bytes_transferred = n; bytes_total = some 100 }

abbrev burst : List Event
burst = progress 1000 (at 1) ∷ progress 1010 (at 2) ∷ progress 1020 (at 3) ∷ fires 1100 ∷ []

run-fresh-IsTimed_example : IsTimed (run 100 fresh burst) (some (at 3))
run-fresh-IsTimed_example = run-fresh-IsTimed 100 burst

burst_emits : (run 100 fresh burst).emitted ≡ (1000, at 1) ∷ (1100, at 3) ∷ []
unfolding run
burst_emits = refl

-- A body in two chunks.
read_streaming-whole_example :
    ((read_streaming (some 3) ((1 ∷ 2 ∷ []) ∷ [] ∷ (3 ∷ []) ∷ [])).bytes ≡ 1 ∷ 2 ∷ 3 ∷ [])
    × Ascends 0
        (transferred_of (read_streaming (some 3) ((1 ∷ 2 ∷ []) ∷ [] ∷ (3 ∷ []) ∷ [])).reports)
    × ((reports : List ℕ) × (transferred_of
            (read_streaming (some 3) ((1 ∷ 2 ∷ []) ∷ [] ∷ (3 ∷ []) ∷ [])).reports
          ≡ 0 ∷ (reports ++ 3 ∷ [])))
read_streaming-whole_example = read_streaming-whole (some 3) ((1 ∷ 2 ∷ []) ∷ [] ∷ (3 ∷ []) ∷ [])
