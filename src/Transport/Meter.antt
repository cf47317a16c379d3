-- ===== src/Transport/Meter.antt =====
-- InFlightByteWindowMeter of client/transfer/src/transport/byte-transfer-progress.ts: the bytes of
-- the concurrent requests, by lane. Byte counts are natural numbers, so `Math.max(0, Math.trunc(n))`
-- is n.
pub mod Lanes
use c_stateless_relay_tran.Base.{
  ℕ, ◌+◌, Bool, true, false, if◌then◌else◌, ltb, min, max, String, Option, none, some, [], ◌∷◌,
}
use c_stateless_relay_tran.Base.StringMap
use c_stateless_relay_tran.Base.StringMap.{StringMap}

pub record Lane : Type 0 where
  pub transferred : ℕ
  pub total : ℕ

pub record Window : Type 0 where
  pub window_bytes_transferred : ℕ
  pub window_bytes_total : ℕ

abbrev pub Lanes : Type 0
Lanes = StringMap Lane

abbrev pub no_lanes : Lanes
no_lanes = []

unfoldable pub begin : String → ℕ → Lanes → Lanes
begin lane_id bytes_total lanes =
    StringMap.set lane_id (record { transferred = 0; total = bytes_total }) lanes

abbrev pub with_total : ℕ → Lane → Lane
with_total next_total lane =
    if ltb 0 next_total
    then record { transferred = min lane.transferred next_total; total = next_total }
    else record { transferred = lane.transferred; total = next_total }

abbrev pub with_transferred : ℕ → Lane → Lane
with_transferred next lane =
    let capped = if ltb 0 lane.total then min lane.total next else next in
    record { transferred = max lane.transferred capped; total = lane.total }

-- A lane is an object that the map holds: writing to it changes the map's entry.
update_lane : (Lane → Lane) → String → Lanes → Option Lane → Lanes
update_lane f lane_id lanes none = lanes
update_lane f lane_id lanes (some lane) = StringMap.set lane_id (f lane) lanes

unfoldable pub set_total : String → ℕ → Lanes → Lanes
unfolding update_lane
set_total lane_id bytes_total lanes =
    update_lane (with_total bytes_total) lane_id lanes (StringMap.get lane_id lanes)

unfoldable pub set_transferred : String → ℕ → Lanes → Lanes
unfolding update_lane
set_transferred lane_id bytes_transferred lanes =
    update_lane (with_transferred bytes_transferred) lane_id lanes (StringMap.get lane_id lanes)

unfoldable pub end : String → Lanes → Lanes
end lane_id lanes = StringMap.delete lane_id lanes

unfoldable pub snapshot : Lanes → Window
snapshot [] = record { window_bytes_transferred = 0; window_bytes_total = 0 }
snapshot ((_, lane) ∷ lanes) =
    let rest = snapshot lanes in
    record {
      window_bytes_transferred = lane.transferred + rest.window_bytes_transferred;
      window_bytes_total = lane.total + rest.window_bytes_total;
    }
