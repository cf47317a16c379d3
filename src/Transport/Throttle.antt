-- ===== src/Transport/Throttle.antt =====
-- createThrottledProgressListener of client/transfer/src/transport/byte-transfer-progress.ts. Time is
-- an argument of each event; the timer is one that may fire from `due` on.
pub mod Delivery
use c_stateless_relay_tran.Base.{
  ℕ, ◌+◌, ◌-◌, Bool, true, false, if◌then◌else◌, leb, Option, none, some, List, [], ◌∷◌, ◌++◌,
}
use c_stateless_relay_tran.Transport.Put.{ByteTransferProgress}

pub record Throttle : Type 0 where
  pub last_emit_ms : ℕ
  pub pending : Option ByteTransferProgress
  -- when the timer that is set comes due
  pub timer : Option ℕ
  -- the calls of the listener, each with its time, in order
  pub emitted : List (ℕ × ByteTransferProgress)

abbrev pub fresh : Throttle
fresh = record { last_emit_ms = 0; pending = none; timer = none; emitted = [] }

unfoldable pub flush : ℕ → Throttle → Throttle
flush now t = elim t.pending [
  | none ↦ t
  | some next ↦ record t {
    pending = none;
    last_emit_ms = now;
    emitted = t.emitted ++ (now, next) ∷ [];
  }
]

unfoldable pub on_progress : ℕ → ℕ → ByteTransferProgress → Throttle → Throttle
unfolding flush
on_progress interval now progress t =
    let waiting = record t { pending = some progress } in
    if leb interval (now - t.last_emit_ms)
    then flush now (record waiting { timer = none })
    else elim t.timer [
      | some due ↦ waiting
      | none ↦ record waiting { timer = some (now + (interval - (now - t.last_emit_ms))) }
    ]

-- The timer's callback; a timer that was cleared does not fire.
unfoldable pub on_timer : ℕ → Throttle → Throttle
unfolding flush
on_timer now t = elim t.timer [
  | none ↦ t
  | some due ↦ if leb due now then flush now (record t { timer = none }) else t
]
