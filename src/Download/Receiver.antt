-- ===== src/Download/Receiver.antt =====
-- The state of FetchReceiveTransport of client/transfer/src/transport/fetch-receive-transport.ts, as a
-- state machine: the calls that the session makes, the router's answers and the ends of the GETs are
-- events. What runs between two awaits is one event. The activity reports are not modelled.
pub mod Events
pub mod Single
pub mod Runs
pub mod Arrivals
pub mod Counted
use c_stateless_relay_tran.Base.{
  ℕ, zero, suc, ◌+◌, ltb, Bool, true, false, not, ◌&&◌, ◌||◌, if◌then◌else◌, String, Option, none,
  some, List, [], ◌∷◌, ◌++◌, length, get_elem?, flatten, Result, ok, err, Thrown, placement_expired,
}
use c_stateless_relay_tran.Base.StringMap
use c_stateless_relay_tran.Base.StringMap.{StringMap}
use c_stateless_relay_tran.Base.StringSet
use c_stateless_relay_tran.Base.StringSet.{contains, unique}
use c_stateless_relay_tran.Registry.Records.{RelayEndpoint, RelayEndpointMap}
use c_stateless_relay_tran.Transport.Meter
use c_stateless_relay_tran.Transport.Meter.{Lanes, no_lanes}

-- The promise of a PendingGet.
pub data Fetch : Type 0 where
  running : Fetch
  arrived : List ℕ → Fetch
  failed : Thrown → Fetch

-- A PendingGet that was made, with the token that it was made for.
pub record PendingGet : Type 0 where
  pub token : String
  pub promise : Fetch

pub record Receiver : Type 0 where
  -- the entry of a token, by its index in `gets`
  pub pending : StringMap ℕ
  pub cancelled_before_resolve : List String
  -- `inflight`: the tokens of each batch that the router has not answered
  pub batches : List (List String)
  pub expected_wire_block_bytes : Option ℕ
  pub lanes : Lanes
  pub buffered_received_bytes : StringMap ℕ
  -- every PendingGet that was made; one that was cancelled may still come to its end
  pub gets : List PendingGet
  -- the entries whose controller was told to abort
  pub aborted : List ℕ
  -- the entries that a call of `get` is awaiting
  pub awaiting : List ℕ

abbrev pub new_receiver : Receiver
new_receiver = record {
  pending = [];
  cancelled_before_resolve = [];
  batches = [];
  expected_wire_block_bytes = none;
  lanes = no_lanes;
  buffered_received_bytes = [];
  gets = [];
  aborted = [];
  awaiting = [];
}

-- setExpectedWireBlockBytes
unfoldable pub set_expected_wire_block_bytes : Option ℕ → Receiver → Receiver
set_expected_wire_block_bytes none r = record r { expected_wire_block_bytes = none }
set_expected_wire_block_bytes (some bytes) r = record r {
  expected_wire_block_bytes = if ltb 0 bytes then some bytes else none;
}

unfoldable pub is_inflight : String → List (List String) → Bool
is_inflight token [] = false
is_inflight token (batch ∷ batches) = contains token batch || is_inflight token batches

unfoldable pub needed : Receiver → List String → List String
unfolding is_inflight
needed r [] = []
needed r (token ∷ tokens) =
    let rest = needed r tokens in
    if StringMap.has token r.pending
      || (contains token r.cancelled_before_resolve || is_inflight token r.batches)
    then rest
    else token ∷ rest

unfoldable pub resolve_batch : List String → Receiver → Receiver
resolve_batch [] r = r
resolve_batch (token ∷ tokens) r = record r { batches = r.batches ++ (token ∷ tokens) ∷ [] }

-- ensureTokensStarted, up to its await
unfoldable pub ensure_tokens_started : List String → Receiver → Receiver
unfolding needed resolve_batch
ensure_tokens_started tokens r = resolve_batch (needed r (unique tokens)) r

abbrev size_hint : Option ℕ → ℕ
size_hint none = 0
size_hint (some bytes) = bytes

-- startGet, with the entry that it makes
unfoldable pub start_get : String → Receiver → Receiver
start_get token r = record r {
  pending = StringMap.set token (length r.gets) r.pending;
  gets = r.gets ++ record { token = token; promise = running } ∷ [];
  buffered_received_bytes = StringMap.delete token r.buffered_received_bytes;
  lanes = Meter.begin token (size_hint r.expected_wire_block_bytes) r.lanes;
}

-- One token of a batch that the router has answered.
unfoldable pub start_if : Bool → String → Option RelayEndpoint → Receiver → Receiver
unfolding start_get
start_if true token endpoint r = r
start_if false token none r = r
start_if false token (some endpoint) r = start_get token r

unfoldable pub start_gets : RelayEndpointMap → List String → Receiver → Receiver
unfolding start_if
start_gets endpoints [] r = r
start_gets endpoints (token ∷ tokens) r = start_gets endpoints tokens (
    start_if (StringMap.has token r.pending || contains token r.cancelled_before_resolve) token
      (StringMap.get token endpoints) r)

unfoldable pub fail_if : Bool → Thrown → String → Receiver → Receiver
fail_if true e token r = r
fail_if false e token r = record r {
  pending = StringMap.set token (length r.gets) r.pending;
  gets = r.gets ++ record { token = token; promise = failed e } ∷ [];
}

-- The batch's tokens get entries that are rejected.
unfoldable pub fail_gets : Thrown → List String → Receiver → Receiver
unfolding fail_if
fail_gets e [] r = r
fail_gets e (token ∷ tokens) r =
    fail_gets e tokens (
      fail_if (StringMap.has token r.pending || contains token r.cancelled_before_resolve) e token
        r)

abbrev pub is_expired_placement : Thrown → Bool
is_expired_placement (placement_expired token) = true
is_expired_placement _ = false

-- resolveAndStart, when the router has answered
unfoldable pub answer_tokens : Result RelayEndpointMap → List String → Receiver → Receiver
unfolding start_gets fail_gets
answer_tokens (ok endpoints) tokens r = start_gets endpoints tokens r
answer_tokens (err e) tokens r = if is_expired_placement e then r else fail_gets e tokens r

abbrev pub without_at {ℓ} : {A : Type ℓ} → List A → ℕ → List A
without_at [] k = []
without_at (x ∷ xs) zero = xs
without_at (x ∷ xs) (suc k) = x ∷ without_at xs k

unfoldable pub answer_batch :
    ℕ → Result RelayEndpointMap → Receiver → Option (List String) → Receiver
unfolding answer_tokens
answer_batch k answer r none = r
answer_batch k answer r (some tokens) =
    answer_tokens answer tokens (record r { batches = without_at r.batches k })

abbrev pub with_promise : ℕ → Fetch → List PendingGet → List PendingGet
with_promise k promise [] = []
with_promise zero promise (g ∷ gets) = record g { promise = promise } ∷ gets
with_promise (suc k) promise (g ∷ gets) = g ∷ with_promise k promise gets

-- The promise of the k-th PendingGet is settled, whether or not the entry is still there: its bytes
-- are counted and its lane ends also after a cancel.
unfoldable pub settle : ℕ → Result (List ℕ) → String → Fetch → Receiver → Receiver
settle k (ok data_bytes) token running r = record r {
  gets = with_promise k (arrived data_bytes) r.gets;
  buffered_received_bytes = StringMap.set token (length data_bytes) r.buffered_received_bytes;
  lanes = Meter.end token r.lanes;
}
settle k (err e) token running r = record r {
  gets = with_promise k (failed e) r.gets;
  lanes = Meter.end token r.lanes;
}
settle k result token _ r = r

unfoldable pub end_get : ℕ → Result (List ℕ) → Receiver → Option PendingGet → Receiver
unfolding settle
end_get k result r none = r
end_get k result r (some g) = settle k result g.token g.promise r

unfoldable pub cancel_if : String → Option ℕ → Receiver → Receiver
cancel_if token none r = r
cancel_if token (some k) r = record r {
  aborted = r.aborted ++ k ∷ [];
  pending = StringMap.delete token r.pending;
  buffered_received_bytes = StringMap.delete token r.buffered_received_bytes;
  lanes = Meter.end token r.lanes;
}

-- cancelPending
unfoldable pub cancel_pending : List String → Receiver → Receiver
unfolding cancel_if
cancel_pending [] r = r
cancel_pending (token ∷ tokens) r = cancel_pending tokens (
    cancel_if token (StringMap.get token r.pending)
      (record r { cancelled_before_resolve = StringSet.add token r.cancelled_before_resolve }))

-- `get` looks for the entry of its token and awaits it, unless the token is cancelled.
unfoldable pub await_entry : Option ℕ → Receiver → Receiver
await_entry none r = r
await_entry (some k) r = record r { awaiting = r.awaiting ++ k ∷ [] }

-- `get` goes on when the promise is settled; the entry may have been cancelled meanwhile.
unfoldable pub take_settled : String → Fetch → Receiver → Receiver → Receiver
take_settled token running waiting r = waiting
take_settled token (arrived data_bytes) waiting r = record r {
  pending = StringMap.delete token r.pending;
  buffered_received_bytes = StringMap.delete token r.buffered_received_bytes;
  cancelled_before_resolve = StringSet.remove token r.cancelled_before_resolve;
}
take_settled token (failed e) waiting r = record r {
  pending = StringMap.delete token r.pending;
  buffered_received_bytes = StringMap.delete token r.buffered_received_bytes;
}

unfoldable pub take_of : ℕ → Receiver → Option PendingGet → Receiver
unfolding take_settled
take_of i r none = r
take_of i r (some g) =
    take_settled g.token g.promise r (record r { awaiting = without_at r.awaiting i })

-- The i-th of the calls that await an entry.
unfoldable pub take_entry : ℕ → Receiver → Option ℕ → Receiver
unfolding take_of
take_entry i r none = r
take_entry i r (some k) = take_of i r (get_elem? r.gets k)

abbrev sum_of : StringMap ℕ → ℕ
sum_of [] = 0
sum_of ((token, bytes) ∷ rest) = bytes + sum_of rest

-- getReceivedWireBytesNotConsumed
unfoldable pub get_received_wire_bytes_not_consumed : Receiver → ℕ
unfolding Meter.snapshot
get_received_wire_bytes_not_consumed r =
    sum_of r.buffered_received_bytes + (Meter.snapshot r.lanes).window_bytes_transferred

unfoldable pub in_flight_count : Receiver → ℕ
in_flight_count r = length (unique (StringMap.keys r.pending ++ flatten r.batches))
