-- ===== src/Download/Receiver/Events.antt =====
-- What happens to a FetchReceiveTransport of client/transfer/src/transport/fetch-receive-transport.ts,
-- event by event.
use c_stateless_relay_tran.Base.{
  ℕ, ltb, if◌then◌else◌, String, Option, List, [], ◌∷◌, get_elem?, Result,
}
use c_stateless_relay_tran.Base.StringMap
use c_stateless_relay_tran.Base.StringMap.{StringMap}
use c_stateless_relay_tran.Base.StringSet.{contains}
use c_stateless_relay_tran.Registry.Records.{RelayEndpointMap}
use c_stateless_relay_tran.Transport.Meter
use c_stateless_relay_tran.Transport.Meter.{Lanes, no_lanes}
use c_stateless_relay_tran.Download.Receiver.{
  Receiver, ensure_tokens_started, cancel_pending, await_entry, take_entry, answer_batch, end_get,
  set_expected_wire_block_bytes,
}

pub data ReceiverEvent : Type 0 where
  starts : List String → ReceiverEvent
  cancels : List String → ReceiverEvent
  -- `get` finds the entry of a token, and the i-th such call goes on
  awaits : String → ReceiverEvent
  takes : ℕ → ReceiverEvent
  answers : ℕ → Result RelayEndpointMap → ReceiverEvent
  -- a report of transferred bytes, with the total where it is known
  reports : String → ℕ → ℕ → ReceiverEvent
  -- the k-th GET that was begun ends
  ends : ℕ → Result (List ℕ) → ReceiverEvent
  expects : Option ℕ → ReceiverEvent

-- onDownloadProgress; a total of 0 stands for one that is not known.
unfoldable pub on_download_progress : String → ℕ → ℕ → Receiver → Receiver
on_download_progress token transferred total r = record r {
  lanes =
      Meter.set_transferred token transferred
        (if ltb 0 total then Meter.set_total token total r.lanes else r.lanes);
}

unfoldable pub receiver_step : Receiver → ReceiverEvent → Receiver
unfolding ensure_tokens_started cancel_pending await_entry take_entry answer_batch end_get
    on_download_progress set_expected_wire_block_bytes
receiver_step r (starts tokens) = ensure_tokens_started tokens r
receiver_step r (cancels tokens) = cancel_pending tokens r
receiver_step r (awaits token) =
    if contains token r.cancelled_before_resolve
    then r
    else await_entry (StringMap.get token r.pending) r
receiver_step r (takes i) = take_entry i r (get_elem? r.awaiting i)
receiver_step r (answers k answer) = answer_batch k answer r (get_elem? r.batches k)
receiver_step r (reports token transferred total) = on_download_progress token transferred total r
receiver_step r (ends k result) = end_get k result r (get_elem? r.gets k)
receiver_step r (expects bytes) = set_expected_wire_block_bytes bytes r

unfoldable pub receiver_run : Receiver → List ReceiverEvent → Receiver
unfolding receiver_step
receiver_run r [] = r
receiver_run r (e ∷ es) = receiver_run (receiver_step r e) es
