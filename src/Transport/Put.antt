-- ===== src/Transport/Put.antt =====
-- client/transfer/src/transport/put-wire-block-body.ts: one PUT of a wire block, by XMLHttpRequest
-- or by fetch. What the request comes to is a parameter.
pub mod Failures
use c_stateless_relay_tran.Base.{
  ℕ, ◌||◌, ◌&&◌, not, Bool, true, false, if◌then◌else◌, ltb, leb, length, String, Option, none,
  some, List, [], ◌∷◌, ◌++◌, map, Result, ok, err, Thrown, error,
}
use c_stateless_relay_tran.Base.Text.{concat, decimal}
use c_stateless_relay_tran.Policy.WireBlock.{is_not_false}

pub record ByteTransferProgress : Type 0 where
  pub bytes_transferred : ℕ
  pub bytes_total : Option ℕ

-- An `upload.onprogress` event; the total is none if the length is not computable.
pub record UploadProgressEvent : Type 0 where
  pub loaded : ℕ
  pub computable_total : Option ℕ

-- How a request that was sent ends: `onload`, `onerror` or `onabort`.
pub data XhrEnd : Type 0 where
  load : ℕ → XhrEnd
  network_error : XhrEnd
  aborted : XhrEnd

pub record PutWireBlockBodyOptions : Type 0 where
  pub reject_non_ok : Option Bool
  -- options.signal?.aborted when the PUT starts
  pub signal_aborted : Bool
  pub force_fetch_put_fallback : Bool

-- status >= 200 && status < 300; `response.ok` is the same
abbrev pub is_ok_status : ℕ → Bool
is_ok_status status = leb 200 status && ltb status 300

pub put_failed : String → String → Thrown
unfolding concat
put_failed url reason = error (concat ("PUT " ∷ url ∷ " failed: " ∷ reason ∷ []))

pub http_reason : ℕ → String
unfolding concat decimal
http_reason status = concat ("HTTP " ∷ decimal status ∷ [])

check_status : Option Bool → String → ℕ → Result (Unit {0})
check_status reject_non_ok url status =
    if is_not_false reject_non_ok && not (is_ok_status status)
    then err (put_failed url (http_reason status))
    else ok tt

settle : Option Bool → String → XhrEnd → Result (Unit {0})
unfolding check_status
settle reject_non_ok url (load status) = check_status reject_non_ok url status
settle reject_non_ok url network_error = err (put_failed url "network error")
settle reject_non_ok url aborted = err (put_failed url "aborted")

report : ℕ → UploadProgressEvent → ByteTransferProgress
report bytes_total event = record {
  bytes_transferred = event.loaded;
  bytes_total = elim event.computable_total [ none ↦ some bytes_total | some total ↦ some total ];
}

abbrev last_report : ℕ → XhrEnd → List ByteTransferProgress
last_report bytes_total (load status) =
    record { bytes_transferred = bytes_total; bytes_total = some bytes_total } ∷ []
last_report bytes_total _ = []

-- The result, and the progress that is reported on the way.
unfoldable pub put_body_with_upload_progress_via_xhr :
    String
    → List ℕ
    → PutWireBlockBodyOptions
    → List UploadProgressEvent
    → XhrEnd
    → Result (Unit {0}) × List ByteTransferProgress
unfolding settle report
put_body_with_upload_progress_via_xhr url body options events end =
    let bytes_total = length body in
    if options.signal_aborted then (err (put_failed url "aborted"), []) else (
      settle options.reject_non_ok url end,
      record { bytes_transferred = 0; bytes_total = some bytes_total }
          ∷ (map (report bytes_total) events ++ last_report bytes_total end),
    )

-- `fetch` rejects, or answers with a status.
unfoldable pub put_body_via_fetch_fallback :
    String
    → List ℕ
    → PutWireBlockBodyOptions
    → Result ℕ
    → Result (Unit {0}) × List ByteTransferProgress
unfolding check_status
put_body_via_fetch_fallback url body options (err e) = (err e, [])
put_body_via_fetch_fallback url body options (ok status) =
    if is_not_false options.reject_non_ok && not (is_ok_status status)
    then (err (put_failed url (http_reason status)), [])
    else (ok tt, record { bytes_transferred = length body; bytes_total = some (length body) } ∷ [])

unfoldable pub put_wire_block_body :
    Bool
    → String
    → List ℕ
    → PutWireBlockBodyOptions
    → List UploadProgressEvent
    → XhrEnd
    → Result ℕ
    → Result (Unit {0}) × List ByteTransferProgress
unfolding put_body_with_upload_progress_via_xhr put_body_via_fetch_fallback
put_wire_block_body has_xhr url body options events end response =
    if not options.force_fetch_put_fallback && has_xhr
    then put_body_with_upload_progress_via_xhr url body options events end
    else put_body_via_fetch_fallback url body options response
