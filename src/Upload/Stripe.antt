-- ===== src/Upload/Stripe.antt =====
-- uploadStripePrimaryBlocks of client/transfer/src/session/upload-session.ts with
-- waitForStripePutSlot of resilience/stripe-put-concurrency.ts: the workers that PUT the blocks.
-- The event loop runs one worker at a time, from one `await` to the next; an event is one such run.
-- An interleaving is a list of events. An event that does not fit the worker's state changes nothing.
pub mod Workers
pub mod Transitions
pub mod Accounting
pub mod Order
pub mod Ramping
use c_stateless_relay_tran.Base.{
  ℕ, zero, suc, ◌+◌, ◌-◌, min, max, ◌&&◌, not, Bool, true, false, if◌then◌else◌, ltb, leb, length,
  get_elem?, String, Option, none, some, List, [], ◌∷◌, ◌++◌, Thrown, error, retry_exhausted,
  upload_put_error,
}
use c_stateless_relay_tran.Base.StringMap
use c_stateless_relay_tran.Base.StringMap.{StringMap}
use c_stateless_relay_tran.Base.Text.{concat, decimal}
use c_stateless_relay_tran.Registry.Records.{RelayEndpoint, RelayEndpointMap}
use c_stateless_relay_tran.Resilience.Ramp.{resolve_ramped_stripe_concurrency}
use c_stateless_relay_tran.Transport.Meter
use c_stateless_relay_tran.Transport.Meter.{Lanes, Window, no_lanes}

-- The arguments of uploadStripePrimaryBlocks, without putMaxAttempts and putRetryDelayMs, which only
-- go on to putWithRetry; what that comes to is an event.
pub record Job : Type 0 where
  pub entries : List (String × List ℕ)
  pub primary_endpoints : RelayEndpointMap
  pub max_concurrency : ℕ
  pub ramp_concurrency : Bool
  pub put_transient_max_attempts : ℕ

-- A worker polls for a slot, has been let through and waits to go on, sends the entry of an index,
-- has returned, or has thrown after it took an index.
pub data Worker : Type 0 where
  polling admitted returned : Worker
  sending : ℕ → Worker
  threw : ℕ → Thrown → Worker

-- onProgress with phase 'uploading'
pub record Report : Type 0 where
  pub completed : ℕ
  pub in_flight : ℕ
  pub total : ℕ
  pub transfer_bytes_transferred : ℕ
  pub transfer_bytes_total : ℕ

pub record Upload : Type 0 where
  pub workers : List Worker
  pub next_index : ℕ
  pub in_flight : ℕ
  pub completed : ℕ
  pub completed_bytes : ℕ
  pub lanes : Lanes
  pub transfer_bytes_high_water : ℕ
  pub reports : List Report
  -- the PUTs that were begun, by the index of their entry
  pub puts : List ℕ

pub data Event : Type 0 where
  -- the worker wakes up and looks for a slot
  polls : ℕ → Event
  -- the worker goes on after `await waitForStripePutSlot`
  goes_on : ℕ → Event
  -- onUploadProgress of the worker's PUT
  progresses : ℕ → ℕ → Event
  -- the worker's putWithRetry resolves or rejects
  resolves : ℕ → Event
  rejects : ℕ → Thrown → Event

abbrev pub bytes_of : List (String × List ℕ) → ℕ
bytes_of [] = 0
bytes_of ((_, blob) ∷ entries) = length blob + bytes_of entries

abbrev pub total : Job → ℕ
total job = length job.entries

abbrev pub worker_count : Job → ℕ
worker_count job = min job.max_concurrency (total job)

unfoldable pub set_worker : List Worker → ℕ → Worker → List Worker
set_worker [] k v = []
set_worker (w ∷ ws) zero v = v ∷ ws
set_worker (w ∷ ws) (suc k) v = w ∷ set_worker ws k v

-- The limit that waitForStripePutSlot compares with.
abbrev pub slot_limit : Job → ℕ → ℕ
slot_limit job completed =
    if job.ramp_concurrency
    then resolve_ramped_stripe_concurrency completed job.max_concurrency
    else job.max_concurrency

-- One look for a slot.
abbrev pub looked : Job → ℕ → ℕ → Worker
looked job in_flight completed =
    if ltb in_flight (slot_limit job completed) then admitted else polling

lane_id : String → ℕ → String
unfolding concat decimal
lane_id token index = concat (token ∷ ":" ∷ decimal index ∷ [])

report_uploading : Job → Upload → Upload
report_uploading job u =
    let window = Meter.snapshot u.lanes in
    let transferred =
      max u.transfer_bytes_high_water (u.completed_bytes + window.window_bytes_transferred) in
    record u {
      transfer_bytes_high_water = transferred;
      reports =
          u.reports
          ++ record {
            completed = u.completed;
            in_flight = u.in_flight;
            total = total job;
            transfer_bytes_transferred = transferred;
            transfer_bytes_total = bytes_of job.entries;
          }
            ∷ [];
    }

-- The worker takes the next entry, or returns.
unfoldable pub take_entry : Job → ℕ → Upload → Option (String × List ℕ) → Upload
unfolding set_worker report_uploading lane_id concat
take_entry job k u none = record u { workers = set_worker u.workers k returned }
take_entry job k u (some (token, blob)) = elim (StringMap.get token job.primary_endpoints) [
  | none ↦ record u {
    workers = set_worker u.workers k (
        threw u.next_index
          (error (concat ("no stripe primary relay endpoint for token: " ∷ token ∷ []))));
    next_index = suc u.next_index;
  }
  | some endpoint ↦ report_uploading job (record u {
    workers = set_worker u.workers k (sending u.next_index);
    next_index = suc u.next_index;
    in_flight = suc u.in_flight;
    lanes = Meter.begin (lane_id token u.next_index) (length blob) u.lanes;
    puts = u.puts ++ u.next_index ∷ [];
  })
]

-- What is thrown for a PUT that failed with `cause`.
unfoldable pub put_error : Job → String → Thrown → Thrown
put_error job token (retry_exhausted attempts cause) = upload_put_error token attempts cause
put_error job token cause = upload_put_error token job.put_transient_max_attempts cause

-- The PUT succeeded: the bytes move over, a report follows, and the worker looks for a slot again.
finish_entry : Job → ℕ → ℕ → Upload → Option (String × List ℕ) → Upload
unfolding set_worker report_uploading lane_id
finish_entry job k index u none = u
finish_entry job k index u (some (token, blob)) = report_uploading job (record u {
  workers = set_worker u.workers k (looked job (u.in_flight - 1) (suc u.completed));
  in_flight = u.in_flight - 1;
  completed = suc u.completed;
  completed_bytes = u.completed_bytes + length blob;
  lanes = Meter.end (lane_id token index) u.lanes;
})

-- The PUT failed: nothing is reported, and the worker throws.
fail_entry : Job → ℕ → ℕ → Thrown → Upload → Option (String × List ℕ) → Upload
unfolding set_worker put_error lane_id
fail_entry job k index cause u none = u
fail_entry job k index cause u (some (token, blob)) = record u {
  workers = set_worker u.workers k (threw index (put_error job token cause));
  in_flight = u.in_flight - 1;
  lanes = Meter.end (lane_id token index) u.lanes;
}

-- The lane of an entry moves on.
advance_lane : Job → ℕ → ℕ → Upload → Option (String × List ℕ) → Upload
unfolding report_uploading lane_id
advance_lane job index bytes u none = u
advance_lane job index bytes u (some (token, blob)) =
    report_uploading job
      (record u { lanes = Meter.set_transferred (lane_id token index) bytes u.lanes })

unfoldable pub on_poll : Job → ℕ → Upload → Option Worker → Upload
unfolding set_worker
on_poll job k u (some polling) = record u {
  workers = set_worker u.workers k (looked job u.in_flight u.completed);
}
on_poll job k u _ = u

unfoldable pub on_go_on : Job → ℕ → Upload → Option Worker → Upload
unfolding take_entry
on_go_on job k u (some admitted) = take_entry job k u (get_elem? job.entries u.next_index)
on_go_on job k u _ = u

unfoldable pub on_progress : Job → ℕ → Upload → Option Worker → Upload
unfolding advance_lane
on_progress job bytes u (some (sending index)) =
    advance_lane job index bytes u (get_elem? job.entries index)
on_progress job bytes u _ = u

unfoldable pub on_resolve : Job → ℕ → Upload → Option Worker → Upload
unfolding finish_entry
on_resolve job k u (some (sending index)) = finish_entry job k index u (get_elem? job.entries index)
on_resolve job k u _ = u

unfoldable pub on_reject : Job → ℕ → Thrown → Upload → Option Worker → Upload
unfolding fail_entry
on_reject job k cause u (some (sending index)) =
    fail_entry job k index cause u (get_elem? job.entries index)
on_reject job k cause u _ = u

unfoldable pub step : Job → Upload → Event → Upload
unfolding on_poll on_go_on on_progress on_resolve on_reject
step job u (polls k) = on_poll job k u (get_elem? u.workers k)
step job u (goes_on k) = on_go_on job k u (get_elem? u.workers k)
step job u (progresses k bytes) = on_progress job bytes u (get_elem? u.workers k)
step job u (resolves k) = on_resolve job k u (get_elem? u.workers k)
step job u (rejects k cause) = on_reject job k cause u (get_elem? u.workers k)

unfoldable pub run : Job → Upload → List Event → Upload
unfolding step
run job u [] = u
run job u (e ∷ es) = run job (step job u e) es

-- The workers are started one after the other, and each looks for a slot before the next starts.
unfoldable pub start_workers : Job → ℕ → List Worker
start_workers job zero = []
start_workers job (suc n) = looked job 0 0 ∷ start_workers job n

unfoldable pub start : Job → Upload
unfolding start_workers
start job = record {
  workers = start_workers job (worker_count job);
  next_index = 0;
  in_flight = 0;
  completed = 0;
  completed_bytes = 0;
  lanes = no_lanes;
  transfer_bytes_high_water = 0;
  reports = [];
  puts = [];
}
