-- ===== src/Upload/Stripe/Transitions.antt =====
-- What the counters of the upload say of its workers, and that each kind of event keeps it so.
use c_stateless_relay_tran.Base.{
  ℕ, suc, ◌+◌, ◌-◌, ◌≤◌, ◌≡◌, ◌⊎◌, refl, inl, inr, length, get_elem?, take, String, none, some,
  List, arith, Thrown, Option-cases,
}
use c_stateless_relay_tran.Base.StringMap
use c_stateless_relay_tran.Upload.Stripe.{
  Job, Worker, polling, admitted, returned, sending, threw, Upload, total, worker_count, bytes_of,
  set_worker, looked, on_poll, on_go_on, on_progress, on_resolve, on_reject, take_entry,
  finish_entry, fail_entry, advance_lane, report_uploading,
}
use c_stateless_relay_tran.Upload.Stripe.Workers.{
  tally, sends, holds, returns, size_at, held, tally-set, length-set_worker, looked-idle, size-take,
  entry_there, entry_missing,
}

-- The counters count: the workers that send, the entries that were taken, the bytes that are done.
pub record IsCounted (job : Job) (u : Upload) : Type 0 where
  pub staffed : length u.workers ≡ worker_count job
  pub flying : u.in_flight ≡ tally sends u.workers
  pub taken : u.next_index ≡ u.completed + tally holds u.workers
  pub in_range : u.next_index ≤ total job
  pub exhausted : (tally returns u.workers ≡ 0) ⊎ (u.next_index ≡ total job)
  pub bytes :
      u.completed_bytes + tally (held job.entries) u.workers
      ≡ bytes_of (take u.next_index job.entries)

module _ (job : Job) (u : Upload) (k : ℕ) where
  pub poll-IsCounted :
      get_elem? u.workers k ≡ some polling
      → IsCounted job u
      → IsCounted job (on_poll job k u (some polling))
  unfolding on_poll
  poll-IsCounted at c =
      let v = looked job u.in_flight u.completed in
      let idle = looked-idle job u.in_flight u.completed job.entries in
      let s = tally-set sends u.workers k polling v at in
      let h = tally-set holds u.workers k polling v at in
      let r = tally-set returns u.workers k polling v at in
      let b = tally-set (held job.entries) u.workers k polling v at in
      record {
        staffed = omega (arith, length-set_worker u.workers k v);
        flying = omega arith;
        taken = omega arith;
        in_range = c.in_range;
        exhausted = omega arith;
        bytes = omega arith;
      }

  take_none-IsCounted :
      get_elem? u.workers k ≡ some admitted
      → get_elem? job.entries u.next_index ≡ none
      → IsCounted job u
      → IsCounted job (take_entry job k u none)
  unfolding take_entry
  take_none-IsCounted at e c =
      let s = tally-set sends u.workers k admitted returned at in
      let h = tally-set holds u.workers k admitted returned at in
      let b = tally-set (held job.entries) u.workers k admitted returned at in
      let end = entry_missing job.entries u.next_index e in
      record {
        staffed = omega (arith, length-set_worker u.workers k returned);
        flying = omega arith;
        taken = omega arith;
        in_range = c.in_range;
        exhausted = inr (omega arith);
        bytes = omega arith;
      }

  -- The worker takes the next entry and holds it, sending or having thrown.
  take_some-IsCounted :
      (v : Worker) (flies : ℕ) (entry : String × List ℕ)
      → get_elem? u.workers k ≡ some admitted
      → get_elem? job.entries u.next_index ≡ some entry
      → sends v ≡ flies
      → holds v ≡ 1
      → returns v ≡ 0
      → held job.entries v ≡ size_at job.entries u.next_index
      → IsCounted job u
      → (w : Upload) → w.workers ≡ set_worker u.workers k v
      → w.next_index ≡ suc u.next_index
      → w.in_flight ≡ u.in_flight + flies
      → w.completed ≡ u.completed
      → w.completed_bytes ≡ u.completed_bytes
      → IsCounted job w
  take_some-IsCounted v flies entry at e sv hv rv bv c w ew en ef ec eb =
      let s = tally-set sends u.workers k admitted v at in
      let h = tally-set holds u.workers k admitted v at in
      let r = tally-set returns u.workers k admitted v at in
      let b = tally-set (held job.entries) u.workers k admitted v at in
      let there = entry_there job.entries u.next_index entry e in
      let more = size-take job.entries u.next_index in
      record {
        staffed = rw ew (omega (arith, length-set_worker u.workers k v));
        flying = rw ew (omega arith);
        taken = rw ew (omega arith);
        in_range = omega arith;
        exhausted = rw ew (omega arith);
        bytes = rw (ew, en) (omega arith);
      }

  -- The worker lets go of the entry, done or failed.
  settle-IsCounted :
      (index : ℕ) (v : Worker) (done size : ℕ) (entry : String × List ℕ)
      → get_elem? u.workers k ≡ some (sending index)
      → sends v ≡ 0
      → holds v + done ≡ 1
      → returns v ≡ 0
      → held job.entries v + size ≡ size_at job.entries index
      → IsCounted job u
      → (w : Upload) → w.workers ≡ set_worker u.workers k v
      → w.next_index ≡ u.next_index
      → w.in_flight ≡ u.in_flight - 1
      → w.completed ≡ u.completed + done
      → w.completed_bytes ≡ u.completed_bytes + size
      → IsCounted job w
  settle-IsCounted index v done size entry at sv hv rv bv c w ew en ef ec eb =
      let s = tally-set sends u.workers k (sending index) v at in
      let h = tally-set holds u.workers k (sending index) v at in
      let r = tally-set returns u.workers k (sending index) v at in
      let b = tally-set (held job.entries) u.workers k (sending index) v at in
      record {
        staffed = rw ew (omega (arith, length-set_worker u.workers k v));
        flying = rw ew (omega arith);
        taken = rw ew (omega arith);
        in_range = omega arith;
        exhausted = rw ew (omega arith);
        bytes = rw (ew, en) (omega arith);
      }

  take-IsCounted :
      (token : String) (blob : List ℕ)
      → get_elem? u.workers k ≡ some admitted
      → get_elem? job.entries u.next_index ≡ some (token, blob)
      → IsCounted job u
      → IsCounted job (take_entry job k u (some (token, blob)))
  unfolding take_entry
  take-IsCounted token blob at e c =
      elim (Option-cases (StringMap.get token job.primary_endpoints)) [
        | inl lost ↦
            rw (lost, take_entry)
              (take_some-IsCounted _ 0 (token, blob) at e refl refl refl refl c _ refl refl
                (omega arith) refl refl)
        | inr (endpoint, found) ↦
            rw (found, take_entry)
              (take_some-IsCounted (sending u.next_index) 1 (token, blob) at e refl refl refl refl c
                _ refl refl (omega arith) refl refl)
      ]

  pub go_on-IsCounted :
      get_elem? u.workers k ≡ some admitted
      → IsCounted job u
      → IsCounted job (on_go_on job k u (some admitted))
  unfolding on_go_on
  go_on-IsCounted at c = elim (Option-cases (get_elem? job.entries u.next_index)) [
    | inl e ↦ rw e (take_none-IsCounted at e c)
    | inr ((token, blob), e) ↦ rw e (take-IsCounted token blob at e c)
  ]

  pub resolve-IsCounted :
      (index : ℕ)
      → get_elem? u.workers k ≡ some (sending index)
      → IsCounted job u
      → IsCounted job (on_resolve job k u (some (sending index)))
  unfolding on_resolve
  resolve-IsCounted index at c = elim (Option-cases (get_elem? job.entries index)) [
    | inl e ↦ rw e (unfold finish_entry in c)
    | inr ((token, blob), e) ↦
        let v = looked job (u.in_flight - 1) (suc u.completed) in
        let (s, h, r, b) = looked-idle job (u.in_flight - 1) (suc u.completed) job.entries in
        let there = entry_there job.entries index (token, blob) e in
        rw e (
          unfold finish_entry in
          settle-IsCounted index v 1 (length blob) (token, blob) at s (omega arith) r (omega arith)
            c _ refl refl refl (omega arith) refl)
  ]

  pub reject-IsCounted :
      (index : ℕ) (cause : Thrown)
      → get_elem? u.workers k ≡ some (sending index)
      → IsCounted job u
      → IsCounted job (on_reject job k cause u (some (sending index)))
  unfolding on_reject
  reject-IsCounted index cause at c = elim (Option-cases (get_elem? job.entries index)) [
    | inl e ↦ rw e (unfold fail_entry in c)
    | inr ((token, blob), e) ↦ rw e (
        unfold fail_entry in
        settle-IsCounted index (threw index _) 0 0 (token, blob) at refl refl refl (omega arith) c _
          refl refl refl (omega arith) (omega arith))
  ]

  pub progress-IsCounted :
      (index bytes : ℕ)
      → IsCounted job u
      → IsCounted job (on_progress job bytes u (some (sending index)))
  unfolding on_progress
  progress-IsCounted index bytes c = elim (Option-cases (get_elem? job.entries index)) [
    | inl e ↦ rw e (unfold advance_lane in c)
    | inr ((token, blob), e) ↦ rw e (
        unfold advance_lane report_uploading in
        record {
          staffed = c.staffed;
          flying = c.flying;
          taken = c.taken;
          in_range = c.in_range;
          exhausted = c.exhausted;
          bytes = c.bytes;
        })
  ]
