-- ===== src/Download/Receiver/Runs.antt =====
-- Every event of the receive transport keeps its tokens tidy.
use c_stateless_relay_tran.Base.{
  ℕ, ◌+◌, ◌≡◌, refl, ap, sym, Bool, true, false, ◌||◌, if◌then◌else◌, String, Option, none, some,
  List, [], ◌∷◌, ◌++◌, get_elem?, Result, ok, err, arith, Bool-cases, inl, inr, str_eq-cases,
}
use c_stateless_relay_tran.Base.StringMap
use c_stateless_relay_tran.Base.StringMap.{get-set, get-delete, get-missing}
use c_stateless_relay_tran.Base.StringSet.{
  contains, unique, add, remove, contains-add, contains-remove,
}
use c_stateless_relay_tran.Download.Receiver.{
  Fetch, running, arrived, failed, Receiver, new_receiver, set_expected_wire_block_bytes,
  PendingGet, is_inflight, needed, resolve_batch, ensure_tokens_started, settle, end_get, cancel_if,
  cancel_pending, await_entry, take_settled, take_of, take_entry,
}
use c_stateless_relay_tran.Download.Receiver.Events.{
  ReceiverEvent, starts, cancels, awaits, takes, answers, reports, ends, expects,
  on_download_progress, receiver_step, receiver_run,
}
use c_stateless_relay_tran.Download.Receiver.Single.{
  held, waits_in, Tidy, IsTidy, carry, answer_batch-IsTidy,
}

module _ (t : String) where
  drop-Tidy : (r : Receiver) (d : Bool) → IsTidy t r → Tidy t (waits_in t r.batches) none d
  drop-Tidy r d (once, gone) = (omega arith, λ h. refl)

  settle-IsTidy :
      (k : ℕ) (result : Result (List ℕ)) (token : String) (promise : Fetch) (r : Receiver)
      → IsTidy t r
      → IsTidy t (settle k result token promise r)
  unfolding settle
  settle-IsTidy k (ok block) token running r tidy = tidy
  settle-IsTidy k (err e) token running r tidy = tidy
  settle-IsTidy k (ok block) token (arrived b) r tidy = tidy
  settle-IsTidy k (err e) token (arrived b) r tidy = tidy
  settle-IsTidy k (ok block) token (failed e) r tidy = tidy
  settle-IsTidy k (err e) token (failed f) r tidy = tidy

  end_get-IsTidy :
      (k : ℕ) (result : Result (List ℕ)) (r : Receiver) (o : Option PendingGet)
      → IsTidy t r
      → IsTidy t (end_get k result r o)
  unfolding end_get
  end_get-IsTidy k result r none tidy = tidy
  end_get-IsTidy k result r (some g) tidy = settle-IsTidy k result g.token g.promise r tidy

  cancel_if-IsTidy :
      (token : String) (r : Receiver) (o : Option ℕ)
      → StringMap.get token r.pending ≡ o
      → IsTidy t r
      → IsTidy t (
          cancel_if token o
            (record r { cancelled_before_resolve = add token r.cancelled_before_resolve }))
  unfolding cancel_if
  cancel_if-IsTidy token r none h tidy =
      let c = contains-add t token r.cancelled_before_resolve in
      elim (str_eq-cases token t) [
        | inl (e, same) ↦
            let here : StringMap.get t r.pending ≡ none = rw same at h in
            carry t refl (sym here) refl
              (drop-Tidy r (contains t (add token r.cancelled_before_resolve)) tidy)
        | inr (e, other) ↦ carry t refl refl (sym (rw e at c)) tidy
      ]
  cancel_if-IsTidy token r (some k) h tidy =
      let c = contains-add t token r.cancelled_before_resolve in
      let p = get-delete token t r.pending in
      elim (str_eq-cases token t) [
        | inl (e, same) ↦
            carry t refl (sym (rw e at p)) refl
              (drop-Tidy r (contains t (add token r.cancelled_before_resolve)) tidy)
        | inr (e, other) ↦ carry t refl (sym (rw e at p)) (sym (rw e at c)) tidy
      ]

  settled-IsTidy :
      (token : String) (promise : Fetch) (waiting r : Receiver)
      → IsTidy t waiting
      → IsTidy t r
      → IsTidy t (take_settled token promise waiting r)
  unfolding take_settled
  settled-IsTidy token running waiting r still tidy = still
  settled-IsTidy token (arrived block) waiting r still tidy =
      let c = contains-remove t token r.cancelled_before_resolve in
      let p = get-delete token t r.pending in
      elim (str_eq-cases token t) [
        | inl (e, same) ↦
            carry t refl (sym (rw e at p)) refl
              (drop-Tidy r (contains t (remove token r.cancelled_before_resolve)) tidy)
        | inr (e, other) ↦ carry t refl (sym (rw e at p)) (sym (rw e at c)) tidy
      ]
  settled-IsTidy token (failed e) waiting r still tidy =
      let p = get-delete token t r.pending in
      elim (str_eq-cases token t) [
        | inl (f, same) ↦
            carry t refl (sym (rw f at p)) refl
              (drop-Tidy r (contains t r.cancelled_before_resolve) tidy)
        | inr (f, other) ↦ carry t refl (sym (rw f at p)) refl tidy
      ]

  take_of-IsTidy :
      (i : ℕ) (r : Receiver) (o : Option PendingGet) → IsTidy t r → IsTidy t (take_of i r o)
  unfolding take_of
  take_of-IsTidy i r none tidy = tidy
  take_of-IsTidy i r (some g) tidy = settled-IsTidy g.token g.promise r _ tidy tidy

  take-IsTidy : (i : ℕ) (r : Receiver) (o : Option ℕ) → IsTidy t r → IsTidy t (take_entry i r o)
  unfolding take_entry
  take-IsTidy i r none tidy = tidy
  take-IsTidy i r (some k) tidy = take_of-IsTidy i r (get_elem? r.gets k) tidy

  await-IsTidy : (o : Option ℕ) (r : Receiver) → IsTidy t r → IsTidy t (await_entry o r)
  unfolding await_entry
  await-IsTidy none r tidy = tidy
  await-IsTidy (some k) r tidy = tidy

  cancel-IsTidy :
      (tokens : List String) (r : Receiver) → IsTidy t r → IsTidy t (cancel_pending tokens r)
  unfolding cancel_pending
  cancel-IsTidy [] r tidy = tidy
  cancel-IsTidy (token ∷ tokens) r tidy =
      cancel-IsTidy tokens _ (cancel_if-IsTidy token r (StringMap.get token r.pending) refl tidy)

  -- The tokens of a new batch are in no other batch, have no entry and are not cancelled.
  waits_in-none :
      (batches : List (List String)) → is_inflight t batches ≡ false → waits_in t batches ≡ 0
  unfolding is_inflight
  waits_in-none [] h = refl
  waits_in-none (batch ∷ batches) h = ground (arith, waits_in-none batches (ground arith))

  waits_in-append :
      (batches : List (List String)) (batch : List String)
      → waits_in t (batches ++ batch ∷ [])
        ≡ waits_in t batches + (if contains t batch then 1 else 0)
  waits_in-append [] batch = omega arith
  waits_in-append (b ∷ batches) batch = omega (arith, waits_in-append batches batch)

  needed-free :
      (r : Receiver) (tokens : List String)
      → contains t (needed r tokens) ≡ true
      → (StringMap.has t r.pending ≡ false)
        × (is_inflight t r.batches ≡ false)
        × (contains t r.cancelled_before_resolve ≡ false)
  unfolding needed contains
  needed-free r [] h = cc
  needed-free r (token ∷ tokens) h =
      elim (Bool-cases (
        StringMap.has token r.pending
        || (contains token r.cancelled_before_resolve || is_inflight token r.batches))) [
          | inl busy ↦ needed-free r tokens (rw busy at h)
          | inr free ↦ elim (str_eq-cases token t) [
            | inr (e, other) ↦ needed-free r tokens (rw (free, e) at h)
            | inl (e, same) ↦ let it = rw same at free in (ground arith, ground arith, ground arith)
          ]
        ]

  resolve-IsTidy :
      (batch : List String) (r : Receiver)
      → (contains t batch ≡ true
          → (StringMap.has t r.pending ≡ false)
            × (is_inflight t r.batches ≡ false)
            × (contains t r.cancelled_before_resolve ≡ false))
      → IsTidy t r
      → IsTidy t (resolve_batch batch r)
  unfolding resolve_batch
  resolve-IsTidy [] r free tidy = tidy
  resolve-IsTidy (token ∷ tokens) r free tidy =
      let more = waits_in-append r.batches (token ∷ tokens) in
      elim (Bool-cases (contains t (token ∷ tokens))) [
        | inl here ↦
            let (no_entry, not_inflight, alive) = free here in
            let zero_waits = waits_in-none r.batches not_inflight in
            let none_held = ap held (get-missing t r.pending no_entry) in (ground arith, tidy.1)
        | inr elsewhere ↦ (ground arith, tidy.1)
      ]

  step-IsTidy : (r : Receiver) (e : ReceiverEvent) → IsTidy t r → IsTidy t (receiver_step r e)
  unfolding receiver_step ensure_tokens_started on_download_progress set_expected_wire_block_bytes
  step-IsTidy r (starts tokens) tidy =
      resolve-IsTidy (needed r (unique tokens)) r (needed-free r (unique tokens)) tidy
  step-IsTidy r (cancels tokens) tidy = cancel-IsTidy tokens r tidy
  step-IsTidy r (awaits token) tidy =
      elim (Bool-cases (contains token r.cancelled_before_resolve)) [
        | inl gone ↦ rw gone tidy
        | inr alive ↦ rw alive (await-IsTidy (StringMap.get token r.pending) r tidy)
      ]
  step-IsTidy r (takes i) tidy = take-IsTidy i r (get_elem? r.awaiting i) tidy
  step-IsTidy r (answers k answer) tidy =
      answer_batch-IsTidy t k answer r (get_elem? r.batches k) refl tidy
  step-IsTidy r (reports token transferred total) tidy = tidy
  step-IsTidy r (ends k result) tidy = end_get-IsTidy k result r (get_elem? r.gets k) tidy
  step-IsTidy r (expects none) tidy = tidy
  step-IsTidy r (expects (some bytes)) tidy = tidy

  pub run-IsTidy :
      (es : List ReceiverEvent) (r : Receiver) → IsTidy t r → IsTidy t (receiver_run r es)
  unfolding receiver_run
  run-IsTidy [] r tidy = tidy
  run-IsTidy (e ∷ es) r tidy = run-IsTidy es (receiver_step r e) (step-IsTidy r e tidy)

  pub new-IsTidy : IsTidy t new_receiver
  unfolding contains StringMap.get
  new-IsTidy = (ground arith, λ h. cc)
