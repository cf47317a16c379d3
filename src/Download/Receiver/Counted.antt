-- ===== src/Download/Receiver/Counted.antt =====
-- What the receive transport counts as received, and what every run of it keeps.
use c_stateless_relay_tran.Base.{
  ℕ, ◌≡◌, refl, sym, ◌∙◌, String, Option, none, some, List, [], ◌∷◌, length, get_elem?, Result, ok,
  err, Bool-cases, inl, inr, str_eq-cases,
}
use c_stateless_relay_tran.Base.StringMap
use c_stateless_relay_tran.Base.StringMap.{StringMap, get-set, get-delete}
use c_stateless_relay_tran.Base.StringSet.{contains, unique, add}
use c_stateless_relay_tran.Download.Receiver.{
  Fetch, running, arrived, failed, PendingGet, Receiver, new_receiver,
  set_expected_wire_block_bytes, needed, resolve_batch, ensure_tokens_started, settle, end_get,
  cancel_if, cancel_pending, await_entry, take_settled, take_of, take_entry,
}
use c_stateless_relay_tran.Download.Receiver.Events.{
  ReceiverEvent, starts, cancels, awaits, takes, answers, reports, ends, expects,
  on_download_progress, receiver_step, receiver_run,
}
use c_stateless_relay_tran.Download.Receiver.Single.{IsTidy}
use c_stateless_relay_tran.Download.Receiver.Runs.{run-IsTidy, new-IsTidy}
use c_stateless_relay_tran.Download.Receiver.Arrivals.{
  promise-Later, promise-here, IsCounted, keeps-Counts, drop-Counts, answer-IsCounted,
}

module _ (t : String) where
  settle-IsCounted :
      (k : ℕ) (result : Result (List ℕ)) (promise : Fetch) (g : PendingGet) (r : Receiver)
      → get_elem? r.gets k ≡ some g
      → g.promise ≡ promise
      → IsCounted t r
      → IsCounted t (settle k result g.token promise r)
  unfolding settle
  settle-IsCounted k (ok block) running g r e run counted = λ n h.
      let q = get-set g.token t (length block) r.buffered_received_bytes in
      elim (str_eq-cases g.token t) [
        | inl (f, same) ↦
            let now = rw f at q in
            let sized : n ≡ length block = (let both = sym h ∙ now in cc) in
            (
              k,
              record g { promise = arrived block },
              block,
              promise-here r.gets k (arrived block) g e,
              same,
              refl,
              sized,
            )
        | inr (f, other) ↦
            let before = rw f at q in
            let (j, a, held, there, made, got, sized) = counted n (sym before ∙ h) in
            (
              j,
              a,
              held,
              promise-Later r.gets k (arrived block) g e run j a held there got,
              made,
              got,
              sized,
            )
      ]
  settle-IsCounted k (err x) running g r e run counted =
      keeps-Counts t r.buffered_received_bytes _ r.gets _ (λ n h. h)
        (promise-Later r.gets k (failed x) g e run) counted
  settle-IsCounted k (ok block) (arrived b) g r e run counted = counted
  settle-IsCounted k (err x) (arrived b) g r e run counted = counted
  settle-IsCounted k (ok block) (failed y) g r e run counted = counted
  settle-IsCounted k (err x) (failed y) g r e run counted = counted

  end_get-IsCounted :
      (k : ℕ) (result : Result (List ℕ)) (r : Receiver) (o : Option PendingGet)
      → get_elem? r.gets k ≡ o
      → IsCounted t r
      → IsCounted t (end_get k result r o)
  unfolding end_get
  end_get-IsCounted k result r none e counted = counted
  end_get-IsCounted k result r (some g) e counted =
      settle-IsCounted k result g.promise g r e refl counted

  cancel_if-IsCounted :
      (token : String) (r : Receiver) (o : Option ℕ)
      → IsCounted t r
      → IsCounted t (cancel_if token o r)
  unfolding cancel_if
  cancel_if-IsCounted token r none counted = counted
  cancel_if-IsCounted token r (some k) counted = drop-Counts t token r counted

  cancel-IsCounted :
      (tokens : List String) (r : Receiver) → IsCounted t r → IsCounted t (cancel_pending tokens r)
  unfolding cancel_pending
  cancel-IsCounted [] r counted = counted
  cancel-IsCounted (token ∷ tokens) r counted = cancel-IsCounted tokens _ (
      cancel_if-IsCounted token
        (record r { cancelled_before_resolve = add token r.cancelled_before_resolve })
        (StringMap.get token r.pending) counted)

  settled-IsCounted :
      (token : String) (promise : Fetch) (waiting r : Receiver)
      → IsCounted t waiting
      → IsCounted t r
      → IsCounted t (take_settled token promise waiting r)
  unfolding take_settled
  settled-IsCounted token running waiting r still counted = still
  settled-IsCounted token (arrived block) waiting r still counted = drop-Counts t token r counted
  settled-IsCounted token (failed e) waiting r still counted = drop-Counts t token r counted

  take_of-IsCounted :
      (i : ℕ) (r : Receiver) (o : Option PendingGet) → IsCounted t r → IsCounted t (take_of i r o)
  unfolding take_of
  take_of-IsCounted i r none counted = counted
  take_of-IsCounted i r (some g) counted = settled-IsCounted g.token g.promise r _ counted counted

  take-IsCounted :
      (i : ℕ) (r : Receiver) (o : Option ℕ) → IsCounted t r → IsCounted t (take_entry i r o)
  unfolding take_entry
  take-IsCounted i r none counted = counted
  take-IsCounted i r (some k) counted = take_of-IsCounted i r (get_elem? r.gets k) counted

  resolve-IsCounted :
      (batch : List String) (r : Receiver) → IsCounted t r → IsCounted t (resolve_batch batch r)
  unfolding resolve_batch
  resolve-IsCounted [] r counted = counted
  resolve-IsCounted (token ∷ tokens) r counted = counted

  await-IsCounted : (o : Option ℕ) (r : Receiver) → IsCounted t r → IsCounted t (await_entry o r)
  unfolding await_entry
  await-IsCounted none r counted = counted
  await-IsCounted (some k) r counted = counted

  step-IsCounted :
      (r : Receiver) (e : ReceiverEvent) → IsCounted t r → IsCounted t (receiver_step r e)
  unfolding receiver_step ensure_tokens_started on_download_progress set_expected_wire_block_bytes
  step-IsCounted r (starts tokens) counted = resolve-IsCounted (needed r (unique tokens)) r counted
  step-IsCounted r (cancels tokens) counted = cancel-IsCounted tokens r counted
  step-IsCounted r (awaits token) counted =
      elim (Bool-cases (contains token r.cancelled_before_resolve)) [
        | inl gone ↦ rw gone counted
        | inr alive ↦ rw alive (await-IsCounted (StringMap.get token r.pending) r counted)
      ]
  step-IsCounted r (takes i) counted = take-IsCounted i r (get_elem? r.awaiting i) counted
  step-IsCounted r (answers k answer) counted =
      answer-IsCounted t k answer r (get_elem? r.batches k) counted
  step-IsCounted r (reports token transferred total) counted = counted
  step-IsCounted r (ends k result) counted =
      end_get-IsCounted k result r (get_elem? r.gets k) refl counted
  step-IsCounted r (expects none) counted = counted
  step-IsCounted r (expects (some bytes)) counted = counted

  run-IsCounted :
      (es : List ReceiverEvent) (r : Receiver) → IsCounted t r → IsCounted t (receiver_run r es)
  unfolding receiver_run
  run-IsCounted [] r counted = counted
  run-IsCounted (e ∷ es) r counted =
      run-IsCounted es (receiver_step r e) (step-IsCounted r e counted)

-- However the session's calls, the router's answers and the ends of the GETs are interleaved: a token
-- waits for its endpoint in at most one batch, and then it has no entry; a token that is cancelled has
-- no entry, although its GET may still end; and bytes are counted as received for a token only as the
-- length of a block that has arrived for it.
pub run-new-IsTidy :
    (t : String) (es : List ReceiverEvent)
    → IsTidy t (receiver_run new_receiver es) × IsCounted t (receiver_run new_receiver es)
unfolding StringMap.get
run-new-IsTidy t es =
    (run-IsTidy t es new_receiver (new-IsTidy t), run-IsCounted t es new_receiver (λ n h. cc))
