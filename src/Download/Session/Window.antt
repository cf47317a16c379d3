-- ===== src/Download/Session/Window.antt =====
-- In which order a download asks for its blocks, and how far ahead.
use c_stateless_relay_tran.Base.{
  ℕ, zero, suc, ◌+◌, ◌-◌, ◌≤◌, ◌<◌, ◌≡◌, refl, min, leb, ltb, false, Bool-cases, inl, inr, String,
  List, [], ◌∷◌, ◌++◌, All, Result, ok, err, arith,
}
use c_stateless_relay_tran.Download.Credential.{CodeUnits}
use c_stateless_relay_tran.Download.Act.{Act, lift, next_step}
use c_stateless_relay_tran.Download.Plan.{tokens_from, derive_index_tokens}
use c_stateless_relay_tran.Download.Accumulator.{Accumulator, create_accumulator, drain_session}
use c_stateless_relay_tran.Download.Interfaces.{
  TwelveC, ReceiveTransport, assert_wire_block_size, or_failure, to_safe_byte_length,
}
use c_stateless_relay_tran.Download.Session.{
  prefetch_index_range, decrypt_tokens, length_or, decrypt_downloaded_large_file,
}

-- What a transport is asked to do.
pub data Call : Type 0 where
  starts : List String → Call
  cancels : List String → Call
  gets : String → Call

-- A transport that writes down what it is asked to do.
abbrev pub recorded : {W : Type 0} → ReceiveTransport W → ReceiveTransport (W × List Call)
recorded transport = record {
  start_concurrent_get = λ tokens (w, log).
      let (r, after) = transport.start_concurrent_get tokens w in
      (r, (after, log ++ starts tokens ∷ []));
  cancel_pending =
      λ tokens (w, log). (transport.cancel_pending tokens w, log ++ cancels tokens ∷ []);
  get = λ token (w, log).
      let (r, after) = transport.get token w in (r, (after, log ++ gets token ∷ []));
}

module _ (derive : ℕ → String) (MayStart : ℕ → ℕ → Type 0) where
  -- The tokens 0 to i - 1 were got, in this order. While the token i was the next one to be got, only
  -- tokens that might be started were.
  pub data Schedule : ℕ → List Call → Type 0 where
    nothing : Schedule 0 []
    started :
        {i : ℕ} {log : List Call} (tokens : List String)
        → Schedule i log
        → All (λ token. (j : ℕ) × (token ≡ derive j) × MayStart i j) tokens
        → Schedule i (log ++ starts tokens ∷ [])
    cancelled :
        {i : ℕ} {log : List Call} (tokens : List String)
        → Schedule i log
        → Schedule i (log ++ cancels tokens ∷ [])
    got :
        {i : ℕ} {log : List Call} → Schedule i log → Schedule (suc i) (log ++ gets (derive i) ∷ [])

  -- At most n tokens were got, and n of them if there is a result.
  abbrev pub Outcome {ℓ} : {A : Type ℓ} {W : Type 0} → ℕ → Result A × (W × List Call) → Type ℓ
  Outcome n run = (i : ℕ) × Schedule i run.1.1 × (i ≤ n) × ((a : _) → run.0 ≡ ok a → i ≡ n)

  -- One step, after which k tokens were got, and what follows if it does not throw.
  pub next-Outcome :
      {A B W : Type 0} (n k : ℕ) (step : Result A × (W × List Call))
      (next : A → Act (W × List Call) B)
      → Schedule k step.1.1
      → k ≤ n
      → ((a : A) → step.0 ≡ ok a → Outcome n (next a step.1))
      → Outcome n (next_step step next)
  next-Outcome n k (ok a, s) next sched le more = more a refl
  next-Outcome n k (err e, s) next sched le more = (k, sched, le, λ a h. cc)

  -- What throws or not after the last call changes nothing.
  pub finish-Outcome :
      {A B W : Type 0} (n : ℕ) (step : Result A × (W × List Call)) (next : A → Result B)
      → Outcome n step
      → Outcome n (next_step step (λ a. lift (next a)))
  finish-Outcome n (ok a, s) next (i, sched, le, all) = (i, sched, le, λ b h. all a refl)
  finish-Outcome n (err e, s) next (i, sched, le, all) = (i, sched, le, λ b h. cc)

module _ {W D : Type 0} (transport : ReceiveTransport W) (twelve_c : TwelveC D) (code : CodeUnits)
    (MayStart : ℕ → ℕ → Type 0) where
  abbrev pub token_at : ℕ → String
  token_at = twelve_c.derive_upload_token code

  pub tokens-MayStart :
      (n from to i : ℕ)
      → from + n ≤ to
      → ((j : ℕ) → j < to → MayStart i j)
      → All (λ token. (j : ℕ) × (token ≡ token_at j) × MayStart i j) (tokens_from token_at from n)
  tokens-MayStart zero from to i le may = tt
  tokens-MayStart (suc n) from to i le may =
      ((from, refl, may from (omega arith)), tokens-MayStart n (suc from) to i (omega arith) may)

  pub prefetch-Schedule :
      (from to i : ℕ) (s : W × List Call)
      → ((j : ℕ) → j < to → MayStart i j)
      → Schedule token_at MayStart i s.1
      → Schedule token_at MayStart i
          (prefetch_index_range (recorded transport) twelve_c code from to s).1.1
  unfolding prefetch_index_range derive_index_tokens
  prefetch-Schedule from to i s may sched = elim (Bool-cases (leb to from)) [
    | inl none_left ↦ rw none_left sched
    | inr some_left ↦
        let test : ltb to from ≡ false = ground arith in
        rw (some_left, test, next_step)
          (started (tokens_from token_at from (to - from)) sched
            (tokens-MayStart (to - from) from to i (ground arith) may))
  ]

  decrypt-Outcome :
      (wire total concurrent n index : ℕ) (state : Accumulator × D) (s : W × List Call)
      → ((i j : ℕ) → 1 ≤ i → j < i + concurrent → MayStart i j)
      → 1 ≤ index
      → Schedule token_at MayStart index s.1
      → Outcome token_at MayStart
          (index + n)
          (decrypt_tokens (recorded transport) twelve_c code wire total concurrent n index state s)
  unfolding decrypt_tokens
  decrypt-Outcome wire total concurrent zero index state s may from sched =
      (index, sched, omega arith, λ a h. omega arith)
  decrypt-Outcome wire total concurrent (suc n) index (plaintext, session) s may from sched =
      let ahead =
        prefetch-Schedule (suc index) (min total (index + concurrent)) index s
          (λ j lt. may index j from (omega arith)) sched in
      let all = index + suc n in
      let first =
        prefetch_index_range (recorded transport) twelve_c code (suc index)
          (min total (index + concurrent)) s in
      let second = (recorded transport).get (token_at index) first.1 in
      let fetched : Schedule token_at MayStart (suc index) second.1.1 = got ahead in
      let sized : suc index + n ≡ all = omega arith in
      let le : suc index ≤ all = omega arith in
      next-Outcome token_at MayStart all index first _ ahead (omega arith) (λ prefetched _.
        next-Outcome token_at MayStart all (suc index) second _ fetched le (λ received _.
          next-Outcome token_at MayStart all (suc index)
            (assert_wire_block_size (token_at index) received wire, second.1) _ fetched le
            (λ block _.
              next-Outcome token_at MayStart all (suc index)
                (twelve_c.session.add_wire_token index block session, second.1) _ fetched le
                (λ fed _.
                  next-Outcome token_at MayStart all (suc index)
                    (drain_session twelve_c.session.take_plaintext_chunk plaintext fed, second.1) _
                    fetched le
                    (λ drained _. rw sized at (
                      decrypt-Outcome wire total concurrent n (suc index) drained second.1 may
                        (omega arith) fetched))))))

  pub large_file-Outcome :
      (credential : CodeUnits) (token0_wire : List ℕ) (wire total original concurrent : ℕ)
      (s : W × List Call)
      → ((i j : ℕ) → 1 ≤ i → j < i + concurrent → MayStart i j)
      → Schedule token_at MayStart 1 s.1
      → Outcome token_at MayStart (1 + (total - 1)) (
          decrypt_downloaded_large_file
            (recorded transport)
            twelve_c
            code
            credential
            token0_wire
            wire
            total
            original
            concurrent
            s)
  unfolding decrypt_downloaded_large_file
  large_file-Outcome credential token0_wire wire total original concurrent s may sched =
      next-Outcome token_at MayStart (1 + (total - 1)) 1
        (or_failure (twelve_c.create_receive_decrypt_session credential token0_wire), s) _ sched
        (omega arith)
        (λ session _.
          next-Outcome token_at MayStart (1 + (total - 1)) 1
            (
              to_safe_byte_length
                  (length_or original (twelve_c.session.original_file_length session))
                  "originalFileLength",
              s,
            )
            _ sched (omega arith)
            (λ expected _. finish-Outcome token_at MayStart (1 + (total - 1)) _ _ (
              decrypt-Outcome wire total concurrent (total - 1) 1
                (create_accumulator expected, session) s may (omega arith) sched)))
