-- ===== src/Download/Session/Order.antt =====
-- The calls of a whole download.
use mathlib.Core.List.{append-nil}
use c_stateless_relay_tran.Base.{
  ℕ, zero, suc, ◌+◌, ◌-◌, ◌≤◌, ◌<◌, ◌≡◌, sym, ◌∙◌, leb, ltb, ◌==◌, false, Bool-cases, inl, inr,
  String, List, [], ◌∷◌, ◌++◌, All, length, ok, arith,
}
use c_stateless_relay_tran.Base.StringMap
use c_stateless_relay_tran.Policy.Segment.{v21_whole_file_threshold_bytes}
use c_stateless_relay_tran.Upload.Blocks.{UploadMap}
use c_stateless_relay_tran.Download.Credential.{CodeUnits}
use c_stateless_relay_tran.Download.Act.{next_step}
use c_stateless_relay_tran.Download.Plan.{
  ReceiveDownloadPlan, tokens_from, derive_index_tokens, compute_receive_download_plan,
}
use c_stateless_relay_tran.Download.Plan.Partition.{plan-partition}
use c_stateless_relay_tran.Download.Interfaces.{
  SmbMetadata, TwelveC, ReceiveTransport, assert_wire_block_size, check_size,
}
use c_stateless_relay_tran.Download.Session.{
  cancel_index_range, start_if_any, cancel_if_any, gather_tokens, streamed, gathered,
  after_metadata,
}
use c_stateless_relay_tran.Download.Session.Window.{
  Call, recorded, Schedule, started, cancelled, got, Outcome, next-Outcome, finish-Outcome,
  tokens-MayStart, large_file-Outcome,
}

All-suffix : {A : Type 0} (P : A → Type 0) (xs ys : List A) → All P (xs ++ ys) → All P ys
All-suffix P [] ys h = h
All-suffix P (x ∷ xs) ys h = All-suffix P xs ys h.1

by_plan :
    (made plan : ReceiveDownloadPlan)
    → ok made ≡ ok plan
    → made.fetch_after_smb ≡ plan.fetch_after_smb
by_plan made plan e = cc

module _ {W D : Type 0} (transport : ReceiveTransport W) (twelve_c : TwelveC D) (code : CodeUnits)
    (MayStart : ℕ → ℕ → Type 0) where
  abbrev token_at : ℕ → String
  token_at = twelve_c.derive_upload_token code

  abbrev ByMayStart : ℕ → List String → Type 0
  ByMayStart i = All (λ token. (j : ℕ) × (token ≡ token_at j) × MayStart i j)

  cancel_range-Schedule :
      (from to i : ℕ) (s : W × List Call)
      → Schedule token_at MayStart i s.1
      → Schedule token_at MayStart i
          (cancel_index_range (recorded transport) twelve_c code from to s).1.1
  unfolding cancel_index_range derive_index_tokens
  cancel_range-Schedule from to i s sched = elim (Bool-cases (leb to from)) [
    | inl none_left ↦ rw none_left sched
    | inr some_left ↦
        let test : ltb to from ≡ false = ground arith in
        rw (some_left, test, next_step) (cancelled (tokens_from token_at from (to - from)) sched)
  ]

  cancel_any-Schedule :
      (tokens : List String) (i : ℕ) (s : W × List Call)
      → Schedule token_at MayStart i s.1
      → Schedule token_at MayStart i (cancel_if_any (recorded transport) twelve_c code tokens s).1.1
  unfolding cancel_if_any
  cancel_any-Schedule [] i s sched = sched
  cancel_any-Schedule (token ∷ tokens) i s sched = cancelled (token ∷ tokens) sched

  start_any-Schedule :
      (tokens : List String) (i : ℕ) (s : W × List Call)
      → ByMayStart i tokens
      → Schedule token_at MayStart i s.1
      → Schedule token_at MayStart i (start_if_any (recorded transport) twelve_c code tokens s).1.1
  unfolding start_if_any
  start_any-Schedule [] i s may sched = sched
  start_any-Schedule (token ∷ tokens) i s may sched = started (token ∷ tokens) sched may

  gather-Outcome :
      (wire n index : ℕ) (uploads : UploadMap) (s : W × List Call)
      → Schedule token_at MayStart index s.1
      → Outcome token_at MayStart
          (index + n)
          (gather_tokens (recorded transport) twelve_c code wire n index uploads s)
  unfolding gather_tokens
  gather-Outcome wire zero index uploads s sched = (index, sched, omega arith, λ a h. omega arith)
  gather-Outcome wire (suc n) index uploads s sched =
      let all = index + suc n in
      let first = (recorded transport).get (token_at index) s in
      let fetched : Schedule token_at MayStart (suc index) first.1.1 = got sched in
      let sized : suc index + n ≡ all = omega arith in
      let le : suc index ≤ all = omega arith in
      next-Outcome token_at MayStart all (suc index) first _ fetched le (λ received _.
        next-Outcome token_at MayStart all (suc index)
          (assert_wire_block_size (token_at index) received wire, first.1) _ fetched le
          (λ block _. rw sized at (
            gather-Outcome wire n (suc index) (StringMap.set (token_at index) block uploads) first.1
              fetched)))

  fetch_after-MayStart :
      (concurrent total : ℕ) (plan : ReceiveDownloadPlan)
      → compute_receive_download_plan token_at concurrent total ≡ ok plan
      → ((j : ℕ) → j < total → MayStart 1 j)
      → ByMayStart 1 plan.fetch_after_smb
  unfolding compute_receive_download_plan derive_index_tokens
  fetch_after-MayStart concurrent total plan e may = elim (Bool-cases (concurrent == 0)) [
    | inl none_at_all ↦ let failed = rw none_at_all at e in ground arith
    | inr some_at_all ↦
        let (made, p, whole, joined, either) =
          plan-partition token_at concurrent total (ground arith) in
        let same : made.fetch_after_smb ≡ plan.fetch_after_smb = by_plan made plan (sym p ∙ e) in
        elim either [
          | inl no_fetch ↦ let empty = sym same ∙ no_fetch in rw empty tt
          | inr no_cancel ↦
              let every = rw no_cancel at joined in
              let told : ByMayStart 1 (made.initial_prefetch ++ made.fetch_after_smb) =
                rw (every, append-nil)
                  (tokens-MayStart transport twelve_c code MayStart total 0 total 1 (omega arith)
                    may) in
              rw same at (All-suffix _ made.initial_prefetch made.fetch_after_smb told)
        ]
  ]

  abbrev total_of : SmbMetadata → ℕ
  total_of metadata = 1 + (metadata.num_tokens - 1)

  streamed-Outcome :
      (credential : CodeUnits) (token0_wire : List ℕ) (metadata : SmbMetadata) (concurrent : ℕ)
      (s : W × List Call)
      → ((i j : ℕ) → 1 ≤ i → j < i + concurrent → MayStart i j)
      → Schedule token_at MayStart 1 s.1
      → Outcome token_at MayStart
          (total_of metadata)
          (streamed (recorded transport) twelve_c code credential token0_wire metadata concurrent s)
  unfolding streamed
  streamed-Outcome credential token0_wire metadata concurrent s may sched =
      finish-Outcome token_at MayStart (total_of metadata) _ _ (
        large_file-Outcome transport twelve_c code MayStart credential token0_wire
          metadata.wire_block_size metadata.num_tokens metadata.original_file_length concurrent s
          may sched)

  gathered-Outcome :
      (credential : CodeUnits) (token0_wire : List ℕ) (metadata : SmbMetadata)
      (plan : ReceiveDownloadPlan) (s : W × List Call)
      → ByMayStart 1 plan.fetch_after_smb
      → Schedule token_at MayStart 1 s.1
      → Outcome token_at MayStart
          (total_of metadata)
          (gathered (recorded transport) twelve_c code credential token0_wire metadata plan s)
  unfolding gathered
  gathered-Outcome credential token0_wire metadata plan s may sched =
      let first = start_if_any (recorded transport) twelve_c code plan.fetch_after_smb s in
      let begun = start_any-Schedule plan.fetch_after_smb 1 s may sched in
      next-Outcome token_at MayStart (total_of metadata) 1 first _ begun (omega arith) (λ _ _.
        finish-Outcome token_at MayStart (total_of metadata) _ _ (
          gather-Outcome metadata.wire_block_size (metadata.num_tokens - 1) 1
            ((token_at 0, token0_wire) ∷ []) first.1 begun))

  pub after_metadata-Outcome :
      (credential : CodeUnits) (estimated concurrent : ℕ) (token0_wire : List ℕ)
      (metadata : SmbMetadata) (s : W × List Call)
      → ((i j : ℕ) → 1 ≤ i → j < i + concurrent → MayStart i j)
      → ((j : ℕ)
          → metadata.original_file_length ≤ v21_whole_file_threshold_bytes
          → j < metadata.num_tokens
          → MayStart 1 j)
      → Schedule token_at MayStart 1 s.1
      → Outcome token_at MayStart (total_of metadata) (
          after_metadata
            (recorded transport)
            twelve_c
            code
            credential
            estimated
            concurrent
            token0_wire
            metadata
            s)
  unfolding after_metadata
  after_metadata-Outcome credential estimated concurrent token0_wire metadata s window small sched =
      let all = total_of metadata in
      next-Outcome token_at MayStart all 1
        (check_size "token0 wire" (length token0_wire) metadata.wire_block_size, s) _ sched
        (omega arith)
        (λ sized _.
          next-Outcome token_at MayStart all 1
            (compute_receive_download_plan token_at concurrent metadata.num_tokens, s) _ sched
            (omega arith)
            (λ plan planned.
              let first =
                cancel_index_range (recorded transport) twelve_c code concurrent estimated s in
              let spared = cancel_range-Schedule concurrent estimated 1 s sched in
              let second =
                cancel_if_any (recorded transport) twelve_c code plan.cancel_after_smb first.1 in
              let dropped = cancel_any-Schedule plan.cancel_after_smb 1 first.1 spared in
              next-Outcome token_at MayStart all 1 first _ spared (omega arith) (λ _ _.
                next-Outcome token_at MayStart all 1 second _ dropped (omega arith) (λ _ _.
                  elim (Bool-cases
                    (ltb v21_whole_file_threshold_bytes metadata.original_file_length)) [
                      | inl large ↦ rw large (
                          streamed-Outcome credential token0_wire metadata concurrent second.1
                            window dropped)
                      | inr one_piece ↦ rw one_piece (
                          gathered-Outcome credential token0_wire metadata plan second.1
                            (fetch_after-MayStart concurrent metadata.num_tokens plan planned
                              (λ j lt. small j (ground arith) lt))
                            dropped)
                    ]))))
