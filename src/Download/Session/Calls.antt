-- ===== src/Download/Session/Calls.antt =====
-- What a download asks its transport for, from the first call to the last.
use c_stateless_relay_tran.Base.{
  ℕ, ◌+◌, ◌-◌, ◌≤◌, ◌<◌, ◌≡◌, ◌⊎◌, inl, inr, refl, sym, ◌∙◌, ◌==◌, leb, ltb, false, Bool-cases,
  String, List, [], length, Result, ok, err, arith,
}
use c_stateless_relay_tran.Policy.Segment.{v21_whole_file_threshold_bytes}
use c_stateless_relay_tran.Download.Act.{Act, next_step}
use c_stateless_relay_tran.Download.Plan.{tokens_from, derive_index_tokens}
use c_stateless_relay_tran.Download.Credential.{
  CodeUnits, split_credential, slice_to, search_code_length,
}
use c_stateless_relay_tran.Download.Interfaces.{SmbMetadata, TwelveC, ReceiveTransport}
use c_stateless_relay_tran.Download.Session.{prefetch_index_range, download_with, download_adaptive}
use c_stateless_relay_tran.Download.Session.Window.{
  Call, recorded, Schedule, nothing, got, prefetch-Schedule,
}
use c_stateless_relay_tran.Download.Session.Order.{after_metadata-Outcome}

module _ {W D : Type 0} (transport : ReceiveTransport W) (twelve_c : TwelveC D)
    (credential : CodeUnits) (prefetch_count : ℕ → ℕ) (w : W) where
  abbrev pub token_of : ℕ → String
  token_of = twelve_c.derive_upload_token (slice_to search_code_length credential)

  -- What the transport gives for the token 0, once the first window was started.
  abbrev pub first_block : Result (List ℕ)
  first_block =
      (transport.get (token_of 0)
        (transport.start_concurrent_get (tokens_from token_of 0 (prefetch_count 0)) w).1).0

  -- The metadata of the file are those in the block of the token 0.
  abbrev pub IsMetadata : SmbMetadata → Type 0
  IsMetadata metadata =
      (block : List ℕ) × (first_block ≡ ok block)
      × (twelve_c.parse_smb_encrypted credential block ≡ ok metadata)

  -- The token j may be started while the token i is the next one to be got: as one of the first window,
  -- or in the window of the file once its metadata are known, or as a token of a file that is decrypted
  -- at once.
  abbrev pub MayStart : ℕ → ℕ → Type 0
  MayStart i j =
      (j < prefetch_count 0)
      ⊎ ((metadata : SmbMetadata) × IsMetadata metadata
          × (1 ≤ i)
          × ((j < i + prefetch_count metadata.wire_block_size)
              ⊎ ((metadata.original_file_length ≤ v21_whole_file_threshold_bytes)
                  × (j < metadata.num_tokens))))

  -- The calls are a schedule; where there is a file, its tokens were all got.
  abbrev pub Complete : Result (List ℕ) × (W × List Call) → Type 0
  Complete run =
      (i : ℕ) × Schedule token_of MayStart i run.1.1
      × ((file : List ℕ)
          → run.0 ≡ ok file
          → (metadata : SmbMetadata) × IsMetadata metadata × (i ≡ 1 + (metadata.num_tokens - 1)))

  next-Complete :
      {A : Type 0} (i : ℕ) (step : Result A × (W × List Call))
      (next : A → Act (W × List Call) (List ℕ))
      → Schedule token_of MayStart i step.1.1
      → ((a : A) → step.0 ≡ ok a → Complete (next a step.1))
      → Complete (next_step step next)
  next-Complete i (ok a, s) next sched more = more a refl
  next-Complete i (err e, s) next sched more = (i, sched, λ file h. ground arith)

  -- The block that the run gets first.
  begun-block :
      prefetch_count 0 == 0 ≡ false
      → ((recorded transport).get
          (token_of 0)
          (prefetch_index_range
            (recorded transport)
            twelve_c
            (slice_to search_code_length credential)
            0
            (prefetch_count 0)
            (w, [])).1).0
        ≡ first_block
  unfolding prefetch_index_range derive_index_tokens
  begun-block some_at_all =
      let begins : leb (prefetch_count 0) 0 ≡ false = ground (arith, some_at_all) in
      let test : ltb (prefetch_count 0) 0 ≡ false = ground arith in
      let all : prefetch_count 0 - 0 ≡ prefetch_count 0 = omega arith in
      rw (begins, test, all, next_step) refl

  with-Complete :
      prefetch_count 0 == 0 ≡ false
      → Complete (
          download_with
            (recorded transport)
            twelve_c
            credential
            (prefetch_count 0)
            prefetch_count
            (slice_to search_code_length credential)
            (w, []))
  unfolding download_with
  with-Complete some_at_all =
      let code = slice_to search_code_length credential in
      let s : W × List Call = (w, []) in
      let first = prefetch_index_range (recorded transport) twelve_c code 0 (prefetch_count 0) s in
      let begun =
        prefetch-Schedule transport twelve_c code MayStart 0 (prefetch_count 0) 0 s (λ j lt. inl lt)
          nothing in
      let second = (recorded transport).get (token_of 0) first.1 in
      let fetched : Schedule token_of MayStart 1 second.1.1 = got begun in
      next-Complete 0 first _ begun (λ _ _. next-Complete 1 second _ fetched (λ block given.
        next-Complete 1 (twelve_c.parse_smb_encrypted credential block, second.1) _ fetched
          (λ metadata parsed.
            let known : IsMetadata metadata =
              (block, sym (begun-block some_at_all) ∙ given, parsed) in
            let (i, whole, le, all) =
              after_metadata-Outcome transport twelve_c code MayStart credential (prefetch_count 0)
                (prefetch_count metadata.wire_block_size) block metadata second.1
                (λ i j from lt. inr (metadata, known, from, inl lt))
                (λ j small lt. inr (metadata, known, omega arith, inr (small, lt))) fetched in
            (i, whole, λ file h. (metadata, known, all file h)))))

  -- On every run of a download, whatever it comes to, the blocks are asked for one after the other in
  -- the order of the file; while the block i is the next one to be got, only tokens are started that
  -- are in the first window, or, once the block 0 of this run gave the metadata, before i + m for the
  -- window m of the file's block size, or, for a file of up to 16 MiB, tokens of the file. A run that
  -- gives the file has got each of the blocks that these metadata name once.
  pub download_calls :
      Complete (download_adaptive (recorded transport) twelve_c credential prefetch_count (w, []))
  unfolding download_adaptive split_credential
  download_calls = elim (Bool-cases (prefetch_count 0 == 0)) [
    | inl none_at_all ↦ rw none_at_all (0, nothing, λ file h. ground arith)
    | inr some_at_all ↦ rw some_at_all (elim (Bool-cases (length credential == 12)) [
      | inl twelve ↦ rw (twelve, split_credential) (with-Complete some_at_all)
      | inr other ↦ rw (other, split_credential) (0, nothing, λ file h. ground arith)
    ])
  ]
