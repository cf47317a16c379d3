-- ===== src/Download/Session/Content.antt =====
-- What a large file consists of: the chunks that the decryption session gives for its blocks.
use mathlib.Core.List.{append_assoc, append-nil}
use c_stateless_relay_tran.Base.{
  ℕ, zero, suc, ◌+◌, ◌-◌, ◌≡◌, refl, sym, ap, ◌∙◌, ◌==◌, leb, min, Bool-cases, inl, inr, String,
  some, List, [], ◌++◌, length, flatten, Result, ok, err, arith,
}
use c_stateless_relay_tran.Download.Credential.{CodeUnits}
use c_stateless_relay_tran.Download.Act.{Act, next_step}
use c_stateless_relay_tran.Download.Accumulator.{Accumulator, create_accumulator, drain_session}
use c_stateless_relay_tran.Download.Accumulator.Export.{
  first_of, new-Holds, drain-ok, Exports, finalize-ok,
}
use c_stateless_relay_tran.Download.Accumulator.Draining.{Holds, Takes}
use c_stateless_relay_tran.Download.Interfaces.{
  TwelveC, ReceiveTransport, assert_wire_block_size, or_failure, to_safe_byte_length,
  max_safe_integer,
}
use c_stateless_relay_tran.Download.Session.{
  length_or, prefetch_index_range, decrypt_tokens, decrypt_downloaded_large_file,
}

-- A step that gives a value has run to its end, and so has what follows it.
next_step-ok :
    {A B W : Type 0} (step : Result A × W) (next : A → Act W B) (b : B)
    → (next_step step next).0 ≡ ok b
    → (a : A) × (step.0 ≡ ok a) × ((next a step.1).0 ≡ ok b)
next_step-ok (ok a, w) next b h = (a, refl, h)
next_step-ok (err e, w) next b h = cc

module _ {W D : Type 0} (transport : ReceiveTransport W) (twelve_c : TwelveC D) (code : CodeUnits)
    (take_chunk : D → List ℕ × D)
    (takes_chunks : twelve_c.session.take_plaintext_chunk ≡ some take_chunk)
    (wire_block_size total concurrent : ℕ) where
  abbrev after_prefetch : ℕ → W → W
  after_prefetch index w =
      (prefetch_index_range transport twelve_c code (suc index) (min total (index + concurrent))
        w).1

  abbrev received : ℕ → W → Result (List ℕ) × W
  received index w =
      transport.get (twelve_c.derive_upload_token code index) (after_prefetch index w)

  -- The session is fed, from `index` on, with n blocks of the right size, each what the transport gave
  -- for its token, and gives the bytes as its chunks.
  abbrev pub Feeds : ℕ → ℕ → W → D → List ℕ → D → Type 0
  Feeds zero index w session bytes last = (bytes ≡ []) × (session ≡ last)
  Feeds (suc n) index w session bytes last =
      (wire : List ℕ) × (fed : D) × (chunks : List (List ℕ)) × (mid : D) × (more : List ℕ)
      × ((received index w).0 ≡ ok wire)
      × (length wire ≡ wire_block_size)
      × (twelve_c.session.add_wire_token index wire session ≡ ok fed)
      × Takes take_chunk chunks fed mid
      × ((take_chunk mid).0 ≡ [])
      × Feeds n (suc index) (received index w).1 (take_chunk mid).1 more last
      × (bytes ≡ flatten chunks ++ more)

  abbrev Fed : ℕ → ℕ → W → List ℕ → Accumulator → D → Accumulator × D → Type 0
  Fed n index w written acc session out =
      (bytes : List ℕ) × Feeds n index w session bytes out.1
      × Holds (written ++ bytes) out.0
      × (length out.0.buffer ≡ length acc.buffer)
      × (out.0.expected_length ≡ acc.expected_length)

  sized-ok :
      (token : String) (wire block : List ℕ)
      → assert_wire_block_size token wire wire_block_size ≡ ok block
      → (wire ≡ block) × (length wire ≡ wire_block_size)
  unfolding assert_wire_block_size
  sized-ok token wire block h = elim (Bool-cases (length wire == wire_block_size)) [
    | inl e ↦ let it = rw e at h in (cc, ground (arith, e))
    | inr e ↦ let failed = rw e at h in ground arith
  ]

  decrypt-Fed :
      (n index : ℕ) (w : W) (written : List ℕ) (acc : Accumulator) (session : D)
      (out : Accumulator × D)
      → Holds written acc
      → (decrypt_tokens transport twelve_c code wire_block_size total concurrent n index
          (acc, session)
          w).0
        ≡ ok out
      → Fed n index w written acc session out
  unfolding decrypt_tokens
  decrypt-Fed zero index w written acc session out held h =
      let (same, last) = first_of h in
      (
        [],
        (refl, last),
        rw append-nil (rw same at held),
        ap (λ (a : Accumulator). length a.buffer) (sym same),
        ap (λ (a : Accumulator). a.expected_length) (sym same),
      )
  decrypt-Fed (suc n) index w written acc session out held h =
      let (_, prefetched, h1) =
        next_step-ok
          (prefetch_index_range transport twelve_c code (suc index) (min total (index + concurrent))
            w)
          _ out h in
      let (wire, got_it, h2) = next_step-ok (received index w) _ out h1 in
      let (block, asserted, h3) =
        next_step-ok
          (
            assert_wire_block_size (twelve_c.derive_upload_token code index) wire wire_block_size,
            (received index w).1,
          )
          _ out h2 in
      let (fed, added, h4) =
        next_step-ok (twelve_c.session.add_wire_token index block session, (received index w).1) _
          out h3 in
      let ((full, next), drained, h5) =
        next_step-ok
          (drain_session twelve_c.session.take_plaintext_chunk acc fed, (received index w).1) _ out
          h4 in
      let (same, sized) = sized-ok (twelve_c.derive_upload_token code index) wire block asserted in
      let (chunks, mid, takes, empty, next_same, holds, capacity, expected) =
        drain-ok take_chunk twelve_c.session.take_plaintext_chunk written acc fed full next held
          takes_chunks drained in
      let (more, feeds, held_all, capacity_all, expected_all) =
        decrypt-Fed n (suc index) (received index w).1 (written ++ flatten chunks) full next out
          holds h5 in
      (
        flatten chunks ++ more,
        (
          block,
          fed,
          chunks,
          mid,
          more,
          rw same at got_it,
          rw same at sized,
          added,
          takes,
          empty,
          rw next_same feeds,
          refl,
        ),
        rw (sym (append_assoc written (flatten chunks) more)) held_all,
        capacity_all ∙ capacity,
        expected_all ∙ expected,
      )

  -- The file is what the session gave for the blocks and, when it was completed, at the end; its length
  -- is the one that the session or the metadata say.
  abbrev pub IsContent : (D → Result D) → CodeUnits → List ℕ → ℕ → W → List ℕ → Type 0
  IsContent complete credential token0_wire original w file =
      (session : D) × (bytes : List ℕ) × (last : D) × (or_failure
          (twelve_c.create_receive_decrypt_session credential token0_wire)
        ≡ ok session)
      × Feeds (total - 1) 1 w session bytes last
      × Exports take_chunk complete bytes last file
      × (length file ≡ length_or original (twelve_c.session.original_file_length session))

  safe-same : (n m : ℕ) (label : String) → to_safe_byte_length n label ≡ ok m → m ≡ n
  unfolding to_safe_byte_length
  safe-same n m label h = elim (Bool-cases (leb n max_safe_integer)) [
    | inl e ↦ let it = rw e at h in cc
    | inr e ↦ let failed = rw e at h in cc
  ]

  -- When the download of a large file gives a file: each block, in order, was of the right size and what
  -- the transport gave for its token; the file is all that the session gave as plaintext, after each
  -- block and at the end, one after the other with nothing left out or written over; and its length is
  -- the one that the session says, or else the metadata.
  pub large_file-IsContent :
      (complete : D → Result D)
      → twelve_c.session.complete_finalize ≡ some complete
      → (credential : CodeUnits) (token0_wire : List ℕ) (original : ℕ) (w : W) (file : List ℕ)
      → (decrypt_downloaded_large_file transport twelve_c code credential token0_wire
          wire_block_size total original concurrent w).0
        ≡ ok file
      → IsContent complete credential token0_wire original w file
  unfolding decrypt_downloaded_large_file
  large_file-IsContent complete completes credential token0_wire original w file h =
      let (session, made, h1) =
        next_step-ok
          (or_failure (twelve_c.create_receive_decrypt_session credential token0_wire), w) _ file
          h in
      let (expected, safe, h2) =
        next_step-ok
          (
            to_safe_byte_length (length_or original (twelve_c.session.original_file_length session))
                "originalFileLength",
            w,
          )
          _ file h1 in
      let ((acc, last), decrypted, h3) =
        next_step-ok
          (decrypt_tokens transport twelve_c code wire_block_size total concurrent (total - 1) 1
            (create_accumulator expected, session) w)
          _ file h2 in
      let (bytes, feeds, holds, capacity, length_same) =
        decrypt-Fed (total - 1) 1 w [] (create_accumulator expected) session (acc, last)
          (new-Holds expected).0 decrypted in
      let is_safe =
        safe-same (length_or original (twelve_c.session.original_file_length session)) expected
          "originalFileLength" safe in
      let (_, room, stated) = new-Holds expected in
      let (exports, len) =
        finalize-ok take_chunk twelve_c.session twelve_c.session.complete_finalize complete acc last
          bytes file takes_chunks completes holds (capacity ∙ room ∙ sym stated ∙ sym length_same)
          h3 in
      (session, bytes, last, made, feeds, exports, len ∙ length_same ∙ stated ∙ is_safe)
