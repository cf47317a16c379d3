-- ===== src/Download/Accumulator/Export.antt =====
-- What an accumulator's file consists of when it is exported.
use mathlib.Core.List.{append-nil}
use c_stateless_relay_tran.Base.{
  ℕ, zero, suc, ◌≡◌, refl, sym, ap, ◌∙◌, ◌==◌, Bool-cases, inl, inr, Option, some, List, [], ◌∷◌,
  ◌++◌, length, length-append, flatten, Result, ok, arith, Result-cases,
}
use c_stateless_relay_tran.Download.Accumulator.{
  ReceiveDecryptSession, Accumulator, zeros, create_accumulator, drain_session, to_blob,
  export_after, finalize_to_blob,
}
use c_stateless_relay_tran.Download.Accumulator.Draining.{Holds, Takes, drain_session-Drained}

length-zeros : (n : ℕ) → length (zeros n) ≡ n
length-zeros zero = refl
length-zeros (suc n) = omega (arith, length-zeros n)

pub new-Holds :
    (n : ℕ)
    → Holds [] (create_accumulator n)
      × (length (create_accumulator n).buffer ≡ n)
      × ((create_accumulator n).expected_length ≡ n)
unfolding create_accumulator
new-Holds n = ((zeros n, refl, refl), length-zeros n, refl)

-- A full buffer is what was written.
pub whole_buffer :
    (written rest : List ℕ) → length (written ++ rest) ≡ length written → written ++ rest ≡ written
whole_buffer written [] h = append-nil written
whole_buffer written (x ∷ rest) h = absurd (omega (arith, h, length-append written (x ∷ rest)))

blob-ok :
    (written file : List ℕ) (acc : Accumulator)
    → Holds written acc
    → length acc.buffer ≡ acc.expected_length
    → to_blob acc ≡ ok file
    → (file ≡ written) × (length file ≡ acc.expected_length)
unfolding to_blob
blob-ok written file acc (rest, is_buffer, is_offset) sized h =
    elim (Bool-cases (acc.offset == acc.expected_length)) [
      | inr e ↦ let failed = rw e at h in ground arith
      | inl e ↦
          let given = rw e at h in
          let same : acc.buffer ≡ file = cc in
          let full : acc.offset ≡ acc.expected_length = ground (arith, e) in
          let both : length (written ++ rest) ≡ length acc.buffer = ap length (sym is_buffer) in
          let all : file ≡ written =
            sym same ∙ is_buffer ∙ whole_buffer written rest (omega arith) in
          let len : length file ≡ length acc.buffer = ap length (sym same) in (all, len ∙ sized)
    ]

pub first_of :
    {D : Type 0} {a b : Accumulator} {s t : D}
    → ◌≡◌ {A = Result (Accumulator × D)} (ok (a, s)) (ok (b, t))
    → (a ≡ b) × (s ≡ t)
first_of e = (cc, cc)

module _ {D : Type 0} (take_chunk : D → List ℕ × D) where
  -- Draining that gives a value has put all chunks behind what was held.
  abbrev pub DrainsTo : List ℕ → Accumulator → D → Accumulator → D → Type 0
  DrainsTo written acc session full next =
      (chunks : List (List ℕ)) × (last : D) × Takes take_chunk chunks session last
      × ((take_chunk last).0 ≡ [])
      × ((take_chunk last).1 ≡ next)
      × Holds (written ++ flatten chunks) full
      × (length full.buffer ≡ length acc.buffer)
      × (full.expected_length ≡ acc.expected_length)

  pub drain-ok :
      (o : Option (D → List ℕ × D)) (written : List ℕ) (acc : Accumulator) (session : D)
      (full : Accumulator) (next : D)
      → Holds written acc
      → o ≡ some take_chunk
      → drain_session o acc session ≡ ok (full, next)
      → DrainsTo written acc session full next
  drain-ok o written acc session full next held is_some h0 =
      let h = ap (λ p. drain_session p acc session) (sym is_some) ∙ h0 in
      let (chunks, last, takes, outcome) =
        drain_session-Drained take_chunk written acc session held in
      elim outcome [
        | inr (long, p) ↦ let no = sym h ∙ p in ground arith
        | inl (empty, (out, p, holds, sized, expected)) ↦
            let (same, last_same) = first_of (sym p ∙ h) in
            (
              chunks,
              last,
              takes,
              empty,
              last_same,
              rw same at holds,
              rw same at sized,
              rw same at expected,
            )
      ]

  abbrev pub Exports : (D → Result D) → List ℕ → D → List ℕ → Type 0
  Exports complete written last file =
      (done : D) × (chunks : List (List ℕ)) × (mid : D) × (complete last ≡ ok done)
      × Takes take_chunk chunks done mid
      × ((take_chunk mid).0 ≡ [])
      × (file ≡ written ++ flatten chunks)

  export-ok :
      (o : Option (D → List ℕ × D)) (complete : D → Result D) (acc : Accumulator) (last : D)
      (written file : List ℕ)
      → o ≡ some take_chunk
      → Holds written acc
      → length acc.buffer ≡ acc.expected_length
      → export_after o acc (complete last) ≡ ok file
      → Exports complete written last file × (length file ≡ acc.expected_length)
  unfolding export_after
  export-ok o complete acc last written file is_some held sized h =
      elim (Result-cases (complete last)) [
        | inr (e, p) ↦ let failed = rw p at h in ground arith
        | inl (done, p) ↦
            let h1 = rw p at h in
            elim (Result-cases (drain_session o acc done)) [
              | inr (e, q) ↦ let failed = rw q at h1 in ground arith
              | inl ((full, next), q) ↦
                  let h2 = rw q at h1 in
                  let (chunks, mid, takes, empty, _, holds, capacity, expected) =
                    drain-ok o written acc done full next held is_some q in
                  let (is_file, len) =
                    blob-ok (written ++ flatten chunks) file full holds
                      (capacity ∙ sized ∙ sym expected) h2 in
                  ((done, chunks, mid, p, takes, empty, is_file), len ∙ expected)
            ]
      ]

  pub finalize-ok :
      (methods : ReceiveDecryptSession D) (o : Option (D → Result D)) (complete : D → Result D)
      (acc : Accumulator) (last : D) (written file : List ℕ)
      → methods.take_plaintext_chunk ≡ some take_chunk
      → o ≡ some complete
      → Holds written acc
      → length acc.buffer ≡ acc.expected_length
      → finalize_to_blob methods acc last o ≡ ok file
      → Exports complete written last file × (length file ≡ acc.expected_length)
  unfolding finalize_to_blob
  finalize-ok methods o complete acc last written file takes completes held sized h =
      export-ok methods.take_plaintext_chunk complete acc last written file takes held sized
        (ap (λ p. finalize_to_blob methods acc last p) (sym completes) ∙ h)
