-- ===== src/Transport/Body/Whole.antt =====
-- What is read of a streamed body, and what is reported of it.
use mathlib.Core.List.{append_assoc, append-nil}
use c_stateless_relay_tran.Base.{
  ℕ, ◌+◌, ◌≤◌, ◌≡◌, refl, sym, ap, ◌∙◌, Option, some, List, [], ◌∷◌, ◌++◌, length, length-append,
  flatten, arith,
}
use c_stateless_relay_tran.Download.Accumulator.{Accumulator, create_accumulator, append_chunk}
use c_stateless_relay_tran.Download.Accumulator.Draining.{Holds, append-Holds}
use c_stateless_relay_tran.Download.Accumulator.Export.{new-Holds, whole_buffer}
use c_stateless_relay_tran.Download.Status.Progress.{Ascends}
use c_stateless_relay_tran.Transport.Body.{
  Report, chunk_reports, fill, total_or, with_reports, read_streaming,
}

fill-Holds :
    (chunks : List (List ℕ)) (written : List ℕ) (output : Accumulator)
    → Holds written output
    → output.offset + length (flatten chunks) ≤ length output.buffer
    → Holds (written ++ flatten chunks) (fill chunks output)
      × (length (fill chunks output).buffer ≡ length output.buffer)
unfolding fill append_chunk
fill-Holds [] written output held room = (rw append-nil held, refl)
fill-Holds (chunk ∷ chunks) written output held room =
    let sized = length-append chunk (flatten chunks) in
    let (held_now, same) = append-Holds chunk written output held (omega arith) in
    let (held_all, same_all) =
      fill-Holds chunks (written ++ chunk) (append_chunk chunk output) held_now (omega arith) in
    let joined = append_assoc written chunk (flatten chunks) in
    (rw joined at held_all, same_all ∙ same)

filled :
    (chunks : List (List ℕ))
    → (fill chunks (create_accumulator (length (flatten chunks)))).buffer ≡ flatten chunks
filled chunks =
    let (held, capacity, _) = new-Holds (length (flatten chunks)) in
    let ((rest, is_buffer, is_offset), same) =
      fill-Holds chunks [] (create_accumulator (length (flatten chunks))) held
        (omega (arith, held.2, capacity)) in
    is_buffer ∙ whole_buffer (flatten chunks) rest (ap length (sym is_buffer) ∙ same ∙ capacity)

abbrev pub transferred_of : List Report → List ℕ
transferred_of [] = []
transferred_of (report ∷ reports) = report.bytes_transferred ∷ transferred_of reports

transferred_of-append :
    (xs ys : List Report) → transferred_of (xs ++ ys) ≡ transferred_of xs ++ transferred_of ys
transferred_of-append [] ys = refl
transferred_of-append (x ∷ xs) ys =
    ap (λ rest. x.bytes_transferred ∷ rest) (transferred_of-append xs ys)

chunk_reports-Ascends :
    (total : Option ℕ) (chunks : List (List ℕ)) (transferred : ℕ) (last : Report)
    → last.bytes_transferred ≡ transferred + length (flatten chunks)
    → Ascends transferred (transferred_of (chunk_reports total transferred chunks ++ last ∷ []))
unfolding chunk_reports
chunk_reports-Ascends total [] transferred last e = (omega arith, tt)
chunk_reports-Ascends total ([] ∷ chunks) transferred last e =
    chunk_reports-Ascends total chunks transferred last e
chunk_reports-Ascends total ((byte ∷ bytes) ∷ chunks) transferred last e =
    let sized = length-append (byte ∷ bytes) (flatten chunks) in
    (
      omega arith,
      chunk_reports-Ascends total chunks (transferred + length (byte ∷ bytes)) last (omega arith),
    )

-- However a body is cut into chunks, what is read is the body, with nothing left out or written over;
-- the reported byte counts start with 0, never go back, and end with the length of the body.
pub read_streaming-whole :
    (total : Option ℕ) (chunks : List (List ℕ))
    → ((read_streaming total chunks).bytes ≡ flatten chunks)
      × Ascends 0 (transferred_of (read_streaming total chunks).reports)
      × ((reports : List ℕ) × (transferred_of (read_streaming total chunks).reports
            ≡ 0 ∷ (reports ++ length (flatten chunks) ∷ [])))
unfolding read_streaming with_reports
read_streaming-whole total chunks =
    let same = filled chunks in
    let len = ap length same in
    let last : Report = record {
      bytes_transferred =
          length (fill chunks (create_accumulator (length (flatten chunks)))).buffer;
      bytes_total = some (
          total_or (length (fill chunks (create_accumulator (length (flatten chunks)))).buffer)
            total);
    } in
    (
      same,
      (omega arith, chunk_reports-Ascends total chunks 0 last (omega arith)),
      (
        transferred_of (chunk_reports total 0 chunks),
        ap (λ rest. 0 ∷ rest)
            (transferred_of-append (chunk_reports total 0 chunks) (last ∷ [])
              ∙ ap (λ n. transferred_of (chunk_reports total 0 chunks) ++ n ∷ []) len),
      ),
    )
