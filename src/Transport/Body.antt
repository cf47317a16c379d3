-- ===== src/Transport/Body.antt =====
-- client/transfer/src/transport/get-response-body.ts: the reading of a response body with reports of
-- its progress. What the reader gives until it is done, and what arrayBuffer gives, are arguments.
pub mod Whole
use c_stateless_relay_tran.Base.{
  ℕ, ◌+◌, Bool, true, false, not, ◌&&◌, if◌then◌else◌, Option, none, some, List, [], ◌∷◌, ◌++◌,
  length, flatten, Result, ok, err, error,
}
use c_stateless_relay_tran.Base.Number.{Number, pos, neg, is_finite, ge_whole}
use c_stateless_relay_tran.Download.Accumulator.{Accumulator, create_accumulator, append_chunk}

pub record Report : Type 0 where
  pub bytes_transferred : ℕ
  pub bytes_total : Option ℕ

-- The bytes that are returned, and the reports on the way.
pub record Reading : Type 0 where
  pub bytes : List ℕ
  pub reports : List Report

-- What the code reads of a Response: Number of the Content-Length header, and the chunks of its body,
-- where it has one that can be streamed. A chunk that is undefined is an empty one.
pub record Response : Type 0 where
  pub content_length : Option Number
  pub stream : Option (List (List ℕ))
  pub array_buffer : Result (List ℕ)

abbrev is_size : Number → Bool
is_size n = is_finite n && ge_whole n 0

abbrev whole_part : Number → ℕ
whole_part (pos w f) = w
whole_part _ = 0

abbrev size_or : Option ℕ → Option Number → Option ℕ
size_or other none = other
size_or other (some n) = if is_size n then some (whole_part n) else other

unfoldable pub resolve_expected_total : Option Number → Option Number → Option ℕ
resolve_expected_total content_length expected_bytes_total =
    size_or (size_or none expected_bytes_total) content_length

-- The reports of the loop that reads the chunks.
chunk_reports : Option ℕ → ℕ → List (List ℕ) → List Report
chunk_reports total transferred [] = []
chunk_reports total transferred ([] ∷ chunks) = chunk_reports total transferred chunks
chunk_reports total transferred ((byte ∷ bytes) ∷ chunks) =
    let now = transferred + length (byte ∷ bytes) in
    record { bytes_transferred = now; bytes_total = total } ∷ chunk_reports total now chunks

-- output.set(chunk, offset); offset += chunk.byteLength
fill : List (List ℕ) → Accumulator → Accumulator
unfolding append_chunk
fill [] output = output
fill (chunk ∷ chunks) output = fill chunks (append_chunk chunk output)

abbrev total_or : ℕ → Option ℕ → ℕ
total_or n none = n
total_or n (some total) = total

with_reports : Option ℕ → List Report → List ℕ → Reading
with_reports total reports bytes = record {
  bytes = bytes;
  reports =
      record { bytes_transferred = 0; bytes_total = total }
      ∷ (reports
          ++ record {
            bytes_transferred = length bytes;
            bytes_total = some (total_or (length bytes) total);
          }
            ∷ []);
}

-- readResponseBodyStreamingWithProgress, on a body that is not null
unfoldable pub read_streaming : Option ℕ → List (List ℕ) → Reading
unfolding chunk_reports fill with_reports create_accumulator
read_streaming total chunks =
    with_reports total (chunk_reports total 0 chunks)
      (fill chunks (create_accumulator (length (flatten chunks)))).buffer

-- readResponseBodyViaArrayBufferFallback
unfoldable pub read_via_array_buffer : Option ℕ → Result (List ℕ) → Result Reading
unfolding with_reports
read_via_array_buffer total (ok bytes) = ok (with_reports total [] bytes)
read_via_array_buffer total (err e) = err e

read_either : Bool → Option ℕ → Option (List (List ℕ)) → Result (List ℕ) → Result Reading
unfolding read_streaming read_via_array_buffer
read_either false total (some chunks) buffer = ok (read_streaming total chunks)
read_either forced total stream buffer = read_via_array_buffer total buffer

-- readResponseBody
unfoldable pub read_response_body : Bool → Option Number → Response → Result Reading
unfolding read_either resolve_expected_total
read_response_body force_array_buffer_fallback expected_bytes_total response =
    read_either force_array_buffer_fallback
      (resolve_expected_total response.content_length expected_bytes_total) response.stream
      response.array_buffer
