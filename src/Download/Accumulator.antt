-- ===== src/Download/Accumulator.antt =====
-- client/transfer/src/session/finalize-receive-decrypt.ts: the buffer that the plaintext of a file is
-- gathered in, and its export when decryption is complete. The decryption session is a parameter: a
-- state type with the session's methods, those that may be missing as options.
pub mod Draining
pub mod Export
use c_stateless_relay_tran.Base.{
  ℕ, zero, suc, ◌+◌, ◌-◌, ltb, ◌==◌, if◌then◌else◌, String, Option, none, some, List, [], ◌∷◌, ◌++◌,
  length, take, drop, Result, ok, err, error, value, ◌>>=◌,
}
use c_stateless_relay_tran.Base.Text.{concat, decimal}

-- ReceiveDecryptSession. A method that changes the session returns the session that follows.
pub record ReceiveDecryptSession (D : Type 0) : Type 0 where
  pub original_file_length : D → Option ℕ
  pub add_wire_token : ℕ → List ℕ → D → Result D
  -- takePlaintextChunk for the export chunk's size
  pub take_plaintext_chunk : Option (D → List ℕ × D)
  pub complete_finalize : Option (D → Result D)
  pub finalize : D → Result (List ℕ)

pub record Accumulator : Type 0 where
  pub buffer : List ℕ
  pub offset : ℕ
  pub expected_length : ℕ

abbrev zeros : ℕ → List ℕ
zeros zero = []
zeros (suc n) = 0 ∷ zeros n

-- createReceivePlaintextAccumulator, where the memory can be had
unfoldable pub create_accumulator : ℕ → Accumulator
create_accumulator expected_length = record {
  buffer = zeros expected_length;
  offset = 0;
  expected_length = expected_length;
}

-- this.buffer.set(chunk, offset), for a chunk that fits
unfoldable pub put_at : ℕ → List ℕ → List ℕ → List ℕ
put_at offset chunk buffer = take offset buffer ++ (chunk ++ drop (offset + length chunk) buffer)

unfoldable pub append_chunk : List ℕ → Accumulator → Accumulator
unfolding put_at
append_chunk chunk acc = record acc {
  buffer = put_at acc.offset chunk acc.buffer;
  offset = acc.offset + length chunk;
}

unfoldable pub overflow_message : ℕ → ℕ → String
unfolding concat decimal
overflow_message written capacity = concat (
    "decrypted file overflow: wrote "
    ∷ decimal written
    ∷ " bytes, buffer capacity "
    ∷ decimal capacity
    ∷ [])

-- ReceivePlaintextAccumulator.toBlob
unfoldable pub to_blob : Accumulator → Result (List ℕ)
unfolding concat decimal
to_blob acc =
    if acc.offset == acc.expected_length
    then ok acc.buffer
    else err (
        error (
          concat (
            "decrypted file size mismatch: got "
            ∷ decimal acc.offset
            ∷ ", expected "
            ∷ decimal acc.expected_length
            ∷ [])))

module _ {D : Type 0} where
  -- One round, on the chunk that was taken.
  after_chunk :
      (Accumulator → D → Result (Accumulator × D))
      → Accumulator
      → D
      → List ℕ
      → Result (Accumulator × D)
  after_chunk again acc session [] = ok (acc, session)
  after_chunk again acc session (byte ∷ bytes) =
      let written = acc.offset + length (byte ∷ bytes) in
      let rest = again (append_chunk (byte ∷ bytes) acc) session in
      if ltb (length acc.buffer) written
      then err (error (overflow_message written (length acc.buffer)))
      else rest

  -- The loop of drainSession. Each round writes at least a byte, so that the fuel, one more than the
  -- bytes that the buffer has left, is enough.
  unfoldable pub drain_rounds : (D → List ℕ × D) → ℕ → Accumulator → D → Result (Accumulator × D)
  unfolding after_chunk
  drain_rounds take_chunk zero acc session = err (value "out of fuel")
  drain_rounds take_chunk (suc fuel) acc session =
      let (chunk, next) = take_chunk session in
      after_chunk (drain_rounds take_chunk fuel) acc next chunk

  -- ReceivePlaintextAccumulator.drainSession
  unfoldable pub drain_session :
      Option (D → List ℕ × D) → Accumulator → D → Result (Accumulator × D)
  unfolding drain_rounds
  drain_session none acc session = ok (acc, session)
  drain_session (some take_chunk) acc session =
      drain_rounds take_chunk (suc (length acc.buffer - acc.offset)) acc session

  export_after : Option (D → List ℕ × D) → Accumulator → Result D → Result (List ℕ)
  unfolding drain_session to_blob
  export_after take_chunk acc completed =
      completed >>= λ session. drain_session take_chunk acc session >>= λ drained. to_blob drained.0

  -- finalizeReceiveDecryptToBlob, into an accumulator
  unfoldable pub finalize_to_blob :
      ReceiveDecryptSession D → Accumulator → D → Option (D → Result D) → Result (List ℕ)
  unfolding export_after
  finalize_to_blob methods acc session none = methods.finalize session
  finalize_to_blob methods acc session (some complete) =
      export_after methods.take_plaintext_chunk acc (complete session)
