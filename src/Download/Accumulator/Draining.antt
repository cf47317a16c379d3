-- ===== src/Download/Accumulator/Draining.antt =====
-- What the accumulator holds after the session's chunks were drained into it.
use native.Mathlib.Decide.{dec_lt}
use mathlib.Core.List.{append_assoc, append-nil}
use c_stateless_relay_tran.Base.{
  ℕ, zero, suc, ◌+◌, ◌-◌, ◌≤◌, ◌<◌, ◌≡◌, ◌≢◌, ◌⊎◌, inl, inr, refl, sym, ap, ◌∙◌, ltb, some, List,
  [], ◌∷◌, ◌++◌, length, length-append, length-drop, take, drop, flatten, Result, ok, err, error,
  arith, true, false,
}
use c_stateless_relay_tran.Download.Accumulator.{
  Accumulator, put_at, append_chunk, overflow_message, after_chunk, drain_rounds, drain_session,
}

take-here : (xs ys : List ℕ) → take (length xs) (xs ++ ys) ≡ xs
take-here [] ys = refl
take-here (x ∷ xs) ys = rw (take-here xs ys)

drop-here : (xs ys : List ℕ) (n : ℕ) → drop (length xs + n) (xs ++ ys) ≡ drop n ys
drop-here [] ys n = let same : 0 + n ≡ n = omega arith in rw same
drop-here (x ∷ xs) ys n =
    let up : suc (length xs) + n ≡ suc (length xs + n) = omega arith in rw up (drop-here xs ys n)

-- The first bytes of the buffer, up to the offset, are the given ones.
abbrev pub Holds : List ℕ → Accumulator → Type 0
Holds written acc = (rest : List ℕ) × (acc.buffer ≡ written ++ rest) × (acc.offset ≡ length written)

put_at-here :
    (written rest chunk : List ℕ)
    → put_at (length written) chunk (written ++ rest)
      ≡ (written ++ chunk) ++ drop (length chunk) rest
unfolding put_at
put_at-here written rest chunk = rw (take-here written rest) (
    rw (drop-here written rest (length chunk))
      (sym (append_assoc written chunk (drop (length chunk) rest))))

pub append-Holds :
    (chunk written : List ℕ) (acc : Accumulator)
    → Holds written acc
    → acc.offset + length chunk ≤ length acc.buffer
    → Holds (written ++ chunk) (append_chunk chunk acc)
      × (length (append_chunk chunk acc).buffer ≡ length acc.buffer)
unfolding append_chunk
append-Holds chunk written acc (rest, is_buffer, is_offset) fits =
    let placed : put_at acc.offset chunk acc.buffer
        ≡ (written ++ chunk) ++ drop (length chunk) rest =
      rw is_buffer (rw is_offset (put_at-here written rest chunk)) in
    let room : length acc.buffer ≡ length written + length rest =
      ap length is_buffer ∙ length-append written rest in
    let kept : length (put_at acc.offset chunk acc.buffer) ≡ length acc.buffer =
      ap length placed
      ∙ omega (
        arith,
        length-append (written ++ chunk) (drop (length chunk) rest),
        length-append written chunk,
        length-drop (length chunk) rest,
      ) in
    ((drop (length chunk) rest, placed, omega (arith, length-append written chunk)), kept)

module _ {D : Type 0} (take_chunk : D → List ℕ × D) where
  -- The session gives these chunks, none of them empty, and is then in the second state.
  abbrev pub Takes : List (List ℕ) → D → D → Type 0
  Takes [] before after = before ≡ after
  Takes (chunk ∷ chunks) before after =
      ((take_chunk before).0 ≡ chunk) × (chunk ≢ []) × Takes chunks (take_chunk before).1 after

  -- The accumulator that comes out has the capacity and the expected length, and holds the bytes.
  abbrev pub Filled : ℕ → ℕ → List ℕ → D → Result (Accumulator × D) → Type 0
  Filled capacity expected bytes last result =
      ((take_chunk last).0 ≡ [])
      × ((full : Accumulator) × (result ≡ ok (full, (take_chunk last).1))
          × Holds bytes full
          × (length full.buffer ≡ capacity)
          × (full.expected_length ≡ expected))

  -- The next chunk does not fit behind the n bytes.
  abbrev pub Overflows : ℕ → ℕ → D → Result (Accumulator × D) → Type 0
  Overflows capacity n last result =
      (capacity < n + length (take_chunk last).0)
      × (result ≡ err (error (overflow_message (n + length (take_chunk last).0) capacity)))

  -- All chunks up to the first empty one are in the buffer, or the next one does not fit.
  abbrev pub Drained : ℕ → ℕ → List ℕ → D → Result (Accumulator × D) → Type 0
  Drained capacity expected written session result =
      (chunks : List (List ℕ)) × (last : D) × Takes chunks session last
      × (Filled capacity expected (written ++ flatten chunks) last result
          ⊎ Overflows capacity (length (written ++ flatten chunks)) last result)

  abbrev DrainsAll : ℕ → Type 0
  DrainsAll fuel =
      (written : List ℕ) (acc : Accumulator) (session : D)
      → Holds written acc
      → length acc.buffer < acc.offset + fuel
      → acc.offset ≤ length acc.buffer
      → Drained (length acc.buffer) acc.expected_length written session
          (drain_rounds take_chunk fuel acc session)

  more-Drained :
      (chunk written : List ℕ) (capacity expected : ℕ) (session : D) (r : Result (Accumulator × D))
      → (take_chunk session).0 ≡ chunk
      → chunk ≢ []
      → Drained capacity expected (written ++ chunk) (take_chunk session).1 r
      → Drained capacity expected written session r
  more-Drained chunk written capacity expected session r e some_bytes
        (chunks, last, takes, outcome) =
      let joined = append_assoc written chunk (flatten chunks) in
      (chunk ∷ chunks, last, (e, some_bytes, takes), rw joined at outcome)

  round :
      (fuel : ℕ) (written : List ℕ) (acc : Accumulator) (session : D) (chunk : List ℕ)
      → (take_chunk session).0 ≡ chunk
      → Holds written acc
      → length acc.buffer < acc.offset + suc fuel
      → acc.offset ≤ length acc.buffer
      → DrainsAll fuel
      → Drained
          (length acc.buffer)
          acc.expected_length
          written
          session
          (after_chunk (drain_rounds take_chunk fuel) acc (take_chunk session).1 chunk)
  unfolding after_chunk append_chunk
  round fuel written acc session [] e held enough inside again =
      ([], session, refl, inl (e, (acc, refl, rw append-nil held, refl, refl)))
  round fuel written acc session (byte ∷ bytes) e held enough inside again =
      elim (dec_lt (length acc.buffer) (acc.offset + length (byte ∷ bytes))) [
        | yes long ↦
            let (rest, is_buffer, is_offset) = held in
            let test : ltb (length acc.buffer) (acc.offset + length (byte ∷ bytes)) ≡ true =
              ground arith in
            let all : length (written ++ []) ≡ length written = ap length (append-nil written) in
            let taken : length (take_chunk session).0 ≡ length (byte ∷ bytes) =
              ap (λ (c : List ℕ). length c) e in
            let same : acc.offset + length (byte ∷ bytes)
                ≡ length (written ++ []) + length (take_chunk session).0 =
              omega arith in
            rw test (
              [],
              session,
              refl,
              inr (
                omega arith,
                ap (λ n. err (error (overflow_message n (length acc.buffer)))) same,
              ),
            )
        | no short ↦
            let (held_more, sized) = append-Holds (byte ∷ bytes) written acc held (omega arith) in
            let test : ltb (length acc.buffer) (acc.offset + length (byte ∷ bytes)) ≡ false =
              ground arith in
            rw test (
              more-Drained (byte ∷ bytes) written (length acc.buffer) acc.expected_length session _
                e (λ none_left. cc)
                (rw sized at (
                  again (written ++ byte ∷ bytes) (append_chunk (byte ∷ bytes) acc)
                    (take_chunk session).1 held_more (omega arith) (omega arith))))
      ]

  drain_rounds-Drained : (fuel : ℕ) → DrainsAll fuel
  unfolding drain_rounds
  drain_rounds-Drained zero written acc session held enough inside = absurd (omega arith)
  drain_rounds-Drained (suc fuel) written acc session held enough inside =
      round fuel written acc session (take_chunk session).0 refl held enough inside
        (drain_rounds-Drained fuel)

  offset-le :
      (written : List ℕ) (acc : Accumulator) → Holds written acc → acc.offset ≤ length acc.buffer
  offset-le written acc (rest, is_buffer, is_offset) =
      let sized = ap length is_buffer ∙ length-append written rest in omega arith

  pub drain_session-Drained :
      (written : List ℕ) (acc : Accumulator) (session : D)
      → Holds written acc
      → Drained
          (length acc.buffer)
          acc.expected_length
          written
          session
          (drain_session (some take_chunk) acc session)
  unfolding drain_session
  drain_session-Drained written acc session held =
      let inside = offset-le written acc held in
      drain_rounds-Drained (suc (length acc.buffer - acc.offset)) written acc session held
        (omega arith) inside
