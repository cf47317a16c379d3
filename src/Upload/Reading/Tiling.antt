-- ===== src/Upload/Reading/Tiling.antt =====
-- The slices tile the file: nothing is read twice, left out, or across the end of a segment.
use native.Mathlib.Decide.{dec_lt}
use c_stateless_relay_tran.Base.{
  ℕ, zero, suc, ◌+◌, ◌-◌, ◌*◌, ◌≤◌, ◌<◌, ◌≡◌, refl, ap, min, ltb, lt→ltb, true, false,
  if◌then◌else◌, List, [], ◌∷◌, ◌++◌, map, length, take, drop, ok, arith, ◌∙◌, take-append-take,
  drop-drop, take_all, flatten, Result-cases, Bool-cases, inl, inr,
}
use c_stateless_relay_tran.Base.Number.{whole}
use c_stateless_relay_tran.Policy.Segment.{
  is_v2_whole_file_segment_code, decode_segment_plaintext_bytes_v21,
}
use c_stateless_relay_tran.Policy.Segment.Coverage.{decode_pos}
use c_stateless_relay_tran.Upload.Reading.{
  slice, pieces, segment_slices, file_slices, read_file_by_gcm_segments,
  upload_file_read_slice_bytes,
}

-- Adjacent non-empty pieces from `a` to `b`, each of which satisfies P.
abbrev pub Tiles : (ℕ → ℕ → Type 0) → ℕ → List (ℕ × ℕ) → ℕ → Type 0
Tiles P a [] b = a ≡ b
Tiles P a ((s, e) ∷ rest) b = (s ≡ a) × (s < e) × P s e × Tiles P e rest b

Tiles-append :
    (P : ℕ → ℕ → Type 0) (a b c : ℕ) (xs ys : List (ℕ × ℕ))
    → Tiles P a xs b
    → Tiles P b ys c
    → Tiles P a (xs ++ ys) c
Tiles-append P a b c [] ys h k = rw h k
Tiles-append P a b c ((s, e) ∷ xs) ys (p, q, r, h) k = (p, q, r, Tiles-append P e b c xs ys h k)

Tiles-le : (P : ℕ → ℕ → Type 0) (a b : ℕ) (xs : List (ℕ × ℕ)) → Tiles P a xs b → a ≤ b
Tiles-le P a b [] h = omega arith
Tiles-le P a b ((s, e) ∷ xs) (p, q, r, h) = omega (arith, Tiles-le P e b xs h)

abbrev pub AtMost : ℕ → ℕ → ℕ → Type 0
AtMost step s e = e ≤ s + step

Tiles-map :
    (P Q : ℕ → ℕ → Type 0) (lo hi : ℕ)
    → ((s e : ℕ) → lo ≤ s → e ≤ hi → P s e → Q s e)
    → (a : ℕ) (xs : List (ℕ × ℕ)) → lo ≤ a
    → Tiles P a xs hi
    → Tiles Q a xs hi
Tiles-map P Q lo hi f a [] l h = h
Tiles-map P Q lo hi f a ((s, e) ∷ xs) l (p, q, r, h) =
    (p, q, f s e (omega arith) (Tiles-le P e hi xs h) r, Tiles-map P Q lo hi f e xs (omega arith) h)

pub pieces-Tiles :
    (step fuel a b : ℕ)
    → 0 < step
    → a ≤ b
    → b < a + fuel
    → Tiles (AtMost step) a (pieces step fuel a b) b
unfolding pieces
pieces-Tiles step zero a b pos h k = absurd (omega arith)
pieces-Tiles step (suc fuel) a b pos h k = elim (dec_lt a b) [
  | yes q ↦
      let rest = pieces-Tiles step fuel (a + min step (b - a)) b pos (omega arith) (omega arith) in
      rw (lt→ltb a b q) (refl, omega arith, omega arith, rest)
  | no q ↦
      let stops : ltb a b ≡ false = ground arith in
      let there : a ≡ b = omega arith in rw stops there
]

slice-append {ℓ} :
    {A : Type ℓ} (xs : List A) (a b c : ℕ)
    → a ≤ b
    → b ≤ c
    → slice xs (a, b) ++ slice xs (b, c) ≡ slice xs (a, c)
unfolding slice
slice-append xs a b c h k =
    let reach : a + (b - a) ≡ b = omega arith in
    let whole_length : (b - a) + (c - b) ≡ c - a = omega arith in
    let at_b : drop (b - a) (drop a xs) ≡ drop b xs =
      drop-drop a (b - a) xs ∙ ap (λ n. drop n xs) reach in
    rw (← at_b)
      (take-append-take (b - a) (c - b) (drop a xs) ∙ ap (λ n. take n (drop a xs)) whole_length)

-- The bytes of tiles, one after the other, are those from their start to their end.
pub flatten-slices {ℓ} :
    {A : Type ℓ} (xs : List A) (P : ℕ → ℕ → Type 0) (a b : ℕ) (tiles : List (ℕ × ℕ))
    → Tiles P a tiles b
    → flatten (map (slice xs) tiles) ≡ slice xs (a, b)
flatten-slices xs P a b [] h =
    let none_left : b - a ≡ 0 = omega arith in unfold slice in rw none_left
flatten-slices xs P a b ((s, e) ∷ tiles) (p, q, r, h) =
    rw (flatten-slices xs P e b tiles h)
      (rw p (slice-append xs a e b (omega arith) (Tiles-le P e b tiles h)))

pub whole_slice {ℓ} : {A : Type ℓ} (xs : List A) → slice xs (0, length xs) ≡ xs
unfolding slice
whole_slice xs = take_all (length xs - 0) xs (omega arith)

-- At most a read slice, and within the segment numbered k.
abbrev pub InSegment : ℕ → ℕ → ℕ → Type 0
InSegment segment_bytes s e =
    (e ≤ s + upload_file_read_slice_bytes)
    × ((k : ℕ) × (k * segment_bytes ≤ s) × (e ≤ k * segment_bytes + segment_bytes))

nothing_left : (segment_bytes fuel size : ℕ) → segment_slices segment_bytes fuel size size ≡ []
unfolding segment_slices
nothing_left segment_bytes zero size = refl
nothing_left segment_bytes (suc fuel) size =
    let stops : ltb size size ≡ false = ground arith in rw stops

-- The slices of the segment that starts at `offset`.
one_segment :
    (segment_bytes k offset segment_end : ℕ)
    → offset ≡ k * segment_bytes
    → offset ≤ segment_end
    → segment_end ≤ offset + segment_bytes
    → Tiles
        (InSegment segment_bytes)
        offset
        (pieces upload_file_read_slice_bytes (suc (segment_end - offset)) offset segment_end)
        segment_end
one_segment segment_bytes k offset segment_end start h l =
    Tiles-map (AtMost upload_file_read_slice_bytes) (InSegment segment_bytes) offset segment_end
      (λ s e ls le r. (r, (k, omega arith, omega arith))) offset _ (omega arith)
      (pieces-Tiles upload_file_read_slice_bytes (suc (segment_end - offset)) offset segment_end
        (omega arith) h (omega arith))

segments-Tiles :
    (segment_bytes fuel k offset size : ℕ)
    → 0 < segment_bytes
    → offset ≡ k * segment_bytes
    → offset ≤ size
    → size < offset + fuel
    → Tiles (InSegment segment_bytes) offset (segment_slices segment_bytes fuel offset size) size
unfolding segment_slices
segments-Tiles segment_bytes zero k offset size pos start h l = absurd (omega arith)
segments-Tiles segment_bytes (suc fuel) k offset size pos start h l = elim (dec_lt offset size) [
  | no q ↦
      let stops : ltb offset size ≡ false = ground arith in
      let there : offset ≡ size = omega arith in rw stops there
  | yes q ↦ rw (lt→ltb offset size q) (
      Tiles-append (InSegment segment_bytes) offset (min (offset + segment_bytes) size) size _ _
        (one_segment segment_bytes k offset (min (offset + segment_bytes) size) start (omega arith)
          (omega arith))
        (elim (dec_lt (offset + segment_bytes) size) [
          | yes more ↦
              let full : min (offset + segment_bytes) size ≡ offset + segment_bytes = omega arith in
              rw full (
                segments-Tiles segment_bytes fuel (suc k) (offset + segment_bytes) size pos
                  (grind arith) (omega arith) (omega arith))
          | no last ↦
              let full : min (offset + segment_bytes) size ≡ size = omega arith in
              rw full (rw (nothing_left segment_bytes fuel size) refl)
        ]))
]

some_code :
    (code segment_bytes : ℕ)
    → decode_segment_plaintext_bytes_v21 (whole code) ≡ ok segment_bytes
    → is_v2_whole_file_segment_code (whole code) ≡ false
unfolding decode_segment_plaintext_bytes_v21
some_code code segment_bytes d = ground arith

slices_value :
    (code segment_bytes size : ℕ) (slices : List (ℕ × ℕ))
    → decode_segment_plaintext_bytes_v21 (whole code) ≡ ok segment_bytes
    → file_slices code size ≡ ok slices
    → segment_slices segment_bytes (suc size) 0 size ≡ slices
unfolding file_slices
slices_value code segment_bytes size slices d h =
    let segmented = rw (some_code code segment_bytes d) at h in
    let decoded = rw d at segmented in cc

-- A file that is read under a V2.1 segment code is read in adjacent, non-empty slices from its
-- first byte to its last: each is at most 2 MiB long and lies within one segment.
pub slices-Tiles :
    (code segment_bytes size : ℕ) (slices : List (ℕ × ℕ))
    → decode_segment_plaintext_bytes_v21 (whole code) ≡ ok segment_bytes
    → file_slices code size ≡ ok slices
    → Tiles (InSegment segment_bytes) 0 slices size
slices-Tiles code segment_bytes size slices d h =
    rw (← slices_value code segment_bytes size slices d h) (
      segments-Tiles segment_bytes (suc size) 0 0 size (decode_pos code segment_bytes d)
        (omega arith) (omega arith) (omega arith))

abbrev Anywhere : ℕ → ℕ → Type 0
Anywhere s e = Unit

one_slice :
    (size : ℕ) (slices : List (ℕ × ℕ))
    → ok (if ltb 0 size then (0, size) ∷ [] else []) ≡ ok slices
    → Tiles Anywhere 0 slices size
one_slice zero slices h = let none_read : [] ≡ slices = cc in rw (← none_read) refl
one_slice (suc n) slices h =
    let positive : ltb 0 (suc n) ≡ true = ground arith in
    let read = rw positive at h in
    let one_read : (0, suc n) ∷ [] ≡ slices = cc in rw (← one_read) (refl, omega arith, tt, refl)

-- The slices of a file, whatever the code.
slices-adjacent :
    (code size : ℕ) (slices : List (ℕ × ℕ))
    → file_slices code size ≡ ok slices
    → Tiles Anywhere 0 slices size
unfolding file_slices
slices-adjacent code size slices h =
    elim (Bool-cases (is_v2_whole_file_segment_code (whole code))) [
      | inl (v2) ↦ one_slice size slices (rw v2 at h)
      | inr v21 ↦ elim (Result-cases (decode_segment_plaintext_bytes_v21 (whole code))) [
        | inl (segment_bytes, d) ↦
            Tiles-map (InSegment segment_bytes) Anywhere 0 size (λ s e l r p. tt) 0 slices
              (omega arith) (slices-Tiles code segment_bytes size slices d h)
        | inr (e, d) ↦ let failed = rw (v21, d) at h in cc
      ]
    ]

-- Under every segment code for which the file can be read, the slices that are read are, one after
-- the other, the file.
pub read-whole_file {ℓ} :
    {A : Type ℓ} (code : ℕ) (file : List A) (chunks : List (List A))
    → read_file_by_gcm_segments code file ≡ ok chunks
    → flatten chunks ≡ file
unfolding read_file_by_gcm_segments
read-whole_file code file chunks h = elim (Result-cases (file_slices code (length file))) [
  | inr (e, d) ↦ let failed = rw d at h in cc
  | inl (slices, d) ↦
      let read = rw d at h in
      let same : map (slice file) slices ≡ chunks = cc in
      rw (← same) (
        flatten-slices file Anywhere 0 (length file) slices
          (slices-adjacent code (length file) slices d)
        ∙ whole_slice file)
]
