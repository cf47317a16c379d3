-- ===== src/App/Style/Words/Positions.antt =====
-- Which character a word credential has at each of its positions.
use c_stateless_relay_tran.Base.{
  ℕ, zero, suc, ◌+◌, ◌*◌, ◌%◌, ◌<◌, ◌≤◌, ◌≡◌, ◌⊎◌, inl, inr, refl, ap, ◌==◌, Bool, true, false,
  Option, List, [], ◌∷◌, length, ok, arith, Bool-cases,
}
use c_stateless_relay_tran.App.Style.{
  CredentialStyleOptions, digits, pick_random_char, is_digit_only_position,
}
use c_stateless_relay_tran.App.Style.Words.{
  has, byte_at, set_char, text_at, set_digits, set_syllable, set_syllables, join,
}
use c_stateless_relay_tran.App.Style.Words.Letters.{
  OneOf, vowels, leading_chars, trailing_chars, IsSyllable, pick-OneOf, cvc-IsSyllable,
}

-- The characters of a position: digits, or those of its place in a syllable.
unfoldable pub word_charset : Bool → ℕ → List ℕ
word_charset true place = digits
word_charset false zero = leading_chars
word_charset false (suc zero) = vowels
word_charset false (suc (suc place)) = trailing_chars

apart : (i k : ℕ) → (i == k) ≡ false → (i < k) ⊎ (k < i)
apart i k h = ground arith

module _ (options : CredentialStyleOptions) where
  abbrev pub charset_at : ℕ → List ℕ
  charset_at i = word_charset (is_digit_only_position i options) (i % 3)

  abbrev pub OneAt : (ℕ → List ℕ) → ℕ → Type 0
  OneAt chars i = OneOf (charset_at i) (chars i)

  abbrev pub FitsWord : ℕ → List ℕ → Type 0
  FitsWord i [] = Unit
  FitsWord i (c ∷ cs) = (has c (charset_at i) ≡ true) × FitsWord (suc i) cs

  set-OneAt :
      (k i : ℕ) (text : List ℕ) (chars : ℕ → List ℕ)
      → OneOf (charset_at k) text
      → ((i == k) ≡ false → OneAt chars i)
      → OneAt (set_char k text chars) i
  set-OneAt k i text chars one else_one = elim (Bool-cases (i == k)) [
    | inl e ↦ let same : i ≡ k = ground (arith, e) in rw (e, same) one
    | inr e ↦ rw e (else_one e)
  ]

  pub digits-OneAt :
      (random_bytes : ℕ → ℕ) (n offset index : ℕ) (chars : ℕ → List ℕ)
      → ((j : ℕ) → index ≤ j → j < index + n → is_digit_only_position j options ≡ true)
      → (i : ℕ) → OneAt chars i ⊎ ((index ≤ i) × (i < index + n))
      → OneAt (set_digits random_bytes offset index n chars) i
  unfolding set_digits word_charset
  digits-OneAt random_bytes zero offset index chars only i (inl one) = one
  digits-OneAt random_bytes zero offset index chars only i (inr (low, high)) = absurd (omega arith)
  digits-OneAt random_bytes (suc n) offset index chars only i h =
      let digit = only index (omega arith) (omega arith) in
      let char = pick_random_char digits (byte_at random_bytes offset) in
      let picked : OneOf (charset_at index) char =
        rw digit (pick-OneOf digits digits (byte_at random_bytes offset) refl refl) in
      let go =
        digits-OneAt random_bytes n (suc offset) (suc index) (set_char index char chars)
          (λ j low high. only j (omega (arith, low)) (omega (arith, high))) i in
      elim h [
        | inl one ↦ go (inl (set-OneAt index i char chars picked (λ e. one)))
        | inr (low, high) ↦ elim (Bool-cases (i == index)) [
          | inl e ↦
              go (inl (set-OneAt index i char chars picked (λ f. absurd (ground (arith, e, f)))))
          | inr e ↦
              let other : suc index ≤ i = ground (arith, e, low) in
              go (inr (other, omega (arith, high)))
        ]
      ]

  syllable-OneAt :
      (text : List ℕ) (base : ℕ) (chars : ℕ → List ℕ)
      → IsSyllable text
      → base % 3 ≡ 0
      → ((j : ℕ) → base ≤ j → j < base + 3 → is_digit_only_position j options ≡ false)
      → (i : ℕ) → OneAt chars i ⊎ ((base ≤ i) × (i < base + 3))
      → OneAt (set_syllable base text chars) i
  unfolding set_syllable word_charset
  syllable-OneAt text base chars (l, v, t, e, lh, vh, th) start letters i h =
      let first : base % 3 ≡ 0 = start in
      let second : (base + 1) % 3 ≡ 1 = omega arith in
      let third : (base + 2) % 3 ≡ 2 = omega arith in
      let lead : OneOf (charset_at base) (text_at text 0) =
        rw (letters base (omega arith) (omega arith), first, e) (l, refl, lh) in
      let mid : OneOf (charset_at (base + 1)) (text_at text 1) =
        rw (letters (base + 1) (omega arith) (omega arith), second, e) (v, refl, vh) in
      let last : OneOf (charset_at (base + 2)) (text_at text 2) =
        rw (letters (base + 2) (omega arith) (omega arith), third, e) (t, refl, th) in
      set-OneAt (base + 2) i (text_at text 2)
        (set_char (base + 1) (text_at text 1) (set_char base (text_at text 0) chars)) last
        (λ ne2.
          set-OneAt (base + 1) i (text_at text 1) (set_char base (text_at text 0) chars) mid (λ ne1.
            set-OneAt base i (text_at text 0) chars lead (λ ne0. elim h [
              | inl one ↦ one
              | inr (low, high) ↦ absurd (
                  omega (
                    arith,
                    apart i base ne0,
                    apart i (base + 1) ne1,
                    apart i (base + 2) ne2,
                    low,
                    high,
                  ))
            ])))

  pub syllables-OneAt :
      (hyphen_index : Option ℕ) (random_bytes : ℕ → ℕ) (n offset base : ℕ) (chars : ℕ → List ℕ)
      → base % 3 ≡ 0
      → ((j : ℕ) → base ≤ j → j < base + 3 * n → is_digit_only_position j options ≡ false)
      → (result : ℕ → List ℕ) × (set_syllables options hyphen_index random_bytes base n offset chars
          ≡ ok result)
        × ((i : ℕ) → OneAt chars i ⊎ ((base ≤ i) × (i < base + 3 * n)) → OneAt result i)
  unfolding set_syllables
  syllables-OneAt hyphen_index random_bytes zero offset base chars start letters = (
    chars,
    refl,
    λ i h. elim h [ inl one ↦ one | inr (low, high) ↦ absurd (omega (arith, low, high)) ],
  )
  syllables-OneAt hyphen_index random_bytes (suc n) offset base chars start letters =
      let (syllable, e, is) = cvc-IsSyllable options base hyphen_index random_bytes offset in
      let (result, f, all) =
        syllables-OneAt hyphen_index random_bytes n syllable.next_offset (base + 3)
          (set_syllable base syllable.text chars) (omega arith)
          (λ j low high. letters j (omega (arith, low)) (omega (arith, high))) in
      let here =
        syllable-OneAt syllable.text base chars is start
          (λ j low high. letters j low (omega (arith, high))) in
      (
        result,
        rw e f,
        λ i h. elim h [
          | inl one ↦ all i (inl (here i (inl one)))
          | inr (low, high) ↦ elim (within base n i low high) [
            | inl next ↦ all i (inl (here i (inr (low, next))))
            | inr next ↦ all i (inr (next, omega (arith, high)))
          ]
        ],
      )
    where
      within : (base n i : ℕ) → base ≤ i → i < base + 3 * suc n → (i < base + 3) ⊎ (base + 3 ≤ i)
      within base n i low high = omega arith

  pub join-FitsWord :
      (chars : ℕ → List ℕ) (n i : ℕ)
      → ((j : ℕ) → i ≤ j → j < i + n → OneAt chars j)
      → FitsWord i (join chars i n) × (length (join chars i n) ≡ n)
  join-FitsWord chars zero i all = (tt, refl)
  join-FitsWord chars (suc n) i all =
      let (c, e, member) = all i (omega arith) (omega arith) in
      let (fits, sized) =
        join-FitsWord chars n (suc i)
          (λ j low high. all j (omega (arith, low)) (omega (arith, high))) in
      rw e ((member, fits), ap suc sized)
