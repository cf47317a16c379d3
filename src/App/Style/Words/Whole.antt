-- ===== src/App/Style/Words/Whole.antt =====
-- What a word credential is made of, as a whole.
use c_stateless_relay_tran.Base.{
  ℕ, ◌+◌, ◌-◌, ◌*◌, ◌%◌, ◌<◌, ◌≤◌, ◌≡◌, ◌⊎◌, inl, inr, refl, ◌&&◌, true, false, none, List, [],
  length, ok, arith, Bool-cases,
}
use c_stateless_relay_tran.App.Style.{
  CredentialStyleOptions, is_digit_only_position, validate_credential_style,
}
use c_stateless_relay_tran.App.Style.Words.{
  WordStyleLayout, resolve_word_style_layout, list_word_style_hyphen_slots, set_digits, word_hyphen,
  join, word_with, generate_word_style_credential, generate_styled_credential,
}
use c_stateless_relay_tran.App.Style.Words.Positions.{
  FitsWord, digits-OneAt, syllables-OneAt, join-FitsWord,
}

module _ (options : CredentialStyleOptions) where
  -- Every position is in the digits before the word, in those behind it, or in the word.
  abbrev IsLayout : WordStyleLayout → Type 0
  IsLayout layout =
      let suffix = 12 - layout.digit_suffix_length in
      let word = layout.word_start in
      (word % 3 ≡ 0)
      × ((i : ℕ)
          → 0 ≤ i
          → i < 0 + layout.digit_prefix_length
          → is_digit_only_position i options ≡ true)
      × ((i : ℕ)
          → suffix ≤ i
          → i < suffix + layout.digit_suffix_length
          → is_digit_only_position i options ≡ true)
      × ((i : ℕ)
          → word ≤ i
          → i < word + 3 * layout.syllable_count
          → is_digit_only_position i options ≡ false)
      × ((i : ℕ)
          → i < 12
          → ((0 ≤ i) × (i < 0 + layout.digit_prefix_length))
            ⊎ (((suffix ≤ i) × (i < suffix + layout.digit_suffix_length))
                ⊎ ((word ≤ i) × (i < word + 3 * layout.syllable_count))))

  resolve-IsLayout :
      options.letters_only_first_six && options.letters_only_last_six ≡ false
      → IsLayout (resolve_word_style_layout options)
  resolve-IsLayout one = elim (Bool-cases options.letters_only_first_six) [
    | inl f ↦
        let l : options.letters_only_last_six ≡ false = ground (arith, one, f) in
        rw (f, l)
          (
            refl,
            λ i low high. absurd (omega (arith, high)),
            λ i low high. ground (arith, low, f, l),
            λ i low high. ground (arith, high, f, l),
            λ i h. omega (arith, h),
          )
    | inr f ↦ elim (Bool-cases options.letters_only_last_six) [
      | inl l ↦
          rw (f, l)
            (
              refl,
              λ i low high. ground (arith, high, f, l),
              λ i low high. absurd (omega (arith, low, high)),
              λ i low high. ground (arith, low, f, l),
              λ i h. omega (arith, h),
            )
      | inr l ↦
          rw (f, l)
            (
              refl,
              λ i low high. absurd (omega (arith, high)),
              λ i low high. absurd (omega (arith, low, high)),
              λ i low high. ground (arith, f, l),
              λ i h. omega (arith, h),
            )
    ]
  ]

  word_with-FitsWord :
      (layout : WordStyleLayout) (random_bytes : ℕ → ℕ)
      → IsLayout layout
      → (text : List ℕ) × (word_with options layout random_bytes ≡ ok text)
        × FitsWord options 0 text
        × (length text ≡ 12)
  unfolding word_with
  word_with-FitsWord layout random_bytes (start, before, behind, letters, every) =
      let prefix = set_digits random_bytes 0 0 layout.digit_prefix_length (λ i. []) in
      let suffix_start = 12 - layout.digit_suffix_length in
      let suffix =
        set_digits random_bytes layout.digit_prefix_length suffix_start layout.digit_suffix_length
          prefix in
      let hyphen =
        word_hyphen options (list_word_style_hyphen_slots layout) random_bytes
          (layout.digit_prefix_length + layout.digit_suffix_length) in
      let (result, e, word) =
        syllables-OneAt options hyphen.0 random_bytes layout.syllable_count hyphen.1
          layout.word_start suffix start letters in
      let in_prefix =
        digits-OneAt options random_bytes layout.digit_prefix_length 0 0 (λ i. []) before in
      let in_suffix =
        digits-OneAt options random_bytes layout.digit_suffix_length layout.digit_prefix_length
          suffix_start prefix behind in
      let (fits, sized) = join-FitsWord options result 12 0 (λ i low high.
        word i (elim (every i high) [
          | inl first ↦ inl (in_suffix i (inl (in_prefix i (inr first))))
          | inr rest ↦ elim rest [
            | inl last ↦ inl (in_suffix i (inr last))
            | inr middle ↦ inr middle
          ]
        ])) in
      (join result 0 12, rw e refl, fits, sized)

  valid-one :
      validate_credential_style options ≡ none
      → options.letters_only_first_six && options.letters_only_last_six ≡ false
  unfolding validate_credential_style
  valid-one valid =
      elim (Bool-cases (options.letters_only_first_six && options.letters_only_last_six)) [
        | inl both ↦ let failed = rw both at valid in cc
        | inr e ↦ e
      ]

  styled-word :
      (random_bytes : ℕ → ℕ) (text : List ℕ)
      → validate_credential_style options ≡ none
      → options.word_style ≡ true
      → generate_word_style_credential options random_bytes ≡ ok text
      → generate_styled_credential options random_bytes ≡ ok text
  unfolding generate_styled_credential
  styled-word random_bytes text valid words e =
      rw (valid, generate_styled_credential) (cc (words, e))

  -- For a word style that passes the validation, and whatever the random bytes are, the generation
  -- throws nothing, and the credential has twelve characters: digits at the positions that are for digits
  -- only, and elsewhere, by the position modulo 3, a consonant or a hyphen, a vowel, or a consonant of
  -- the lower-case ones that may end a syllable or a hyphen, also in a style without lower-case letters.
  pub word_credential-FitsWord :
      (random_bytes : ℕ → ℕ)
      → validate_credential_style options ≡ none
      → options.word_style ≡ true
      → (text : List ℕ) × (generate_styled_credential options random_bytes ≡ ok text)
        × FitsWord options 0 text
        × (length text ≡ 12)
  unfolding generate_word_style_credential
  word_credential-FitsWord random_bytes valid words =
      let (text, e, fits, sized) =
        word_with-FitsWord (resolve_word_style_layout options) random_bytes
          (resolve-IsLayout (valid-one valid)) in
      (text, styled-word random_bytes text valid words e, fits, sized)
