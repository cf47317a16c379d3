-- ===== src/App/Style/Charset.antt =====
-- What a random credential is made of.
use c_stateless_relay_tran.Base.{
  ℕ, zero, suc, ◌+◌, ◌%◌, ◌<◌, ◌≡◌, ◌⊎◌, inl, inr, refl, sym, ap, ◌==◌, not, ◌&&◌, ◌||◌, true,
  false, Option, none, some, List, [], ◌∷◌, length, get_elem?, All, arith, Bool-cases,
}
use c_stateless_relay_tran.App.Style.{
  CredentialStyleOptions, is_letter_only_position, charset_for_position, pick_random_char, is_nil,
  some_index, validate_credential_style, hyphen_positions, pick_hyphen_index, is_index,
  random_chars, generate_random_credential,
}

pub at_index : (xs : List ℕ) (k : ℕ) → k < length xs → (x : ℕ) × (get_elem? xs k ≡ some x)
at_index [] k h = absurd (omega arith)
at_index (x ∷ xs) zero h = (x, refl)
at_index (x ∷ xs) (suc k) h = at_index xs k (omega arith)

abbrev pub IsIn : ℕ → List ℕ → Type 0
IsIn c charset = (k : ℕ) × (get_elem? charset k ≡ some c)

pick-IsIn :
    (charset : List ℕ) (byte : ℕ)
    → is_nil charset ≡ false
    → (c : ℕ) × (pick_random_char charset byte ≡ c ∷ []) × IsIn c charset
unfolding pick_random_char
pick-IsIn [] byte h = ground arith
pick-IsIn (x ∷ xs) byte h =
    let (c, e) = at_index (x ∷ xs) (byte % length (x ∷ xs)) (omega arith) in
    (c, rw e refl, (byte % length (x ∷ xs), e))

module _ (options : CredentialStyleOptions) where
  -- From the position i on: a character is one of its position's, or the hyphen, which stands at a
  -- position that is not for letters only.
  abbrev pub Fits : Option ℕ → ℕ → List ℕ → Type 0
  Fits hyphen_index i [] = Unit
  Fits hyphen_index i (c ∷ cs) =
      (((hyphen_index ≡ some i) × (c ≡ 45) × (is_letter_only_position i options ≡ false))
        ⊎ IsIn c (charset_for_position i options))
      × Fits hyphen_index (suc i) cs

  abbrev MayHyphen : Option ℕ → Type 0
  MayHyphen hyphen_index =
      (i : ℕ) → hyphen_index ≡ some i → is_letter_only_position i options ≡ false

  positions-All :
      (n index : ℕ)
      → All (λ i. is_letter_only_position i options ≡ false) (hyphen_positions options index n)
  positions-All zero index = tt
  positions-All (suc n) index = elim (Bool-cases (is_letter_only_position index options)) [
    | inl skipped ↦ rw skipped (positions-All n (suc index))
    | inr valid ↦ rw valid (valid, positions-All n (suc index))
  ]

  at-All :
      (xs : List ℕ) (k i : ℕ)
      → All (λ j. is_letter_only_position j options ≡ false) xs
      → get_elem? xs k ≡ some i
      → is_letter_only_position i options ≡ false
  at-All [] k i h e = cc
  at-All (x ∷ xs) zero i h e = let same : x ≡ i = cc in rw same at h.0
  at-All (x ∷ xs) (suc k) i h e = at-All xs k i h.1 e

  pick-MayHyphen : (byte : ℕ) → MayHyphen (pick_hyphen_index options byte)
  unfolding pick_hyphen_index
  pick-MayHyphen byte i h = elim (Bool-cases options.allow_at_most_one_hyphen) [
    | inr never ↦ let failed = rw never at h in cc
    | inl allowed ↦ elim (Bool-cases (byte % 2 == 0)) [
      | inl even ↦ let failed = rw (allowed, even) at h in cc
      | inr odd ↦
          at-All (hyphen_positions options 0 12) (byte % length (hyphen_positions options 0 12)) i
            (positions-All 12 0) (rw (allowed, odd) at h)
    ]
  ]

  is_index-eq :
      (i : ℕ) (hyphen_index : Option ℕ) → is_index i hyphen_index ≡ true → hyphen_index ≡ some i
  is_index-eq i none h = cc
  is_index-eq i (some j) h = let same : i ≡ j = ground (arith, h) in ap some (sym same)

  chars-Fits :
      (random_bytes : ℕ → ℕ) (hyphen_index : Option ℕ) (n i : ℕ)
      → MayHyphen hyphen_index
      → some_index (λ j. is_nil (charset_for_position j options)) i n ≡ false
      → Fits hyphen_index i (random_chars options random_bytes hyphen_index i n)
        × (length (random_chars options random_bytes hyphen_index i n) ≡ n)
  unfolding random_chars
  chars-Fits random_bytes hyphen_index zero i may usable = (tt, refl)
  chars-Fits random_bytes hyphen_index (suc n) i may usable =
      let (fits, sized) = chars-Fits random_bytes hyphen_index n (suc i) may (ground arith) in
      let some_chars : is_nil (charset_for_position i options) ≡ false = ground arith in
      elim (Bool-cases (is_index i hyphen_index)) [
        | inl here ↦
            let it = is_index-eq i hyphen_index here in
            rw here ((inl (it, refl, may i it), fits), omega (arith, sized))
        | inr other ↦
            let (c, e, member) =
              pick-IsIn (charset_for_position i options) (random_bytes (i + 1)) some_chars in
            rw (other, e) ((inr member, fits), omega (arith, sized))
      ]

  valid-usable :
      validate_credential_style options ≡ none
      → some_index (λ j. is_nil (charset_for_position j options)) 0 12 ≡ false
  unfolding validate_credential_style
  valid-usable valid =
      elim (Bool-cases (options.letters_only_first_six && options.letters_only_last_six)) [
        | inl both ↦ let failed = rw both at valid in cc
        | inr e ↦
            elim (Bool-cases (
              options.word_style && not (options.include_uppercase || options.include_lowercase))) [
                | inl no_letter ↦ let failed = rw (e, no_letter) at valid in cc
                | inr f ↦
                    elim (Bool-cases
                      (some_index (λ j. is_nil (charset_for_position j options)) 0 12)) [
                        | inl unusable ↦ let failed = rw (e, f, unusable) at valid in cc
                        | inr usable ↦ usable
                      ]
              ]
      ]

  -- For a style that passes the validation, and whatever the random bytes are, a random credential has
  -- twelve characters; each is of its position's character set, or it is the one hyphen, which is there
  -- only at a position that is not for letters only.
  pub random_credential-Fits :
      (random_bytes : ℕ → ℕ)
      → validate_credential_style options ≡ none
      → Fits
          (pick_hyphen_index options (random_bytes 0))
          0
          (generate_random_credential options random_bytes)
        × (length (generate_random_credential options random_bytes) ≡ 12)
  unfolding validate_credential_style generate_random_credential
  random_credential-Fits random_bytes valid =
      chars-Fits random_bytes (pick_hyphen_index options (random_bytes 0)) 12 0
        (pick-MayHyphen (random_bytes 0)) (valid-usable valid)
