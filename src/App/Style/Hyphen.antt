-- ===== src/App/Style/Hyphen.antt =====
-- Where the hyphen of a random credential may be.
use c_stateless_relay_tran.Base.{
  ℕ, zero, suc, ◌+◌, ◌%◌, ◌≡◌, refl, ◌==◌, Bool, true, false, some, List, [], ◌∷◌, length,
  get_elem?, arith, Bool-cases, ◌⊎◌, inl, inr, none, ok, not, ◌&&◌, if◌then◌else◌, ◌++◌,
}
use c_stateless_relay_tran.App.Style.{
  CredentialStyleOptions, uppercase, lowercase, digits, letter_charset, charset_for_position,
  is_letter_only_position, is_digit_only_position, hyphen_positions, pick_hyphen_index,
  validate_credential_style, generate_random_credential,
}
use c_stateless_relay_tran.App.Style.Charset.{Fits, random_credential-Fits}
use c_stateless_relay_tran.App.Style.Words.{generate_styled_credential}

-- Even and odd numbers alternate in the list, which starts with the parity of s.
abbrev Alternates : ℕ → List ℕ → Type 0
Alternates s [] = Unit
Alternates s (x ∷ xs) = (x % 2 ≡ s % 2) × Alternates (suc s) xs

at-Alternates :
    (xs : List ℕ) (s k i : ℕ) → Alternates s xs → get_elem? xs k ≡ some i → i % 2 ≡ (s + k) % 2
at-Alternates [] s k i h e = cc
at-Alternates (x ∷ xs) s zero i h e = let same : x ≡ i = cc in omega arith
at-Alternates (x ∷ xs) s (suc k) i h e = omega (arith, at-Alternates xs (suc s) k i h.1 e)

positions-odd :
    (last first : Bool) (options : CredentialStyleOptions) (byte i : ℕ)
    → options.letters_only_last_six ≡ last
    → options.letters_only_first_six ≡ first
    → byte % 2 ≡ 1
    → get_elem? (hyphen_positions options 0 12) (byte % length (hyphen_positions options 0 12))
      ≡ some i
    → i % 2 ≡ 1
positions-odd false false options byte i l f odd e =
    let there : get_elem? (0 ∷ 1 ∷ 2 ∷ 3 ∷ 4 ∷ 5 ∷ 6 ∷ 7 ∷ 8 ∷ 9 ∷ 10 ∷ 11 ∷ []) (byte % 12)
        ≡ some i =
      rw (l, f) at e in
    let parity =
      at-Alternates (0 ∷ 1 ∷ 2 ∷ 3 ∷ 4 ∷ 5 ∷ 6 ∷ 7 ∷ 8 ∷ 9 ∷ 10 ∷ 11 ∷ []) 0 (byte % 12) i
        (ground arith) there in
    omega arith
positions-odd true false options byte i l f odd e =
    let there : get_elem? (0 ∷ 1 ∷ 2 ∷ 3 ∷ 4 ∷ 5 ∷ []) (byte % 6) ≡ some i = rw (l, f) at e in
    let parity = at-Alternates (0 ∷ 1 ∷ 2 ∷ 3 ∷ 4 ∷ 5 ∷ []) 0 (byte % 6) i (ground arith) there in
    omega arith
positions-odd false true options byte i l f odd e =
    let there : get_elem? (6 ∷ 7 ∷ 8 ∷ 9 ∷ 10 ∷ 11 ∷ []) (byte % 6) ≡ some i = rw (l, f) at e in
    let parity = at-Alternates (6 ∷ 7 ∷ 8 ∷ 9 ∷ 10 ∷ 11 ∷ []) 6 (byte % 6) i (ground arith) there in
    omega arith
positions-odd true true options byte i l f odd e =
    let there : get_elem? [] (byte % 0) ≡ some i = rw (l, f) at e in cc

-- The index that pickHyphenIndex gives is odd: the byte that says that there is a hyphen is odd, and
-- chooses its position among an even number of positions.
hyphen_odd :
    (options : CredentialStyleOptions) (byte i : ℕ)
    → pick_hyphen_index options byte ≡ some i
    → i % 2 ≡ 1
unfolding pick_hyphen_index
hyphen_odd options byte i h = elim (Bool-cases options.allow_at_most_one_hyphen) [
  | inr never ↦ let failed = rw never at h in cc
  | inl allowed ↦ elim (Bool-cases (byte % 2 == 0)) [
    | inl even ↦ let failed = rw (allowed, even) at h in cc
    | inr odd ↦
        positions-odd options.letters_only_last_six options.letters_only_first_six options byte i
          refl refl (ground arith) (rw (allowed, odd) at h)
  ]
]

abbrev free : List ℕ → Bool
free [] = true
free (c ∷ cs) = not (c == 45) && free cs

free-append : (xs ys : List ℕ) → free xs ≡ true → free ys ≡ true → free (xs ++ ys) ≡ true
free-append [] ys h g = g
free-append (x ∷ xs) ys h g =
    let rest = free-append xs ys (ground (arith, h)) g in ground (arith, h, rest)

free-if :
    (b : Bool) (xs ys : List ℕ)
    → free xs ≡ true
    → free ys ≡ true
    → free (if b then xs else ys) ≡ true
free-if true xs ys h g = h
free-if false xs ys h g = g

letters-free : (options : CredentialStyleOptions) → free (letter_charset options) ≡ true
unfolding letter_charset
letters-free options =
    free-append (if options.include_uppercase then uppercase else [])
      (if options.include_lowercase then lowercase else [])
      (free-if options.include_uppercase uppercase [] refl refl)
      (free-if options.include_lowercase lowercase [] refl refl)

charset-free :
    (i : ℕ) (options : CredentialStyleOptions) → free (charset_for_position i options) ≡ true
unfolding charset_for_position
charset-free i options =
    free-if (is_letter_only_position i options) (letter_charset options) _ (letters-free options) (
      free-if (is_digit_only_position i options) digits (letter_charset options ++ digits) refl
        (free-append (letter_charset options) digits (letters-free options) refl))

at-free : (xs : List ℕ) (k c : ℕ) → free xs ≡ true → get_elem? xs k ≡ some c → c == 45 ≡ false
at-free [] k c h e = cc
at-free (x ∷ xs) zero c h e =
    let same : x ≡ c = cc in let other : x == 45 ≡ false = ground (arith, h) in rw same at other
at-free (x ∷ xs) (suc k) c h e = at-free xs k c (ground (arith, h)) e

-- From the position i on, a hyphen stands only at odd positions.
abbrev pub OddHyphens : ℕ → List ℕ → Type 0
OddHyphens i [] = Unit
OddHyphens i (c ∷ cs) = ((i % 2 ≡ 1) ⊎ (c == 45 ≡ false)) × OddHyphens (suc i) cs

Fits-OddHyphens :
    (options : CredentialStyleOptions) (byte i : ℕ) (text : List ℕ)
    → Fits options (pick_hyphen_index options byte) i text
    → OddHyphens i text
Fits-OddHyphens options byte i [] fits = tt
Fits-OddHyphens options byte i (c ∷ cs) (here, rest) = (
  elim here [
    | inl (index, _, _) ↦ inl (hyphen_odd options byte i index)
    | inr (k, e) ↦ inr (at-free (charset_for_position i options) k c (charset-free i options) e)
  ],
  Fits-OddHyphens options byte (suc i) cs rest,
)

-- A credential of a style that passes the validation and is no word style never has a hyphen at the
-- positions 0, 2, 4, 6, 8 and 10, whatever the random bytes are.
pub random_hyphen-OddHyphens :
    (options : CredentialStyleOptions) (random_bytes : ℕ → ℕ)
    → validate_credential_style options ≡ none
    → options.word_style ≡ false
    → (text : List ℕ) × (generate_styled_credential options random_bytes ≡ ok text)
      × OddHyphens 0 text
unfolding generate_styled_credential generate_random_credential
random_hyphen-OddHyphens options random_bytes valid no_words = (
  generate_random_credential options random_bytes,
  rw (valid, generate_styled_credential) (rw no_words refl),
  Fits-OddHyphens options (random_bytes 0) 0 (generate_random_credential options random_bytes)
      (random_credential-Fits options random_bytes valid).0,
)
