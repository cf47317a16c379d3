-- ===== src/App/Style/Words/Letters.antt =====
-- What the letters of a syllable are.
use c_stateless_relay_tran.Base.{
  ℕ, zero, suc, ◌+◌, ◌%◌, ◌≡◌, inl, inr, refl, Bool, true, false, ◌&&◌, Option, some, List, [], ◌∷◌,
  ◌++◌, length, get_elem?, map, ok, arith, Bool-cases,
}
use c_stateless_relay_tran.Base.Text.{codes, lower}
use c_stateless_relay_tran.App.Style.{CredentialStyleOptions, pick_random_char, is_nil, is_index}
use c_stateless_relay_tran.App.Style.Charset.{at_index}
use c_stateless_relay_tran.App.Style.Words.{
  vowels_lower, vowels_upper, consonants_lower, consonants_upper, has, pick_letter, is_char,
  build_trailing_consonant_charset, pick_trailing_consonant, leading_letter, with_trailing,
  leading_would_upper, byte_at, Syllable, generate_cvc_syllable,
}

-- A text of one character of the charset.
abbrev pub OneOf : List ℕ → List ℕ → Type 0
OneOf charset text = (c : ℕ) × (text ≡ c ∷ []) × (has c charset ≡ true)

abbrev has_all : List ℕ → List ℕ → Bool
has_all charset [] = true
has_all charset (x ∷ xs) = has x charset && has_all charset xs

has-at :
    (charset xs : List ℕ) (k c : ℕ)
    → has_all charset xs ≡ true
    → get_elem? xs k ≡ some c
    → has c charset ≡ true
has-at charset [] k c h e = cc
has-at charset (x ∷ xs) zero c h e =
    let same : x ≡ c = cc in
    let there : has x charset ≡ true = ground (arith, h) in rw same at there
has-at charset (x ∷ xs) (suc k) c h e = has-at charset xs k c (ground (arith, h)) e

pub pick-OneOf :
    (charset xs : List ℕ) (byte : ℕ)
    → has_all charset xs ≡ true
    → is_nil xs ≡ false
    → OneOf charset (pick_random_char xs byte)
unfolding pick_random_char
pick-OneOf charset [] byte h usable = cc
pick-OneOf charset (x ∷ xs) byte h usable =
    let (c, e) = at_index (x ∷ xs) (byte % length (x ∷ xs)) (omega arith) in
    (c, rw e refl, has-at charset (x ∷ xs) (byte % length (x ∷ xs)) c h e)

abbrev pub vowels : List ℕ
vowels = vowels_lower ++ vowels_upper

-- The letters that may lead a syllable, and the hyphen.
abbrev pub leading_chars : List ℕ
leading_chars = codes "-" ++ consonants_lower ++ consonants_upper

-- The letters that may end a syllable, and the hyphen; there is no upper-case one.
abbrev pub trailing_chars : List ℕ
trailing_chars = codes "-bcdfgnprstvwxy"

letter-OneOf :
    (options : CredentialStyleOptions) (charset upper lower : List ℕ) (uppercase : Bool) (byte : ℕ)
    → has_all charset upper ≡ true
    → has_all charset lower ≡ true
    → is_nil upper ≡ false
    → is_nil lower ≡ false
    → OneOf charset (pick_letter options upper lower uppercase byte)
unfolding pick_letter
letter-OneOf options charset upper lower uppercase byte hu hl nu nl =
    elim (Bool-cases (uppercase && options.include_uppercase)) [
      | inl e ↦ rw e (pick-OneOf charset upper byte hu nu)
      | inr e ↦ elim (Bool-cases options.include_lowercase) [
        | inl f ↦ rw (e, f) (pick-OneOf charset lower byte hl nl)
        | inr f ↦ rw (e, f) (pick-OneOf charset upper byte hu nu)
      ]
    ]

charset-usable :
    (vowel : List ℕ)
    → (has_all trailing_chars (build_trailing_consonant_charset vowel) ≡ true)
      × (is_nil (build_trailing_consonant_charset vowel) ≡ false)
unfolding build_trailing_consonant_charset
charset-usable vowel = elim (Bool-cases (is_char 97 (map lower vowel))) [
  | inl y ↦ elim (Bool-cases (is_char 111 (map lower vowel))) [
    | inl w ↦ rw (y, w) (refl, refl)
    | inr w ↦ rw (y, w) (refl, refl)
  ]
  | inr y ↦ elim (Bool-cases (is_char 111 (map lower vowel))) [
    | inl w ↦ rw (y, w) (refl, refl)
    | inr w ↦ rw (y, w) (refl, refl)
  ]
]

trailing-OneOf :
    (vowel : List ℕ) (byte : ℕ)
    → (text : List ℕ) × (pick_trailing_consonant vowel byte ≡ ok text) × OneOf trailing_chars text
unfolding pick_trailing_consonant
trailing-OneOf vowel byte =
    let (all, usable) = charset-usable vowel in
    (
      pick_random_char (build_trailing_consonant_charset vowel) byte,
      rw usable refl,
      pick-OneOf trailing_chars (build_trailing_consonant_charset vowel) byte all usable,
    )

leading-OneOf :
    (options : CredentialStyleOptions) (hyphen upper : Bool) (random_bytes : ℕ → ℕ) (offset : ℕ)
    → OneOf leading_chars (leading_letter options hyphen upper random_bytes offset).0
unfolding leading_letter
leading-OneOf options true upper random_bytes offset = (45, refl, refl)
leading-OneOf options false upper random_bytes offset =
    letter-OneOf options leading_chars consonants_upper consonants_lower upper
      (byte_at random_bytes offset) refl refl refl refl

-- A syllable is a leading consonant or a hyphen, a vowel, and a trailing consonant or a hyphen.
abbrev pub IsSyllable : List ℕ → Type 0
IsSyllable text =
    (leading : ℕ) × (vowel : ℕ) × (trailing : ℕ) × (text ≡ leading ∷ vowel ∷ trailing ∷ [])
    × (has leading leading_chars ≡ true)
    × (has vowel vowels ≡ true)
    × (has trailing trailing_chars ≡ true)

trailed-IsSyllable :
    (leading vowel text : List ℕ) (random_bytes : ℕ → ℕ) (offset : ℕ)
    → OneOf leading_chars leading
    → OneOf vowels vowel
    → pick_trailing_consonant vowel (byte_at random_bytes offset) ≡ ok text
    → OneOf trailing_chars text
    → (syllable : Syllable) × (with_trailing false leading vowel random_bytes offset ≡ ok syllable)
      × IsSyllable syllable.text
unfolding with_trailing
trailed-IsSyllable leading vowel text random_bytes offset (l, le, lh) (v, ve, vh) e (t, te, th) = (
  record { text = leading ++ vowel ++ text; next_offset = suc offset },
  rw e refl,
  (l, v, t, rw (le, ve, te) refl, lh, vh, th),
)

with_trailing-IsSyllable :
    (hyphen : Bool) (leading vowel : List ℕ) (random_bytes : ℕ → ℕ) (offset : ℕ)
    → OneOf leading_chars leading
    → OneOf vowels vowel
    → (syllable : Syllable) × (with_trailing hyphen leading vowel random_bytes offset ≡ ok syllable)
      × IsSyllable syllable.text
unfolding with_trailing
with_trailing-IsSyllable true leading vowel random_bytes offset (l, le, lh) (v, ve, vh) = (
  record { text = leading ++ vowel ++ codes "-"; next_offset = offset },
  refl,
  (l, v, 45, rw (le, ve) refl, lh, vh, refl),
)
with_trailing-IsSyllable false leading vowel random_bytes offset lead mid =
    let (text, e, one) = trailing-OneOf vowel (byte_at random_bytes offset) in
    trailed-IsSyllable leading vowel text random_bytes offset lead mid e one

pub cvc-IsSyllable :
    (options : CredentialStyleOptions) (base : ℕ) (hyphen_index : Option ℕ) (random_bytes : ℕ → ℕ)
    (offset : ℕ)
    → (syllable : Syllable) × (generate_cvc_syllable options base hyphen_index random_bytes offset
        ≡ ok syllable)
      × IsSyllable syllable.text
unfolding generate_cvc_syllable
cvc-IsSyllable options base hyphen_index random_bytes offset =
    let at_leading = is_index base hyphen_index in
    let would = leading_would_upper options base random_bytes offset in
    let leading = leading_letter options at_leading would.0 random_bytes would.1 in
    with_trailing-IsSyllable (is_index (base + 2) hyphen_index) leading.0
      (pick_letter options vowels_upper vowels_lower (at_leading && would.0)
        (byte_at random_bytes leading.1))
      random_bytes (suc leading.1) (leading-OneOf options at_leading would.0 random_bytes would.1)
      (letter-OneOf options vowels vowels_upper vowels_lower (at_leading && would.0)
        (byte_at random_bytes leading.1) refl refl refl refl)
