-- ===== src/App/Style/Words.antt =====
-- client/app/src/credential/credential-style.ts: the word style, whose letters make syllables of a
-- consonant, a vowel and a consonant. The 48 random bytes are a parameter, a byte for each index.
pub mod Letters
pub mod Positions
pub mod Whole
use c_stateless_relay_tran.Base.{
  ℕ, zero, suc, ◌+◌, ◌*◌, ◌-◌, ◌%◌, ltb, ◌==◌, Bool, true, false, not, ◌&&◌, ◌||◌, if◌then◌else◌,
  Option, none, some, List, [], ◌∷◌, ◌++◌, length, get_elem?, map, Result, ok, err, error, ◌>>=◌,
}
use c_stateless_relay_tran.Base.Text.{codes, lower}
use c_stateless_relay_tran.Download.Credential.{credential_length}
use c_stateless_relay_tran.App.Style.{
  CredentialStyleOptions, digits, pick_random_char, is_index, is_nil, validate_credential_style,
  generate_random_credential,
}

abbrev pub vowels_lower : List ℕ
vowels_lower = codes "aeiou"

abbrev pub vowels_upper : List ℕ
vowels_upper = codes "AEIOU"

abbrev pub consonants_lower : List ℕ
consonants_lower = codes "bcdfghjklmnpqrstvwxyz"

abbrev pub consonants_upper : List ℕ
consonants_upper = codes "BCDFGHJKLMNPQRSTVWXYZ"

abbrev forbidden_trailing_consonants : List ℕ
forbidden_trailing_consonants = codes "hzqjklm"

-- Set.has
abbrev pub has : ℕ → List ℕ → Bool
has x [] = false
has x (y ∷ ys) = x == y || has x ys

pub record WordStyleLayout : Type 0 where
  pub word_start : ℕ
  pub syllable_count : ℕ
  pub digit_prefix_length : ℕ
  pub digit_suffix_length : ℕ

abbrev pub resolve_word_style_layout : CredentialStyleOptions → WordStyleLayout
resolve_word_style_layout options =
    if options.letters_only_first_six
    then record {
      word_start = 0;
      syllable_count = 2;
      digit_prefix_length = 0;
      digit_suffix_length = 6;
    }
    else if options.letters_only_last_six
    then record {
      word_start = 6;
      syllable_count = 2;
      digit_prefix_length = 6;
      digit_suffix_length = 0;
    }
    else record {
      word_start = 0;
      syllable_count = 4;
      digit_prefix_length = 0;
      digit_suffix_length = 0;
    }

-- The slots of n syllables from `base` on.
abbrev consonant_slots : ℕ → ℕ → List ℕ
consonant_slots base zero = []
consonant_slots base (suc n) = base ∷ (base + 2) ∷ consonant_slots (base + 3) n

abbrev kept_slots : List ℕ → List ℕ → List ℕ
kept_slots slots [] = []
kept_slots slots (slot ∷ rest) =
    let others = kept_slots slots rest in if has slot slots then slot ∷ others else others

abbrev list_word_style_hyphen_slots : WordStyleLayout → List ℕ
list_word_style_hyphen_slots layout =
    kept_slots (consonant_slots layout.word_start layout.syllable_count) (5 ∷ 6 ∷ [])

abbrev should_use_leading_uppercase : CredentialStyleOptions → ℕ → Bool
should_use_leading_uppercase options random_byte =
    if options.include_uppercase && options.include_lowercase
    then random_byte % 2 == 1
    else options.include_uppercase

-- pickConsonant and pickVowel
unfoldable pub pick_letter : CredentialStyleOptions → List ℕ → List ℕ → Bool → ℕ → List ℕ
unfolding pick_random_char
pick_letter options upper_letters lower_letters uppercase random_byte =
    if uppercase && options.include_uppercase
    then pick_random_char upper_letters random_byte
    else if options.include_lowercase
    then pick_random_char lower_letters random_byte
    else pick_random_char upper_letters random_byte

abbrev is_char : ℕ → List ℕ → Bool
is_char c [] = false
is_char c (x ∷ []) = x == c
is_char c (x ∷ y ∷ ys) = false

abbrev trailing_charset : Bool → Bool → List ℕ → List ℕ
trailing_charset allow_y allow_w [] = []
trailing_charset allow_y allow_w (char ∷ chars) =
    let charset = trailing_charset allow_y allow_w chars in
    if has char forbidden_trailing_consonants
    then charset
    else if char == b'y' && not allow_y
    then charset
    else if char == b'w' && not allow_w
    then charset
    else char ∷ charset

unfoldable pub build_trailing_consonant_charset : List ℕ → List ℕ
build_trailing_consonant_charset vowel =
    trailing_charset (is_char b'a' (map lower vowel)) (is_char b'o' (map lower vowel))
      consonants_lower

unfoldable pub pick_trailing_consonant : List ℕ → ℕ → Result (List ℕ)
pick_trailing_consonant vowel random_byte =
    if is_nil (build_trailing_consonant_charset vowel)
    then err (error "no valid trailing consonant")
    else ok (pick_random_char (build_trailing_consonant_charset vowel) random_byte)

-- randomBytes[offset] ?? 0
abbrev byte_at : (ℕ → ℕ) → ℕ → ℕ
byte_at random_bytes offset = if ltb offset 48 then random_bytes offset else 0

pub record Syllable : Type 0 where
  pub text : List ℕ
  pub next_offset : ℕ

-- leadingWouldUpper, and the offset behind the byte it takes, which is none at another base.
abbrev leading_would_upper : CredentialStyleOptions → ℕ → (ℕ → ℕ) → ℕ → Bool × ℕ
leading_would_upper options base random_bytes offset =
    if has base (0 ∷ 6 ∷ [])
    then (should_use_leading_uppercase options (byte_at random_bytes offset), suc offset)
    else (false, offset)

unfoldable pub leading_letter : CredentialStyleOptions → Bool → Bool → (ℕ → ℕ) → ℕ → List ℕ × ℕ
unfolding pick_letter
leading_letter options true upper random_bytes offset = (codes "-", offset)
leading_letter options false upper random_bytes offset = (
  pick_letter options consonants_upper consonants_lower upper (byte_at random_bytes offset),
  suc offset,
)

unfoldable pub with_trailing : Bool → List ℕ → List ℕ → (ℕ → ℕ) → ℕ → Result Syllable
with_trailing true leading vowel random_bytes offset =
    ok (record { text = leading ++ vowel ++ codes "-"; next_offset = offset })
with_trailing false leading vowel random_bytes offset = do
  trailing ← pick_trailing_consonant vowel (byte_at random_bytes offset)
  ok (record { text = leading ++ vowel ++ trailing; next_offset = suc offset })

unfoldable pub generate_cvc_syllable :
    CredentialStyleOptions → ℕ → Option ℕ → (ℕ → ℕ) → ℕ → Result Syllable
unfolding pick_letter leading_letter
generate_cvc_syllable options base hyphen_index random_bytes offset =
    let at_leading = is_index base hyphen_index in
    let would = leading_would_upper options base random_bytes offset in
    let leading = leading_letter options at_leading would.0 random_bytes would.1 in
    let vowel =
      pick_letter options vowels_upper vowels_lower (at_leading && would.0)
        (byte_at random_bytes leading.1) in
    with_trailing (is_index (base + 2) hyphen_index) leading.0 vowel random_bytes (suc leading.1)

-- chars[index] = text. The indexes are below 12, the length of the array.
abbrev pub set_char : ℕ → List ℕ → (ℕ → List ℕ) → ℕ → List ℕ
set_char index text chars i = if i == index then text else chars i

-- An undefined character joins as no character.
abbrev pub text_at : List ℕ → ℕ → List ℕ
text_at [] k = []
text_at (c ∷ cs) zero = c ∷ []
text_at (c ∷ cs) (suc k) = text_at cs k

-- The digits at n positions from `index` on.
unfoldable pub set_digits : (ℕ → ℕ) → ℕ → ℕ → ℕ → (ℕ → List ℕ) → ℕ → List ℕ
unfolding pick_random_char
set_digits random_bytes offset index zero chars = chars
set_digits random_bytes offset index (suc n) chars =
    set_digits random_bytes (suc offset) (suc index) n
      (set_char index (pick_random_char digits (byte_at random_bytes offset)) chars)

unfoldable pub set_syllable : ℕ → List ℕ → (ℕ → List ℕ) → ℕ → List ℕ
set_syllable base text chars =
    set_char (base + 2) (text_at text 2)
      (set_char (base + 1) (text_at text 1) (set_char base (text_at text 0) chars))

unfoldable pub set_syllables :
    CredentialStyleOptions → Option ℕ → (ℕ → ℕ) → ℕ → ℕ → ℕ → (ℕ → List ℕ) → Result (ℕ → List ℕ)
set_syllables options hyphen_index random_bytes base zero offset chars = ok chars
set_syllables options hyphen_index random_bytes base (suc n) offset chars = do
  syllable ← generate_cvc_syllable options base hyphen_index random_bytes offset
  set_syllables options hyphen_index random_bytes (base + 3) n syllable.next_offset
      (set_syllable base syllable.text chars)

-- The hyphen's position, and the offset behind the bytes it takes.
unfoldable pub word_hyphen : CredentialStyleOptions → List ℕ → (ℕ → ℕ) → ℕ → Option ℕ × ℕ
word_hyphen options slots random_bytes offset =
    if options.allow_at_most_one_hyphen && not (is_nil slots)
    then (if byte_at random_bytes offset % 2 == 1
        then (get_elem? slots (byte_at random_bytes (suc offset) % length slots), suc (suc offset))
        else (none, suc offset))
    else (none, offset)

-- chars.join(''), of the n characters from `index` on
abbrev pub join : (ℕ → List ℕ) → ℕ → ℕ → List ℕ
join chars index zero = []
join chars index (suc n) = chars index ++ join chars (suc index) n

abbrev joined : Result (ℕ → List ℕ) → Result (List ℕ)
joined (err e) = err e
joined (ok chars) = ok (join chars 0 credential_length)

-- generateWordStyleCredential, behind the choice of the layout
unfoldable pub word_with : CredentialStyleOptions → WordStyleLayout → (ℕ → ℕ) → Result (List ℕ)
word_with options layout random_bytes =
    let prefix = set_digits random_bytes 0 0 layout.digit_prefix_length (λ i. []) in
    let suffix =
      set_digits random_bytes layout.digit_prefix_length
        (credential_length - layout.digit_suffix_length) layout.digit_suffix_length prefix in
    let hyphen =
      word_hyphen options (list_word_style_hyphen_slots layout) random_bytes
        (layout.digit_prefix_length + layout.digit_suffix_length) in
    joined (
      set_syllables options hyphen.0 random_bytes layout.word_start layout.syllable_count hyphen.1
        suffix)

unfoldable pub generate_word_style_credential : CredentialStyleOptions → (ℕ → ℕ) → Result (List ℕ)
generate_word_style_credential options random_bytes =
    word_with options (resolve_word_style_layout options) random_bytes

-- generateStyledCredential, with the random bytes of the generator that is chosen
unfoldable pub generate_styled_credential : CredentialStyleOptions → (ℕ → ℕ) → Result (List ℕ)
generate_styled_credential options random_bytes = elim (validate_credential_style options) [
  | some message ↦ err (error message)
  | none ↦
      if options.word_style
      then generate_word_style_credential options random_bytes
      else ok (generate_random_credential options random_bytes)
]
