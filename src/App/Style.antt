-- ===== src/App/Style.antt =====
-- client/app/src/credential/credential-style.ts: which characters a position of a credential may have,
-- and the generation of a credential. Texts are lists of character codes, and the random bytes are a
-- parameter, a byte for each index.
pub mod Charset
pub mod Hyphen
pub mod Words
use c_stateless_relay_tran.Base.{
  ℕ, zero, suc, ◌+◌, ◌%◌, ltb, ◌==◌, Bool, true, false, not, ◌&&◌, ◌||◌, if◌then◌else◌, String,
  Option, none, some, List, [], ◌∷◌, ◌++◌, length, get_elem?,
}
use c_stateless_relay_tran.Base.Text.{codes}
use c_stateless_relay_tran.Download.Credential.{credential_length}

pub record CredentialStyleOptions : Type 0 where
  pub include_uppercase : Bool
  pub include_lowercase : Bool
  pub allow_at_most_one_hyphen : Bool
  pub letters_only_last_six : Bool
  pub letters_only_first_six : Bool
  pub word_style : Bool

abbrev pub default_credential_style : CredentialStyleOptions
default_credential_style = record {
  include_uppercase = true;
  include_lowercase = true;
  allow_at_most_one_hyphen = false;
  letters_only_last_six = false;
  letters_only_first_six = false;
  word_style = false;
}

abbrev pub uppercase : List ℕ
uppercase = codes "ABCDEFGHIJKLMNOPQRSTUVWXYZ"

abbrev pub lowercase : List ℕ
lowercase = codes "abcdefghijklmnopqrstuvwxyz"

abbrev pub digits : List ℕ
digits = codes "0123456789"

abbrev pub is_first_half : ℕ → Bool
is_first_half index = ltb index 6

abbrev pub is_letter_only_position : ℕ → CredentialStyleOptions → Bool
is_letter_only_position index options =
    (options.letters_only_last_six && not (is_first_half index))
    || (options.letters_only_first_six && is_first_half index)

abbrev pub is_digit_only_position : ℕ → CredentialStyleOptions → Bool
is_digit_only_position index options =
    (options.letters_only_last_six && is_first_half index)
    || (options.letters_only_first_six && not (is_first_half index))

unfoldable pub letter_charset : CredentialStyleOptions → List ℕ
letter_charset options =
    (if options.include_uppercase then uppercase else [])
    ++ (if options.include_lowercase then lowercase else [])

unfoldable pub charset_for_position : ℕ → CredentialStyleOptions → List ℕ
unfolding letter_charset
charset_for_position index options =
    if is_letter_only_position index options
    then letter_charset options
    else if is_digit_only_position index options
    then digits
    else letter_charset options ++ digits

abbrev text_or_undefined : Option ℕ → List ℕ
text_or_undefined none = codes "undefined"
text_or_undefined (some c) = c ∷ []

-- charset[randomByte % charset.length]; out of range it is undefined, which joins as a word.
unfoldable pub pick_random_char : List ℕ → ℕ → List ℕ
pick_random_char charset random_byte =
    text_or_undefined (get_elem? charset (random_byte % length charset))

abbrev is_nil : List ℕ → Bool
is_nil [] = true
is_nil (c ∷ cs) = false

-- Some index of the n from `index` on passes the test.
abbrev some_index : (ℕ → Bool) → ℕ → ℕ → Bool
some_index test index zero = false
some_index test index (suc n) = test index || some_index test (suc index) n

abbrev unusable : Option String
unusable = some "当前凭证风格无法生成有效凭证，请至少启用一种字母并检查位置限制"

unfoldable pub validate_credential_style : CredentialStyleOptions → Option String
unfolding letter_charset charset_for_position
validate_credential_style options =
    if options.letters_only_first_six && options.letters_only_last_six
    then some "「字母仅在前6位」与「字母仅在后6位」不能同时启用"
    else if options.word_style && not (options.include_uppercase || options.include_lowercase)
    then some "启用单词风格时，请至少勾选一种英文字母"
    else if some_index (λ index. is_nil (charset_for_position index options)) 0 credential_length
    then unusable
    else if is_nil (letter_charset options)
        && (not options.allow_at_most_one_hyphen
            && some_index (λ index. is_letter_only_position index options) 0 credential_length)
    then unusable
    else none

-- The positions, of the n from `index` on, that are not for letters only.
abbrev hyphen_positions : CredentialStyleOptions → ℕ → ℕ → List ℕ
hyphen_positions options index zero = []
hyphen_positions options index (suc n) =
    let rest = hyphen_positions options (suc index) n in
    if is_letter_only_position index options then rest else index ∷ rest

unfoldable pub pick_hyphen_index : CredentialStyleOptions → ℕ → Option ℕ
pick_hyphen_index options random_byte =
    let valid_positions = hyphen_positions options 0 credential_length in
    if options.allow_at_most_one_hyphen
    then (if random_byte % 2 == 0
        then none
        else get_elem? valid_positions (random_byte % length valid_positions))
    else none

abbrev is_index : ℕ → Option ℕ → Bool
is_index index none = false
is_index index (some i) = index == i

-- The characters of the n positions from `index` on.
unfoldable pub random_chars : CredentialStyleOptions → (ℕ → ℕ) → Option ℕ → ℕ → ℕ → List ℕ
unfolding charset_for_position pick_random_char
random_chars options random_bytes hyphen_index index zero = []
random_chars options random_bytes hyphen_index index (suc n) =
    (if is_index index hyphen_index
      then codes "-"
      else pick_random_char (charset_for_position index options) (random_bytes (index + 1)))
    ++ random_chars options random_bytes hyphen_index (suc index) n

unfoldable pub generate_random_credential : CredentialStyleOptions → (ℕ → ℕ) → List ℕ
unfolding pick_hyphen_index random_chars
generate_random_credential options random_bytes =
    random_chars options random_bytes (pick_hyphen_index options (random_bytes 0)) 0
      credential_length
