-- ===== src/Tests/Styles.antt =====
-- Credentials of two styles.
use c_stateless_relay_tran.Base.{ℕ, ◌+◌, ◌≡◌, refl, true, false, none, List, length, ok}
use c_stateless_relay_tran.App.Style.{
  CredentialStyleOptions, default_credential_style, validate_credential_style, pick_hyphen_index,
  generate_random_credential,
}
use c_stateless_relay_tran.App.Style.Words.{generate_styled_credential}
use c_stateless_relay_tran.App.Style.Words.Positions.{FitsWord}
use c_stateless_relay_tran.App.Style.Words.Whole.{word_credential-FitsWord}
use c_stateless_relay_tran.App.Style.Charset.{Fits, random_credential-Fits}
use c_stateless_relay_tran.App.Style.Hyphen.{OddHyphens, random_hyphen-OddHyphens}

abbrev hyphenated : CredentialStyleOptions
hyphenated = record default_credential_style {
  allow_at_most_one_hyphen = true;
  letters_only_first_six = true;
}

abbrev bytes : ℕ → ℕ
bytes index = index + 9

valid : validate_credential_style hyphenated ≡ none
unfolding validate_credential_style
valid = refl

random_credential-Fits_example :
    Fits hyphenated
      (pick_hyphen_index hyphenated (bytes 0))
      0
      (generate_random_credential hyphenated bytes)
    × (length (generate_random_credential hyphenated bytes) ≡ 12)
random_credential-Fits_example = random_credential-Fits hyphenated bytes valid

random_hyphen-OddHyphens_example :
    (text : List ℕ) × (generate_styled_credential hyphenated bytes ≡ ok text) × OddHyphens 0 text
random_hyphen-OddHyphens_example = random_hyphen-OddHyphens hyphenated bytes valid refl

-- Words of upper-case letters, with digits behind them.
abbrev worded : CredentialStyleOptions
worded = record default_credential_style {
  include_lowercase = false;
  allow_at_most_one_hyphen = true;
  letters_only_first_six = true;
  word_style = true;
}

valid_words : validate_credential_style worded ≡ none
unfolding validate_credential_style
valid_words = refl

word_credential-FitsWord_example :
    (text : List ℕ) × (generate_styled_credential worded bytes ≡ ok text)
    × FitsWord worded 0 text
    × (length text ≡ 12)
word_credential-FitsWord_example = word_credential-FitsWord worded bytes valid_words refl
