-- ===== src/Download/Credential.antt =====
-- client/transfer/src/types.ts: a credential is a search code and a key code. A JavaScript string has
-- its length in UTF-16 code units and is cut at them, so that a credential is the list of its units.
use c_stateless_relay_tran.Base.{
  ℕ, ◌≡◌, ◌==◌, Bool-cases, inl, inr, if◌then◌else◌, List, [], ◌∷◌, ◌++◌, length, length-append,
  length-drop, take, drop, take-append-drop, Result, ok, err, error, arith,
}
use c_stateless_relay_tran.Base.Text.{concat, decimal}

abbrev pub CodeUnits : Type 0
CodeUnits = List ℕ

abbrev pub credential_length : ℕ
credential_length = 12

abbrev pub search_code_length : ℕ
search_code_length = 6

-- s.slice(0, n)
abbrev pub slice_to : ℕ → CodeUnits → CodeUnits
slice_to n s = take n s

-- s.slice(n)
abbrev pub slice_from : ℕ → CodeUnits → CodeUnits
slice_from n s = drop n s

pub record CredentialParts : Type 0 where
  pub search_code : CodeUnits
  pub key_code : CodeUnits

unfoldable pub split_credential : CodeUnits → Result CredentialParts
unfolding concat decimal
split_credential credential =
    if length credential == credential_length
    then ok (record {
      search_code = slice_to search_code_length credential;
      key_code = slice_from search_code_length credential;
    })
    else err (
        error
          (concat ("credential must be exactly " ∷ decimal credential_length ∷ " characters" ∷ [])))

six :
    (credential : CodeUnits)
    → length credential ≡ 12
    → (length (take 6 credential) ≡ 6) × (length (drop 6 credential) ≡ 6)
six credential twelve =
    let back : length (drop 6 credential) ≡ 6 = omega (arith, length-drop 6 credential) in
    let joined = length-append (take 6 credential) (drop 6 credential) in
    let all = take-append-drop 6 credential in
    let sized = rw all at joined in (omega (arith, sized), back)

-- The two codes put together are the credential again, and each has six code units. A text of any
-- other length than twelve is refused.
pub split_credential-append :
    (credential : CodeUnits) (parts : CredentialParts)
    → split_credential credential ≡ ok parts
    → (parts.search_code ++ parts.key_code ≡ credential)
      × (length parts.search_code ≡ 6)
      × (length parts.key_code ≡ 6)
      × (length credential ≡ 12)
unfolding split_credential
split_credential-append credential parts h = elim (Bool-cases (length credential == 12)) [
  | inr test ↦ let failed = rw test at h in cc
  | inl test ↦
      let split = rw test at h in
      let twelve : length credential ≡ 12 = ground (arith, test) in
      let first : take 6 credential ≡ parts.search_code = cc in
      let second : drop 6 credential ≡ parts.key_code = cc in
      let joined = take-append-drop 6 credential in
      let (a, b) = six credential twelve in
      (rw (first, second) at joined, rw first at a, rw second at b, twelve)
]
