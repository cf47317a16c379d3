-- ===== src/Download/Interfaces.antt =====
-- What client/transfer/src/session/download-session.ts needs of others, the transport and the
-- cryptography client, and the checks that it makes.
use c_stateless_relay_tran.Base.{
  ℕ, leb, ◌==◌, if◌then◌else◌, String, none, some, List, [], ◌∷◌, length, Result, ok, err, error,
  value, Thrown,
}
use c_stateless_relay_tran.Base.Text.{concat, decimal, codes, includes}
use c_stateless_relay_tran.Resilience.Failure.{message_of}
use c_stateless_relay_tran.Upload.Blocks.{UploadMap}
use c_stateless_relay_tran.Download.Accumulator.{ReceiveDecryptSession}
use c_stateless_relay_tran.Download.Credential.{CodeUnits}

pub record SmbMetadata : Type 0 where
  pub num_tokens : ℕ
  pub wire_block_size : ℕ
  pub original_file_length : ℕ

-- The part of TwelveCClient that a download calls.
pub record TwelveC (D : Type 0) : Type 0 where
  pub derive_upload_token : CodeUnits → ℕ → String
  pub parse_smb_encrypted : CodeUnits → List ℕ → Result SmbMetadata
  pub create_receive_decrypt_session : CodeUnits → List ℕ → Result D
  pub receive_from_upload_map : CodeUnits → UploadMap → Result (List ℕ)
  pub session : ReceiveDecryptSession D

pub record ReceiveTransport (W : Type 0) : Type 0 where
  pub start_concurrent_get : List String → W → Result (Unit {0}) × W
  pub cancel_pending : List String → W → W
  pub get : String → W → Result (List ℕ) × W

unfoldable pub assert_wire_block_size : String → List ℕ → ℕ → Result (List ℕ)
unfolding concat decimal
assert_wire_block_size token wire expected_size =
    if length wire == expected_size
    then ok wire
    else err (
        error (
          concat (
            "download block size mismatch for token "
            ∷ token
            ∷ ": got "
            ∷ decimal (length wire)
            ∷ " bytes, expected "
            ∷ decimal expected_size
            ∷ [])))

-- The error of a decryption session that cannot be made, with advice.
-- error instanceof Error ? error.message : String(error)
text_of : Thrown → String
unfolding message_of
text_of (value s) = s
text_of e = elim (message_of e) [ none ↦ "" | some message ↦ message ]

unfoldable pub session_failure : Thrown → Thrown
unfolding text_of concat includes
session_failure e =
    if includes (codes "ReceiveDecryptSession") (codes (text_of e))
    then error (concat (text_of e ∷ " 请运行 client/build.ps1 -ForceWasm 并硬刷新页面后重试。" ∷ []))
    else e

unfoldable pub or_failure : {D : Type 0} → Result D → Result D
unfolding session_failure
or_failure (ok session) = ok session
or_failure (err e) = err (session_failure e)

-- Number.MAX_SAFE_INTEGER
abbrev pub max_safe_integer : ℕ
max_safe_integer = 9007199254740991

-- toSafeByteLength of a number
unfoldable pub to_safe_byte_length : ℕ → String → Result ℕ
unfolding concat decimal
to_safe_byte_length n label =
    if leb n max_safe_integer
    then ok n
    else err (error (concat (label ∷ " must be a non-negative safe integer: " ∷ decimal n ∷ [])))

size_mismatch : String → ℕ → ℕ → Thrown
unfolding concat decimal
size_mismatch what got expected =
    error
      (concat (what ∷ " size mismatch: got " ∷ decimal got ∷ ", expected " ∷ decimal expected ∷ []))

unfoldable pub check_size : String → ℕ → ℕ → Result (Unit {0})
unfolding size_mismatch
check_size what got expected =
    if got == expected then ok tt else err (size_mismatch what got expected)
