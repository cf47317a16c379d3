-- ===== src/Tests/Downloads.antt =====
-- The download of a file of two blocks, and the parts of it, on small inputs.
use c_stateless_relay_tran.Base.{
  Option, Result, ok, false, ℕ, zero, suc, ◌≡◌, refl, String, none, some, List, [], ◌∷◌, ◌++◌,
  length,
}
use c_stateless_relay_tran.Base.Text.{codes}
use c_stateless_relay_tran.Base.StringMap
use c_stateless_relay_tran.Base.StringSet
use c_stateless_relay_tran.Download.Credential.{
  CodeUnits, split_credential, split_credential-append,
}
use c_stateless_relay_tran.Download.Accumulator.{append_chunk}
use c_stateless_relay_tran.Download.Interfaces.{SmbMetadata, TwelveC, ReceiveTransport}
use c_stateless_relay_tran.Download.Receiver.{new_receiver}
use c_stateless_relay_tran.Download.Receiver.Events.{
  ReceiverEvent, starts, cancels, awaits, takes, answers, ends, receiver_run,
}
use c_stateless_relay_tran.Download.Receiver.Single.{IsTidy}
use c_stateless_relay_tran.Download.Receiver.Arrivals.{IsCounted}
use c_stateless_relay_tran.Download.Receiver.Counted.{run-new-IsTidy}
use c_stateless_relay_tran.Download.Getting.{Ends, get, get-Ends}
use c_stateless_relay_tran.Download.Session.{download_adaptive, decrypt_downloaded_large_file}
use c_stateless_relay_tran.Download.Session.Content.{IsContent, large_file-IsContent}
use c_stateless_relay_tran.Download.Session.Window.{recorded}
use c_stateless_relay_tran.Download.Session.Calls.{Complete, download_calls}

abbrev a_credential : CodeUnits
a_credential = codes "abc123XYZ-45"

split :
    split_credential a_credential
    ≡ ok (record { search_code = codes "abc123"; key_code = codes "XYZ-45" })
unfolding split_credential
split = refl

split_credential-append_example :
    (codes "abc123" ++ codes "XYZ-45" ≡ a_credential)
    × (length (codes "abc123") ≡ 6)
    × (length (codes "XYZ-45") ≡ 6)
    × (length a_credential ≡ 12)
split_credential-append_example =
    split_credential-append a_credential
      (record { search_code = codes "abc123"; key_code = codes "XYZ-45" }) split

-- A session that holds the chunks that it will give.
abbrev take_held : List (List ℕ) → List ℕ × List (List ℕ)
take_held [] = ([], [])
take_held (chunk ∷ chunks) = (chunk, chunks)

abbrev two_blocks : SmbMetadata
two_blocks = record { num_tokens = 2; wire_block_size = 1; original_file_length = 3 }

abbrev token : ℕ → String
token zero = "t"
token (suc n) = "u"

abbrev cipher : TwelveC (List (List ℕ))
cipher = record {
  derive_upload_token = λ code index. token index;
  parse_smb_encrypted = λ credential block. ok two_blocks;
  create_receive_decrypt_session = λ credential block. ok [];
  receive_from_upload_map = λ credential uploads. ok (length uploads ∷ []);
  session = record {
    original_file_length = λ session. none;
    add_wire_token = λ index block session. ok (block ∷ session);
    take_plaintext_chunk = some take_held;
    complete_finalize = some (λ session. ok session);
    finalize = λ session. ok [];
  };
}

abbrev relays : ReceiveTransport ℕ
relays = record {
  start_concurrent_get = λ tokens w. (ok tt, w);
  cancel_pending = λ tokens w. w;
  get = λ t w. (ok (7 ∷ []), suc w);
}

download_calls_example :
    Complete relays cipher a_credential
      (λ size. 1)
      0
      (download_adaptive (recorded relays) cipher a_credential (λ size. 1) (0, []))
download_calls_example = download_calls relays cipher a_credential (λ size. 1) 0

abbrev two_tokens : List ReceiverEvent
two_tokens =
    starts ("t" ∷ "u" ∷ [])
    ∷ starts ("u" ∷ [])
    ∷ answers 0 (
        ok (
          ("t", record { url = "https://a/t"; headers = none; fallbacks = none })
          ∷ ("u", record { url = "https://a/u"; headers = none; fallbacks = none })
          ∷ []))
    ∷ awaits "t"
    ∷ ends 0 (ok (1 ∷ 2 ∷ []))
    ∷ cancels ("u" ∷ [])
    ∷ takes 0
    ∷ ends 1 (ok (3 ∷ []))
    ∷ []

run-new-IsTidy_example :
    IsTidy "u" (receiver_run new_receiver two_tokens)
    × IsCounted "u" (receiver_run new_receiver two_tokens)
run-new-IsTidy_example = run-new-IsTidy "u" two_tokens

-- The GET of the token u ends after its cancel: its byte stays counted although it has no entry.
counted_after_cancel :
    (StringMap.get "u" (receiver_run new_receiver two_tokens).pending ≡ none)
    × (StringMap.get "u" (receiver_run new_receiver two_tokens).buffered_received_bytes ≡ some 1)
unfolding receiver_run StringMap.get StringMap.has StringMap.set StringMap.delete StringSet.contains
    StringSet.unique
counted_after_cancel = (refl, refl)

-- The entry is missing twice, then the block is there; the world counts the rounds.
abbrev found_later : ℕ → Option (Result (List ℕ)) × ℕ
found_later zero = (none, 1)
found_later (suc zero) = (none, 2)
found_later (suc (suc w)) = (some (ok (7 ∷ [])), suc (suc w))

get-Ends_example :
    Ends "t"
      (λ w. false)
      (λ w. (ok tt, w))
      found_later
      (λ ms w. w)
      20
      120
      500
      (get "t" (λ w. false) (λ w. (ok tt, w)) found_later (λ ms w. w) 20 120 500 0)
get-Ends_example = get-Ends "t" (λ w. false) (λ w. (ok tt, w)) found_later (λ ms w. w) 20 120 500 0

-- The file of the one block that follows the block of the metadata.
decrypted :
    (decrypt_downloaded_large_file relays cipher (codes "abc123") a_credential (9 ∷ []) 1 2 1 1 0).0
    ≡ ok (7 ∷ [])
unfolding decrypt_downloaded_large_file append_chunk
decrypted = refl

large_file-IsContent_example :
    IsContent relays cipher
      (codes "abc123")
      take_held
      refl
      1
      2
      1
      (λ session. ok session)
      a_credential
      (9 ∷ [])
      1
      0
      (7 ∷ [])
large_file-IsContent_example =
    large_file-IsContent relays cipher (codes "abc123") take_held refl 1 2 1 (λ session. ok session)
      refl a_credential (9 ∷ []) 1 0 (7 ∷ []) decrypted
