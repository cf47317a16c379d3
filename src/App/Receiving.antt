-- ===== src/App/Receiving.antt =====
-- receiveFile of client/app/src/download/receive-file.ts.
use c_stateless_relay_tran.Base.{ℕ, ◌==◌, List, [], ◌∷◌, length, if◌then◌else◌, err, error}
use c_stateless_relay_tran.Base.Text.{concat, decimal}
use c_stateless_relay_tran.Download.Act.{Act, lift}
use c_stateless_relay_tran.Download.Credential.{CodeUnits, credential_length}
use c_stateless_relay_tran.Download.Interfaces.{TwelveC, ReceiveTransport}
use c_stateless_relay_tran.Download.Session.{download_adaptive}

unfoldable pub receive_file :
    {W D : Type 0} → ReceiveTransport W → TwelveC D → CodeUnits → (ℕ → ℕ) → Act W (List ℕ)
unfolding download_adaptive concat decimal
receive_file transport twelve_c credential prefetch_count =
    if length credential == credential_length
    then download_adaptive transport twelve_c credential prefetch_count
    else lift (
        err (
          error (
            concat
              ("credential must be exactly " ∷ decimal credential_length ∷ " characters" ∷ []))))
