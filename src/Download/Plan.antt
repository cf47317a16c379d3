-- ===== src/Download/Plan.antt =====
-- client/transfer/src/protocol/receive-plan.ts: which tokens are fetched at first, and which are
-- fetched or cancelled when the number of tokens is known. `derive` is twelveC.deriveUploadToken
-- under the search code.
pub mod Partition
use c_stateless_relay_tran.Base.{
  ℕ, zero, suc, ◌-◌, ltb, leb, if◌then◌else◌, ◌==◌, Bool, String, List, [], ◌∷◌, Result, ok, err,
  error, ◌>>=◌,
}

pub record ReceiveDownloadPlan : Type 0 where
  pub num_tokens : ℕ
  pub initial_prefetch : List String
  pub cancel_after_smb : List String
  pub fetch_after_smb : List String

module _ (derive : ℕ → String) where
  -- The tokens of n indices from `index` on.
  abbrev pub tokens_from : ℕ → ℕ → List String
  tokens_from index zero = []
  tokens_from index (suc n) = derive index ∷ tokens_from (suc index) n

  unfoldable pub derive_index_tokens : ℕ → ℕ → Result (List String)
  derive_index_tokens start_inclusive end_exclusive =
      if ltb end_exclusive start_inclusive
      then err (error "invalid token index range")
      else ok (tokens_from start_inclusive (end_exclusive - start_inclusive))

  unfoldable pub compute_receive_download_plan : ℕ → ℕ → Result ReceiveDownloadPlan
  unfolding derive_index_tokens
  compute_receive_download_plan initial_tokens num_tokens =
      if initial_tokens == 0
      then err (error "initial token count must be greater than zero")
      else (derive_index_tokens 0 initial_tokens >>= λ initial.
          let plan : ReceiveDownloadPlan = record {
            num_tokens = num_tokens;
            initial_prefetch = initial;
            cancel_after_smb = [];
            fetch_after_smb = [];
          } in
          if ltb initial_tokens num_tokens
          then (derive_index_tokens initial_tokens num_tokens >>= λ more.
              ok (record plan { fetch_after_smb = more }))
          else if ltb num_tokens initial_tokens
          then (derive_index_tokens num_tokens initial_tokens >>= λ spare.
              ok (record plan { cancel_after_smb = spare }))
          else ok plan)
