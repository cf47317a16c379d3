-- ===== src/Download/Plan/Partition.antt =====
-- What the plan fetches, and what it cancels of that.
use native.Mathlib.Decide.{dec_lt}
use mathlib.Core.List.{append-nil}
use c_stateless_relay_tran.Base.{
  ℕ, zero, suc, ◌+◌, ◌-◌, ◌<◌, ◌≡◌, refl, sym, ap, ◌∙◌, String, [], ◌∷◌, ◌++◌, ok, arith, ◌⊎◌, inl,
  inr,
}
use c_stateless_relay_tran.Download.Plan.{
  ReceiveDownloadPlan, tokens_from, compute_receive_download_plan,
}

module _ (derive : ℕ → String) where
  tokens-append :
      (index m n : ℕ)
      → tokens_from derive index m ++ tokens_from derive (index + m) n
        ≡ tokens_from derive index (m + n)
  tokens-append index zero n =
      let here : index + 0 ≡ index = omega arith in
      let same : n ≡ 0 + n = omega arith in rw here (ap (λ k. tokens_from derive index k) same)
  tokens-append index (suc m) n =
      let next : index + suc m ≡ suc index + m = omega arith in
      let up : suc (m + n) ≡ suc m + n = omega arith in
      rw next (
        ap (λ ts. derive index ∷ ts) (tokens-append (suc index) m n)
        ∙ ap (λ k. tokens_from derive index k) up)

  -- A plan for a positive number of initial tokens exists. What it fetches, first and after the
  -- number of tokens is known, is in order the tokens of the file followed by those it cancels; it
  -- does not both fetch more and cancel.
  pub plan-partition :
      (initial_tokens num_tokens : ℕ)
      → 0 < initial_tokens
      → (plan : ReceiveDownloadPlan) × (compute_receive_download_plan derive initial_tokens
            num_tokens
          ≡ ok plan)
        × (plan.initial_prefetch ≡ tokens_from derive 0 initial_tokens)
        × (plan.initial_prefetch ++ plan.fetch_after_smb
            ≡ tokens_from derive 0 num_tokens ++ plan.cancel_after_smb)
        × ((plan.fetch_after_smb ≡ []) ⊎ (plan.cancel_after_smb ≡ []))
  unfolding compute_receive_download_plan
  plan-partition initial_tokens num_tokens pos = elim (dec_lt initial_tokens num_tokens) [
    | yes more ↦
        let joined = tokens-append 0 initial_tokens (num_tokens - initial_tokens) in
        let sized : initial_tokens + (num_tokens - initial_tokens) ≡ num_tokens = omega arith in
        let zero_add : 0 + initial_tokens ≡ initial_tokens = omega arith in
        (
          record {
            num_tokens = num_tokens;
            initial_prefetch = tokens_from derive 0 initial_tokens;
            cancel_after_smb = [];
            fetch_after_smb = tokens_from derive initial_tokens (num_tokens - initial_tokens);
          },
          ground arith,
          refl,
          rw append-nil (rw (sized, zero_add) at joined),
          inr refl,
        )
    | no enough ↦ elim (dec_lt num_tokens initial_tokens) [
      | yes spare ↦
          let joined = tokens-append 0 num_tokens (initial_tokens - num_tokens) in
          let sized : num_tokens + (initial_tokens - num_tokens) ≡ initial_tokens = omega arith in
          let zero_add : 0 + num_tokens ≡ num_tokens = omega arith in
          (
            record {
              num_tokens = num_tokens;
              initial_prefetch = tokens_from derive 0 initial_tokens;
              cancel_after_smb = tokens_from derive num_tokens (initial_tokens - num_tokens);
              fetch_after_smb = [];
            },
            ground arith,
            refl,
            rw append-nil (sym (rw (sized, zero_add) at joined)),
            inl refl,
          )
      | no same ↦
          let equal : initial_tokens ≡ num_tokens = omega arith in
          (
            record {
              num_tokens = num_tokens;
              initial_prefetch = tokens_from derive 0 initial_tokens;
              cancel_after_smb = [];
              fetch_after_smb = [];
            },
            ground arith,
            refl,
            rw equal refl,
            inl refl,
          )
    ]
  ]
