-- ===== src/Download/Receiver/Single.antt =====
-- What holds of each token in the receive transport, and that the router's answers keep it.
use text.Mathlib.Text.{◌==◌ as str_eq}
use c_stateless_relay_tran.Base.{
  ℕ, zero, suc, ◌+◌, ◌≤◌, ◌≡◌, refl, sym, ◌∙◌, Bool, true, false, ◌||◌, if◌then◌else◌, String,
  Option, none, some, List, [], ◌∷◌, length, get_elem?, Result, ok, err, Thrown, arith, Bool-cases,
  inl, inr, str_eq-cases,
}
use c_stateless_relay_tran.Base.StringMap
use c_stateless_relay_tran.Base.StringMap.{get-set}
use c_stateless_relay_tran.Base.StringSet.{contains}
use c_stateless_relay_tran.Registry.Records.{RelayEndpoint, RelayEndpointMap}
use c_stateless_relay_tran.Download.Receiver.{
  Receiver, start_get, start_if, start_gets, fail_if, fail_gets, is_expired_placement,
  answer_tokens, without_at, answer_batch,
}

abbrev pub held : Option ℕ → ℕ
held none = 0
held (some k) = 1

or_right : (a : Bool) {b : Bool} → b ≡ true → (a || b) ≡ true
or_right true h = refl
or_right false h = h

module _ (t : String) where
  -- In how many of the batches the token waits for its endpoint.
  abbrev pub waits_in : List (List String) → ℕ
  waits_in [] = 0
  waits_in (batch ∷ batches) = (if contains t batch then 1 else 0) + waits_in batches

  -- A token waits in one batch, or has one entry, or neither; a cancelled token has no entry.
  abbrev pub Tidy : ℕ → Option ℕ → Bool → Type 0
  Tidy waiting entry is_cancelled =
      (waiting + held entry ≤ 1) × (is_cancelled ≡ true → entry ≡ none)

  abbrev pub IsTidy : Receiver → Type 0
  IsTidy r =
      Tidy (waits_in r.batches) (StringMap.get t r.pending) (contains t r.cancelled_before_resolve)

  pub carry :
      {n m : ℕ} {p q : Option ℕ} {c d : Bool} → n ≡ m → p ≡ q → c ≡ d → Tidy n p c → Tidy m q d
  carry e f g tidy = rw (e, f, g) at tidy

  start_get-IsTidy :
      (token : String) (r : Receiver)
      → IsTidy r
      → (str_eq token t ≡ true → waits_in r.batches ≡ 0)
      → contains token r.cancelled_before_resolve ≡ false
      → IsTidy (start_get token r)
  unfolding start_get
  start_get-IsTidy token r tidy free alive =
      let p = get-set token t (length r.gets) r.pending in
      elim (str_eq-cases token t) [
        | inl (e, same) ↦
            let running_now : some (length r.gets)
                ≡ StringMap.get t (StringMap.set token (length r.gets) r.pending) =
              sym (rw e at p) in
            let here : contains t r.cancelled_before_resolve ≡ false = rw same at alive in
            carry (sym (free e)) running_now (sym here) (omega arith, λ h. cc)
        | inr (e, other) ↦ carry refl (sym (rw e at p)) refl tidy
      ]

  start_if-IsTidy :
      (b : Bool) (token : String) (endpoint : Option RelayEndpoint) (r : Receiver)
      → (StringMap.has token r.pending || contains token r.cancelled_before_resolve) ≡ b
      → IsTidy r
      → (str_eq token t ≡ true → waits_in r.batches ≡ 0)
      → IsTidy (start_if b token endpoint r)
        × (waits_in (start_if b token endpoint r).batches ≡ waits_in r.batches)
  unfolding start_if start_get
  start_if-IsTidy true token endpoint r h tidy free = (tidy, refl)
  start_if-IsTidy false token none r h tidy free = (tidy, refl)
  start_if-IsTidy false token (some endpoint) r h tidy free =
      (start_get-IsTidy token r tidy free (ground arith), refl)

  start_gets-IsTidy :
      (endpoints : RelayEndpointMap) (tokens : List String) (r : Receiver)
      → IsTidy r
      → (contains t tokens ≡ true → waits_in r.batches ≡ 0)
      → IsTidy (start_gets endpoints tokens r)
  unfolding start_gets contains
  start_gets-IsTidy endpoints [] r tidy free = tidy
  start_gets-IsTidy endpoints (token ∷ tokens) r tidy free =
      let (tidy_now, same) =
        start_if-IsTidy (StringMap.has token r.pending || contains token r.cancelled_before_resolve)
          token (StringMap.get token endpoints) r refl tidy (λ e. free (rw e refl)) in
      start_gets-IsTidy endpoints tokens _ tidy_now (λ h. same ∙ free (or_right (str_eq token t) h))

  fail_if-IsTidy :
      (b : Bool) (e : Thrown) (token : String) (r : Receiver)
      → (StringMap.has token r.pending || contains token r.cancelled_before_resolve) ≡ b
      → IsTidy r
      → (str_eq token t ≡ true → waits_in r.batches ≡ 0)
      → IsTidy (fail_if b e token r) × (waits_in (fail_if b e token r).batches ≡ waits_in r.batches)
  unfolding fail_if start_get
  fail_if-IsTidy true e token r h tidy free = (tidy, refl)
  fail_if-IsTidy false e token r h tidy free =
      (start_get-IsTidy token r tidy free (ground arith), refl)

  fail_gets-IsTidy :
      (e : Thrown) (tokens : List String) (r : Receiver)
      → IsTidy r
      → (contains t tokens ≡ true → waits_in r.batches ≡ 0)
      → IsTidy (fail_gets e tokens r)
  unfolding fail_gets contains
  fail_gets-IsTidy e [] r tidy free = tidy
  fail_gets-IsTidy e (token ∷ tokens) r tidy free =
      let (tidy_now, same) =
        fail_if-IsTidy (StringMap.has token r.pending || contains token r.cancelled_before_resolve)
          e token r refl tidy (λ h. free (rw h refl)) in
      fail_gets-IsTidy e tokens _ tidy_now (λ h. same ∙ free (or_right (str_eq token t) h))

  answer_tokens-IsTidy :
      (answer : Result RelayEndpointMap) (tokens : List String) (r : Receiver)
      → IsTidy r
      → (contains t tokens ≡ true → waits_in r.batches ≡ 0)
      → IsTidy (answer_tokens answer tokens r)
  unfolding answer_tokens
  answer_tokens-IsTidy (ok endpoints) tokens r tidy free =
      start_gets-IsTidy endpoints tokens r tidy free
  answer_tokens-IsTidy (err e) tokens r tidy free = elim (Bool-cases (is_expired_placement e)) [
    | inl expired ↦ rw expired tidy
    | inr other ↦ rw other (fail_gets-IsTidy e tokens r tidy free)
  ]

  waits_in-without :
      (batches : List (List String)) (k : ℕ) (tokens : List String)
      → get_elem? batches k ≡ some tokens
      → waits_in batches ≡ (if contains t tokens then 1 else 0) + waits_in (without_at batches k)
  waits_in-without [] k tokens e = cc
  waits_in-without (batch ∷ batches) zero tokens e = let same : batch ≡ tokens = cc in rw same refl
  waits_in-without (batch ∷ batches) (suc k) tokens e =
      omega (arith, waits_in-without batches k tokens e)

  pub answer_batch-IsTidy :
      (k : ℕ) (answer : Result RelayEndpointMap) (r : Receiver) (o : Option (List String))
      → get_elem? r.batches k ≡ o
      → IsTidy r
      → IsTidy (answer_batch k answer r o)
  unfolding answer_batch
  answer_batch-IsTidy k answer r none e tidy = tidy
  answer_batch-IsTidy k answer r (some tokens) e (once, gone) =
      let fewer = waits_in-without r.batches k tokens e in
      answer_tokens-IsTidy answer tokens (record r { batches = without_at r.batches k })
        (omega arith, gone) (λ h. ground (arith, h))
