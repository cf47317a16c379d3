-- ===== src/Download/Receiver/Arrivals.antt =====
-- The bytes that the receive transport counts as received, and the entries that it makes.
use c_stateless_relay_tran.Base.{
  ℕ, zero, suc, ◌≡◌, ap, sym, ◌∙◌, Bool, true, false, ◌||◌, String, Option, none, some, List, [],
  ◌∷◌, ◌++◌, length, get_elem?, Result, ok, err, Thrown, Bool-cases, inl, inr, str_eq-cases,
}
use c_stateless_relay_tran.Base.StringMap
use c_stateless_relay_tran.Base.StringMap.{StringMap, get-set, get-delete}
use c_stateless_relay_tran.Base.StringSet.{contains}
use c_stateless_relay_tran.Registry.Records.{RelayEndpoint, RelayEndpointMap}
use c_stateless_relay_tran.Download.Receiver.{
  Fetch, running, arrived, PendingGet, Receiver, start_get, start_if, start_gets, fail_if,
  fail_gets, is_expired_placement, answer_tokens, without_at, answer_batch, with_promise,
}

-- What has arrived stays as it is.
abbrev pub Later : List PendingGet → List PendingGet → Type 0
Later before after =
    (k : ℕ) (g : PendingGet) (block : List ℕ)
    → get_elem? before k ≡ some g
    → g.promise ≡ arrived block
    → get_elem? after k ≡ some g

append-Later : (gets more : List PendingGet) → Later gets (gets ++ more)
append-Later [] more k g block e p = cc
append-Later (h ∷ gets) more zero g block e p = e
append-Later (h ∷ gets) more (suc k) g block e p = append-Later gets more k g block e p

was_running :
    {A : Type 0} (block : List ℕ) (promise : Fetch)
    → promise ≡ running
    → promise ≡ arrived block
    → A
was_running block promise e p = let no = sym e ∙ p in cc

pub promise-Later :
    (gets : List PendingGet) (k : ℕ) (promise : Fetch) (g : PendingGet)
    → get_elem? gets k ≡ some g
    → g.promise ≡ running
    → Later gets (with_promise k promise gets)
promise-Later [] k promise g e run j h block f p = cc
promise-Later (x ∷ gets) zero promise g e run zero h block f p =
    let same : x ≡ g = cc in
    let there : x ≡ h = cc in
    was_running block g.promise run (ap (λ (y : PendingGet). y.promise) (sym same ∙ there) ∙ p)
promise-Later (x ∷ gets) zero promise g e run (suc j) h block f p = f
promise-Later (x ∷ gets) (suc k) promise g e run zero h block f p = f
promise-Later (x ∷ gets) (suc k) promise g e run (suc j) h block f p =
    promise-Later gets k promise g e run j h block f p

pub promise-here :
    (gets : List PendingGet) (k : ℕ) (promise : Fetch) (g : PendingGet)
    → get_elem? gets k ≡ some g
    → get_elem? (with_promise k promise gets) k ≡ some (record g { promise = promise })
promise-here [] k promise g e = cc
promise-here (x ∷ gets) zero promise g e =
    let same : x ≡ g = cc in ap (λ (y : PendingGet). some (record y { promise = promise })) same
promise-here (x ∷ gets) (suc k) promise g e = promise-here gets k promise g e

module _ (t : String) where
  -- A block of n bytes has arrived for the token.
  abbrev pub HasArrived : ℕ → List PendingGet → Type 0
  HasArrived n gets =
      (k : ℕ) × (g : PendingGet) × (block : List ℕ) × (get_elem? gets k ≡ some g)
      × (g.token ≡ t)
      × (g.promise ≡ arrived block)
      × (n ≡ length block)

  abbrev pub Counts : StringMap ℕ → List PendingGet → Type 0
  Counts buffered gets = (n : ℕ) → StringMap.get t buffered ≡ some n → HasArrived n gets

  abbrev pub IsCounted : Receiver → Type 0
  IsCounted r = Counts r.buffered_received_bytes r.gets

  pub keeps-Counts :
      (buffered after : StringMap ℕ) (gets more : List PendingGet)
      → ((n : ℕ) → StringMap.get t after ≡ some n → StringMap.get t buffered ≡ some n)
      → Later gets more
      → Counts buffered gets
      → Counts after more
  keeps-Counts buffered after gets more less later counted n h =
      let (k, g, block, there, made, got, sized) = counted n (less n h) in
      (k, g, block, later k g block there got, made, got, sized)

  delete-less :
      (token : String) (m : StringMap ℕ) (n : ℕ)
      → StringMap.get t (StringMap.delete token m) ≡ some n
      → StringMap.get t m ≡ some n
  delete-less token m n h =
      let d = get-delete token t m in
      elim (str_eq-cases token t) [
        | inl (e, same) ↦ let gone = rw e at d in let no = sym gone ∙ h in cc
        | inr (e, other) ↦ let still = rw e at d in sym still ∙ h
      ]

  same-Later : (gets : List PendingGet) → Later gets gets
  same-Later gets k g block e p = e

  start_if-IsCounted :
      (b : Bool) (token : String) (endpoint : Option RelayEndpoint) (r : Receiver)
      → IsCounted r
      → IsCounted (start_if b token endpoint r)
  unfolding start_if start_get
  start_if-IsCounted true token endpoint r counted = counted
  start_if-IsCounted false token none r counted = counted
  start_if-IsCounted false token (some endpoint) r counted =
      keeps-Counts r.buffered_received_bytes _ r.gets _
        (delete-less token r.buffered_received_bytes) (append-Later r.gets _) counted

  start_gets-IsCounted :
      (endpoints : RelayEndpointMap) (tokens : List String) (r : Receiver)
      → IsCounted r
      → IsCounted (start_gets endpoints tokens r)
  unfolding start_gets
  start_gets-IsCounted endpoints [] r counted = counted
  start_gets-IsCounted endpoints (token ∷ tokens) r counted =
      start_gets-IsCounted endpoints tokens
        (start_if (StringMap.has token r.pending || contains token r.cancelled_before_resolve) token
          (StringMap.get token endpoints) r)
        (start_if-IsCounted _ token (StringMap.get token endpoints) r counted)

  fail_if-IsCounted :
      (b : Bool) (e : Thrown) (token : String) (r : Receiver)
      → IsCounted r
      → IsCounted (fail_if b e token r)
  unfolding fail_if
  fail_if-IsCounted true e token r counted = counted
  fail_if-IsCounted false e token r counted =
      keeps-Counts r.buffered_received_bytes _ r.gets _ (λ n h. h) (append-Later r.gets _) counted

  fail_gets-IsCounted :
      (e : Thrown) (tokens : List String) (r : Receiver)
      → IsCounted r
      → IsCounted (fail_gets e tokens r)
  unfolding fail_gets
  fail_gets-IsCounted e [] r counted = counted
  fail_gets-IsCounted e (token ∷ tokens) r counted =
      fail_gets-IsCounted e tokens
        (fail_if (StringMap.has token r.pending || contains token r.cancelled_before_resolve) e
          token r)
        (fail_if-IsCounted _ e token r counted)

  pub answer-IsCounted :
      (k : ℕ) (answer : Result RelayEndpointMap) (r : Receiver) (o : Option (List String))
      → IsCounted r
      → IsCounted (answer_batch k answer r o)
  unfolding answer_batch answer_tokens
  answer-IsCounted k answer r none counted = counted
  answer-IsCounted k (ok endpoints) r (some tokens) counted =
      start_gets-IsCounted endpoints tokens (record r { batches = without_at r.batches k }) counted
  answer-IsCounted k (err e) r (some tokens) counted = elim (Bool-cases (is_expired_placement e)) [
    | inl expired ↦ rw expired counted
    | inr other ↦
        rw other
          (fail_gets-IsCounted e tokens (record r { batches = without_at r.batches k }) counted)
  ]

  pub drop-Counts :
      (token : String) (r : Receiver)
      → IsCounted r
      → Counts (StringMap.delete token r.buffered_received_bytes) r.gets
  drop-Counts token r counted =
      keeps-Counts r.buffered_received_bytes _ r.gets _
        (delete-less token r.buffered_received_bytes) (same-Later r.gets) counted
