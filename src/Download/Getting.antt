-- ===== src/Download/Getting.antt =====
-- FetchReceiveTransport.get of client/transfer/src/transport/fetch-receive-transport.ts: the loop that
-- waits for one token. The world holds the transport and what goes on beside the loop; the parameters
-- say whether the token is cancelled, what awaiting its start comes to, and what awaiting its entry
-- comes to, if there is one. The delays are slept in the world.
use c_stateless_relay_tran.Base.{
  ℕ, zero, suc, ◌+◌, ◌≤◌, ◌<◌, ◌≡◌, refl, ◌||◌, leb, min, Bool, false, if◌then◌else◌, String,
  Option, none, some, List, [], ◌∷◌, Result, ok, err, Thrown, error, arith, Bool-cases, inl, inr,
}
use c_stateless_relay_tran.Base.Text.{codes, includes, concat}
use c_stateless_relay_tran.Resilience.Failure.{message_of}
use c_stateless_relay_tran.Resilience.Retry.{backoff_delay_ms}
use c_stateless_relay_tran.Download.Receiver.{is_expired_placement}

abbrev transient_words : List String
transient_words =
    "HTTP 404" ∷ "HTTP 503" ∷ "HTTP 502" ∷ "HTTP 429" ∷ "failed on all targets" ∷ "fetch failed"
    ∷ "network" ∷ []

abbrev includes_any : List String → List ℕ → Bool
includes_any [] message = false
includes_any (word ∷ words) message = includes (codes word) message || includes_any words message

is_transient_message : Option String → Bool
unfolding includes
is_transient_message none = false
is_transient_message (some message) = includes_any transient_words (codes message)

-- isTransientDownloadError
unfoldable pub is_transient_download_error : Thrown → Bool
unfolding is_transient_message message_of
is_transient_download_error e =
    if is_expired_placement e then false else is_transient_message (message_of e)

unfoldable pub download_cancelled : String → Thrown
unfolding concat
download_cancelled token = error (concat ("download cancelled for token: " ∷ token ∷ []))

unfoldable pub no_endpoint : String → Thrown
unfolding concat
no_endpoint token = error (
    concat (
      "no relay endpoint resolved for token: " ∷ token
      ∷ " (credential may be wrong, sender has not started upload, or placement expired)" ∷ []))

module _ {W : Type 0} (token : String) (is_cancelled : W → Bool) (start : W → Result (Unit {0}) × W)
    (await_entry : W → Option (Result (List ℕ)) × W) (sleep : ℕ → W → W)
    (resolve_max_attempts get_max_attempts resolve_retry_delay_ms : ℕ) where
  abbrev pub Answer : Type 0
  Answer = Option (Result (List ℕ) × W)

  -- What `get` does with the entry; `again` is the loop from the next round on.
  after_entry : (ℕ → ℕ → W → Answer) → ℕ → ℕ → Option (Result (List ℕ)) → W → Answer
  unfolding no_endpoint is_transient_download_error backoff_delay_ms
  after_entry again registry relay (some (ok block)) w = some (ok block, w)
  after_entry again registry relay (some (err e)) w =
      let next =
        again registry (suc relay)
          (sleep (min 5000 (backoff_delay_ms resolve_retry_delay_ms (suc relay))) w) in
      if is_transient_download_error e
      then (if leb get_max_attempts (suc relay) then some (err e, w) else next)
      else some (err e, w)
  after_entry again registry relay none w =
      let next =
        again (suc registry) relay (sleep (min 5000 (backoff_delay_ms 2000 (suc registry))) w) in
      if leb resolve_max_attempts (suc registry) then some (err (no_endpoint token), w) else next

  after_start : (ℕ → ℕ → W → Answer) → ℕ → ℕ → Result (Unit {0}) × W → Answer
  unfolding after_entry download_cancelled
  after_start again registry relay (err e, w) = some (err e, w)
  after_start again registry relay (ok started, w) =
      let (entry, after) = await_entry w in
      let rest = after_entry again registry relay entry after in
      if is_cancelled w then some (err (download_cancelled token), w) else rest

  -- while (true), on fuel; none means that it ran out.
  unfoldable pub get_from : ℕ → ℕ → ℕ → W → Answer
  unfolding after_start download_cancelled
  get_from zero registry relay w = none
  get_from (suc fuel) registry relay w =
      let rest = after_start (get_from fuel) registry relay (start w) in
      if is_cancelled w then some (err (download_cancelled token), w) else rest

  -- FetchReceiveTransport.get
  unfoldable pub get : W → Answer
  unfolding get_from
  get w = get_from (suc (resolve_max_attempts + get_max_attempts)) 0 0 w

  abbrev pub Ends : Answer → Type 0
  Ends answer = (result : Result (List ℕ)) × (w : W) × (answer ≡ some (result, w))

  entry-Ends :
      (again : ℕ → ℕ → W → Answer) (registry relay : ℕ) (entry : Option (Result (List ℕ))) (w : W)
      → ((w : W) → suc registry < resolve_max_attempts → Ends (again (suc registry) relay w))
      → ((w : W) → suc relay < get_max_attempts → Ends (again registry (suc relay) w))
      → Ends (after_entry again registry relay entry w)
  unfolding after_entry
  entry-Ends again registry relay (some (ok block)) w by_registry by_relay = (ok block, w, refl)
  entry-Ends again registry relay (some (err e)) w by_registry by_relay =
      elim (Bool-cases (is_transient_download_error e)) [
        | inr final ↦ rw final (err e, w, refl)
        | inl transient ↦ elim (Bool-cases (leb get_max_attempts (suc relay))) [
          | inl enough ↦ rw (transient, enough) (err e, w, refl)
          | inr more ↦ rw (transient, more) (by_relay _ (ground arith))
        ]
      ]
  entry-Ends again registry relay none w by_registry by_relay =
      elim (Bool-cases (leb resolve_max_attempts (suc registry))) [
        | inl enough ↦ rw enough (err (no_endpoint token), w, refl)
        | inr more ↦ rw more (by_registry _ (ground arith))
      ]

  start-Ends :
      (again : ℕ → ℕ → W → Answer) (registry relay : ℕ) (started : Result (Unit {0}) × W)
      → ((w : W) → suc registry < resolve_max_attempts → Ends (again (suc registry) relay w))
      → ((w : W) → suc relay < get_max_attempts → Ends (again registry (suc relay) w))
      → Ends (after_start again registry relay started)
  unfolding after_start
  start-Ends again registry relay (err e, w) by_registry by_relay = (err e, w, refl)
  start-Ends again registry relay (ok started, w) by_registry by_relay =
      elim (Bool-cases (is_cancelled w)) [
        | inl gone ↦ rw gone (err (download_cancelled token), w, refl)
        | inr alive ↦ rw alive (
            entry-Ends again registry relay (await_entry w).0 (await_entry w).1 by_registry
              by_relay)
      ]

  get_from-Ends :
      (fuel registry relay : ℕ) (w : W)
      → registry ≤ resolve_max_attempts
      → relay ≤ get_max_attempts
      → resolve_max_attempts + get_max_attempts < registry + relay + fuel
      → Ends (get_from fuel registry relay w)
  unfolding get_from
  get_from-Ends zero registry relay w le_registry le_relay enough = absurd (omega arith)
  get_from-Ends (suc fuel) registry relay w le_registry le_relay enough =
      elim (Bool-cases (is_cancelled w)) [
        | inl gone ↦ rw gone (err (download_cancelled token), w, refl)
        | inr alive ↦ rw alive (
            start-Ends (get_from fuel) registry relay (start w)
              (λ v more.
                get_from-Ends fuel (suc registry) relay v (omega arith) le_relay (omega arith))
              (λ v more.
                get_from-Ends fuel registry (suc relay) v le_registry (omega arith) (omega arith)))
      ]

  -- Whatever goes on beside it, waiting for a token ends, with the block or with what is thrown: there
  -- are at most as many rounds as there are attempts to resolve and to GET together, and one more.
  pub get-Ends : (w : W) → Ends (get w)
  unfolding get
  get-Ends w =
      get_from-Ends (suc (resolve_max_attempts + get_max_attempts)) 0 0 w (omega arith)
        (omega arith) (omega arith)
