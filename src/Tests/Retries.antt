-- ===== src/Tests/Retries.antt =====
-- The retry loop, the fallbacks and the classification of failures at concrete inputs.
use c_stateless_relay_tran.Base.{
  ℕ, zero, suc, ◌+◌, ◌<◌, ◌≡◌, ◌++◌, refl, true, false, String, Option, none, some, List, [], ◌∷◌,
  Result, ok, err, Thrown, error, type_error, retry_exhausted, arith,
}
use c_stateless_relay_tran.Base.Text.{includes_ci}
use c_stateless_relay_tran.Registry.Records.{
  Headers, Target, RelayEndpoint, RelayRegistryRecord, primary, replica,
}
use c_stateless_relay_tran.Resilience.Failure.{is_transient_put_failure}
use c_stateless_relay_tran.Resilience.Retry.{PutRetryPolicy, put_with_retry, backoff_delay_ms}
use c_stateless_relay_tran.Resilience.Retry.Attempts.{
  Fails, Settles, delays, world_after, retry-Ends, permanent_failure,
}
use c_stateless_relay_tran.Resilience.Fallbacks.{
  Response, candidates, get_with_fallbacks, read_response,
}
use c_stateless_relay_tran.Resilience.Fallbacks.Order
use c_stateless_relay_tran.Resilience.Fallbacks.Order.{
  get_with_fallbacks-Ends, candidates-download_endpoint,
}
use c_stateless_relay_tran.Transport.Put.{
  put_body_with_upload_progress_via_xhr, PutWireBlockBodyOptions, load,
}
use c_stateless_relay_tran.Transport.Put.Failures.{refused_transient_by_url}

abbrev twice : PutRetryPolicy
twice = record { max_attempts = 2; base_delay_ms = 2000; transient_max_attempts = some 3 }

-- The world counts the PUTs; the first one is lost.
abbrev flaky : ℕ → Result (Unit {0}) × ℕ
flaky zero = (err (type_error "Failed to fetch"), 1)
flaky (suc n) = (ok tt, suc (suc n))

retry-Ends_example :
    (n : ℕ) × (r : Result (Unit {0})) × (n < 3)
    × Fails flaky twice 1 n 0
    × Settles flaky twice (1 + n) (world_after flaky twice n 0) r
    × (put_with_retry flaky twice 3 0
        ≡ some (record {
          result = r;
          world = world_after flaky twice (suc n) 0;
          slept = delays flaky twice 1 n;
        }))
retry-Ends_example = retry-Ends flaky twice 3 0 (omega arith) (omega arith)

flaky_put :
    put_with_retry flaky twice 3 0 ≡ some (record { result = ok tt; world = 2; slept = 2000 ∷ [] })
unfolding put_with_retry is_transient_put_failure backoff_delay_ms
flaky_put = refl

abbrev forbidden : ℕ → Result (Unit {0}) × ℕ
forbidden n = (err (error "PUT u failed: HTTP 403"), suc n)

permanent_failure_example :
    put_with_retry forbidden twice 3 0
    ≡ some (record {
      result = err (retry_exhausted 2 (error "PUT u failed: HTTP 403"));
      world = 2;
      slept = delays forbidden twice 1 1;
    })
unfolding is_transient_put_failure
permanent_failure_example =
    permanent_failure forbidden twice 3 0 (error "PUT u failed: HTTP 403") (omega arith)
      (omega arith) (λ k. refl) refl

abbrev checked : PutWireBlockBodyOptions
checked = record { reject_non_ok = none; signal_aborted = false; force_fetch_put_fallback = false }

refused_transient_by_url_example :
    (e : Thrown) × ((put_body_with_upload_progress_via_xhr "https://my-Network.example/t"
        (1 ∷ [])
        checked
        []
        (load 403)).0
      ≡ err e)
    × (is_transient_put_failure e ≡ true)
unfolding includes_ci
refused_transient_by_url_example =
    refused_transient_by_url "https://my-Network.example/t" (1 ∷ []) checked [] 403 refl refl refl
      refl

abbrev two_targets : RelayRegistryRecord
two_targets = record {
  targets =
      record { role = replica; relay_id = "b"; relay_base_url = "https://b/" }
      ∷ record { role = primary; relay_id = "a"; relay_base_url = "https://a" }
      ∷ [];
  headers = none;
  resolve_status = none;
}

abbrev b_then_a : RelayEndpoint
b_then_a = record {
  url = "https://b/t%20";
  headers = some [];
  fallbacks = some (record { url = "https://a/t%20"; headers = some [] } ∷ []);
}

-- The world counts the requests: the first is refused, the second answered.
abbrev second_answers : String → Option Headers → ℕ → Result Response × ℕ
second_answers url headers zero = (ok (record { status = 404; body = ok [] }), 1)
second_answers url headers (suc n) = (ok (record { status = 200; body = ok (7 ∷ []) }), suc (suc n))

get_with_fallbacks-Ends_example :
    (tried : List Target) × (rest : List Target) × (candidates b_then_a ≡ tried ++ rest)
    × Order.Failing second_answers (λ _. false) "t " (some []) true tried 0
    × Order.Ends second_answers
        (λ _. false)
        "t "
        (some [])
        true
        none
        tried
        rest
        0
        (get_with_fallbacks second_answers (λ _. false) "t " b_then_a true 0)
get_with_fallbacks-Ends_example =
    get_with_fallbacks-Ends second_answers (λ _. false) "t " b_then_a true 0

falls_back : get_with_fallbacks second_answers (λ _. false) "t " b_then_a true 0 ≡ (ok (7 ∷ []), 2)
unfolding get_with_fallbacks read_response
falls_back = refl
