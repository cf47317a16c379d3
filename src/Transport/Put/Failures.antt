-- ===== src/Transport/Put/Failures.antt =====
-- How the failures of a PUT are classified for the retry loop.
use mathlib.Core.Path.{subst}
use c_stateless_relay_tran.Base.{
  ℕ, ◌≡◌, refl, ◌⊎◌, inl, inr, Bool-cases, true, false, String, List, [], ◌∷◌, ◌++◌, err, Thrown,
  error, arith,
}
use c_stateless_relay_tran.Base.Text.{
  concat, includes_ci, any_of_ci, any_of_ci-mem, includes_ci-append_left, includes_ci-append_right,
}
use c_stateless_relay_tran.Resilience.Failure.{is_transient_put_failure, transient_words}
use c_stateless_relay_tran.Policy.WireBlock.{is_not_false}
use c_stateless_relay_tran.Transport.Put.{
  XhrEnd, load, network_error, aborted, put_failed, http_reason, is_ok_status, UploadProgressEvent,
  PutWireBlockBodyOptions, put_body_with_upload_progress_via_xhr,
}

word-transient :
    (before after : List String) (word message : String)
    → before ++ word ∷ after ≡ transient_words
    → includes_ci word message ≡ true
    → is_transient_put_failure (error message) ≡ true
unfolding is_transient_put_failure
word-transient before after word message e h =
    let found : any_of_ci transient_words message ≡ true =
      subst (λ (words : List String). any_of_ci words message ≡ true) e
        (any_of_ci-mem before after word message h) in
    rw found refl

reason-transient :
    (before after : List String) (word url reason : String)
    → before ++ word ∷ after ≡ transient_words
    → includes_ci word (concat (reason ∷ [])) ≡ true
    → is_transient_put_failure (put_failed url reason) ≡ true
unfolding put_failed concat
reason-transient before after word url reason e h = word-transient before after word _ e (
    includes_ci-append_left word "PUT " _
      (includes_ci-append_left word url _ (includes_ci-append_left word " failed: " _ h)))

url-transient :
    (before after : List String) (word url reason : String)
    → before ++ word ∷ after ≡ transient_words
    → includes_ci word url ≡ true
    → is_transient_put_failure (put_failed url reason) ≡ true
unfolding put_failed concat
url-transient before after word url reason e h =
    word-transient before after word _ e
      (includes_ci-append_left word "PUT " _ (includes_ci-append_right word url _ h))

transient-network :
    (url : String) → is_transient_put_failure (put_failed url "network error") ≡ true
unfolding includes_ci concat
transient-network url =
    reason-transient ("failed to fetch" ∷ "networkerror" ∷ "load failed" ∷ [])
      ("timed out" ∷ "timeout" ∷ "aborted" ∷ []) "network" url "network error" refl refl

transient-aborted : (url : String) → is_transient_put_failure (put_failed url "aborted") ≡ true
unfolding includes_ci concat
transient-aborted url =
    reason-transient
      ("failed to fetch" ∷ "networkerror" ∷ "load failed" ∷ "network" ∷ "timed out" ∷ "timeout"
        ∷ [])
      [] "aborted" url "aborted" refl refl

-- A PUT that ends in a network error or an abort is transient, whatever its URL.
pub lost_request_transient :
    (url : String) (body : List ℕ) (options : PutWireBlockBodyOptions)
    (events : List UploadProgressEvent) (end : XhrEnd)
    → (end ≡ network_error) ⊎ (end ≡ aborted)
    → (e : Thrown) × ((put_body_with_upload_progress_via_xhr url body options events end).0 ≡ err e)
      × (is_transient_put_failure e ≡ true)
unfolding put_body_with_upload_progress_via_xhr
lost_request_transient url body options events end h = elim (Bool-cases options.signal_aborted) [
  | inl cancelled ↦ (put_failed url "aborted", ground arith, transient-aborted url)
  | inr live ↦ elim h [
    | inl lost ↦ (put_failed url "network error", ground arith, transient-network url)
    | inr cut ↦ (put_failed url "aborted", ground arith, transient-aborted url)
  ]
]

-- Where the URL contains the word "network", in any case, a PUT that the server refuses with a
-- status that is not 2xx is transient, 4xx included.
pub refused_transient_by_url :
    (url : String) (body : List ℕ) (options : PutWireBlockBodyOptions)
    (events : List UploadProgressEvent) (status : ℕ)
    → includes_ci "network" url ≡ true
    → options.signal_aborted ≡ false
    → is_not_false options.reject_non_ok ≡ true
    → is_ok_status status ≡ false
    → (e : Thrown) × ((put_body_with_upload_progress_via_xhr url body options events
          (load status)).0
        ≡ err e)
      × (is_transient_put_failure e ≡ true)
unfolding put_body_with_upload_progress_via_xhr
refused_transient_by_url url body options events status named live checked refused = (
  put_failed url (http_reason status),
  ground arith,
  url-transient ("failed to fetch" ∷ "networkerror" ∷ "load failed" ∷ [])
      ("timed out" ∷ "timeout" ∷ "aborted" ∷ []) "network" url (http_reason status) refl named,
)
