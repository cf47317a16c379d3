-- ===== src/Upload/Session/Concurrency.antt =====
-- How many workers an upload starts, and what follows when it starts none.
use c_stateless_relay_tran.Base.{
  ℕ, zero, suc, ◌<◌, ◌≡◌, ◌≢◌, refl, ap, ◌∙◌, get_elem?, Option, none, some, List, [], ◌∷◌, length,
  arith,
}
use c_stateless_relay_tran.Policy.Environment.{Environment}
use c_stateless_relay_tran.Resilience.Ramp.{RelayHopProtocol}
use c_stateless_relay_tran.Upload.Blocks.{UploadMap}
use c_stateless_relay_tran.Upload.Registration.{UploadRoutePlan}
use c_stateless_relay_tran.Upload.Session.{
  UploadSessionOptions, resolve_primary_put_concurrency, stripe_job,
}
use c_stateless_relay_tran.Upload.Stripe.{
  Job, Event, Upload, polls, goes_on, progresses, resolves, rejects, step, on_poll, on_go_on,
  on_progress, on_resolve, on_reject, run, start, bytes_of, worker_count, start_workers,
}
use c_stateless_relay_tran.Upload.Stripe.Workers.{tally, returns}
use c_stateless_relay_tran.Upload.Stripe.Accounting.{all_returned_complete}

staffed :
    (env : Environment) (total_blocks : ℕ) (explicit : Option ℕ) (hop_protocol : RelayHopProtocol)
    → 0 < total_blocks
    → explicit ≢ some 0
    → 0 < resolve_primary_put_concurrency env total_blocks explicit hop_protocol
unfolding resolve_primary_put_concurrency
staffed env total_blocks (some zero) hop_protocol p h = absurd (h refl)
staffed env total_blocks (some (suc n)) hop_protocol p h = omega arith
staffed env total_blocks none hop_protocol p h = ground arith

-- An upload of some blocks whose concurrency is not given, or is positive, starts a worker.
stripe_job_staffed :
    (env : Environment) (uploads : UploadMap) (options : UploadSessionOptions)
    (plan : UploadRoutePlan) (hop_protocol : RelayHopProtocol)
    → 0 < length uploads
    → options.concurrency ≢ some 0
    → 0 < (stripe_job env uploads options plan hop_protocol).max_concurrency
unfolding stripe_job resolve_primary_put_concurrency
stripe_job_staffed env uploads options plan hop_protocol some_blocks h =
    staffed env (length uploads) options.concurrency hop_protocol some_blocks h

-- For an upload of some blocks whose concurrency is not given, or is positive: in every interleaving,
-- once all its workers have returned, all its blocks were sent, with all their bytes.
pub upload_sends_all :
    (env : Environment) (uploads : UploadMap) (options : UploadSessionOptions)
    (plan : UploadRoutePlan) (hop_protocol : RelayHopProtocol) (es : List Event)
    → 0 < length uploads
    → options.concurrency ≢ some 0
    → tally returns
        (run
          (stripe_job env uploads options plan hop_protocol)
          (start (stripe_job env uploads options plan hop_protocol))
          es).workers
      ≡ length
          (run
            (stripe_job env uploads options plan hop_protocol)
            (start (stripe_job env uploads options plan hop_protocol))
            es).workers
    → ((run
          (stripe_job env uploads options plan hop_protocol)
          (start (stripe_job env uploads options plan hop_protocol))
          es).completed
        ≡ length uploads)
      × ((run
            (stripe_job env uploads options plan hop_protocol)
            (start (stripe_job env uploads options plan hop_protocol))
            es).completed_bytes
          ≡ bytes_of uploads)
unfolding stripe_job
upload_sends_all env uploads options plan hop_protocol es some_blocks h finished =
    let (c, b, f) =
      all_returned_complete (stripe_job env uploads options plan hop_protocol) es
        (stripe_job_staffed env uploads options plan hop_protocol some_blocks h) finished in
    (c, b)

none_there {ℓ} : {A : Type ℓ} (xs : List A) (k : ℕ) → xs ≡ [] → get_elem? xs k ≡ none
none_there xs k h = rw h refl

idle_step : (job : Job) (u : Upload) (e : Event) → u.workers ≡ [] → step job u e ≡ u
unfolding step on_poll on_go_on on_progress on_resolve on_reject
idle_step job u (polls k) h = ap (on_poll job k u) (none_there u.workers k h)
idle_step job u (goes_on k) h = ap (on_go_on job k u) (none_there u.workers k h)
idle_step job u (progresses k bytes) h = ap (on_progress job bytes u) (none_there u.workers k h)
idle_step job u (resolves k) h = ap (on_resolve job k u) (none_there u.workers k h)
idle_step job u (rejects k cause) h = ap (on_reject job k cause u) (none_there u.workers k h)

idle_run : (job : Job) (es : List Event) (u : Upload) → u.workers ≡ [] → run job u es ≡ u
unfolding run
idle_run job [] u h = refl
idle_run job (e ∷ es) u h = ap (λ v. run job v es) (idle_step job u e h) ∙ idle_run job es u h

no_workers : (job : Job) → job.max_concurrency ≡ 0 → (start job).workers ≡ []
unfolding start start_workers
no_workers job h =
    let none_started : worker_count job ≡ 0 = omega arith in ap (start_workers job) none_started

not_begun : (job : Job) → (start job).completed ≡ 0
unfolding start
not_begun job = refl

zero_concurrency :
    (env : Environment) (uploads : UploadMap) (options : UploadSessionOptions)
    (plan : UploadRoutePlan) (hop_protocol : RelayHopProtocol)
    → options.concurrency ≡ some 0
    → (stripe_job env uploads options plan hop_protocol).max_concurrency ≡ 0
unfolding stripe_job resolve_primary_put_concurrency
zero_concurrency env uploads options plan hop_protocol h = rw h refl

-- With a concurrency of zero there is no worker to wait for, and no block is completed.
pub no_worker_no_upload :
    (env : Environment) (uploads : UploadMap) (options : UploadSessionOptions)
    (plan : UploadRoutePlan) (hop_protocol : RelayHopProtocol) (es : List Event)
    → options.concurrency ≡ some 0
    → ((run
          (stripe_job env uploads options plan hop_protocol)
          (start (stripe_job env uploads options plan hop_protocol))
          es).workers
        ≡ [])
      × ((run
            (stripe_job env uploads options plan hop_protocol)
            (start (stripe_job env uploads options plan hop_protocol))
            es).completed
          ≡ 0)
no_worker_no_upload env uploads options plan hop_protocol es h =
    let job = stripe_job env uploads options plan hop_protocol in
    let none_started = no_workers job (zero_concurrency env uploads options plan hop_protocol h) in
    let still = idle_run job es (start job) none_started in rw still (none_started, not_begun job)
