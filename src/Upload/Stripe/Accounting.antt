-- ===== src/Upload/Stripe/Accounting.antt =====
-- The counters of the upload agree with its workers, in every interleaving.
use c_stateless_relay_tran.Base.{
  ℕ, ◌≤◌, ◌<◌, ◌≡◌, refl, inl, length, get_elem?, Option, some, List, [], ◌∷◌, arith, Thrown,
}
use c_stateless_relay_tran.Upload.Stripe.{
  Job, Worker, polling, admitted, sending, Upload, Event, polls, goes_on, progresses, resolves,
  rejects, total, worker_count, bytes_of, start, step, run, on_poll, on_go_on, on_progress,
  on_resolve, on_reject,
}
use c_stateless_relay_tran.Upload.Stripe.Transitions.{
  IsCounted, poll-IsCounted, go_on-IsCounted, resolve-IsCounted, reject-IsCounted,
  progress-IsCounted,
}
use c_stateless_relay_tran.Upload.Stripe.Workers.{
  tally, returns, start-idle, all_returned, tally-sends-le, bytes-take_all,
}

module _ (job : Job) (u : Upload) (c : IsCounted job u) where
  on_poll-IsCounted :
      (k : ℕ) (o : Option Worker) → get_elem? u.workers k ≡ o → IsCounted job (on_poll job k u o)
  unfolding on_poll
  on_poll-IsCounted k (some polling) e = poll-IsCounted job u k e c
  on_poll-IsCounted k o e = c

  on_go_on-IsCounted :
      (k : ℕ) (o : Option Worker) → get_elem? u.workers k ≡ o → IsCounted job (on_go_on job k u o)
  unfolding on_go_on
  on_go_on-IsCounted k (some admitted) e = go_on-IsCounted job u k e c
  on_go_on-IsCounted k o e = c

  on_progress-IsCounted :
      (k bytes : ℕ) (o : Option Worker) → IsCounted job (on_progress job bytes u o)
  unfolding on_progress
  on_progress-IsCounted k bytes (some (sending index)) = progress-IsCounted job u k index bytes c
  on_progress-IsCounted k bytes o = c

  on_resolve-IsCounted :
      (k : ℕ) (o : Option Worker) → get_elem? u.workers k ≡ o → IsCounted job (on_resolve job k u o)
  unfolding on_resolve
  on_resolve-IsCounted k (some (sending index)) e = resolve-IsCounted job u k index e c
  on_resolve-IsCounted k o e = c

  on_reject-IsCounted :
      (k : ℕ) (cause : Thrown) (o : Option Worker)
      → get_elem? u.workers k ≡ o
      → IsCounted job (on_reject job k cause u o)
  unfolding on_reject
  on_reject-IsCounted k cause (some (sending index)) e = reject-IsCounted job u k index cause e c
  on_reject-IsCounted k cause o e = c

step-IsCounted :
    (job : Job) (u : Upload) (e : Event) → IsCounted job u → IsCounted job (step job u e)
unfolding step
step-IsCounted job u (polls k) c = on_poll-IsCounted job u c k _ refl
step-IsCounted job u (goes_on k) c = on_go_on-IsCounted job u c k _ refl
step-IsCounted job u (progresses k bytes) c = on_progress-IsCounted job u c k bytes _
step-IsCounted job u (resolves k) c = on_resolve-IsCounted job u c k _ refl
step-IsCounted job u (rejects k cause) c = on_reject-IsCounted job u c k cause _ refl

run-IsCounted :
    (job : Job) (es : List Event) (u : Upload) → IsCounted job u → IsCounted job (run job u es)
unfolding run
run-IsCounted job [] u c = c
run-IsCounted job (e ∷ es) u c = run-IsCounted job es (step job u e) (step-IsCounted job u e c)

start-IsCounted : (job : Job) → IsCounted job (start job)
unfolding start
start-IsCounted job =
    let (s, f, h, r, b) = start-idle job (worker_count job) job.entries in
    record {
      staffed = s;
      flying = omega arith;
      taken = omega arith;
      in_range = omega arith;
      exhausted = inl r;
      bytes = omega arith;
    }

-- In every interleaving the counters agree with the workers: `inFlight` is the number of PUTs under
-- way, the entries taken are the completed ones and those that a worker sends or failed on, and
-- `completedBytes` is what those taken amount to, less what the workers hold.
pub run-start-IsCounted : (job : Job) (es : List Event) → IsCounted job (run job (start job) es)
run-start-IsCounted job es = run-IsCounted job es (start job) (start-IsCounted job)

-- The concurrency limit holds in every interleaving: no more PUTs are under way than the maximum,
-- nor than there are blocks.
pub in_flight_limit :
    (job : Job) (es : List Event)
    → ((run job (start job) es).in_flight ≤ job.max_concurrency)
      × ((run job (start job) es).in_flight ≤ total job)
in_flight_limit job es =
    let c = run-start-IsCounted job es in
    omega (arith, tally-sends-le (run job (start job) es).workers)

-- When every worker has returned, with at least one allowed, every block was completed and the
-- completed bytes are those of all blocks.
pub all_returned_complete :
    (job : Job) (es : List Event)
    → 0 < job.max_concurrency
    → tally returns (run job (start job) es).workers ≡ length (run job (start job) es).workers
    → ((run job (start job) es).completed ≡ total job)
      × ((run job (start job) es).completed_bytes ≡ bytes_of job.entries)
      × ((run job (start job) es).in_flight ≡ 0)
all_returned_complete job es allowed h =
    let u = run job (start job) es in
    let c = run-start-IsCounted job es in
    let (s, l, b) = all_returned u.workers job.entries h in
    let whole = bytes-take_all job.entries u.next_index (omega arith) in
    let reached : u.next_index ≡ total job = omega arith in
    (omega arith, omega (arith, c.bytes), omega arith)
