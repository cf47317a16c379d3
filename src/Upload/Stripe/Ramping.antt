-- ===== src/Upload/Stripe/Ramping.antt =====
-- How many PUTs are under way when all workers have gone on for the first time.
use c_stateless_relay_tran.Base.{
  ℕ, zero, suc, ◌+◌, ◌≤◌, ◌<◌, ◌≡◌, refl, ap, ◌∙◌, true, get_elem?, String, Option, none, some,
  List, [], ◌∷◌, arith,
}
use c_stateless_relay_tran.Resilience.Ramp.{resolve_ramped_stripe_concurrency}
use c_stateless_relay_tran.Upload.Stripe.{
  Job, admitted, sending, Upload, Event, goes_on, worker_count, looked, slot_limit, start, step,
  run, on_go_on, take_entry, start_workers,
}
use c_stateless_relay_tran.Upload.Stripe.Order.{AllRouted}
use c_stateless_relay_tran.Upload.Stripe.Workers.{get-set_worker_ne, entry_missing}

-- The workers i, i + 1, … go on, n of them.
abbrev pub go_on_from : ℕ → ℕ → List Event
go_on_from i zero = []
go_on_from i (suc n) = goes_on i ∷ go_on_from (suc i) n

-- The first i workers have gone on, and the others are still let through.
record IsUnderWay (job : Job) (i : ℕ) (u : Upload) : Type 0 where
  index : u.next_index ≡ i
  flying : u.in_flight ≡ i
  fresh : u.completed ≡ 0
  waiting : (j : ℕ) → i ≤ j → j < worker_count job → get_elem? u.workers j ≡ some admitted

looked_first : (job : Job) → 0 < job.max_concurrency → looked job 0 0 ≡ admitted
unfolding resolve_ramped_stripe_concurrency
looked_first job allowed = ground arith

first_limit :
    (job : Job) → job.ramp_concurrency ≡ true → 0 < job.max_concurrency → slot_limit job 0 ≡ 1
unfolding resolve_ramped_stripe_concurrency
first_limit job ramp allowed = ground arith

start_admitted :
    (job : Job) (n j : ℕ)
    → 0 < job.max_concurrency
    → j < n
    → get_elem? (start_workers job n) j ≡ some admitted
unfolding start_workers
start_admitted job zero j allowed h = elim h [ ]
start_admitted job (suc n) zero allowed h = ap some (looked_first job allowed)
start_admitted job (suc n) (suc j) allowed h = start_admitted job n j allowed (omega arith)

start-IsUnderWay : (job : Job) → 0 < job.max_concurrency → IsUnderWay job 0 (start job)
unfolding start
start-IsUnderWay job allowed = record {
  index = refl;
  flying = refl;
  fresh = refl;
  waiting = λ j _ h. start_admitted job (worker_count job) j allowed h;
}

take-IsUnderWay :
    (job : Job) (u : Upload) (i : ℕ) (o : Option (String × List ℕ))
    → AllRouted job
    → i < worker_count job
    → IsUnderWay job i u
    → get_elem? job.entries u.next_index ≡ o
    → IsUnderWay job (suc i) (take_entry job i u o)
unfolding take_entry
take-IsUnderWay job u i none routed h w e =
    absurd (omega (arith, entry_missing job.entries u.next_index e, w.index))
take-IsUnderWay job u i (some (token, blob)) routed h w e =
    let (endpoint, found) = routed u.next_index token blob e in
    rw (found, take_entry)
      (record {
        index = ap suc w.index;
        flying = ap suc w.flying;
        fresh = w.fresh;
        waiting = λ j later there.
            get-set_worker_ne u.workers i j (sending u.next_index) (omega arith)
            ∙ w.waiting j (omega arith) there;
      })

go_on-IsUnderWay :
    (job : Job) (u : Upload) (i : ℕ)
    → AllRouted job
    → i < worker_count job
    → IsUnderWay job i u
    → IsUnderWay job (suc i) (step job u (goes_on i))
unfolding step
go_on-IsUnderWay job u i routed h w =
    let at : get_elem? u.workers i ≡ some admitted = w.waiting i (omega arith) h in
    rw at (unfold on_go_on in take-IsUnderWay job u i _ routed h w refl)

run-IsUnderWay :
    (job : Job) (n i : ℕ) (u : Upload)
    → AllRouted job
    → i + n ≤ worker_count job
    → IsUnderWay job i u
    → (run job u (go_on_from i n)).in_flight ≡ i + n
unfolding run
run-IsUnderWay job zero i u routed h w = omega (arith, w.flying)
run-IsUnderWay job (suc n) i u routed h w =
    let w' = go_on-IsUnderWay job u i routed (omega arith) w in
    let rest = run-IsUnderWay job n (suc i) (step job u (goes_on i)) routed (omega arith) w' in
    omega (arith, rest)

-- With the staged ramp on, all workers are let through before the first of them counts itself as in
-- flight: when they have gone on, as many PUTs are under way as there are workers, though none has
-- completed and the ramp allows one.
pub ramp_overrun :
    (job : Job)
    → AllRouted job
    → job.ramp_concurrency ≡ true
    → 0 < job.max_concurrency
    → (slot_limit job 0 ≡ 1)
      × ((run job (start job) (go_on_from 0 (worker_count job))).in_flight ≡ worker_count job)
ramp_overrun job routed ramp allowed = (
  first_limit job ramp allowed,
  omega (
    arith,
    run-IsUnderWay job (worker_count job) 0 (start job) routed (omega arith)
        (start-IsUnderWay job allowed),
  ),
)
