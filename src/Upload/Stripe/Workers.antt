-- ===== src/Upload/Stripe/Workers.antt =====
-- Sums over the list of workers, and how a change of one worker changes them.
use c_stateless_relay_tran.Base.{
  ℕ, zero, suc, ◌+◌, ◌≤◌, ◌≡◌, refl, length, get_elem?, take, String, none, some, List, [], ◌∷◌,
  arith, ap, ◌≢◌,
}
use c_stateless_relay_tran.Upload.Stripe.{
  Job, Worker, returned, sending, threw, set_worker, looked, start_workers, bytes_of,
}

abbrev pub tally : (Worker → ℕ) → List Worker → ℕ
tally f [] = 0
tally f (w ∷ ws) = f w + tally f ws

abbrev pub sends : Worker → ℕ
sends (sending i) = 1
sends _ = 0

abbrev pub holds : Worker → ℕ
holds (sending i) = 1
holds (threw i e) = 1
holds _ = 0

abbrev pub returns : Worker → ℕ
returns returned = 1
returns _ = 0

abbrev pub size_at : List (String × List ℕ) → ℕ → ℕ
size_at [] i = 0
size_at ((_, blob) ∷ entries) zero = length blob
size_at (_ ∷ entries) (suc i) = size_at entries i

-- The bytes of the entry that a worker has taken.
abbrev pub held : List (String × List ℕ) → Worker → ℕ
held entries (sending i) = size_at entries i
held entries (threw i e) = size_at entries i
held entries _ = 0

pub tally-set :
    (f : Worker → ℕ) (ws : List Worker) (k : ℕ) (old new : Worker)
    → get_elem? ws k ≡ some old
    → tally f (set_worker ws k new) + f old ≡ tally f ws + f new
unfolding set_worker
tally-set f [] k old new h = cc
tally-set f (w ∷ ws) zero old new h = let same : w ≡ old = cc in rw same (omega arith)
tally-set f (w ∷ ws) (suc k) old new h = omega (arith, tally-set f ws k old new h)

pub length-set_worker :
    (ws : List Worker) (k : ℕ) (w : Worker) → length (set_worker ws k w) ≡ length ws
unfolding set_worker
length-set_worker [] k w = refl
length-set_worker (v ∷ ws) zero w = refl
length-set_worker (v ∷ ws) (suc k) w = omega (arith, length-set_worker ws k w)

pub get-set_worker_ne :
    (ws : List Worker) (k j : ℕ) (w : Worker)
    → k ≢ j
    → get_elem? (set_worker ws k w) j ≡ get_elem? ws j
unfolding set_worker
get-set_worker_ne [] k j w h = refl
get-set_worker_ne (v ∷ ws) zero zero w h = absurd (h refl)
get-set_worker_ne (v ∷ ws) zero (suc j) w h = refl
get-set_worker_ne (v ∷ ws) (suc k) zero w h = refl
get-set_worker_ne (v ∷ ws) (suc k) (suc j) w h = get-set_worker_ne ws k j w (λ e. h (ap suc e))

-- A worker that looks for a slot holds nothing.
pub looked-idle :
    (job : Job) (in_flight completed : ℕ) (entries : List (String × List ℕ))
    → (sends (looked job in_flight completed) ≡ 0)
      × (holds (looked job in_flight completed) ≡ 0)
      × (returns (looked job in_flight completed) ≡ 0)
      × (held entries (looked job in_flight completed) ≡ 0)
looked-idle job in_flight completed entries = ground arith

pub start-idle :
    (job : Job) (n : ℕ) (entries : List (String × List ℕ))
    → (length (start_workers job n) ≡ n)
      × (tally sends (start_workers job n) ≡ 0)
      × (tally holds (start_workers job n) ≡ 0)
      × (tally returns (start_workers job n) ≡ 0)
      × (tally (held entries) (start_workers job n) ≡ 0)
unfolding start_workers
start-idle job zero entries = omega arith
start-idle job (suc n) entries =
    omega (arith, start-idle job n entries, looked-idle job 0 0 entries)

tally-returns-le : (ws : List Worker) → tally returns ws ≤ length ws
tally-returns-le [] = omega arith
tally-returns-le (returned ∷ ws) = omega (arith, tally-returns-le ws)
tally-returns-le (w ∷ ws) = omega (arith, tally-returns-le ws)

-- When all have returned, none holds an entry.
pub all_returned :
    (ws : List Worker) (entries : List (String × List ℕ))
    → tally returns ws ≡ length ws
    → (tally sends ws ≡ 0) × (tally holds ws ≡ 0) × (tally (held entries) ws ≡ 0)
all_returned [] entries h = omega arith
all_returned (returned ∷ ws) entries h = omega (arith, all_returned ws entries (omega arith))
all_returned (w ∷ ws) entries h = absurd (omega (arith, tally-returns-le ws))

pub tally-sends-le : (ws : List Worker) → tally sends ws ≤ length ws
tally-sends-le [] = omega arith
tally-sends-le (sending i ∷ ws) = omega (arith, tally-sends-le ws)
tally-sends-le (w ∷ ws) = omega (arith, tally-sends-le ws)

pub size-take :
    (entries : List (String × List ℕ)) (n : ℕ)
    → bytes_of (take (suc n) entries) ≡ bytes_of (take n entries) + size_at entries n
size-take [] zero = refl
size-take [] (suc n) = refl
size-take (e ∷ entries) zero = omega arith
size-take (e ∷ entries) (suc n) = omega (arith, size-take entries n)

pub bytes-take_all :
    (entries : List (String × List ℕ)) (n : ℕ)
    → length entries ≤ n
    → bytes_of (take n entries) ≡ bytes_of entries
bytes-take_all [] zero h = refl
bytes-take_all [] (suc n) h = refl
bytes-take_all (e ∷ entries) zero h = absurd (omega arith)
bytes-take_all (e ∷ entries) (suc n) h = omega (arith, bytes-take_all entries n (omega arith))

pub entry_there :
    (entries : List (String × List ℕ)) (i : ℕ) (e : String × List ℕ)
    → get_elem? entries i ≡ some e
    → (i + 1 ≤ length entries) × (size_at entries i ≡ length e.1)
entry_there [] i e h = cc
entry_there (x ∷ entries) zero e h = let same : x ≡ e = cc in rw same (omega arith)
entry_there (x ∷ entries) (suc i) e h = omega (arith, entry_there entries i e h)

pub entry_missing :
    (entries : List (String × List ℕ)) (i : ℕ) → get_elem? entries i ≡ none → length entries ≤ i
entry_missing [] i h = omega arith
entry_missing (x ∷ entries) zero h = cc
entry_missing (x ∷ entries) (suc i) h = omega (arith, entry_missing entries i h)
