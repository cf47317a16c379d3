-- ===== src/Upload/Stripe/Order.antt =====
-- Which PUTs are begun, and in which order.
use c_stateless_relay_tran.Base.{
  ℕ, zero, suc, ◌≡◌, refl, ap, get_elem?, String, Option, none, some, List, [], ◌∷◌, ◌++◌, Thrown,
}
use c_stateless_relay_tran.Base.StringMap
use c_stateless_relay_tran.Registry.Records.{RelayEndpoint}
use c_stateless_relay_tran.Upload.Stripe.{
  Job, Worker, polling, admitted, sending, Upload, Event, polls, goes_on, progresses, resolves,
  rejects, start, step, run, on_poll, on_go_on, on_progress, on_resolve, on_reject, take_entry,
  finish_entry, fail_entry, advance_lane,
}

-- Every block's token has a primary endpoint.
abbrev pub AllRouted : Job → Type 0
AllRouted job =
    (i : ℕ) (token : String) (blob : List ℕ)
    → get_elem? job.entries i ≡ some (token, blob)
    → (endpoint : RelayEndpoint) × (StringMap.get token job.primary_endpoints ≡ some endpoint)

-- 0, 1, …, n - 1
abbrev pub upto : ℕ → List ℕ
upto zero = []
upto (suc n) = upto n ++ n ∷ []

abbrev IsOrdered : Upload → Type 0
IsOrdered u = u.puts ≡ upto u.next_index

module _ (job : Job) (routed : AllRouted job) (u : Upload) (h : IsOrdered u) where
  take-IsOrdered :
      (k : ℕ) (o : Option (String × List ℕ))
      → get_elem? job.entries u.next_index ≡ o
      → IsOrdered (take_entry job k u o)
  unfolding take_entry
  take-IsOrdered k none e = h
  take-IsOrdered k (some (token, blob)) e =
      let (endpoint, found) = routed u.next_index token blob e in
      rw (found, take_entry) (ap (λ (l : List ℕ). l ++ u.next_index ∷ []) h)

  poll-IsOrdered : (k : ℕ) (o : Option Worker) → IsOrdered (on_poll job k u o)
  unfolding on_poll
  poll-IsOrdered k (some polling) = h
  poll-IsOrdered k o = h

  go_on-IsOrdered : (k : ℕ) (o : Option Worker) → IsOrdered (on_go_on job k u o)
  unfolding on_go_on
  go_on-IsOrdered k (some admitted) = take-IsOrdered k _ refl
  go_on-IsOrdered k o = h

  progress-IsOrdered : (bytes : ℕ) (o : Option Worker) → IsOrdered (on_progress job bytes u o)
  unfolding on_progress
  progress-IsOrdered bytes (some (sending index)) = go (get_elem? job.entries index)
    where
      go : (o : Option (String × List ℕ)) → IsOrdered (advance_lane job index bytes u o)
      go none = h
      go (some (token, blob)) = h
  progress-IsOrdered bytes o = h

  resolve-IsOrdered : (k : ℕ) (o : Option Worker) → IsOrdered (on_resolve job k u o)
  unfolding on_resolve
  resolve-IsOrdered k (some (sending index)) = go (get_elem? job.entries index)
    where
      go : (o : Option (String × List ℕ)) → IsOrdered (finish_entry job k index u o)
      go none = h
      go (some (token, blob)) = h
  resolve-IsOrdered k o = h

  reject-IsOrdered :
      (k : ℕ) (cause : Thrown) (o : Option Worker) → IsOrdered (on_reject job k cause u o)
  unfolding on_reject
  reject-IsOrdered k cause (some (sending index)) = go (get_elem? job.entries index)
    where
      go : (o : Option (String × List ℕ)) → IsOrdered (fail_entry job k index cause u o)
      go none = h
      go (some (token, blob)) = h
  reject-IsOrdered k cause o = h

  step-IsOrdered : (e : Event) → IsOrdered (step job u e)
  unfolding step
  step-IsOrdered (polls k) = poll-IsOrdered k _
  step-IsOrdered (goes_on k) = go_on-IsOrdered k _
  step-IsOrdered (progresses k bytes) = progress-IsOrdered bytes _
  step-IsOrdered (resolves k) = resolve-IsOrdered k _
  step-IsOrdered (rejects k cause) = reject-IsOrdered k cause _

run-IsOrdered :
    (job : Job) (routed : AllRouted job) (es : List Event) (u : Upload)
    → IsOrdered u
    → IsOrdered (run job u es)
unfolding run
run-IsOrdered job routed [] u h = h
run-IsOrdered job routed (e ∷ es) u h =
    run-IsOrdered job routed es (step job u e) (step-IsOrdered job routed u h e)

-- Where every block has a primary endpoint, the PUTs are begun in the order of the blocks, in every
-- interleaving: each index below `nextIndex` once, and no other.
pub puts_in_order :
    (job : Job) (es : List Event)
    → AllRouted job
    → (run job (start job) es).puts ≡ upto (run job (start job) es).next_index
puts_in_order job es routed = run-IsOrdered job routed es (start job) (unfold start in refl)
