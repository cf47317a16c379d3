-- ===== src/Registry/Coalescing/Settlement.antt =====
-- Every lookup is settled, and settled once.
use c_stateless_relay_tran.Base.{
  ℕ, zero, suc, ◌+◌, ◌≤◌, ◌≡◌, ◌≢◌, ◌⊎◌, inl, inr, refl, ap, ltb, ◌==◌, Bool, true, false,
  if◌then◌else◌, String, Option, none, some, List, [], ◌∷◌, ◌++◌, get_elem?, Result, ok, err,
  Thrown, arith, Result-cases,
}
use c_stateless_relay_tran.Base.StringSet.{unique}
use c_stateless_relay_tran.Registry.Records.{RelayRegistryMap}
use c_stateless_relay_tran.Registry.Coalescing.{
  Waiter, Settled, Coalescing, fresh, wait_for, lookup_relays, begin_batch, flush, slice_into,
  reject, settle_each, settle, without_batch, answer_batch, CoalescingEvent, looks_up, flushes,
  answers, coalescing_step, coalescing_run,
}

module _ (i : ℕ) where
  abbrev one : ℕ → ℕ
  one j = if j == i then 1 else 0

  -- How often the lookup is among the settled ones, the waiters, the waiters of all batches.
  abbrev pub settlements : List Settled → ℕ
  settlements [] = 0
  settlements ((j, result) ∷ settled) = one j + settlements settled

  abbrev pub waits : List Waiter → ℕ
  waits [] = 0
  waits (waiter ∷ waiters) = one waiter.lookup + waits waiters

  abbrev pub batched : List (List Waiter) → ℕ
  batched [] = 0
  batched (batch ∷ batches) = waits batch + batched batches

  settlements-append :
      (xs ys : List Settled) → settlements (xs ++ ys) ≡ settlements xs + settlements ys
  settlements-append [] ys = omega arith
  settlements-append ((j, r) ∷ xs) ys = omega (arith, settlements-append xs ys)

  waits-append : (xs ys : List Waiter) → waits (xs ++ ys) ≡ waits xs + waits ys
  waits-append [] ys = omega arith
  waits-append (w ∷ xs) ys = omega (arith, waits-append xs ys)

  batched-append : (xs ys : List (List Waiter)) → batched (xs ++ ys) ≡ batched xs + batched ys
  batched-append [] ys = omega arith
  batched-append (b ∷ xs) ys = omega (arith, batched-append xs ys)

  batched-without :
      (batches : List (List Waiter)) (k : ℕ) (batch : List Waiter)
      → get_elem? batches k ≡ some batch
      → waits batch + batched (without_batch batches k) ≡ batched batches
  batched-without [] k batch e = cc
  batched-without (b ∷ batches) zero batch e = let same : b ≡ batch = cc in rw same refl
  batched-without (b ∷ batches) (suc k) batch e = omega (arith, batched-without batches k batch e)

  settlements-reject : (e : Thrown) (ws : List Waiter) → settlements (reject e ws) ≡ waits ws
  settlements-reject e [] = refl
  settlements-reject e (w ∷ ws) = omega (arith, settlements-reject e ws)

  settlements-settle_each :
      (results : RelayRegistryMap) (ws : List Waiter)
      → settlements (settle_each results ws) ≡ waits ws
  unfolding settle_each
  settlements-settle_each results [] = refl
  settlements-settle_each results (w ∷ ws) = elim (Result-cases (slice_into results w.tokens [])) [
    | inl (slice, p) ↦ rw (p, settlements) (omega (arith, settlements-settle_each results ws))
    | inr (e, p) ↦ rw (p, settlements) (omega (arith, settlements-reject e ws))
  ]

  settlements-settle :
      (answer : Result RelayRegistryMap) (ws : List Waiter)
      → settlements (settle answer ws) ≡ waits ws
  unfolding settle
  settlements-settle (ok results) ws = settlements-settle_each results ws
  settlements-settle (err e) ws = settlements-reject e ws

  -- The lookup that was made is in one place, and no lookup that was not made is in any.
  abbrev IsOnce : Coalescing → Type 0
  IsOnce c =
      settlements c.settled + waits c.waiters + batched c.batches ≡ (if ltb i c.made then 1 else 0)

  wait-IsOnce : (tokens : List String) (c : Coalescing) → IsOnce c → IsOnce (wait_for tokens c)
  unfolding wait_for
  wait-IsOnce [] c h = ground (arith, settlements-append c.settled ((c.made, ok []) ∷ []))
  wait-IsOnce (token ∷ tokens) c h =
      ground
        (arith, waits-append c.waiters (record { lookup = c.made; tokens = token ∷ tokens } ∷ []))

  begin-IsOnce :
      (ws : List Waiter) (c : Coalescing) → c.waiters ≡ ws → IsOnce c → IsOnce (begin_batch ws c)
  unfolding begin_batch
  begin-IsOnce [] c e h = let none_waits = ap waits e in omega arith
  begin-IsOnce (w ∷ ws) c e h =
      let moved = ap waits e in omega (arith, batched-append c.batches ((w ∷ ws) ∷ []))

  answer-IsOnce :
      (k : ℕ) (answer : Result RelayRegistryMap) (c : Coalescing) (o : Option (List Waiter))
      → get_elem? c.batches k ≡ o
      → IsOnce c
      → IsOnce (answer_batch k answer c o)
  unfolding answer_batch
  answer-IsOnce k answer c none e h = h
  answer-IsOnce k answer c (some ws) e h = omega (
    arith,
    settlements-append c.settled (settle answer ws),
    settlements-settle answer ws,
    batched-without c.batches k ws e,
  )

  begin_if :
      (b : Bool) (c : Coalescing) → IsOnce c → IsOnce (if b then begin_batch c.waiters c else c)
  begin_if true c h = begin-IsOnce c.waiters c refl h
  begin_if false c h = h

  flush-IsOnce : (c : Coalescing) → IsOnce c → IsOnce (flush c)
  unfolding flush
  flush-IsOnce c h = begin_if c.flush_scheduled c h

  step-IsOnce : (c : Coalescing) (e : CoalescingEvent) → IsOnce c → IsOnce (coalescing_step c e)
  unfolding coalescing_step lookup_relays
  step-IsOnce c (looks_up tokens) h = wait-IsOnce (unique tokens) c h
  step-IsOnce c flushes h = flush-IsOnce c h
  step-IsOnce c (answers k answer) h = answer-IsOnce k answer c (get_elem? c.batches k) refl h

  run-IsOnce :
      (es : List CoalescingEvent) (c : Coalescing) → IsOnce c → IsOnce (coalescing_run c es)
  unfolding coalescing_run
  run-IsOnce [] c h = h
  run-IsOnce (e ∷ es) c h = run-IsOnce es (coalescing_step c e) (step-IsOnce c e h)

  fresh-IsOnce : IsOnce fresh
  fresh-IsOnce = ground arith

-- Lookups wait only while a flush is queued.
abbrev IsScheduled : Coalescing → Type 0
IsScheduled c = (c.waiters ≡ []) ⊎ (c.flush_scheduled ≡ true)

wait-IsScheduled :
    (tokens : List String) (c : Coalescing) → IsScheduled c → IsScheduled (wait_for tokens c)
unfolding wait_for
wait-IsScheduled [] c h = h
wait-IsScheduled (token ∷ tokens) c h = inr refl

begin-IsScheduled : (ws : List Waiter) (c : Coalescing) → IsScheduled (begin_batch ws c)
unfolding begin_batch
begin-IsScheduled [] c = inl refl
begin-IsScheduled (w ∷ ws) c = inl refl

flush_if :
    (b : Bool) (c : Coalescing)
    → IsScheduled c
    → IsScheduled (if b then begin_batch c.waiters c else c)
flush_if true c h = begin-IsScheduled c.waiters c
flush_if false c h = h

answer-IsScheduled :
    (k : ℕ) (answer : Result RelayRegistryMap) (c : Coalescing) (o : Option (List Waiter))
    → IsScheduled c
    → IsScheduled (answer_batch k answer c o)
unfolding answer_batch
answer-IsScheduled k answer c none h = h
answer-IsScheduled k answer c (some ws) h = h

run-IsScheduled :
    (es : List CoalescingEvent) (c : Coalescing) → IsScheduled c → IsScheduled (coalescing_run c es)
unfolding coalescing_run coalescing_step lookup_relays flush
run-IsScheduled [] c h = h
run-IsScheduled (looks_up tokens ∷ es) c h =
    run-IsScheduled es (wait_for (unique tokens) c) (wait-IsScheduled (unique tokens) c h)
run-IsScheduled (flushes ∷ es) c h = run-IsScheduled es _ (flush_if c.flush_scheduled c h)
run-IsScheduled (answers k answer ∷ es) c h =
    run-IsScheduled es _ (answer-IsScheduled k answer c (get_elem? c.batches k) h)

settled_or_open :
    (i : ℕ) (c : Coalescing)
    → settlements i c.settled + waits i c.waiters + batched i c.batches
      ≡ (if ltb i c.made then 1 else 0)
    → c.waiters ≡ []
    → (batches : List (List Waiter)) → c.batches ≡ batches
    → (c.batches ≢ []) ⊎ (settlements i c.settled ≡ (if ltb i c.made then 1 else 0))
settled_or_open i c once none_waits [] e =
    let no_waiter = ap (waits i) none_waits in let no_batch = ap (batched i) e in inr (omega arith)
settled_or_open i c once none_waits (batch ∷ batches) e = inl (λ none_open. cc)

-- However lookups, microtasks and answers are interleaved: a lookup is settled at most once, and when
-- no microtask is queued and no batch is open, each lookup that was made has been settled exactly
-- once.
pub lookup_settled_once :
    (es : List CoalescingEvent) (i : ℕ)
    → (settlements i (coalescing_run fresh es).settled ≤ 1)
      × (((coalescing_run fresh es).flush_scheduled ≡ true)
          ⊎ (((coalescing_run fresh es).batches ≢ [])
              ⊎ (settlements i (coalescing_run fresh es).settled
                  ≡ (if ltb i (coalescing_run fresh es).made then 1 else 0))))
lookup_settled_once es i =
    let c = coalescing_run fresh es in
    let once = run-IsOnce i es fresh (fresh-IsOnce i) in
    (
      ground arith,
      elim (run-IsScheduled es fresh (inl refl)) [
        | inr queued ↦ inl queued
        | inl none_waits ↦ inr (settled_or_open i c once none_waits c.batches refl)
      ],
    )
