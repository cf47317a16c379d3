-- ===== src/Registry/Coalescing.antt =====
-- CoalescingRegistryClient of client/transfer/src/router/registry-client.ts: the lookups that are
-- made before the queued microtask runs go to the inner client in one batch. A lookup is known by its
-- number; the inner client's answer to a batch comes as an event.
pub mod Contract
pub mod Settlement
use c_stateless_relay_tran.Base.{
  ℕ, zero, suc, Bool, true, false, if◌then◌else◌, String, Option, none, some, List, [], ◌∷◌, ◌++◌,
  map, get_elem?, Result, ok, err, Thrown,
}
use c_stateless_relay_tran.Base.StringMap
use c_stateless_relay_tran.Base.StringSet.{unique, add_all}
use c_stateless_relay_tran.Registry.Records.{RelayRegistryMap}
use c_stateless_relay_tran.Registry.Router.{missing_token}

pub record Waiter : Type 0 where
  pub lookup : ℕ
  pub tokens : List String

abbrev pub Settled : Type 0
Settled = ℕ × Result RelayRegistryMap

pub record Coalescing : Type 0 where
  pub waiters : List Waiter
  -- the microtask is queued
  pub flush_scheduled : Bool
  -- the waiters of the batches that the inner client has not answered
  pub batches : List (List Waiter)
  -- the promises that were resolved or rejected, in order
  pub settled : List Settled
  -- the lookups that were made
  pub made : ℕ

abbrev pub fresh : Coalescing
fresh = record { waiters = []; flush_scheduled = false; batches = []; settled = []; made = 0 }

wait_for : List String → Coalescing → Coalescing
wait_for [] c = record c { settled = c.settled ++ (c.made, ok []) ∷ []; made = suc c.made }
wait_for (token ∷ tokens) c = record c {
  waiters = c.waiters ++ record { lookup = c.made; tokens = token ∷ tokens } ∷ [];
  flush_scheduled = true;
  made = suc c.made;
}

unfoldable pub lookup_relays : List String → Coalescing → Coalescing
unfolding wait_for
lookup_relays tokens c = wait_for (unique tokens) c

begin_batch : List Waiter → Coalescing → Coalescing
begin_batch [] c = record c { flush_scheduled = false; waiters = [] }
begin_batch (waiter ∷ waiters) c = record c {
  flush_scheduled = false;
  waiters = [];
  batches = c.batches ++ (waiter ∷ waiters) ∷ [];
}

-- The microtask: flush, up to the await. Nothing runs where none is queued.
unfoldable pub flush : Coalescing → Coalescing
unfolding begin_batch
flush c = if c.flush_scheduled then begin_batch c.waiters c else c

-- The tokens of a batch, each once.
unfoldable pub batch_from : List String → List Waiter → List String
batch_from batch [] = batch
batch_from batch (waiter ∷ waiters) = batch_from (add_all waiter.tokens batch) waiters

unfoldable pub slice_into :
    RelayRegistryMap → List String → RelayRegistryMap → Result RelayRegistryMap
slice_into results [] slice = ok slice
slice_into results (token ∷ tokens) slice = elim (StringMap.get token results) [
  | none ↦ err (missing_token token)
  | some rec ↦ slice_into results tokens (StringMap.set token rec slice)
]

abbrev pub reject : Thrown → List Waiter → List Settled
reject e [] = []
reject e (waiter ∷ waiters) = (waiter.lookup, err e) ∷ reject e waiters

-- The waiters are resolved in order; at a token that is missing, the rest is rejected. A promise that
-- was resolved stays so.
unfoldable pub settle_each : RelayRegistryMap → List Waiter → List Settled
unfolding slice_into
settle_each results [] = []
settle_each results (waiter ∷ waiters) =
    let rest = settle_each results waiters in
    elim (slice_into results waiter.tokens []) [
      | ok slice ↦ (waiter.lookup, ok slice) ∷ rest
      | err e ↦ reject e (waiter ∷ waiters)
    ]

unfoldable pub settle : Result RelayRegistryMap → List Waiter → List Settled
unfolding settle_each
settle (ok results) waiters = settle_each results waiters
settle (err e) waiters = reject e waiters

abbrev pub without_batch : List (List Waiter) → ℕ → List (List Waiter)
without_batch [] k = []
without_batch (batch ∷ batches) zero = batches
without_batch (batch ∷ batches) (suc k) = batch ∷ without_batch batches k

-- The rest of flush, when the inner client has answered the k-th batch.
unfoldable pub answer_batch :
    ℕ → Result RelayRegistryMap → Coalescing → Option (List Waiter) → Coalescing
unfolding settle
answer_batch k answer c none = c
answer_batch k answer c (some waiters) = record c {
  batches = without_batch c.batches k;
  settled = c.settled ++ settle answer waiters;
}

pub data CoalescingEvent : Type 0 where
  looks_up : List String → CoalescingEvent
  flushes : CoalescingEvent
  answers : ℕ → Result RelayRegistryMap → CoalescingEvent

unfoldable pub coalescing_step : Coalescing → CoalescingEvent → Coalescing
unfolding lookup_relays flush answer_batch
coalescing_step c (looks_up tokens) = lookup_relays tokens c
coalescing_step c flushes = flush c
coalescing_step c (answers k answer) = answer_batch k answer c (get_elem? c.batches k)

unfoldable pub coalescing_run : Coalescing → List CoalescingEvent → Coalescing
unfolding coalescing_step
coalescing_run c [] = c
coalescing_run c (e ∷ es) = coalescing_run (coalescing_step c e) es
