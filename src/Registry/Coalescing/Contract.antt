-- ===== src/Registry/Coalescing/Contract.antt =====
-- The contract of `lookupRelays`, and that the coalescing client keeps it: whoever waits gets what the
-- inner client would have said to its own tokens.
use text.Mathlib.TextEquality.{eq_iff}
use c_stateless_relay_tran.Base.{
  ◌≡◌, refl, ◌||◌, Bool, false, if◌then◌else◌, String, none, some, List, [], ◌∷◌, Result, ok, arith,
}
use c_stateless_relay_tran.Base.StringMap
use c_stateless_relay_tran.Base.StringMap.{get-set}
use c_stateless_relay_tran.Base.StringSet.{contains, add_all, contains-add_all}
use c_stateless_relay_tran.Registry.Records.{RelayRegistryRecord, RelayRegistryMap}
use c_stateless_relay_tran.Registry.Coalescing.{
  Waiter, Settled, batch_from, slice_into, settle_each, settle,
}

-- The registry's records at the time, by token.
module _ (registry : String → RelayRegistryRecord) where
  -- An answer to a lookup of the tokens that has the registry's record of each.
  abbrev pub Covers : List String → RelayRegistryMap → Type 0
  Covers tokens records =
      (token : String)
      → (if contains token tokens then StringMap.get token records else some (registry token))
        ≡ some (registry token)

  -- A result that has the registry's record of each of the tokens, and nothing else.
  abbrev pub Tells : List String → Result RelayRegistryMap → Type 0
  Tells tokens result =
      (records : RelayRegistryMap) × (result ≡ ok records)
      × ((token : String)
          → StringMap.get token records
            ≡ (if contains token tokens then some (registry token) else none))

  -- Each waiter, in turn, is settled with a result that tells its tokens.
  abbrev pub TellsAll : List Waiter → List Settled → Type 0
  TellsAll [] settled = settled ≡ []
  TellsAll (waiter ∷ waiters) [] = (waiter ∷ waiters) ≡ []
  TellsAll (waiter ∷ waiters) ((lookup, result) ∷ settled) =
      (lookup ≡ waiter.lookup) × Tells waiter.tokens result × TellsAll waiters settled

  slice-Tells :
      (tokens : List String) (results slice : RelayRegistryMap)
      → Covers tokens results
      → (records : RelayRegistryMap) × (slice_into results tokens slice ≡ ok records)
        × ((token : String)
            → StringMap.get token records ≡ (
                if contains token tokens then some (registry token) else StringMap.get token slice))
  unfolding slice_into contains
  slice-Tells [] results slice h = (slice, refl, λ token. refl)
  slice-Tells (t ∷ tokens) results slice h =
      let here : StringMap.get t results ≡ some (registry t) = ground (arith, h t, eq_iff t t) in
      let (records, p, q) =
        slice-Tells tokens results (StringMap.set t (registry t) slice)
          (λ token. ground (arith, h token)) in
      (
        records,
        rw (here, slice_into) p,
        λ token. ground (arith, q token, get-set t token (registry t) slice, eq_iff t token),
      )

  abbrev waited : String → List Waiter → Bool
  waited token [] = false
  waited token (waiter ∷ waiters) = contains token waiter.tokens || waited token waiters

  contains-batch_from :
      (batch : List String) (waiters : List Waiter) (token : String)
      → contains token (batch_from batch waiters) ≡ (contains token batch || waited token waiters)
  unfolding batch_from
  contains-batch_from batch [] token = ground arith
  contains-batch_from batch (waiter ∷ waiters) token = ground (
    arith,
    contains-batch_from (add_all waiter.tokens batch) waiters token,
    contains-add_all token waiter.tokens batch,
  )

  settle-TellsAll :
      (waiters : List Waiter) (results : RelayRegistryMap)
      → ((token : String)
          → (if waited token waiters then StringMap.get token results else some (registry token))
            ≡ some (registry token))
      → TellsAll waiters (settle_each results waiters)
  unfolding settle_each contains StringMap.get
  settle-TellsAll [] results h = refl
  settle-TellsAll (waiter ∷ waiters) results h =
      let (records, p, q) =
        slice-Tells waiter.tokens results [] (λ token. ground (arith, h token)) in
      rw (p, TellsAll)
        (
          refl,
          (records, refl, q),
          settle-TellsAll waiters results (λ token. ground (arith, h token)),
        )

  -- Where the inner client's answer to the batch has the registry's record of each of the batch's
  -- tokens, each waiter is settled, in the order of the lookups, with exactly the records of its own
  -- tokens: what the registry would have told it alone.
  pub batch_refines_lookups :
      (waiters : List Waiter) (results : RelayRegistryMap)
      → Covers (batch_from [] waiters) results
      → TellsAll waiters (settle (ok results) waiters)
  unfolding settle
  batch_refines_lookups waiters results h =
      settle-TellsAll waiters results
        (λ token. ground (arith, h token, contains-batch_from [] waiters token))
