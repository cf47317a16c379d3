-- ===== src/Policy/Prefetch/Budget.antt =====
-- The memory budget stays in its range, and the prefetch window stays in the budget.
use native.Mathlib.Decide.{dec_le}
use c_stateless_relay_tran.Base.{
  ℕ, suc, ◌*◌, ◌/◌, ◌≤◌, ◌<◌, ◌≡◌, ◌⊎◌, inl, inr, Bool, true, false, Option, none, arith, min, max,
}
use c_stateless_relay_tran.Base.Number.{Number, whole}
use c_stateless_relay_tran.Policy.Environment.{Environment, mib}
use c_stateless_relay_tran.Policy.WireBlock.{resolve_mobile}
use c_stateless_relay_tran.Policy.Prefetch.{
  ResolveReceivePrefetchCountOptions, probe_browser_receive_memory_budget_bytes,
  resolve_receive_prefetch_count, clamp_count, floor_div,
}

-- The probed budget lies between 32 MiB and 192 MiB, whatever the device reports, and is at most
-- 64 MiB on a mobile browser.
pub budget_bounds :
    (env : Environment) (gib : Option Number) (is_mobile : Option Bool)
    → (mib 32 ≤ probe_browser_receive_memory_budget_bytes env gib is_mobile)
      × (probe_browser_receive_memory_budget_bytes env gib is_mobile ≤ mib 192)
      × ((resolve_mobile env is_mobile ≡ false)
          ⊎ (probe_browser_receive_memory_budget_bytes env gib is_mobile ≤ mib 64))
unfolding probe_browser_receive_memory_budget_bytes
budget_bounds env gib is_mobile = ground arith

floor_fits : (budget w : ℕ) → 0 < w → budget / w * w ≤ budget
floor_fits budget w h = grind arith

within_floor : (budget b m : ℕ) → m ≤ budget / suc b → m * suc b ≤ budget
within_floor budget b m h = grind (arith, floor_fits budget (suc b))

clamp_fits :
    (budget b : ℕ)
    → (m : ℕ) × (clamp_count 2 64 (floor_div budget (suc b)) ≡ whole m)
      × (2 ≤ m)
      × (m ≤ 64)
      × ((m ≡ 2) ⊎ (m * suc b ≤ budget))
unfolding clamp_count
clamp_fits budget b =
    (max 2 (min 64 (budget / suc b)), ground arith, omega arith, omega arith, fits)
  where
    fits :
        (max 2 (min 64 (budget / suc b)) ≡ 2) ⊎ (max 2 (min 64 (budget / suc b)) * suc b ≤ budget)
    fits = elim (dec_le (budget / suc b) 2) [
      | yes small ↦ inl (omega arith)
      | no large ↦ inr (within_floor budget b _ (omega arith))
    ]

-- In a browser, with no explicit count and no limits of its own, a window for blocks of b bytes
-- holds between 2 and 64 blocks, and more than 2 only if all of them fit the probed budget.
pub window_fits_budget :
    (env : Environment) (options : ResolveReceivePrefetchCountOptions) (b : ℕ)
    → env.has_window ≡ true
    → options.explicit ≡ none
    → options.memory_budget_bytes ≡ none
    → options.min_count ≡ none
    → options.max_count ≡ none
    → (m : ℕ) × (resolve_receive_prefetch_count env (whole (suc b)) options ≡ whole m)
      × (2 ≤ m)
      × (m ≤ 64)
      × ((m ≡ 2)
          ⊎ (m * suc b
              ≤ probe_browser_receive_memory_budget_bytes env options.device_memory_gib
                  options.is_mobile))
unfolding resolve_receive_prefetch_count
window_fits_budget env options b h e1 e2 e3 e4 =
    let budget =
      probe_browser_receive_memory_budget_bytes env options.device_memory_gib options.is_mobile in
    let (m, p, low, high, fits) = clamp_fits budget b in (m, ground arith, low, high, fits)
