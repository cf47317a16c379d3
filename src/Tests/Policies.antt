-- ===== src/Tests/Policies.antt =====
-- The size policies at concrete sizes.
use c_stateless_relay_tran.Base.{
  ℕ, ◌*◌, ◌≤◌, ◌<◌, ◌+◌, ◌-◌, ◌≡◌, ◌⊎◌, refl, true, false, none, some, ok,
}
use c_stateless_relay_tran.Base.Number.{whole}
use c_stateless_relay_tran.Policy.Environment.{Environment, mib}
use c_stateless_relay_tran.Policy.Segment.{
  decode_segment_plaintext_bytes_v21, count_gcm_segments_for_file_size,
}
use c_stateless_relay_tran.Policy.Segment.Coverage.{segments_cover}
use c_stateless_relay_tran.Policy.WireBlock.{
  ChooseEffectiveWireBlockBytesOptions, resolve_effective_wire_block_bytes,
  choose_policy_wire_block_bytes, is_likely_mobile_browser, resolve_mobile,
}
use c_stateless_relay_tran.Policy.WireBlock.Bounds.{MayBeLarge, effective_bounds}
use c_stateless_relay_tran.Policy.Prefetch.{
  ResolveReceivePrefetchCountOptions, probe_browser_receive_memory_budget_bytes,
  resolve_receive_prefetch_count, read_navigator_device_memory_gib,
}
use c_stateless_relay_tran.Policy.Prefetch.Budget.{window_fits_budget}

abbrev desktop : Environment
desktop = record {
  has_window = true;
  navigator = some (record {
    ua_data_mobile = none;
    user_agent = "Mozilla/5.0 (X11; Linux x86_64)";
    device_memory = some (whole 8);
  });
}

abbrev phone : Environment
phone = record {
  has_window = true;
  navigator =
      some (record {
        ua_data_mobile = none;
        user_agent = "Mozilla/5.0 (iPhone)";
        device_memory = none;
      });
}

segments_cover_example : (mib 100 ≤ 2 * mib 64) × (2 * mib 64 < mib 100 + mib 64)
unfolding decode_segment_plaintext_bytes_v21 count_gcm_segments_for_file_size
segments_cover_example = segments_cover (mib 100 - 1) 3 (mib 64) 2 refl refl

abbrev large_file : ChooseEffectiveWireBlockBytesOptions
large_file = record {
  file_size_bytes = whole (mib 200);
  relay_max_body_bytes = some (whole (mib 24));
  prefer_conservative = none;
  is_mobile = none;
}

effective_bounds_example :
    ((resolve_effective_wire_block_bytes desktop large_file ≡ ok (whole (mib 16)))
      × ((mib 200 < mib 128) ⊎ ((false ≡ true) ⊎ (resolve_mobile desktop none ≡ true))))
    ⊎ ((resolve_effective_wire_block_bytes desktop large_file ≡ ok (whole (mib 24)))
        × MayBeLarge desktop large_file (mib 200))
effective_bounds_example = effective_bounds desktop large_file (mib 200) (mib 24) refl refl

effective_large : resolve_effective_wire_block_bytes desktop large_file ≡ ok (whole (mib 24))
unfolding resolve_effective_wire_block_bytes choose_policy_wire_block_bytes is_likely_mobile_browser
effective_large = refl

effective_phone : resolve_effective_wire_block_bytes phone large_file ≡ ok (whole (mib 16))
unfolding resolve_effective_wire_block_bytes choose_policy_wire_block_bytes is_likely_mobile_browser
effective_phone = refl

abbrev no_overrides : ResolveReceivePrefetchCountOptions
no_overrides = record {
  explicit = none;
  memory_budget_bytes = none;
  min_count = none;
  max_count = none;
  device_memory_gib = none;
  is_mobile = none;
  relay_max_body_bytes = none;
}

window_fits_budget_example :
    (m : ℕ) × (resolve_receive_prefetch_count desktop (whole (mib 32)) no_overrides ≡ whole m)
    × (2 ≤ m)
    × (m ≤ 64)
    × ((m ≡ 2) ⊎ (m * mib 32 ≤ probe_browser_receive_memory_budget_bytes desktop none none))
window_fits_budget_example =
    window_fits_budget desktop no_overrides (mib 32 - 1) refl refl refl refl refl

window_desktop : resolve_receive_prefetch_count desktop (whole (mib 32)) no_overrides ≡ whole 4
unfolding resolve_receive_prefetch_count probe_browser_receive_memory_budget_bytes
    is_likely_mobile_browser read_navigator_device_memory_gib
window_desktop = refl
