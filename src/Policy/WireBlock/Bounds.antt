-- ===== src/Policy/WireBlock/Bounds.antt =====
-- The effective limit stays within the relay's limit and the policy.
use c_stateless_relay_tran.Base.{
  ℕ, ◌≤◌, ◌<◌, ◌≡◌, ◌⊎◌, inl, inr, Bool, true, false, some, ok, arith, min,
}
use c_stateless_relay_tran.Base.Number.{pos, whole}
use c_stateless_relay_tran.Policy.Environment.{Environment}
use c_stateless_relay_tran.Policy.WireBlock.{
  ChooseEffectiveWireBlockBytesOptions, choose_policy_wire_block_bytes, is_true, resolve_mobile,
  resolve_effective_wire_block_bytes, resolve_relay_max_body_bytes, wire_block_bytes_16_mib,
  wire_block_bytes_32_mib, large_file_wire_block_threshold_bytes,
}

module _ (env : Environment) (options : ChooseEffectiveWireBlockBytesOptions) where
  -- The large block is for a large file, where the small one is not preferred and the browser, if there
  -- is one, is not taken for a mobile one.
  abbrev pub MayBeLarge : ℕ → Type 0
  MayBeLarge n =
      (large_file_wire_block_threshold_bytes ≤ n)
      × (is_true options.prefer_conservative ≡ false)
      × (resolve_mobile env options.is_mobile ≡ false)

  policy_choice :
      (n : ℕ)
      → options.file_size_bytes ≡ whole n
      → ((choose_policy_wire_block_bytes env options ≡ ok wire_block_bytes_16_mib)
          × ((n < large_file_wire_block_threshold_bytes)
              ⊎ ((is_true options.prefer_conservative ≡ true)
                  ⊎ (resolve_mobile env options.is_mobile ≡ true))))
        ⊎ ((choose_policy_wire_block_bytes env options ≡ ok wire_block_bytes_32_mib) × MayBeLarge n)
  unfolding choose_policy_wire_block_bytes
  policy_choice n e = ground arith

  -- For a file size and a relay limit that are whole numbers the effective limit is the smaller one of
  -- the relay's limit and the policy's block: 16 MiB for a file below 128 MiB, where the conservative
  -- block is preferred, or in a browser that is taken for a mobile one, and otherwise 32 MiB.
  pub effective_bounds :
      (n relay_max : ℕ)
      → options.file_size_bytes ≡ whole n
      → options.relay_max_body_bytes ≡ some (whole relay_max)
      → ((resolve_effective_wire_block_bytes env options
            ≡ ok (whole (min relay_max wire_block_bytes_16_mib)))
          × ((n < large_file_wire_block_threshold_bytes)
              ⊎ ((is_true options.prefer_conservative ≡ true)
                  ⊎ (resolve_mobile env options.is_mobile ≡ true))))
        ⊎ ((resolve_effective_wire_block_bytes env options
              ≡ ok (whole (min relay_max wire_block_bytes_32_mib)))
            × MayBeLarge n)
  unfolding resolve_effective_wire_block_bytes
  effective_bounds n relay_max e r = elim (policy_choice n e) [
    | inl (p, why) ↦ inl (ground (arith, p, e, r), why)
    | inr (p, why) ↦ inr (ground (arith, p, e, r), why)
  ]

-- A relay limit that the configuration may hold is a positive number of bytes, except that a
-- positive fraction below one is cut to zero.
pub relay_max_whole :
    (w : ℕ) (f : Bool)
    → ((w ≡ 0) × (f ≡ false)) ⊎ (resolve_relay_max_body_bytes (some (pos w f)) ≡ ok (whole w))
unfolding resolve_relay_max_body_bytes
relay_max_whole w f = ground arith
