-- ===== src/Upload/Registration/Coverage.antt =====
-- A reservation covers every block.
use c_stateless_relay_tran.Base.{
  ℕ, ◌≡◌, true, String, Option, some, List, [], ◌∷◌, length, Result, ok, arith, All, Result-cases,
  Bool-cases, inl, inr,
}
use c_stateless_relay_tran.Base.StringMap
use c_stateless_relay_tran.Registry.Endpoints.{
  endpoints_from_registry_map, replica_targets_from_registry_map,
}
use c_stateless_relay_tran.Upload.Blocks.{UploadMap}
use c_stateless_relay_tran.Upload.Registration.{
  BlockHashEntry, ReserveUploadBlocksResult, UploadRoutePlan, Reserve, hashes_into, check_hashes,
  check_count, entries_or, reserve_and_register_upload_blocks,
}

check_hashes-All :
    (hashes : StringMap.StringMap String) (tokens : List String)
    → check_hashes hashes tokens ≡ ok tt
    → All (λ token. StringMap.has token hashes ≡ true) tokens
unfolding check_hashes
check_hashes-All hashes [] h = tt
check_hashes-All hashes (token ∷ tokens) h = elim (Bool-cases (StringMap.has token hashes)) [
  | inl p ↦ (p, check_hashes-All hashes tokens (rw p at h))
  | inr p ↦ let failed = rw p at h in cc
]

-- What a plan that the registry's reservation gave rests on.
pub record IsReserved (uploads : UploadMap) (reserve : Reserve) (ttl_seconds : Option ℕ)
    (entries : List BlockHashEntry) (plan : UploadRoutePlan) : Type 0 where
  pub result : ReserveUploadBlocksResult
  pub counted : length entries ≡ length uploads
  pub hashed :
      All (λ token. StringMap.has token (hashes_into [] entries) ≡ true) (StringMap.keys uploads)
  pub answered : reserve entries ttl_seconds ≡ ok result
  pub routed : endpoints_from_registry_map result.routes ≡ ok plan.primary_endpoints
  pub replicated : plan.replicas ≡ replica_targets_from_registry_map result.routes
  pub kept : plan.reservation ≡ some result.meta

check_count-eq : (expected got : ℕ) → check_count expected got ≡ ok tt → got ≡ expected
unfolding check_count
check_count-eq expected got h = ground arith

-- A reservation that succeeds was made with one hash entry for each block, every block's token among
-- them, and the plan holds the endpoints, the replicas and the terms that the registry answered.
pub reserve-IsReserved :
    (uploads : UploadMap) (reserve : Reserve) (ttl_seconds : Option ℕ)
    (precomputed : Option (List BlockHashEntry)) (hashed : Result (List BlockHashEntry))
    (plan : UploadRoutePlan)
    → reserve_and_register_upload_blocks uploads reserve ttl_seconds precomputed hashed ≡ ok plan
    → (entries : List BlockHashEntry) × (entries_or precomputed hashed ≡ ok entries)
      × IsReserved uploads reserve ttl_seconds entries plan
unfolding reserve_and_register_upload_blocks
reserve-IsReserved uploads reserve ttl_seconds precomputed hashed plan h =
    elim (Result-cases (entries_or precomputed hashed)) [
      | inr (e, p) ↦ let failed = rw p at h in cc
      | inl (entries, p) ↦ elim (Result-cases (check_count (length uploads) (length entries))) [
        | inr (e, q) ↦ let failed = rw (p, q) at h in cc
        | inl (_, q) ↦
            elim (Result-cases (check_hashes (hashes_into [] entries) (StringMap.keys uploads))) [
              | inr (e, r) ↦ let failed = rw (p, q, r) at h in cc
              | inl (_, r) ↦ elim (Result-cases (reserve entries ttl_seconds)) [
                | inr (e, s) ↦ let failed = rw (p, q, r, s) at h in cc
                | inl (result, s) ↦
                    elim (Result-cases (endpoints_from_registry_map result.routes)) [
                      | inr (e, t) ↦ let failed = rw (p, q, r, s, t) at h in cc
                      | inl (endpoints, t) ↦
                          let made = rw (p, q, r, s, t) at h in
                          (
                            entries,
                            p,
                            record {
                              result = result;
                              counted = check_count-eq (length uploads) (length entries) q;
                              hashed =
                                  check_hashes-All (hashes_into [] entries) (StringMap.keys uploads)
                                    r;
                              answered = s;
                              routed = cc;
                              replicated = cc;
                              kept = cc;
                            },
                          )
                    ]
              ]
            ]
      ]
    ]
