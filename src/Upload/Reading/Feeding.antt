-- ===== src/Upload/Reading/Feeding.antt =====
-- What a session is fed with, and what is reported of it.
use c_stateless_relay_tran.Base.{
  ℕ, suc, ◌+◌, ◌-◌, ◌≤◌, ◌≡◌, refl, sym, ap, ◌∙◌, ltb, leb, List, [], ◌∷◌, ◌++◌, map, length, drop,
  flatten, Result, ok, ◌>>=◌, arith, All, length-take, Bool-cases, Result-cases, inl, inr,
}
use c_stateless_relay_tran.Upload.Reading.{
  slice, pieces, Fed, feed_parts, last_report, feed_upload_session_with_yield,
  upload_feed_yield_chunk_bytes, upload_progress_report_interval_bytes,
}
use c_stateless_relay_tran.Upload.Reading.Tiling.{
  Tiles, AtMost, pieces-Tiles, flatten-slices, whole_slice,
}

abbrev pub sum : List ℕ → ℕ
sum [] = 0
sum (x ∷ xs) = x + sum xs

sum-append : (xs ys : List ℕ) → sum (xs ++ ys) ≡ sum xs + sum ys
sum-append [] ys = omega arith
sum-append (x ∷ xs) ys = omega (arith, sum-append xs ys)

abbrev sizes : List (ℕ × ℕ) → ℕ
sizes [] = 0
sizes ((s, e) ∷ parts) = (e - s) + sizes parts

sizes-Tiles :
    (P : ℕ → ℕ → Type 0) (a b : ℕ) (parts : List (ℕ × ℕ)) → Tiles P a parts b → a + sizes parts ≡ b
sizes-Tiles P a b [] h = omega arith
sizes-Tiles P a b ((s, e) ∷ parts) (p, q, r, h) = omega (arith, sizes-Tiles P e b parts h)

small_slices :
    (step a b : ℕ) (chunk : List ℕ) (parts : List (ℕ × ℕ))
    → Tiles (AtMost step) a parts b
    → All (λ part. length part ≤ step) (map (slice chunk) parts)
unfolding slice
small_slices step a b chunk [] h = tt
small_slices step a b chunk ((s, e) ∷ parts) (p, q, r, h) =
    (omega (arith, length-take (e - s) (drop s chunk)), small_slices step e b chunk parts h)

module _ {S : Type 0} (feed : List ℕ → S → Result S) where
  -- One part after the other, until one fails.
  abbrev pub feed_each : List (List ℕ) → S → Result S
  feed_each [] session = ok session
  feed_each (part ∷ parts) session = feed part session >>= feed_each parts

  last_report-sum :
      (unreported : ℕ) (fed : Fed S)
      → (sum (last_report feed unreported fed).deltas ≡ sum fed.deltas + unreported)
        × ((last_report feed unreported fed).session ≡ fed.session)
  unfolding last_report
  last_report-sum unreported fed = elim (Bool-cases (ltb 0 unreported)) [
    | inl p ↦ rw p (omega (arith, sum-append fed.deltas (unreported ∷ [])), refl)
    | inr p ↦ rw p (ground arith, refl)
  ]

  FedBy : List (List ℕ) → ℕ → ℕ → S → Result (Fed S) → Type 0
  FedBy parts size before session result =
      (fed : Fed S)
      → result ≡ ok fed
      → (sum fed.deltas ≡ before + size) × (feed_each parts session ≡ ok fed.session)

  feed_parts-FedBy :
      (chunk : List ℕ) (parts : List (ℕ × ℕ)) (unreported : ℕ) (fed : Fed S)
      → FedBy
          (map (slice chunk) parts)
          (sizes parts)
          (sum fed.deltas + unreported)
          fed.session
          (feed_parts feed chunk parts unreported fed)
  unfolding FedBy feed_parts
  feed_parts-FedBy chunk [] unreported fed last h =
      let same : last_report feed unreported fed ≡ last = cc in
      let (d, r) = last_report-sum unreported fed in rw (← same) (omega (arith, d), ap ok (sym r))
  feed_parts-FedBy chunk ((s, e) ∷ parts) unreported fed last h =
      elim (Result-cases (feed (slice chunk (s, e)) fed.session)) [
        | inr (x, p) ↦ let failed = rw p at h in cc
        | inl (session, p) ↦
            let fed_one = rw p at h in
            elim (Bool-cases (leb upload_progress_report_interval_bytes (unreported + (e - s)))) [
              | inl q ↦
                  let (d, r) =
                    feed_parts-FedBy chunk parts 0
                      (record {
                        session = session;
                        deltas = fed.deltas ++ (unreported + (e - s)) ∷ [];
                      })
                      last (rw q at fed_one) in
                  rw p (omega (arith, d, sum-append fed.deltas ((unreported + (e - s)) ∷ [])), r)
              | inr q ↦
                  let (d, r) =
                    feed_parts-FedBy chunk parts (unreported + (e - s))
                      (record { session = session; deltas = fed.deltas }) last (rw q at fed_one) in
                  rw p (omega (arith, d), r)
            ]
      ]

  -- When a slice has been fed to the session, the session was fed with parts of at most 256 KiB that
  -- are, one after the other, the slice; and the deltas that were reported add up to its length.
  pub feed-whole_chunk :
      (chunk : List ℕ) (session : S) (fed : Fed S)
      → feed_upload_session_with_yield feed chunk session ≡ ok fed
      → (parts : List (List ℕ)) × (flatten parts ≡ chunk)
        × All (λ part. length part ≤ upload_feed_yield_chunk_bytes) parts
        × (feed_each parts session ≡ ok fed.session)
        × (sum fed.deltas ≡ length chunk)
  unfolding feed_upload_session_with_yield FedBy
  feed-whole_chunk chunk session fed h =
      let n = length chunk in
      let step = upload_feed_yield_chunk_bytes in
      let parts = pieces step (suc n) 0 n in
      let tiles = pieces-Tiles step (suc n) 0 n (omega arith) (omega arith) (omega arith) in
      let (d, r) =
        feed_parts-FedBy chunk parts 0 (record { session = session; deltas = [] }) fed h in
      (
        map (slice chunk) parts,
        flatten-slices chunk (AtMost step) 0 n parts tiles ∙ whole_slice chunk,
        small_slices step 0 n chunk parts tiles,
        r,
        omega (arith, d, sizes-Tiles (AtMost step) 0 n parts tiles),
      )
