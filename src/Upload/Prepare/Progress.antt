-- ===== src/Upload/Prepare/Progress.antt =====
-- The progress that a preparation on the main thread reports.
use c_stateless_relay_tran.Base.{
  ℕ, zero, suc, ◌+◌, ◌≤◌, ◌<◌, ◌≡◌, refl, ap, ◌==◌, if◌then◌else◌, List, [], ◌∷◌, ◌++◌, length,
  flatten, length-append, Result, ok, ◌>>=◌, arith, All, All-append, Result-cases, Bool-cases, inl,
  inr,
}
use c_stateless_relay_tran.Base.Number.{whole}
use c_stateless_relay_tran.Policy.Segment.{
  is_v2_whole_file_segment_code, decode_segment_plaintext_bytes_v21,
  count_gcm_segments_for_file_size,
}
use c_stateless_relay_tran.Policy.Segment.Coverage.{segments_cover}
use c_stateless_relay_tran.Upload.Reading.{
  read_file_by_gcm_segments, feed_upload_session_with_yield,
}
use c_stateless_relay_tran.Upload.Reading.Tiling.{read-whole_file}
use c_stateless_relay_tran.Upload.Reading.Feeding.{sum, feed-whole_chunk}
use c_stateless_relay_tran.Upload.Blocks.{
  Preparing, Layout, Prepared, layout_of, segment_index, report_at, first_report, last_report,
  report_deltas, store_wire_blocks, store_wire_block,
}
use c_stateless_relay_tran.Upload.Prepare.{
  PrepareSession, encrypt_chunks, prepare_upload_streaming_on_main_thread,
}

-- A report that stays within the file and its segments.
abbrev pub Within : Layout → Preparing → Type 0
Within layout r =
    (r.bytes_fed ≤ layout.size)
    × (r.total_bytes ≡ layout.size)
    × (r.segment_index ≤ layout.segment_total)
    × (r.segment_total ≡ layout.segment_total)

segment_index_le :
    (layout : Layout) (n : ℕ)
    → 0 < layout.segment_total
    → segment_index layout n ≤ layout.segment_total
unfolding segment_index
segment_index_le layout n h = elim (Bool-cases layout.whole_file) [
  | inl p ↦ rw p (omega arith)
  | inr p ↦ rw p (omega arith)
]

deltas-Within :
    {S : Type 0} (layout : Layout) (deltas : List ℕ) (p : Prepared S)
    → 0 < layout.segment_total
    → p.bytes_fed + sum deltas ≤ layout.size
    → All (Within layout) p.reports
    → ((report_deltas layout deltas p).bytes_fed ≡ p.bytes_fed + sum deltas)
      × All (Within layout) (report_deltas layout deltas p).reports
unfolding report_deltas
deltas-Within layout [] p pos h reported = (omega arith, reported)
deltas-Within layout (delta ∷ deltas) p pos h reported =
    let (b, r) =
      deltas-Within layout deltas
        (record p {
          bytes_fed = p.bytes_fed + delta;
          reports =
              p.reports
              ++ report_at layout (p.bytes_fed + delta) (segment_index layout (p.bytes_fed + delta))
                ∷ [];
        })
        pos (omega arith)
        (All-append (Within layout) p.reports _ reported
          ((omega arith, refl, segment_index_le layout (p.bytes_fed + delta) pos, refl), tt)) in
    (omega (arith, b), r)

module _ {S : Type 0} (ops : PrepareSession S) (layout : Layout)
    (pos : 0 < layout.segment_total) where
  chunks-Within :
      (chunks : List (List ℕ)) (p last : Prepared S)
      → p.bytes_fed + length (flatten chunks) ≤ layout.size
      → All (Within layout) p.reports
      → encrypt_chunks ops layout chunks p ≡ ok last
      → (last.bytes_fed ≡ p.bytes_fed + length (flatten chunks)) × All (Within layout) last.reports
  unfolding encrypt_chunks
  chunks-Within [] p last h reported e =
      let same : p ≡ last = cc in rw (← same) (omega arith, reported)
  chunks-Within (chunk ∷ chunks) p last h reported e =
      elim (Result-cases (feed_upload_session_with_yield ops.feed chunk p.session)) [
        | inr (x, q) ↦ let failed = rw q at e in cc
        | inl (fed, q) ↦
            let rest = rw q at e in
            let (parts, whole_chunk, small, fed_with, deltas) =
              feed-whole_chunk ops.feed chunk p.session fed q in
            let (b, r) =
              deltas-Within layout fed.deltas p pos
                (omega (arith, deltas, length-append chunk (flatten chunks))) reported in
            let (c, t) =
              chunks-Within chunks
                (record (report_deltas layout fed.deltas p) {
                  session = (ops.take_ready_blocks fed.session).1;
                  uploads = store_wire_blocks p.uploads (ops.take_ready_blocks fed.session).0;
                })
                last (omega (arith, b, deltas, length-append chunk (flatten chunks))) r rest in
            (omega (arith, b, c, deltas, length-append chunk (flatten chunks)), t)
      ]

count_pos :
    (code size n : ℕ) → count_gcm_segments_for_file_size (whole size) (whole code) ≡ ok n → 0 < n
unfolding count_gcm_segments_for_file_size
count_pos code zero n h = ground arith
count_pos code (suc w) n h = elim (Bool-cases (is_v2_whole_file_segment_code (whole code))) [
  | inl p ↦ ground arith
  | inr p ↦ elim (Result-cases (decode_segment_plaintext_bytes_v21 (whole code))) [
    | inl (bytes, d) ↦ grind (arith, segments_cover w code bytes n d h)
    | inr (e, d) ↦ ground (arith, d)
  ]
]

layout_pos :
    (code size : ℕ) (layout : Layout)
    → layout_of code size ≡ ok layout
    → (0 < layout.segment_total) × (layout.size ≡ size)
unfolding layout_of
layout_pos code size layout h =
    elim (Result-cases (count_gcm_segments_for_file_size (whole size) (whole code))) [
      | inr (e, p) ↦ let failed = rw p at h in cc
      | inl (n, p) ↦
          let counted = rw p at h in
          let pos = count_pos code size n p in
          elim (Result-cases (
            if is_v2_whole_file_segment_code (whole code)
            then ok size
            else decode_segment_plaintext_bytes_v21 (whole code))) [
              | inr (e, q) ↦ let failed = rw q at counted in cc
              | inl (bytes, q) ↦
                  let made = rw q at counted in
                  let same : record {
                    whole_file = is_v2_whole_file_segment_code (whole code);
                    size = size;
                    segment_total = n;
                    segment_bytes = bytes;
                  }
                      ≡ layout =
                    cc in
                  rw (← same) (pos, refl)
            ]
    ]

first-Within : (layout : Layout) → 0 < layout.segment_total → Within layout (first_report layout)
unfolding first_report
first-Within layout pos = elim (Bool-cases (layout.size == 0)) [
  | inl p ↦ rw p (omega arith, refl, omega arith, refl)
  | inr p ↦ rw p (omega arith, refl, omega arith, refl)
]

last-Within : (layout : Layout) → Within layout (last_report layout)
unfolding last_report
last-Within layout = (omega arith, refl, omega arith, refl)

module _ {S : Type 0} (ops : PrepareSession S) where
  finish_value :
      (layout : Layout) (p last : Prepared S)
      → (ops.finalize p.session >>= λ token0. ok (record p {
        uploads = store_wire_block p.uploads token0;
        reports = p.reports ++ last_report layout ∷ [];
      }))
        ≡ ok last
      → (last.bytes_fed ≡ p.bytes_fed) × (last.reports ≡ p.reports ++ last_report layout ∷ [])
  finish_value layout p last h = elim (Result-cases (ops.finalize p.session)) [
    | inr (e, q) ↦ let failed = rw q at h in cc
    | inl (token0, q) ↦ let made = rw q at h in (cc, cc)
  ]

  -- When the main thread has prepared a file, all its bytes were fed; every report stays within the
  -- file and its segments, and the last one is that of the whole file.
  pub main_thread_progress :
      (create_session : Result S) (code : ℕ) (file : List ℕ) (p : Prepared S)
      → prepare_upload_streaming_on_main_thread ops create_session code file ≡ ok p
      → (layout : Layout) × (layout_of code (length file) ≡ ok layout)
        × (p.bytes_fed ≡ length file)
        × All (Within layout) p.reports
        × ((earlier : List Preparing) × (p.reports ≡ earlier ++ last_report layout ∷ []))
  unfolding prepare_upload_streaming_on_main_thread
  main_thread_progress create_session code file p h =
      elim (Result-cases (layout_of code (length file))) [
        | inr (e, q) ↦ let failed = rw q at h in cc
        | inl (layout, q) ↦ elim (Result-cases create_session) [
          | inr (e, r) ↦ let failed = rw (q, r) at h in cc
          | inl (session, r) ↦ elim (Result-cases (read_file_by_gcm_segments code file)) [
            | inr (e, t) ↦ let failed = rw (q, r, t) at h in cc
            | inl (chunks, t) ↦
                let started : Prepared S = record {
                  session = session;
                  uploads = [];
                  bytes_fed = 0;
                  reports = first_report layout ∷ [];
                } in
                elim (Result-cases (encrypt_chunks ops layout chunks started)) [
                  | inr (e, u) ↦ let failed = rw (q, r, t, u) at h in cc
                  | inl (fed, u) ↦
                      let finished = rw (q, r, t, u) at h in
                      let (pos, sized) = layout_pos code (length file) layout q in
                      let (b, last) = finish_value layout fed p finished in
                      let all_read = ap length (read-whole_file code file chunks t) in
                      let (c, within) =
                        chunks-Within ops layout pos chunks started fed (omega (arith, all_read))
                          (first-Within layout pos, tt) u in
                      (
                        layout,
                        q,
                        omega (arith, all_read, c, b),
                        rw last (
                            All-append (Within layout) fed.reports _ within
                              (last-Within layout, tt)),
                        (fed.reports, last),
                      )
                ]
          ]
        ]
      ]
