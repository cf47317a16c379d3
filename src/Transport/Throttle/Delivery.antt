-- ===== src/Transport/Throttle/Delivery.antt =====
-- No progress is lost: a pending report has a timer, whose callback delivers it.
use c_stateless_relay_tran.Base.{
  ℕ, ◌≡◌, ◌≢◌, ◌⊎◌, refl, inl, inr, Option, none, some, List, [], ◌∷◌, ◌++◌, arith, ◌∙◌,
  Option-cases, Bool-cases, leb,
}
use c_stateless_relay_tran.Transport.Put.{ByteTransferProgress}
use c_stateless_relay_tran.Transport.Throttle.{Throttle, fresh, flush, on_progress, on_timer}

pub data Event : Type 0 where
  progress : ℕ → ByteTransferProgress → Event
  fires : ℕ → Event

unfoldable pub step : ℕ → Throttle → Event → Throttle
unfolding on_progress on_timer
step interval t (progress now p) = on_progress interval now p t
step interval t (fires now) = on_timer now t

unfoldable pub run : ℕ → Throttle → List Event → Throttle
unfolding step
run interval t [] = t
run interval t (e ∷ es) = run interval (step interval t e) es

-- The newest report of a history, if there is one.
abbrev pub newest : Option ByteTransferProgress → List Event → Option ByteTransferProgress
newest last [] = last
newest last (progress now p ∷ es) = newest (some p) es
newest last (fires now ∷ es) = newest last es

abbrev pub last_emitted : List (ℕ × ByteTransferProgress) → Option ByteTransferProgress
last_emitted [] = none
last_emitted ((_, p) ∷ []) = some p
last_emitted (_ ∷ e ∷ es) = last_emitted (e ∷ es)

-- What the listener will have seen last once the timer, if any, has fired.
abbrev pub seen_last : Throttle → Option ByteTransferProgress
seen_last t = elim t.pending [ none ↦ last_emitted t.emitted | some p ↦ some p ]

pub record IsTimed (t : Throttle) (last : Option ByteTransferProgress) : Type 0 where
  pub timed : (t.pending ≡ none) ⊎ (t.timer ≢ none)
  pub current : seen_last t ≡ last

last_emitted-append :
    (es : List (ℕ × ByteTransferProgress)) (now : ℕ) (p : ByteTransferProgress)
    → last_emitted (es ++ (now, p) ∷ []) ≡ some p
last_emitted-append [] now p = refl
last_emitted-append (e ∷ []) now p = refl
last_emitted-append (e ∷ f ∷ es) now p = last_emitted-append (f ∷ es) now p

progress-IsTimed :
    (interval now : ℕ) (p : ByteTransferProgress) (t : Throttle)
    (last : Option ByteTransferProgress)
    → IsTimed t last
    → IsTimed (on_progress interval now p t) (some p)
unfolding on_progress
progress-IsTimed interval now p t last h = record {
  timed = ground arith;
  current = ground (arith, last_emitted-append t.emitted now p);
}

seen_last-flush : (now : ℕ) (t : Throttle) → seen_last (flush now t) ≡ seen_last t
unfolding flush
seen_last-flush now t = elim (Option-cases t.pending) [
  | inl e ↦ ground arith
  | inr (p, e) ↦ ground (arith, last_emitted-append t.emitted now p)
]

pending-flush : (now : ℕ) (t : Throttle) → (flush now t).pending ≡ none
unfolding flush
pending-flush now t = ground arith

flush-IsTimed :
    (now : ℕ) (t : Throttle) (timer : Option ℕ) (last : Option ByteTransferProgress)
    → IsTimed t last
    → IsTimed (flush now (record t { timer = timer })) last
flush-IsTimed now t timer last h = record {
  timed = inl (pending-flush now (record t { timer = timer }));
  current = seen_last-flush now (record t { timer = timer }) ∙ h.current;
}

timer-IsTimed :
    (now : ℕ) (t : Throttle) (last : Option ByteTransferProgress)
    → IsTimed t last
    → IsTimed (on_timer now t) last
unfolding on_timer
timer-IsTimed now t last h = elim (Option-cases t.timer) [
  | inl e ↦ rw (e, on_timer) h
  | inr (due, e) ↦ elim (Bool-cases (leb due now)) [
    | inl late ↦ rw (e, on_timer) (rw late (flush-IsTimed now t none last h))
    | inr early ↦ rw (e, on_timer) (rw early h)
  ]
]

step-IsTimed :
    (interval : ℕ) (t : Throttle) (e : Event) (last : Option ByteTransferProgress)
    → IsTimed t last
    → IsTimed (step interval t e) (newest last (e ∷ []))
unfolding step
step-IsTimed interval t (progress now p) last h = progress-IsTimed interval now p t last h
step-IsTimed interval t (fires now) last h = timer-IsTimed now t last h

run-IsTimed :
    (interval : ℕ) (es : List Event) (t : Throttle) (last : Option ByteTransferProgress)
    → IsTimed t last
    → IsTimed (run interval t es) (newest last es)
unfolding run
run-IsTimed interval [] t last h = h
run-IsTimed interval (progress now p ∷ es) t last h =
    run-IsTimed interval es (step interval t (progress now p)) (some p)
      (step-IsTimed interval t (progress now p) last h)
run-IsTimed interval (fires now ∷ es) t last h =
    run-IsTimed interval es (step interval t (fires now)) last
      (step-IsTimed interval t (fires now) last h)

-- After any reports and timer callbacks, in any order and at any times: what the listener saw last,
-- or the report that is still pending, is the newest report; and a pending report has a timer set.
pub run-fresh-IsTimed :
    (interval : ℕ) (es : List Event) → IsTimed (run interval fresh es) (newest none es)
run-fresh-IsTimed interval es =
    run-IsTimed interval es fresh none (record { timed = inl refl; current = refl })
