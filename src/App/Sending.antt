-- ===== src/App/Sending.antt =====
-- sendFile of client/app/src/upload/send-file.ts: an upload whose tokens are occupied is tried again with
-- another credential. The generation of a credential in the default style, the upload of the file and
-- the callback are parameters over a world.
use c_stateless_relay_tran.Base.{
  ℕ, zero, suc, ◌+◌, ◌<◌, ◌≡◌, ◌⊎◌, inl, inr, refl, ◌==◌, Bool-cases, if◌then◌else◌, String, Option,
  none, some, List, [], Result, ok, err, Thrown, error, tokens_occupied, reservation_exhausted,
  OccupiedTokenInfo, arith, Option-cases,
}

abbrev pub default_max_reservation_attempts : ℕ
default_max_reservation_attempts = 5

pub record ReservationRetry : Type 0 where
  pub attempt : ℕ
  pub max_attempts : ℕ
  pub occupied_tokens : List OccupiedTokenInfo

-- error instanceof RegistryTokenOccupiedError
abbrev pub occupied_of : Thrown → Option (List OccupiedTokenInfo)
occupied_of (tokens_occupied occupied) = some occupied
occupied_of _ = none

abbrev attempts_or_default : Option ℕ → ℕ
attempts_or_default none = default_max_reservation_attempts
attempts_or_default (some n) = n

-- SendFileResult: the credential with what uploadFile gives.
abbrev pub Sent : Type 0 → Type 0
Sent A = String × A

module _ {W A : Type 0} (generate_credential : W → String × W)
    (upload_file : String → W → Result A × W)
    (on_reservation_retry : ReservationRetry → W → W) where
  after_upload :
      (ℕ → List OccupiedTokenInfo → W → Result (Sent A) × W)
      → ℕ
      → ℕ
      → String
      → Result A × W
      → Result (Sent A) × W
  after_upload again max_attempts attempt credential (ok sent, w) = (ok (credential, sent), w)
  after_upload again max_attempts attempt credential (err e, w) = elim (occupied_of e) [
    | none ↦ (err e, w)
    | some occupied ↦ again (suc attempt) occupied (
        on_reservation_retry
          (record { attempt = attempt; max_attempts = max_attempts; occupied_tokens = occupied }) w)
  ]

  -- The n attempts from the one numbered `attempt` on.
  unfoldable pub send_from : ℕ → ℕ → ℕ → List OccupiedTokenInfo → W → Result (Sent A) × W
  unfolding after_upload
  send_from zero max_attempts attempt last_occupied w =
      (err (reservation_exhausted max_attempts last_occupied), w)
  send_from (suc n) max_attempts attempt last_occupied w =
      let (credential, generated) = generate_credential w in
      after_upload (send_from n max_attempts) max_attempts attempt credential
        (upload_file credential generated)

  unfoldable pub send_file : Option ℕ → W → Result (Sent A) × W
  unfolding send_from
  send_file max_reservation_attempts w =
      let max_attempts = attempts_or_default max_reservation_attempts in
      if max_attempts == 0
      then (err (error "maxReservationAttempts must be greater than zero"), w)
      else send_from max_attempts max_attempts 1 [] w

  -- One attempt, with the credential that it generates.
  abbrev credential_at : W → String
  credential_at w = (generate_credential w).0

  abbrev upload_at : W → Result A × W
  upload_at w = upload_file (credential_at w) (generate_credential w).1

  -- From the world w, k attempts are refused because tokens are occupied, the last one with the given
  -- tokens, and leave the second world.
  abbrev pub Refused : ℕ → ℕ → ℕ → List OccupiedTokenInfo → W → List OccupiedTokenInfo → W → Type 0
  Refused max_attempts attempt zero before w occupied after = (before ≡ occupied) × (w ≡ after)
  Refused max_attempts attempt (suc k) before w occupied after =
      (e : Thrown) × (now : List OccupiedTokenInfo) × ((upload_at w).0 ≡ err e)
      × (occupied_of e ≡ some now)
      × Refused max_attempts (suc attempt) k now
          (on_reservation_retry
            (record { attempt = attempt; max_attempts = max_attempts; occupied_tokens = now })
            (upload_at w).1)
          occupied after

  -- What is returned after the refused attempts: the file that the next attempt sends with its own
  -- credential, what else it throws, or, after all attempts, that the reservation has failed.
  abbrev pub Settles : ℕ → ℕ → List OccupiedTokenInfo → W → Result (Sent A) → Type 0
  Settles max_attempts left occupied w result =
      ((sent : A) × (0 < left)
        × ((upload_at w).0 ≡ ok sent)
        × (result ≡ ok (credential_at w, sent)))
      ⊎ (((e : Thrown) × (0 < left)
            × ((upload_at w).0 ≡ err e)
            × (occupied_of e ≡ none)
            × (result ≡ err e))
          ⊎ ((left ≡ 0) × (result ≡ err (reservation_exhausted max_attempts occupied))))

  abbrev pub SendEnds : ℕ → ℕ → ℕ → List OccupiedTokenInfo → W → Result (Sent A) → Type 0
  SendEnds n max_attempts attempt before w result =
      (k : ℕ) × (left : ℕ) × (occupied : List OccupiedTokenInfo) × (after : W) × (k + left ≡ n)
      × Refused max_attempts attempt k before w occupied after
      × Settles max_attempts left occupied after result

  upload-SendEnds :
      (n max_attempts attempt : ℕ) (before : List OccupiedTokenInfo) (w : W) (r : Result A)
      → (upload_at w).0 ≡ r
      → ((attempt : ℕ) (before : List OccupiedTokenInfo) (w : W)
          → SendEnds n max_attempts attempt before w (send_from n max_attempts attempt before w).0)
      → SendEnds
          (suc n)
          max_attempts
          attempt
          before
          w
          (after_upload
            (send_from n max_attempts)
            max_attempts
            attempt
            (credential_at w)
            (r, (upload_at w).1)).0
  unfolding after_upload
  upload-SendEnds n max_attempts attempt before w (ok sent) e again =
      (0, suc n, before, w, omega arith, (refl, refl), inl (sent, omega arith, e, refl))
  upload-SendEnds n max_attempts attempt before w (err x) e again =
      elim (Option-cases (occupied_of x)) [
        | inl p ↦
            rw (p, after_upload)
              (
                0,
                suc n,
                before,
                w,
                omega arith,
                (refl, refl),
                inr (inl (x, omega arith, e, p, refl)),
              )
        | inr (now, p) ↦
            let next =
              on_reservation_retry
                (record { attempt = attempt; max_attempts = max_attempts; occupied_tokens = now })
                (upload_at w).1 in
            let (k, left, occupied, after, count, refused, settles) =
              again (suc attempt) now next in
            rw (p, after_upload)
              (suc k, left, occupied, after, omega arith, (x, now, e, p, refused), settles)
      ]

  send_from-SendEnds :
      (n max_attempts attempt : ℕ) (before : List OccupiedTokenInfo) (w : W)
      → SendEnds n max_attempts attempt before w (send_from n max_attempts attempt before w).0
  unfolding send_from
  send_from-SendEnds zero max_attempts attempt before w =
      (0, 0, before, w, refl, (refl, refl), inr (inr (refl, refl)))
  send_from-SendEnds (suc n) max_attempts attempt before w =
      upload-SendEnds n max_attempts attempt before w (upload_at w).0 refl
        (send_from-SendEnds n max_attempts)

  -- With a positive number of attempts, sending ends after k of them were refused because tokens are
  -- occupied, each with the credential that it generated itself: the next attempt sends the file, and
  -- its credential is returned with it; or it throws something else, which is passed on; or none is
  -- left, and what is thrown names the number of attempts and the tokens occupied at the last one.
  pub send_file-SendEnds :
      (max_attempts : ℕ) (w : W)
      → 0 < max_attempts
      → SendEnds max_attempts max_attempts 1 [] w (send_file (some max_attempts) w).0
  unfolding send_file
  send_file-SendEnds max_attempts w some_at_all = elim (Bool-cases (max_attempts == 0)) [
    | inl none_at_all ↦ absurd (ground (arith, none_at_all))
    | inr enough ↦ rw enough (send_from-SendEnds max_attempts max_attempts 1 [] w)
  ]
