-- ===== src/Transport/Meter/Lanes.antt =====
-- A lane never shows more than its known total, and never goes back while its total stands.
use c_stateless_relay_tran.Base.{
  ℕ, ◌≤◌, ◌≡◌, ◌⊎◌, refl, inl, inr, false, String, Option, none, some, List, [], ◌∷◌, arith,
  Option-cases, str_eq-cases, ◌∙◌,
}
use text.Mathlib.Text.{◌==◌ as str_eq}
use c_stateless_relay_tran.Base.StringMap
use c_stateless_relay_tran.Base.StringMap.{map_laws, get-set, get-delete}
use c_stateless_relay_tran.Transport.Meter.{
  Lane, Lanes, begin, set_total, set_transferred, end, with_total, with_transferred, update_lane,
}

-- A lane with a known total is within it.
abbrev pub IsCapped : Lane → Type 0
IsCapped lane = (lane.total ≡ 0) ⊎ (lane.transferred ≤ lane.total)

abbrev pub AllCapped : Lanes → Type 0
AllCapped [] = Unit {0}
AllCapped ((_, lane) ∷ lanes) = IsCapped lane × AllCapped lanes

pub data Update : Type 0 where
  begins sets_total sets_transferred : String → ℕ → Update
  ends : String → Update

unfoldable pub apply : Update → Lanes → Lanes
unfolding begin set_total set_transferred end
apply (begins lane_id n) lanes = begin lane_id n lanes
apply (sets_total lane_id n) lanes = set_total lane_id n lanes
apply (sets_transferred lane_id n) lanes = set_transferred lane_id n lanes
apply (ends lane_id) lanes = end lane_id lanes

unfoldable pub apply_all : List Update → Lanes → Lanes
unfolding apply
apply_all [] lanes = lanes
apply_all (u ∷ us) lanes = apply_all us (apply u lanes)

set-AllCapped :
    (k : String) (lane : Lane) (lanes : Lanes)
    → IsCapped lane
    → AllCapped lanes
    → AllCapped (StringMap.set k lane lanes)
unfolding StringMap.set
set-AllCapped k lane [] c h = (c, tt)
set-AllCapped k lane ((j, l) ∷ lanes) c h = ground (arith, set-AllCapped k lane lanes c)

delete-AllCapped :
    (k : String) (lanes : Lanes) → AllCapped lanes → AllCapped (StringMap.delete k lanes)
unfolding StringMap.delete
delete-AllCapped k [] h = tt
delete-AllCapped k ((j, l) ∷ lanes) h = ground (arith, delete-AllCapped k lanes)

get-IsCapped :
    (k : String) (lane : Lane) (lanes : Lanes)
    → AllCapped lanes
    → StringMap.get k lanes ≡ some lane
    → IsCapped lane
unfolding StringMap.get
get-IsCapped k lane [] h e = cc
get-IsCapped k lane ((j, l) ∷ lanes) h e = ground (arith, get-IsCapped k lane lanes)

with_total-IsCapped : (n : ℕ) (lane : Lane) → IsCapped (with_total n lane)
with_total-IsCapped n lane = ground arith

with_transferred-IsCapped :
    (n : ℕ) (lane : Lane) → IsCapped lane → IsCapped (with_transferred n lane)
with_transferred-IsCapped n lane h = ground arith

update-AllCapped :
    (f : Lane → Lane) (k : String) (lanes : Lanes)
    → ((lane : Lane) → IsCapped lane → IsCapped (f lane))
    → AllCapped lanes
    → AllCapped (update_lane f k lanes (StringMap.get k lanes))
unfolding update_lane
update-AllCapped f k lanes keep h = elim (Option-cases (StringMap.get k lanes)) [
  | inl e ↦ rw (e, update_lane) h
  | inr (lane, e) ↦
      rw (e, update_lane)
        (set-AllCapped k (f lane) lanes (keep lane (get-IsCapped k lane lanes h e)) h)
]

apply-AllCapped : (u : Update) (lanes : Lanes) → AllCapped lanes → AllCapped (apply u lanes)
unfolding apply
apply-AllCapped (begins k n) lanes h = set-AllCapped k _ lanes (omega arith) h
apply-AllCapped (sets_total k n) lanes h =
    update-AllCapped (with_total n) k lanes (λ lane _. with_total-IsCapped n lane) h
apply-AllCapped (sets_transferred k n) lanes h =
    update-AllCapped (with_transferred n) k lanes (with_transferred-IsCapped n) h
apply-AllCapped (ends k) lanes h = delete-AllCapped k lanes h

-- Whatever is done with a fresh meter, every lane whose total is known shows at most that total.
pub apply_all-AllCapped :
    (us : List Update) (lanes : Lanes) → AllCapped lanes → AllCapped (apply_all us lanes)
unfolding apply_all
apply_all-AllCapped [] lanes h = h
apply_all-AllCapped (u ∷ us) lanes h =
    apply_all-AllCapped us (apply u lanes) (apply-AllCapped u lanes h)

update-other :
    (f : Lane → Lane) (k j : String) (lanes : Lanes) (o : Option Lane)
    → str_eq k j ≡ false
    → StringMap.get j (update_lane f k lanes o) ≡ StringMap.get j lanes
unfolding update_lane
update-other f k j lanes none h = refl
update-other f k j lanes (some lane) h = simp get-set (rw h)

-- A progress report moves its own lane forward, never back, keeps its total, and leaves the other
-- lanes alone.
pub set_transferred_forward :
    (k j : String) (n : ℕ) (lanes : Lanes) (lane : Lane)
    → StringMap.get j lanes ≡ some lane
    → (after : Lane) × (StringMap.get j (set_transferred k n lanes) ≡ some after)
      × (after.total ≡ lane.total)
      × (lane.transferred ≤ after.transferred)
      × ((k ≡ j) ⊎ (after.transferred ≡ lane.transferred))
unfolding set_transferred
set_transferred_forward k j n lanes lane e = elim (str_eq-cases k j) [
  | inl (eq, p) ↦
      let here : StringMap.get k lanes ≡ some lane = rw p e in
      (
        with_transferred n lane,
        rw (here, update_lane) (rw (get-set k j (with_transferred n lane) lanes) (rw eq)),
        ground arith,
        ground arith,
        inl p,
      )
  | inr (ne, _) ↦ (lane, update-other _ k j lanes _ ne ∙ e, refl, omega arith, inr refl)
]
