-- ===== src/Storage/Quota/Change.antt =====
-- The two changes of a stored reservation, its commit and its release, under one interface.
use velodex.Prelude.{
  ℕ, ◌+◌, ◌-◌, ◌≤◌, ◌<◌, ◌≡◌, ap, Bool, true, false, Option, none, some, arith, ◌==◌, list_eq,
  nat_eq, if◌then◌else◌, is_some_and,
}
use velodex.Prelude.Results.{ok}
use velodex.Storage.Quota.Model.{
  QuotaValue, References, QuotaReservationState, reserved, committed, state_eq, transition_counter,
  move_value, subtract_value, checked_add,
}
use velodex.Storage.Quota.Charges.{
  side, charge, Fits, Holds, Exchanges, committed_once, released_once, committed_value,
  released_value, wrapping_sub_lem, commit_counter_lem, release_counter_lem, commit-Exchanges,
  release-Exchanges, commit-Fits, release-Fits,
}

-- One count, on the side of a state that the reservation may have.
abbrev pub hit : Option QuotaReservationState → QuotaReservationState → ℕ → ℕ
hit o s amount = if is_some_and (λ x. x == s) o then amount else 0

-- A change of a reservation in state `s`, to the state `new_state` or to nothing.
pub record Change (s : QuotaReservationState) (commit : Bool)
    (new_state : Option QuotaReservationState) : Type 0 where
  pub next_refs : References → References
  pub next_value : QuotaValue → References → ℕ → QuotaValue
  pub next_file : QuotaValue → ℕ → QuotaValue
  pub counter :
      (v : QuotaValue) (r : References) (amount : ℕ)
      → Fits v
      → Fits r
      → Holds v (charge r amount)
      → 0 < side s r
      → transition_counter v r s amount commit ≡ ok (next_value v r amount, next_refs r)
  pub exchanges :
      (v : QuotaValue) (r : References) (amount : ℕ)
      → Fits v
      → Fits r
      → Holds v (charge r amount)
      → 0 < side s r
      → Exchanges v (next_value v r amount) (charge r amount) (charge (next_refs r) amount)
  pub fits :
      (v : QuotaValue) (r : References) (amount : ℕ)
      → Fits v
      → Fits r
      → Holds v (charge r amount)
      → 0 < side s r
      → Fits (next_value v r amount) × Fits (next_refs r)
  pub refs_side :
      (r : References) (x : QuotaReservationState)
      → 0 < side s r
      → side x (next_refs r) + hit (some s) x 1 ≡ side x r + hit new_state x 1
  pub file :
      (v : QuotaValue) (amount : ℕ)
      → Fits v
      → amount ≤ side s v
      → (if commit then move_value v amount else ok (subtract_value v s amount))
        ≡ ok (next_file v amount)
  pub file_fits :
      (v : QuotaValue) (amount : ℕ) → Fits v → amount ≤ side s v → Fits (next_file v amount)
  pub file_side :
      (v : QuotaValue) (amount : ℕ) (x : QuotaReservationState)
      → amount ≤ side s v
      → side x (next_file v amount) + hit (some s) x amount ≡ side x v + hit new_state x amount

commit_refs_side :
    (r : References) (x : QuotaReservationState)
    → 0 < r.reserved
    → side x (committed_once r) + hit (some reserved) x 1 ≡ side x r + hit (some committed) x 1
commit_refs_side r reserved h = omega arith
commit_refs_side r committed h = omega arith

moved_file : QuotaValue → ℕ → QuotaValue
moved_file v amount = record { committed = v.committed + amount; reserved = v.reserved - amount }

commit_file :
    (v : QuotaValue) (amount : ℕ)
    → Fits v
    → amount ≤ v.reserved
    → move_value v amount ≡ ok (moved_file v amount)
unfolding move_value moved_file checked_add
commit_file v amount f h = ground (arith, wrapping_sub_lem v.reserved amount)

commit_file_side :
    (v : QuotaValue) (amount : ℕ) (x : QuotaReservationState)
    → amount ≤ v.reserved
    → side x (moved_file v amount) + hit (some reserved) x amount
      ≡ side x v + hit (some committed) x amount
unfolding moved_file
commit_file_side v amount reserved h = omega arith
commit_file_side v amount committed h = omega arith

commit_file-Fits :
    (v : QuotaValue) (amount : ℕ) → Fits v → amount ≤ v.reserved → Fits (moved_file v amount)
unfolding moved_file
commit_file-Fits v amount f h = omega arith

pub commit-Change : Change reserved true (some committed)
unfolding transition_counter
commit-Change = record {
  next_refs = committed_once;
  next_value = committed_value;
  next_file = moved_file;
  counter = λ v r amount vf rf h pending. commit_counter_lem v r amount vf rf h pending;
  exchanges = λ v r amount vf rf h pending. commit-Exchanges v r amount vf rf h pending;
  fits = λ v r amount vf rf h pending. commit-Fits v r amount vf rf h pending;
  refs_side = commit_refs_side;
  file = commit_file;
  file_fits = commit_file-Fits;
  file_side = commit_file_side;
}

release_refs_side :
    (s : QuotaReservationState) (r : References) (x : QuotaReservationState)
    → 0 < side s r
    → side x (released_once r s) + hit (some s) x 1 ≡ side x r + hit none x 1
release_refs_side reserved r reserved h = omega arith
release_refs_side reserved r committed h = omega arith
release_refs_side committed r reserved h = omega arith
release_refs_side committed r committed h = omega arith

dropped_file : QuotaReservationState → QuotaValue → ℕ → QuotaValue
dropped_file reserved v amount = record { committed = v.committed; reserved = v.reserved - amount }
dropped_file committed v amount = record { committed = v.committed - amount; reserved = v.reserved }

release_file :
    (s : QuotaReservationState) (v : QuotaValue) (amount : ℕ)
    → Fits v
    → amount ≤ side s v
    → subtract_value v s amount ≡ dropped_file s v amount
unfolding subtract_value dropped_file
release_file reserved v amount f h =
    let e = wrapping_sub_lem v.reserved amount h (omega arith) in
    λ i. record { committed = v.committed; reserved = e i }
release_file committed v amount f h =
    let e = wrapping_sub_lem v.committed amount h (omega arith) in
    λ i. record { committed = e i; reserved = v.reserved }

release_file_side :
    (s : QuotaReservationState) (v : QuotaValue) (amount : ℕ) (x : QuotaReservationState)
    → amount ≤ side s v
    → side x (dropped_file s v amount) + hit (some s) x amount ≡ side x v + hit none x amount
unfolding dropped_file
release_file_side reserved v amount reserved h = omega arith
release_file_side reserved v amount committed h = omega arith
release_file_side committed v amount reserved h = omega arith
release_file_side committed v amount committed h = omega arith

release_file-Fits :
    (s : QuotaReservationState) (v : QuotaValue) (amount : ℕ)
    → Fits v
    → amount ≤ side s v
    → Fits (dropped_file s v amount)
unfolding dropped_file
release_file-Fits reserved v amount f h = omega arith
release_file-Fits committed v amount f h = omega arith

pub release-Change : (s : QuotaReservationState) → Change s false none
unfolding transition_counter
release-Change s = record {
  next_refs = λ r. released_once r s;
  next_value = λ v r amount. released_value v r s amount;
  next_file = dropped_file s;
  counter = λ v r amount vf rf h held. release_counter_lem v r amount vf rf h s held;
  exchanges = λ v r amount vf rf h held. release-Exchanges v r amount vf rf h s held;
  fits = λ v r amount vf rf h held. release-Fits v r amount vf rf h s held;
  refs_side = release_refs_side s;
  file = λ v amount f h. ap ok (release_file s v amount f h);
  file_fits = release_file-Fits s;
  file_side = release_file_side s;
}
