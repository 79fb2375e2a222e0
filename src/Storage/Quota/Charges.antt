-- ===== src/Storage/Quota/Charges.antt =====
-- What the references to a row charge to its counter, and how the counter follows them.
use velodex.Prelude.{ℕ, ◌+◌, ◌-◌, ◌≡◌, ◌≤◌, ◌<◌, arith, ltb, ◌==◌, nat_eq, if◌then◌else◌}
use velodex.Prelude.Results.{ok}
use velodex.Storage.Quota.Model.{
  QuotaValue, References, QuotaReservationState, reserved, committed, u64_max, wrapping_sub, total,
  commit_counter, release_counter,
}

-- One side of a counter.
abbrev pub side : QuotaReservationState → QuotaValue → ℕ
side committed v = v.committed
side reserved v = v.reserved

-- A row is charged once: as committed if a committed allocation refers to it, and as reserved if only
-- pending ones do.
abbrev pub charge : References → ℕ → QuotaValue
charge references amount =
    if ltb 0 references.committed
    then record { committed = amount; reserved = 0 }
    else if ltb 0 references.reserved
    then record { committed = 0; reserved = amount }
    else record { committed = 0; reserved = 0 }

abbrev pub Fits : QuotaValue → Type 0
Fits v = v.committed + v.reserved ≤ u64_max

-- The counter holds at least what the row is charged.
abbrev pub Holds : QuotaValue → QuotaValue → Type 0
Holds value part = (part.committed ≤ value.committed) × (part.reserved ≤ value.reserved)

-- `new` is `old` with one part replaced by another.
abbrev pub Exchanges : QuotaValue → QuotaValue → QuotaValue → QuotaValue → Type 0
Exchanges old new part part' =
    (new.committed + part.committed ≡ old.committed + part'.committed)
    × (new.reserved + part.reserved ≡ old.reserved + part'.reserved)

pub wrapping_sub_lem : (a b : ℕ) → b ≤ a → a ≤ u64_max → wrapping_sub a b ≡ a - b
unfolding wrapping_sub
wrapping_sub_lem a b h k = omega arith

pub total_lem : (v : QuotaValue) → Fits v → total v ≡ v.committed + v.reserved
unfolding total
total_lem v f = ground arith

-- The references of a row with one reservation fewer and one commit more.
abbrev pub committed_once : References → References
committed_once r = record { committed = r.committed + 1; reserved = r.reserved - 1 }

abbrev pub released_once : References → QuotaReservationState → References
released_once r committed = record { committed = r.committed - 1; reserved = r.reserved }
released_once r reserved = record { committed = r.committed; reserved = r.reserved - 1 }

abbrev pub committed_value : QuotaValue → References → ℕ → QuotaValue
committed_value v r amount =
    if r.committed == 0
    then record { committed = v.committed + amount; reserved = v.reserved - amount }
    else v

abbrev pub released_value : QuotaValue → References → QuotaReservationState → ℕ → QuotaValue
released_value v r reserved amount =
    if r.committed + r.reserved == 1
    then record { committed = v.committed; reserved = v.reserved - amount }
    else v
released_value v r committed amount =
    if r.committed + r.reserved == 1
    then record { committed = v.committed - amount; reserved = v.reserved }
    else if r.committed == 1
    then record { committed = v.committed - amount; reserved = v.reserved + amount }
    else v

module _ (v : QuotaValue) (r : References) (amount : ℕ) (vf : Fits v) (rf : Fits r)
    (h : Holds v (charge r amount)) where
  -- A commit never overflows, and moves the charge from the reserved to the committed side.
  pub commit_counter_lem :
      0 < r.reserved → commit_counter v r amount ≡ ok (committed_value v r amount, committed_once r)
  unfolding commit_counter
  commit_counter_lem pending =
      ground (arith, wrapping_sub_lem v.reserved amount, wrapping_sub_lem r.reserved 1)

  pub commit-Exchanges :
      0 < r.reserved
      → Exchanges v
          (committed_value v r amount)
          (charge r amount)
          (charge (committed_once r) amount)
  commit-Exchanges pending = ground arith

  -- Nor does a release.
  pub release_counter_lem :
      (s : QuotaReservationState)
      → 0 < side s r
      → release_counter v r s amount ≡ ok (released_value v r s amount, released_once r s)
  unfolding release_counter
  release_counter_lem reserved held =
      ground (arith, wrapping_sub_lem v.reserved amount, wrapping_sub_lem r.reserved 1)
  release_counter_lem committed held =
      ground (arith, wrapping_sub_lem v.committed amount, wrapping_sub_lem r.committed 1)

  pub release-Exchanges :
      (s : QuotaReservationState)
      → 0 < side s r
      → Exchanges v
          (released_value v r s amount)
          (charge r amount)
          (charge (released_once r s) amount)
  release-Exchanges reserved held = ground arith
  release-Exchanges committed held = ground arith

  -- Both keep within the bounds of a `u64`.
  pub commit-Fits : 0 < r.reserved → Fits (committed_value v r amount) × Fits (committed_once r)
  commit-Fits pending = ground arith

  pub release-Fits :
      (s : QuotaReservationState)
      → 0 < side s r
      → Fits (released_value v r s amount) × Fits (released_once r s)
  release-Fits reserved held = ground arith
  release-Fits committed held = ground arith
