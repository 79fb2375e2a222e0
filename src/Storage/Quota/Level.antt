-- ===== src/Storage/Quota/Level.antt =====
-- One level of the accounting: rows with references (blobs, projects or versions), the reservations that
-- refer to them, and the counters that the rows are charged to.
use velodex.Prelude.{
  ℕ, ◌+◌, ◌≡◌, inl, inr, refl, ap, subst, Bool, false, ◌&&◌, Option, none, some, arith, Str, ◌==◌,
  list_eq, nat_eq, if◌then◌else◌, Bool-cases, is_some_and, get_or, list_beq_iff,
}
use velodex.Storage.Table.{weight_of, total}
use velodex.Storage.Quota.Model.{
  QuotaValue, References, QuotaReservationState, reserved, committed, state_eq,
  QuotaReservationRecord,
}
use velodex.Storage.Quota.Charges.{side, charge, Fits, Exchanges}
use velodex.Storage.Quota.Store.{Backend}

-- A reservation counts at a key on the side of its state.
abbrev pub counts :
    (QuotaReservationRecord → Option Str)
    → Str
    → QuotaReservationState
    → Str
    → QuotaReservationRecord
    → ℕ
counts row_key key s id rec =
    if is_some_and (λ k. k == key) (row_key rec) && (rec.state == s) then 1 else 0

-- What a row charges to the counter of a parent.
abbrev pub charges :
    {V : Type 0}
    → (V → References)
    → (V → ℕ)
    → (Str → Str → Bool)
    → Str
    → QuotaReservationState
    → Str
    → V
    → ℕ
charges refs_of amount_of belongs parent s key row =
    if belongs parent key then side s (charge (refs_of row) (amount_of row)) else 0

pub exchange_side :
    (s : QuotaReservationState) (old new part part' : QuotaValue)
    → Exchanges old new part part'
    → side s new + side s part ≡ side s old + side s part'
exchange_side committed old new part part' x = x.0
exchange_side reserved old new part part' x = x.1

module _ (b : Backend) {V : Type 0} (refs_of : V → References) (amount_of : V → ℕ) (missing : V)
    (belongs : Str → Str → Bool) (row_key : QuotaReservationRecord → Option Str) where
  open b.texts use {Table, get, insert, remove}

  abbrev pub refs_at : Table V → Str → References
  refs_at rows key = refs_of (get_or missing (get rows key))

  abbrev pub row_charge : Option V → QuotaValue
  row_charge none = record { committed = 0; reserved = 0 }
  row_charge (some row) = charge (refs_of row) (amount_of row)

  -- The references of each row are the reservations that name it, and each counter is the sum of what
  -- its rows are charged.
  pub record Balanced (rows : Table V) (reservations : Table QuotaReservationRecord)
      (counter : Str → QuotaValue) : Type 0 where
    pub references :
        (key : Str) (s : QuotaReservationState)
        → side s (refs_at rows key) ≡ total b.texts (counts row_key key s) reservations
    pub charged :
        (parent : Str) (s : QuotaReservationState)
        → side s (counter parent) ≡ total b.texts (charges refs_of amount_of belongs parent s) rows
    pub refs_fit : (key : Str) → Fits (refs_at rows key)
    pub counter_fit : (parent : Str) → Fits (counter parent)

  -- One row is replaced.
  module _ (rows rows' : Table V) (reservations : Table QuotaReservationRecord)
      (counter counter' : Str → QuotaValue) (key parent : Str) (new : Option V)
      (value' : QuotaValue) (balanced : Balanced rows reservations counter)
      (owner : (p : Str) → belongs p key ≡ (parent == p))
      (replaced : (w : Str → V → ℕ)
        → total b.texts w rows' + weight_of w key (get rows key)
          ≡ total b.texts w rows + weight_of w key new)
      (exchanged : Exchanges (counter parent) value' (row_charge (get rows key)) (row_charge new))
      (updated : (p : Str) → counter' p ≡ (if parent == p then value' else counter p)) where
    row_weight :
        (p : Str) (s : QuotaReservationState) (row : Option V)
        → weight_of (charges refs_of amount_of belongs p s) key row
          ≡ (if parent == p then side s (row_charge row) else 0)
    row_weight p committed none = ground arith
    row_weight p reserved none = ground arith
    row_weight p s (some row) = rw (owner p) refl

    pub charged_step :
        (p : Str) (s : QuotaReservationState)
        → side s (counter' p) ≡ total b.texts (charges refs_of amount_of belongs p s) rows'
    charged_step p s = elim (Bool-cases (parent == p)) [
      | inr other ↦
          let old_weight = rw other at (row_weight p s (get rows key)) in
          let new_weight = rw other at (row_weight p s new) in
          let kept : counter' p ≡ counter p = rw other at (updated p) in
          omega (
            arith,
            ap (side s) kept,
            balanced.charged p s,
            replaced (charges refs_of amount_of belongs p s),
            old_weight,
            new_weight,
          )
      | inl same ↦
          let old_weight = rw same at (row_weight p s (get rows key)) in
          let new_weight = rw same at (row_weight p s new) in
          let set : counter' p ≡ value' = rw same at (updated p) in
          let here : parent ≡ p = (list_beq_iff parent p).0 same in
          omega (
            arith,
            ap (side s) set,
            ap (λ x. side s (counter x)) here,
            balanced.charged p s,
            replaced (charges refs_of amount_of belongs p s),
            old_weight,
            new_weight,
            exchange_side s (counter parent) value' (row_charge (get rows key)) (row_charge new)
                exchanged,
          )
    ]

  -- One reservation is replaced, which changes the references at its key only.
  module _ (rows rows' : Table V) (reservations reservations' : Table QuotaReservationRecord)
      (id key : Str) (old new : Option QuotaReservationRecord)
      (references : (k : Str) (s : QuotaReservationState)
        → side s (refs_at rows k) ≡ total b.texts (counts row_key k s) reservations)
      (replaced : (w : Str → QuotaReservationRecord → ℕ)
        → total b.texts w reservations' + weight_of w id old
          ≡ total b.texts w reservations + weight_of w id new)
      (elsewhere : (k : Str) → (key == k) ≡ false → refs_at rows' k ≡ refs_at rows k)
      (old_elsewhere : (k : Str) (s : QuotaReservationState)
        → (key == k) ≡ false
        → weight_of (counts row_key k s) id old ≡ 0)
      (new_elsewhere : (k : Str) (s : QuotaReservationState)
        → (key == k) ≡ false
        → weight_of (counts row_key k s) id new ≡ 0)
      (here : (s : QuotaReservationState)
        → side s (refs_at rows' key) + weight_of (counts row_key key s) id old
          ≡ side s (refs_at rows key) + weight_of (counts row_key key s) id new) where
    pub references_step :
        (k : Str) (s : QuotaReservationState)
        → side s (refs_at rows' k) ≡ total b.texts (counts row_key k s) reservations'
    references_step k s = elim (Bool-cases (key == k)) [
      | inr other ↦ omega (
        arith,
        ap (side s) (elsewhere k other),
        references k s,
        replaced (counts row_key k s),
        old_elsewhere k s other,
        new_elsewhere k s other,
      )
      | inl same ↦
          let e : key ≡ k = (list_beq_iff key k).0 same in
          subst (λ x. side s (refs_at rows' x) ≡ total b.texts (counts row_key x s) reservations') e
            (omega (arith, here s, references key s, replaced (counts row_key key s)))
    ]
