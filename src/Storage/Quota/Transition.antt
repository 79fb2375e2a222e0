-- ===== src/Storage/Quota/Transition.antt =====
-- A change of one reservation at one level of the accounting.
use velodex.Prelude.{
  ℕ, ◌+◌, ◌≡◌, inl, inr, refl, sym, ap, ◌∙◌, Bool, true, false, Option, none, some, arith, Str,
  ◌==◌, list_eq, nat_eq, if◌then◌else◌, Bool-cases, get_or, list_beq_iff, beq_refl, nat_beq_iff,
}
use velodex.Storage.Table.{weight_of, total, total-insert, total-remove}
use velodex.Storage.Quota.Model.{
  QuotaValue, References, QuotaReservationState, reserved, committed, state_eq,
  QuotaReservationRecord, no_value,
}
use velodex.Storage.Quota.Model
use velodex.Storage.Quota.Charges.{side, charge, Fits, Exchanges, total_lem}
use velodex.Storage.Quota.Store.{Backend, write_or_remove}
use velodex.Storage.Quota.Level.{
  counts, refs_at, row_charge, Balanced, charged_step, references_step,
}

-- How often a reservation counts, by its key.
module _ (row_key : QuotaReservationRecord → Option Str) (id : Str)
    (reservation : QuotaReservationRecord) where
  pub counts-none :
      (k : Str) (s : QuotaReservationState)
      → row_key reservation ≡ none
      → counts row_key k s id reservation ≡ 0
  counts-none k s e = rw e refl

  module _ (key : Str) (keyed : row_key reservation ≡ some key) where
    pub counts_elsewhere :
        (k : Str) (s : QuotaReservationState)
        → (key == k) ≡ false
        → counts row_key k s id reservation ≡ 0
    counts_elsewhere k s other = rw (keyed, other) refl

    pub counts_here :
        (s : QuotaReservationState)
        → counts row_key key s id reservation ≡ (if reservation.state == s then 1 else 0)
    counts_here s = rw (keyed, beq_refl key) refl

-- The row that is written, unless it has no references left.
abbrev pub written : {V : Type 0} → References → V → Option V
written references row = if Model.total references == 0 then none else some row

module _ (b : Backend) {V : Type 0} (rows : b.texts.Table V) (key : Str) (references : References)
    (row : V) where
  pub write_or_remove-total :
      (w : Str → V → ℕ)
      → total b.texts w (write_or_remove b rows key references row)
          + weight_of w key (b.texts.get rows key)
        ≡ total b.texts w rows + weight_of w key (written references row)
  write_or_remove-total w = elim (Bool-cases (Model.total references == 0)) [
    | inl gone ↦ rw gone (omega (arith, total-remove b.texts w rows key))
    | inr left ↦ rw left (total-insert b.texts w rows key row)
  ]

  pub get-write_or_remove :
      (k : Str)
      → b.texts.get (write_or_remove b rows key references row) k
        ≡ (if key == k then written references row else b.texts.get rows k)
  get-write_or_remove k = elim (Bool-cases (Model.total references == 0)) [
    | inl gone ↦ rw gone (b.texts.get-remove rows key k)
    | inr left ↦ rw left (b.texts.get-insert rows key k row)
  ]

zero_value : (v : QuotaValue) → Fits v → (Model.total v == 0) ≡ true → v ≡ no_value
zero_value v f h =
    let t = total_lem v f in
    let z = (nat_beq_iff (Model.total v) 0).0 h in
    let c : v.committed ≡ 0 = omega arith in
    let r : v.reserved ≡ 0 = omega arith in λ i. record { committed = c i; reserved = r i }

module _ (b : Backend) {V : Type 0} (refs_of : V → References) (amount_of : V → ℕ) (missing : V)
    (belongs : Str → Str → Bool) (row_key : QuotaReservationRecord → Option Str)
    (nothing : refs_of missing ≡ no_value) (rows : b.texts.Table V)
    (reservations reservations' : b.texts.Table QuotaReservationRecord)
    (counter counter' : Str → QuotaValue) (id key parent : Str)
    (old new : Option QuotaReservationRecord) (row : V) (value' : QuotaValue) where
  abbrev Level :
      b.texts.Table V → b.texts.Table QuotaReservationRecord → (Str → QuotaValue) → Type 0
  Level = Balanced b refs_of amount_of missing belongs row_key

  abbrev references_of : b.texts.Table V → Str → References
  references_of = refs_at b refs_of amount_of missing belongs row_key

  abbrev charge_of : Option V → QuotaValue
  charge_of = row_charge b refs_of amount_of missing belongs row_key

  abbrev rows' : b.texts.Table V
  rows' = write_or_remove b rows key (refs_of row) row

  references-written :
      (o : Option V)
      → Fits (refs_of row)
      → o ≡ written (refs_of row) row
      → refs_of (get_or missing o) ≡ refs_of row
  references-written o f e = elim (Bool-cases (Model.total (refs_of row) == 0)) [
    | inl gone ↦
        let empty : o ≡ none = rw gone at e in
        rw empty (nothing ∙ sym (zero_value (refs_of row) f gone))
    | inr left ↦ let full : o ≡ some row = rw left at e in rw full refl
  ]

  charge-written :
      Fits (refs_of row)
      → charge_of (written (refs_of row) row) ≡ charge (refs_of row) (amount_of row)
  charge-written f = elim (Bool-cases (Model.total (refs_of row) == 0)) [
    | inl gone ↦ let z = zero_value (refs_of row) f gone in rw gone (rw z refl)
    | inr left ↦ rw left refl
  ]

  references_here : Fits (refs_of row) → references_of rows' key ≡ refs_of row
  references_here f =
      references-written (b.texts.get rows' key) f
        (get-write_or_remove b rows key (refs_of row) row key ∙ rw (beq_refl key) refl)

  references_elsewhere :
      (k : Str) → (key == k) ≡ false → references_of rows' k ≡ references_of rows k
  references_elsewhere k other =
      let kept : b.texts.get rows' k ≡ b.texts.get rows k =
        rw other at (get-write_or_remove b rows key (refs_of row) row k) in
      ap (λ o. refs_of (get_or missing o)) kept

  module _ (balanced : Level rows reservations counter)
      (owner : (p : Str) → belongs p key ≡ (parent == p))
      (replaced : (w : Str → QuotaReservationRecord → ℕ)
        → total b.texts w reservations' + weight_of w id old
          ≡ total b.texts w reservations + weight_of w id new)
      (old_elsewhere : (k : Str) (s : QuotaReservationState)
        → (key == k) ≡ false
        → weight_of (counts row_key k s) id old ≡ 0)
      (new_elsewhere : (k : Str) (s : QuotaReservationState)
        → (key == k) ≡ false
        → weight_of (counts row_key k s) id new ≡ 0)
      (here : (s : QuotaReservationState)
        → side s (refs_of row) + weight_of (counts row_key key s) id old
          ≡ side s (references_of rows key) + weight_of (counts row_key key s) id new)
      (row_fits : Fits (refs_of row)) (value_fits : Fits value')
      (exchanged : Exchanges
        (counter parent)
        value'
        (charge_of (b.texts.get rows key))
        (charge (refs_of row) (amount_of row)))
      (updated : (p : Str) → counter' p ≡ (if parent == p then value' else counter p)) where
    pub transition-Balanced : Level rows' reservations' counter'
    transition-Balanced = record {
      references =
          references_step b refs_of amount_of missing belongs row_key rows rows' reservations
            reservations' id key old new balanced.references replaced references_elsewhere
            old_elsewhere new_elsewhere (λ s. rw (references_here row_fits) (here s));
      charged =
          charged_step b refs_of amount_of missing belongs row_key rows rows' reservations counter
            counter' key parent (written (refs_of row) row) value' balanced owner
            (write_or_remove-total b rows key (refs_of row) row)
            (rw (charge-written row_fits) exchanged) updated;
      refs_fit = λ k. elim (Bool-cases (key == k)) [
        | inl same ↦ rw (← (list_beq_iff key k).0 same) (rw (references_here row_fits) row_fits)
        | inr other ↦ rw (references_elsewhere k other) (balanced.refs_fit k)
      ];
      counter_fit = λ p. elim (Bool-cases (parent == p)) [
        | inl same ↦ let e : counter' p ≡ value' = rw same at (updated p) in rw e value_fits
        | inr other ↦
            let e : counter' p ≡ counter p = rw other at (updated p) in
            rw e (balanced.counter_fit p)
      ];
    }

  -- A reservation without a key at this level changes nothing there.
  pub unkeyed-Balanced :
      Level rows reservations counter
      → ((w : Str → QuotaReservationRecord → ℕ)
          → total b.texts w reservations' + weight_of w id old
            ≡ total b.texts w reservations + weight_of w id new)
      → ((k : Str) (s : QuotaReservationState) → weight_of (counts row_key k s) id old ≡ 0)
      → ((k : Str) (s : QuotaReservationState) → weight_of (counts row_key k s) id new ≡ 0)
      → ((p : Str) → counter' p ≡ counter p)
      → Level rows reservations' counter'
  unkeyed-Balanced balanced replaced old_none new_none same = record {
    references = λ k s.
        omega (
          arith,
          balanced.references k s,
          replaced (counts row_key k s),
          old_none k s,
          new_none k s,
        );
    charged = λ p s. rw (same p) (balanced.charged p s);
    refs_fit = balanced.refs_fit;
    counter_fit = λ p. rw (same p) (balanced.counter_fit p);
  }
