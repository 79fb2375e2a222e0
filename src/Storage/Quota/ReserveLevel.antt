-- ===== src/Storage/Quota/ReserveLevel.antt =====
-- An admitted reservation at one level of the accounting.
use velodex.Prelude.{
  ℕ, ◌+◌, ◌<◌, ◌≡◌, inl, inr, refl, sym, ap, subst, ◌∙◌, Bool, true, false, Option, none, some,
  arith, Str, ◌==◌, list_eq, nat_eq, if◌then◌else◌, is_some, ◌&&◌, get_or, list_beq_iff, Bool-cases,
}
use velodex.Storage.Table.{weight_of, total, total-insert}
use velodex.Storage.Quota.Model
use velodex.Storage.Quota.Model.{
  QuotaValue, References, QuotaReservationState, reserved, committed, state_eq,
  QuotaReservationRecord, no_value,
}
use velodex.Storage.Quota.Charges.{side, charge, Fits, Exchanges, total_lem}
use velodex.Storage.Quota.Admission.{added}
use velodex.Storage.Quota.Store.{Backend, insert_at, row_at}
use velodex.Storage.Quota.Level.{counts, refs_at, row_charge, Balanced}
use velodex.Storage.Quota.Transition.{
  counts-none, counts_elsewhere, counts_here, transition-Balanced, unkeyed-Balanced,
}

-- The first reference of a row charges the row; a further one does not.
added-Exchanges :
    (v : QuotaValue) (r : References) (old_amount amount : ℕ)
    → Fits r
    → (0 < r.committed + r.reserved → old_amount ≡ amount)
    → Exchanges v
        (added (Model.total r == 0) v amount)
        (charge r old_amount)
        (charge (added true r 1) amount)
added-Exchanges v r old_amount amount f same = let t = total_lem r f in ground (arith, t, same)

referred_once :
    (r : References) → Fits (added true r 1) → (Model.total (added true r 1) == 0) ≡ false
referred_once r f = let t = total_lem (added true r 1) f in ground (arith, t)

module _ (b : Backend) {V : Type 0} (refs_of : V → References) (amount_of : V → ℕ) (missing : V)
    (belongs : Str → Str → Bool) (row_key : QuotaReservationRecord → Option Str)
    (nothing : refs_of missing ≡ no_value) (rows : b.texts.Table V)
    (reservations : b.texts.Table QuotaReservationRecord) (counter counter' : Str → QuotaValue)
    (balanced : Balanced b refs_of amount_of missing belongs row_key rows reservations counter)
    (id : Str) (reservation : QuotaReservationRecord) (unused : b.texts.get reservations id ≡ none)
    (pending : reservation.state ≡ reserved) where
  abbrev reservations' : b.texts.Table QuotaReservationRecord
  reservations' = b.texts.insert reservations id reservation

  abbrev charge_of : Option V → QuotaValue
  charge_of = row_charge b refs_of amount_of missing belongs row_key

  abbrev refs : Str → References
  refs = refs_at b refs_of amount_of missing belongs row_key rows

  replaced :
      (w : Str → QuotaReservationRecord → ℕ)
      → total b.texts w reservations' + weight_of w id none
        ≡ total b.texts w reservations + weight_of w id (some reservation)
  replaced w =
      omega (arith, total-insert b.texts w reservations id reservation, ap (weight_of w id) unused)

  none_before : (k : Str) (s : QuotaReservationState) → weight_of (counts row_key k s) id none ≡ 0
  none_before k s = refl

  option-Exchanges :
      (v : QuotaValue) (amount : ℕ) (o : Option V)
      → Fits (refs_of (get_or missing o))
      → ((row : V)
          → o ≡ some row
          → 0 < (refs_of row).committed + (refs_of row).reserved
          → amount_of row ≡ amount)
      → Exchanges v
          (added (Model.total (refs_of (get_or missing o)) == 0) v amount)
          (charge_of o)
          (charge (added true (refs_of (get_or missing o)) 1) amount)
  option-Exchanges v amount none f same =
      subst
        (λ r.
          Exchanges v (added (Model.total r == 0) v amount) no_value
            (charge (added true r 1) amount))
        (sym nothing)
        (added-Exchanges v no_value 0 amount (omega arith) (λ h. absurd (omega arith)))
  option-Exchanges v amount (some row) f same =
      added-Exchanges v (refs_of row) (amount_of row) amount f (same row refl)

  module _ (key parent : Str) (keyed : row_key reservation ≡ some key)
      (owner : (p : Str) → belongs p key ≡ (parent == p)) (row : V)
      (row_refs : refs_of row ≡ added true (refs key) 1)
      (same_amount : (v : V)
        → b.texts.get rows key ≡ some v
        → 0 < (refs_of v).committed + (refs_of v).reserved
        → amount_of v ≡ amount_of row)
      (refs_fit : Fits (added true (refs key) 1))
      (value_fits : Fits (added (Model.total (refs key) == 0) (counter parent) (amount_of row)))
      (updated : (p : Str)
        → counter' p ≡ (
            if parent == p
            then added (Model.total (refs key) == 0) (counter parent) (amount_of row)
            else counter p)) where
    exchanged :
        Exchanges
          (counter parent)
          (added (Model.total (refs key) == 0) (counter parent) (amount_of row))
          (charge_of (b.texts.get rows key))
          (charge (refs_of row) (amount_of row))
    exchanged = rw row_refs (
        option-Exchanges (counter parent) (amount_of row) (b.texts.get rows key)
          (balanced.refs_fit key) same_amount)

    here :
        (s : QuotaReservationState)
        → side s (refs_of row) + 0 ≡ side s (refs key) + counts row_key key s id reservation
    here s = omega (
      arith,
      ap (side s) row_refs,
      raised s,
      counts_here row_key id reservation key keyed s,
      own s,
    )
      where
        raised :
            (s : QuotaReservationState)
            → side s (added true (refs key) 1)
              ≡ side s (refs key) + (if reserved == s then 1 else 0)
        raised reserved = refl
        raised committed = omega arith

        own :
            (s : QuotaReservationState)
            → ◌≡◌ {A = ℕ} (if reservation.state == s then 1 else 0) (if reserved == s then 1 else 0)
        own s = rw pending refl

    pub keyed-Balanced :
        Balanced b refs_of amount_of missing belongs row_key
          (b.texts.insert rows key row)
          reservations'
          counter'
    keyed-Balanced =
        subst
          (λ removed.
            Balanced b refs_of amount_of missing belongs row_key
              (if removed then b.texts.remove rows key else b.texts.insert rows key row)
              reservations' counter')
          (ap (λ r. Model.total r == 0) row_refs ∙ referred_once (refs key) refs_fit)
          (transition-Balanced b refs_of amount_of missing belongs row_key nothing rows reservations
            reservations' counter counter' id key parent none (some reservation) row
            (added (Model.total (refs key) == 0) (counter parent) (amount_of row)) balanced owner
            replaced (λ k s other. refl)
            (λ k s other. counts_elsewhere row_key id reservation key keyed k s other) here
            (subst Fits (sym row_refs) refs_fit) value_fits exchanged updated)

  abbrev refs_of_row : Option Str → References
  refs_of_row key = refs_of (row_at b missing rows key)

  abbrev is_first : Option Str → Bool
  is_first key = is_some key && (Model.total (refs_of_row key) == 0)

  -- With a key or without one.
  pub reserved-Balanced :
      (key : Option Str) (parent : Str) (row : V)
      → row_key reservation ≡ key
      → ((k : Str) → key ≡ some k → (p : Str) → belongs p k ≡ (parent == p))
      → refs_of row ≡ added (is_some key) (refs_of_row key) 1
      → ((k : Str) (v : V)
          → b.texts.get rows k ≡ some v
          → key ≡ some k
          → 0 < (refs_of v).committed + (refs_of v).reserved
          → amount_of v ≡ amount_of row)
      → (is_some key ≡ true → Fits (added true (refs_of_row key) 1))
      → Fits (added (is_first key) (counter parent) (amount_of row))
      → ((p : Str)
          → counter' p ≡ (
              if parent == p
              then added (is_first key) (counter parent) (amount_of row)
              else counter p))
      → Balanced b refs_of amount_of missing belongs row_key
          (insert_at b rows key row)
          reservations'
          counter'
  reserved-Balanced (some key) parent row keyed owner row_refs same_amount refs_fit value_fits
        updated =
      keyed-Balanced key parent keyed (owner key refl) row row_refs
        (λ v present. same_amount key v present refl) (refs_fit refl) value_fits updated
  reserved-Balanced none parent row keyed owner row_refs same_amount refs_fit value_fits updated =
      unkeyed-Balanced b refs_of amount_of missing belongs row_key nothing rows reservations
        reservations' counter counter' id id parent none (some reservation) missing no_value
        balanced replaced none_before (λ k s. counts-none row_key id reservation k s keyed) same
    where
      same : (p : Str) → counter' p ≡ counter p
      same p = elim (Bool-cases (parent == p)) [
        | inl e ↦
            let set : counter' p ≡ counter parent = rw e at (updated p) in
            set ∙ ap counter ((list_beq_iff parent p).0 e)
        | inr e ↦ rw e at (updated p)
      ]
