-- ===== src/Storage/Quota/LevelChange.antt =====
-- A commit or a release at one level of the accounting.
use velodex.Prelude.{
  ℕ, ◌+◌, ◌≤◌, ◌<◌, ◌≡◌, inl, inr, refl, ap, subst, ◌∙◌, Bool, true, false, Option, none, some,
  arith, Str, ◌==◌, list_eq, nat_eq, if◌then◌else◌, is_some_and, get_or, beq_refl, Option-cases,
}
use velodex.Prelude.Results.{ok}
use velodex.Storage.Table.{weight_of, total, weight-le-total}
use velodex.Storage.Quota.Model.{
  QuotaValue, References, QuotaReservationState, reserved, committed, state_eq,
  QuotaReservationRecord, no_value, transition_counter,
}
use velodex.Storage.Quota.Charges.{side, charge, Fits, Holds, Exchanges}
use velodex.Storage.Quota.Store.{Backend, write_or_remove}
use velodex.Storage.Quota.Level.{counts, charges, refs_at, row_charge, Balanced}
use velodex.Storage.Quota.Transition.{counts-none, transition-Balanced, unkeyed-Balanced}
use velodex.Storage.Quota.Change.{Change, hit}

-- The reservation that is stored after the change.
abbrev pub next_record :
    Option QuotaReservationState → QuotaReservationRecord → Option QuotaReservationRecord
next_record none r = none
next_record (some s) r = some (record r { state = s })

module _ (b : Backend) {V : Type 0} (refs_of : V → References) (amount_of : V → ℕ) (missing : V)
    (belongs : Str → Str → Bool) (row_key : QuotaReservationRecord → Option Str)
    (nothing : refs_of missing ≡ no_value)
    (stateless : (r : QuotaReservationRecord) (s : QuotaReservationState)
      → row_key (record r { state = s }) ≡ row_key r)
    (rows : b.texts.Table V) (reservations reservations' : b.texts.Table QuotaReservationRecord)
    (counter : Str → QuotaValue)
    (balanced : Balanced b refs_of amount_of missing belongs row_key rows reservations counter)
    (id : Str) (reservation : QuotaReservationRecord)
    (found : b.texts.get reservations id ≡ some reservation) {commit : Bool}
    {new_state : Option QuotaReservationState} (change : Change reservation.state commit new_state)
    (replaced : (w : Str → QuotaReservationRecord → ℕ)
      → total b.texts w reservations' + weight_of w id (some reservation)
        ≡ total b.texts w reservations + weight_of w id (next_record new_state reservation)) where
  abbrev references_of : b.texts.Table V → Str → References
  references_of = refs_at b refs_of amount_of missing belongs row_key

  abbrev charge_of : Option V → QuotaValue
  charge_of = row_charge b refs_of amount_of missing belongs row_key

  abbrev is_at : Str → Bool
  is_at k = is_some_and (λ j. j == k) (row_key reservation)

  old_weight :
      (k : Str) (x : QuotaReservationState)
      → counts row_key k x id reservation
        ≡ (if is_at k then hit (some reservation.state) x 1 else 0)
  old_weight k x = ground arith

  next_weight :
      (o : Option QuotaReservationState) (k : Str) (x : QuotaReservationState)
      → weight_of (counts row_key k x) id (next_record o reservation)
        ≡ (if is_at k then hit o x 1 else 0)
  next_weight none k x = ground arith
  next_weight (some s) k x = rw (stateless reservation s) (ground arith)

  -- Without a key the level is as it was.
  pub unkeyed_change :
      (counter' : Str → QuotaValue)
      → row_key reservation ≡ none
      → ((p : Str) → counter' p ≡ counter p)
      → Balanced b refs_of amount_of missing belongs row_key rows reservations' counter'
  unkeyed_change counter' unkeyed same =
      unkeyed-Balanced b refs_of amount_of missing belongs row_key nothing rows reservations
        reservations' counter counter' id id id (some reservation)
        (next_record new_state reservation) missing no_value balanced replaced
        (λ k s. counts-none row_key id reservation k s unkeyed)
        (λ k s. next_weight new_state k s ∙ rw unkeyed refl) same

  module _ (key parent : Str) (keyed : row_key reservation ≡ some key)
      (owner : (p : Str) → belongs p key ≡ (parent == p)) where
    abbrev current : V
    current = get_or missing (b.texts.get rows key)

    at_key : is_at key ≡ true
    at_key = rw keyed (beq_refl key)

    at_other : (k : Str) → (key == k) ≡ false → is_at k ≡ false
    at_other k other = rw keyed other

    old_here :
        (x : QuotaReservationState)
        → counts row_key key x id reservation ≡ hit (some reservation.state) x 1
    old_here x = old_weight key x ∙ rw at_key refl

    next_here :
        (x : QuotaReservationState)
        → weight_of (counts row_key key x) id (next_record new_state reservation)
          ≡ hit new_state x 1
    next_here x = next_weight new_state key x ∙ rw at_key refl

    own_hit : hit (some reservation.state) reservation.state 1 ≡ 1
    own_hit = rw (beq_refl reservation.state) refl

    referred : 0 < side reservation.state (references_of rows key)
    referred = omega (
      arith,
      balanced.references key reservation.state,
      weight-le-total b.texts (counts row_key key reservation.state) reservations id,
      ap (weight_of (counts row_key key reservation.state) id) found,
      old_here reservation.state,
      own_hit,
    )

    row_exists : b.texts.get rows key ≡ some current
    row_exists = elim (Option-cases (b.texts.get rows key)) [
      | inl e ↦
          let gone : references_of rows key ≡ no_value = rw e nothing in
          absurd
            (no_side reservation.state (subst (λ r. 0 < side reservation.state r) gone referred))
      | inr (v, e) ↦ rw e refl
    ]
      where
        no_side : (s : QuotaReservationState) → 0 < side s no_value → ⊥
        no_side reserved h = omega arith
        no_side committed h = omega arith

    part_held :
        (x : QuotaReservationState)
        → side x (charge (refs_of current) (amount_of current)) ≤ side x (counter parent)
    part_held x = omega (
      arith,
      balanced.charged parent x,
      weight-le-total b.texts (charges refs_of amount_of belongs parent x) rows key,
      ap (weight_of (charges refs_of amount_of belongs parent x) key) row_exists,
      weight_here,
    )
      where
        weight_here :
            charges refs_of amount_of belongs parent x key current
            ≡ side x (charge (refs_of current) (amount_of current))
        weight_here = rw (owner parent, beq_refl parent) refl

    charge_held : Holds (counter parent) (charge (refs_of current) (amount_of current))
    charge_held = (part_held committed, part_held reserved)

    -- The counters of the level follow without an error.
    pub counter_change :
        transition_counter
          (counter parent)
          (refs_of current)
          reservation.state
          (amount_of current)
          commit
        ≡ ok (
          change.next_value (counter parent) (refs_of current) (amount_of current),
          change.next_refs (refs_of current),
        )
    counter_change =
        change.counter (counter parent) (refs_of current) (amount_of current)
          (balanced.counter_fit parent) (balanced.refs_fit key) charge_held referred

    pub keyed_change :
        (counter' : Str → QuotaValue) (row : V)
        → refs_of row ≡ change.next_refs (refs_of current)
        → amount_of row ≡ amount_of current
        → ((p : Str)
            → counter' p ≡ (
                if parent == p
                then change.next_value (counter parent) (refs_of current) (amount_of current)
                else counter p))
        → Balanced b refs_of amount_of missing belongs row_key
            (write_or_remove b rows key (refs_of row) row)
            reservations'
            counter'
    keyed_change counter' row refs amount updated =
        transition-Balanced b refs_of amount_of missing belongs row_key nothing rows reservations
          reservations' counter counter' id key parent (some reservation)
          (next_record new_state reservation) row
          (change.next_value (counter parent) (refs_of current) (amount_of current)) balanced owner
          replaced (λ k s other. old_weight k s ∙ rw (at_other k other) refl)
          (λ k s other. next_weight new_state k s ∙ rw (at_other k other) refl)
          (λ s. omega (arith, here s)) (rw refs fits.1) fits.0 exchanged updated
      where
        fits :
            Fits (change.next_value (counter parent) (refs_of current) (amount_of current))
            × Fits (change.next_refs (refs_of current))
        fits =
            change.fits (counter parent) (refs_of current) (amount_of current)
              (balanced.counter_fit parent) (balanced.refs_fit key) charge_held referred

        here :
            (s : QuotaReservationState)
            → side s (refs_of row) + counts row_key key s id reservation
              ≡ side s (refs_of current)
                + weight_of (counts row_key key s) id (next_record new_state reservation)
        here s = omega (
          arith,
          ap (side s) refs,
          change.refs_side (refs_of current) s referred,
          old_here s,
          next_here s,
        )

        exchanged :
            Exchanges
              (counter parent)
              (change.next_value (counter parent) (refs_of current) (amount_of current))
              (charge_of (b.texts.get rows key))
              (charge (refs_of row) (amount_of row))
        exchanged =
            rw (row_exists, refs, amount)
              (change.exchanges (counter parent) (refs_of current) (amount_of current)
                (balanced.counter_fit parent) (balanced.refs_fit key) charge_held referred)
