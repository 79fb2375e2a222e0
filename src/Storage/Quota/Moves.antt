-- ===== src/Storage/Quota/Moves.antt =====
-- A commit and a release of a stored reservation on the ledger
-- (`commit_reservation` and `release` of crates/peryx-storage/src/meta/quota.rs).
use velodex.Prelude.{
  ℕ, ◌≡◌, refl, sym, ap, subst, ◌∙◌, Bool, true, false, Option, none, some, arith, Str, ◌==◌,
  list_eq, nat_eq, if◌then◌else◌,
}
use velodex.Prelude.Results.{ok}
use velodex.Storage.Table.{weight_of, total-insert, total-remove}
use velodex.Storage.Quota.Model.{reserved, committed, state_eq, QuotaReservationRecord, Fallible}
use velodex.Storage.Quota.Store.{Backend, QuotaTables, transition, commit_reservation, release}
use velodex.Storage.Quota.Ledger.{Ledger}
use velodex.Storage.Quota.Change.{Change, commit-Change, release-Change}
use velodex.Storage.Quota.TransitionStep.{transition_step}

module _ (b : Backend) (t : QuotaTables b) (ledger : Ledger b t) (id : ℕ) where
  abbrev name : Str
  name = b.uuid_text id

  -- What an operation that changes a reservation returns: tables that keep the ledger, in which the
  -- reservation is as `expected`, and every other one as before.
  abbrev pub Keeps : Option QuotaReservationRecord → Fallible (QuotaTables b × Bool) → Type 0
  Keeps expected result =
      (t' : QuotaTables b) × (result ≡ ok (t', true))
      × Ledger b t'
      × ((k : Str)
          → b.texts.get t'.reservation k
            ≡ (if b.uuid_text id == k then expected else b.texts.get t.reservation k))

  release_run :
      (reservation : QuotaReservationRecord) (t2 : QuotaTables b)
      → b.texts.get t.reservation name ≡ some reservation
      → transition b t reservation false ≡ ok t2
      → release b t id
        ≡ ok (
          record t2 {
            reservation = b.texts.remove t2.reservation name;
            pending = b.numbers.remove t2.pending id;
          },
          true,
        )
  unfolding release
  release_run reservation t2 found moved = rw (found, release) (rw moved refl)

  commit_run :
      (reservation : QuotaReservationRecord) (t2 : QuotaTables b)
      → b.texts.get t.reservation name ≡ some reservation
      → reservation.state ≡ reserved
      → transition b t reservation true ≡ ok t2
      → commit_reservation b t id
        ≡ ok (
          record t2 {
            reservation =
                b.texts.insert t2.reservation name (record reservation { state = committed });
            pending = b.numbers.remove t2.pending id;
          },
          true,
        )
  unfolding commit_reservation
  commit_run reservation t2 found pending moved =
      let not_yet : (reservation.state == committed) ≡ false = rw pending refl in
      rw (found, commit_reservation) (rw (not_yet, moved) refl)

  -- On tables that keep the ledger, the release of a stored reservation succeeds: the reservation is
  -- gone, the others are as they were, and every counter is the sum of what they hold.
  pub release-Keeps :
      (reservation : QuotaReservationRecord)
      → b.texts.get t.reservation (b.uuid_text id) ≡ some reservation
      → Keeps none (release b t id)
  release-Keeps reservation found =
      let (t2, moved, same_reservation, same_pending, keeps) =
        transition_step b t ledger name reservation found (release-Change reservation.state)
          (b.texts.remove t.reservation name)
          (λ w.
            omega (arith, total-remove b.texts w t.reservation name, ap (weight_of w name) found))
          (b.texts.get-remove t.reservation name) in
      let pending' = b.numbers.remove t2.pending id in
      (
        record t2 { reservation = b.texts.remove t2.reservation name; pending = pending' },
        release_run reservation t2 found moved,
        subst
            (λ x. Ledger b (record t2 { reservation = b.texts.remove x name; pending = pending' }))
            (sym same_reservation) (keeps pending'),
        λ k.
            ap (λ x. b.texts.get (b.texts.remove x name) k) same_reservation
            ∙ b.texts.get-remove t.reservation name k,
      )

  -- On tables that keep the ledger, the commit of a pending reservation succeeds: the reservation is
  -- committed, the others are as they were, and every counter is the sum of what the reservations hold.
  pub commit_reservation-Keeps :
      (reservation : QuotaReservationRecord)
      → b.texts.get t.reservation (b.uuid_text id) ≡ some reservation
      → reservation.state ≡ reserved
      → Keeps (some (record reservation { state = committed })) (commit_reservation b t id)
  commit_reservation-Keeps reservation found pending =
      let done : QuotaReservationRecord = record reservation { state = committed } in
      let (t2, moved, same_reservation, same_pending, keeps) =
        transition_step b t ledger name reservation found
          (subst (λ s. Change s true (some committed)) (sym pending) commit-Change)
          (b.texts.insert t.reservation name done)
          (λ w.
            omega
              (arith, total-insert b.texts w t.reservation name done, ap (weight_of w name) found))
          (λ k. b.texts.get-insert t.reservation name k done) in
      let pending' = b.numbers.remove t2.pending id in
      (
        record t2 { reservation = b.texts.insert t2.reservation name done; pending = pending' },
        commit_run reservation t2 found pending moved,
        subst
            (λ x.
              Ledger b (record t2 { reservation = b.texts.insert x name done; pending = pending' }))
            (sym same_reservation) (keeps pending'),
        λ k.
            ap (λ x. b.texts.get (b.texts.insert x name done) k) same_reservation
            ∙ b.texts.get-insert t.reservation name k done,
      )
