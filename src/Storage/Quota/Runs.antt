-- ===== src/Storage/Quota/Runs.antt =====
-- Runs of the operations of `MetaStore` in crates/peryx-storage/src/meta/quota.rs.
use velodex.Prelude.{
  ℕ, ◌≡◌, ◌⊎◌, inl, inr, refl, sym, ap, subst, ◌∙◌, Bool, true, false, none, some, List, [], ◌∷◌,
  Str, ◌==◌, list_eq, nat_eq, if◌then◌else◌, Option-cases, Bool-cases, length, take, drop, map,
  is_empty, not,
}
use velodex.Prelude.Results.{ok, >>=-eq-ok, ◌>>=◌}
use velodex.Storage.Quota.Model.{
  NewQuotaReservation, QuotaReservationRecord, QuotaReservationState, reserved, committed, state_eq,
  QuotaLimit, QuotaLimits, Fallible,
}
use velodex.Storage.Quota.Admission.{ok_value, reserve-grown}
use velodex.Storage.Quota.Rows.{ReservationRows, reserve, validate_request}
use velodex.Storage.Quota.Store.{
  Backend, QuotaTables, read_rows, write_rows, new_record, reserve_quota, release,
  commit_reservation, release_all, repair_abandoned,
}
use velodex.Storage.Quota.Ledger.{Ledger}
use velodex.Storage.Quota.Reserving.{rows_read, read_rows-rows_read}
use velodex.Storage.Quota.ReserveLedger.{written-Ledger}
use velodex.Storage.Quota.Moves.{release-Keeps, commit_reservation-Keeps}

module _ (b : Backend) where
  abbrev pub Reserved :
      QuotaTables b → ℕ → NewQuotaReservation → QuotaTables b → QuotaReservationRecord → Type 0
  Reserved t id request t' r =
      Ledger b t'
      × ((violations : List QuotaLimit) × (r ≡ new_record b id request violations))
      × ((k : Str)
          → b.texts.get t'.reservation k
            ≡ (if b.uuid_text id == k then some r else b.texts.get t.reservation k))

  -- On tables that keep the ledger, a reservation that is admitted under an unused identifier is stored
  -- as pending, the others are as they were, and every counter is the sum of what the reservations hold.
  pub reserve_quota-Ledger :
      (t : QuotaTables b) (id : ℕ) (request : NewQuotaReservation) (limits : QuotaLimits)
      (t' : QuotaTables b) (r : QuotaReservationRecord)
      → Ledger b t
      → b.texts.get t.reservation (b.uuid_text id) ≡ none
      → reserve_quota b t id request limits ≡ ok (t', r)
      → Reserved t id request t' r
  unfolding reserve_quota write_rows
  reserve_quota-Ledger t id request limits t' r ledger unused h =
      let (u, valid, h1) = >>=-eq-ok (validate_request request) _ h in
      let (rows, read, h2) = >>=-eq-ok (read_rows b t request) _ h1 in
      let ((rows', violations), room, h3) = >>=-eq-ok (reserve rows request.bytes limits) _ h2 in
      let (is_read, size) = read_rows-rows_read b t request rows (ledger.blobs.refs_fit _) read in
      let (has_room, is_grown) =
        reserve-grown (rows_read b t request) rows' request.bytes limits violations
          (subst (λ x. reserve x request.bytes limits ≡ ok (rows', violations)) is_read room) in
      let stored = ok_value (outcome rows' violations) (t', r) h3 in
      (
        subst (λ (x : QuotaTables b × QuotaReservationRecord). Ledger b x.0) stored
            (subst (λ x. Ledger b (outcome x violations).0) (sym is_grown)
              (written-Ledger b t request ledger id violations unused has_room size
                (b.numbers.insert t.pending id 0))),
        (violations, sym (ap (λ (x : QuotaTables b × QuotaReservationRecord). x.1) stored)),
        λ k.
            subst
              (λ (x : QuotaTables b × QuotaReservationRecord).
                b.texts.get x.0.reservation k
                ≡ (if b.uuid_text id == k then some x.1 else b.texts.get t.reservation k))
              stored
              (b.texts.get-insert t.reservation (b.uuid_text id) k
                (new_record b id request violations)),
      )
    where
      outcome : ReservationRows → List QuotaLimit → QuotaTables b × QuotaReservationRecord
      outcome rows violations =
          let t1 = write_rows b t request.repository rows in
          (
            record t1 {
              reservation =
                  b.texts.insert t1.reservation (b.uuid_text id)
                    (new_record b id request violations);
              pending = b.numbers.insert t1.pending id 0;
            },
            new_record b id request violations,
          )

  -- What a commit, a release or a repair returns: never an error, and tables that keep the ledger.
  abbrev pub Succeeds : {A : Type 0} → (A → QuotaTables b) → Fallible A → Type 0
  Succeeds {A} tables result = (x : A) × (result ≡ ok x) × Ledger b (tables x)

  abbrev pub first_of : QuotaTables b × Bool → QuotaTables b
  first_of x = x.0

  pub release-Succeeds :
      (t : QuotaTables b) (id : ℕ) → Ledger b t → Succeeds first_of (release b t id)
  unfolding release
  release-Succeeds t id ledger = elim (Option-cases (b.texts.get t.reservation (b.uuid_text id))) [
    | inl missing ↦ ((t, false), rw (missing, release) refl, ledger)
    | inr (r, found) ↦
        let (t', e, kept, others) = release-Keeps b t ledger id r found in ((t', true), e, kept)
  ]

  pub commit_reservation-Succeeds :
      (t : QuotaTables b) (id : ℕ) → Ledger b t → Succeeds first_of (commit_reservation b t id)
  unfolding commit_reservation
  commit_reservation-Succeeds t id ledger =
      elim (Option-cases (b.texts.get t.reservation (b.uuid_text id))) [
        | inl missing ↦ ((t, false), rw (missing, commit_reservation) refl, ledger)
        | inr (r, found) ↦ elim (state_cases r.state) [
          | inl done ↦
              let is_done : (r.state == committed) ≡ true = rw done refl in
              ((t, false), rw (found, commit_reservation) (rw is_done refl), ledger)
          | inr pending ↦
              let (t', e, kept, others) = commit_reservation-Keeps b t ledger id r found pending in
              ((t', true), e, kept)
        ]
      ]
    where
      state_cases : (s : QuotaReservationState) → (s ≡ committed) ⊎ (s ≡ reserved)
      state_cases committed = inl refl
      state_cases reserved = inr refl

  pub release_all-Succeeds :
      (t : QuotaTables b) (ids : List ℕ) → Ledger b t → Succeeds (λ x. x) (release_all b t ids)
  unfolding release_all
  release_all-Succeeds t [] ledger = (t, refl, ledger)
  release_all-Succeeds t (id ∷ ids) ledger =
      let (x, e, kept) = release-Succeeds t id ledger in
      let (t', e', kept') = release_all-Succeeds x.0 ids kept in
      (
        t',
        ap (λ step. step >>= (λ (y : QuotaTables b × Bool). release_all b y.0 ids)) e ∙ e',
        kept',
      )

  abbrev pub repaired_tables : QuotaTables b × ℕ × Bool → QuotaTables b
  repaired_tables x = x.0

  pub repair_abandoned-Succeeds :
      (t : QuotaTables b) (limit : ℕ)
      → Ledger b t
      → Succeeds repaired_tables (repair_abandoned b t limit)
  unfolding repair_abandoned
  repair_abandoned-Succeeds t limit ledger = elim (Bool-cases (limit == 0)) [
    | inl nothing ↦ ((t, 0, false), rw (nothing, repair_abandoned) refl, ledger)
    | inr some_left ↦
        let entries = b.numbers.iter t.pending in
        let ids = map (λ (entry : ℕ × ℕ). entry.0) (take limit entries) in
        let (t', e, kept) = release_all-Succeeds t ids ledger in
        (
          (t', length ids, not (is_empty (drop limit entries))),
          rw (some_left, repair_abandoned) (rw e refl),
          kept,
        )
  ]
