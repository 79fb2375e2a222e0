-- ===== src/Storage/Quota/ReserveLedger.antt =====
-- An admitted reservation on the file bytes and the sizes of the blobs, and the whole ledger
-- (`MetaStore::reserve_quota` of crates/peryx-storage/src/meta/quota.rs).
use velodex.Prelude.{
  ℕ, ◌+◌, ◌<◌, ◌≡◌, inl, inr, refl, sym, ap, subst, ◌∙◌, true, none, some, List, [], ◌∷◌, arith,
  Str, ◌==◌, list_eq, nat_eq, if◌then◌else◌, get_or, beq_refl, list_beq_iff, Bool-cases,
}
use velodex.Storage.Table.{weight_of, total, total-insert, weight-le-total}
use velodex.Storage.Quota.Model.{
  QuotaUsage, BlobUsage, References, QuotaReservationState, reserved, committed, state_eq,
  NewQuotaReservation, QuotaReservationRecord, QuotaLimit, no_blob,
}
use velodex.Storage.Quota.Charges.{side, Fits}
use velodex.Storage.Quota.Admission.{added-Fits, grown, Room}
use velodex.Storage.Quota.Rows.{ReservationRows, additions}
use velodex.Storage.Quota.Store.{Backend, QuotaTables, usage_of, new_record, write_rows}
use velodex.Storage.Quota.Level.{counts}
use velodex.Storage.Quota.Ledger.{blob_key, file_weight, blob_at, Ledger}
use velodex.Storage.Quota.ProjectStep.{usage_at, field_set}
use velodex.Storage.Quota.Reserving.{
  rows_read, HasSize, Blobs-after, Projects-after, Versions-after,
}

module _ (b : Backend) (t : QuotaTables b) (request : NewQuotaReservation) (ledger : Ledger b t)
    (id : ℕ) (violations : List QuotaLimit)
    (unused : b.texts.get t.reservation (b.uuid_text id) ≡ none)
    (room : Room (rows_read b t request) (additions (rows_read b t request)) request.bytes)
    (size : HasSize b t request) where
  abbrev home : Str
  home = request.repository

  abbrev blob_name : Str
  blob_name = b.to_json (request.repository ∷ request.digest ∷ [])

  abbrev old_blob : BlobUsage
  old_blob = get_or no_blob (b.texts.get t.blob blob_name)

  abbrev name : Str
  name = b.uuid_text id

  abbrev reservation : QuotaReservationRecord
  reservation = new_record b id request violations

  abbrev after : ReservationRows
  after = grown (rows_read b t request) (additions (rows_read b t request)) request.bytes

  abbrev reservations' : b.texts.Table QuotaReservationRecord
  reservations' = b.texts.insert t.reservation name reservation

  abbrev usage' : b.texts.Table QuotaUsage
  usage' = b.texts.insert t.usage home after.usage

  abbrev blobs' : b.texts.Table BlobUsage
  blobs' = b.texts.insert t.blob blob_name after.blob

  abbrev written_tables : QuotaTables b
  written_tables = write_rows b t request.repository after

  replaced :
      (w : Str → QuotaReservationRecord → ℕ)
      → total b.texts w reservations' ≡ total b.texts w t.reservation + w name reservation
  replaced w =
      omega
        (arith, total-insert b.texts w t.reservation name reservation, ap (weight_of w name) unused)

  new_file :
      (s : QuotaReservationState)
      → side s after.usage.file_bytes
        ≡ side s (usage_of b t home).file_bytes + (if reserved == s then request.bytes else 0)
  new_file reserved = refl
  new_file committed = omega arith

  files_after :
      (p : Str) (s : QuotaReservationState)
      → side s (usage_at b usage' p).file_bytes ≡ total b.texts (file_weight b p s) reservations'
  files_after p s = elim (Bool-cases (home == p)) [
    | inl same ↦
        let set : (usage_at b usage' p).file_bytes ≡ after.usage.file_bytes =
          rw same at (field_set b t.usage home after.usage (λ u. u.file_bytes) p) in
        let weight : file_weight b p s name reservation
            ≡ (if reserved == s then request.bytes else 0) =
          rw same refl in
        omega (
          arith,
          ap (side s) set,
          new_file s,
          ap (λ x. side s (usage_of b t x).file_bytes) ((list_beq_iff home p).0 same),
          ledger.files p s,
          replaced (file_weight b p s),
          weight,
        )
    | inr other ↦
        let kept : (usage_at b usage' p).file_bytes ≡ (usage_of b t p).file_bytes =
          rw other at (field_set b t.usage home after.usage (λ u. u.file_bytes) p) in
        let weight : file_weight b p s name reservation ≡ 0 = rw other refl in
        omega (arith, ap (side s) kept, ledger.files p s, replaced (file_weight b p s), weight)
  ]

  files_fit_after : (p : Str) → Fits (usage_at b usage' p).file_bytes
  files_fit_after p = elim (Bool-cases (home == p)) [
    | inl same ↦
        let set : (usage_at b usage' p).file_bytes ≡ after.usage.file_bytes =
          rw same at (field_set b t.usage home after.usage (λ u. u.file_bytes) p) in
        subst Fits (sym set) (
          added-Fits true (usage_of b t home).file_bytes request.bytes (ledger.files_fit home)
            (λ e. room.file))
    | inr other ↦
        let kept : (usage_at b usage' p).file_bytes ≡ (usage_of b t p).file_bytes =
          rw other at (field_set b t.usage home after.usage (λ u. u.file_bytes) p) in
        subst Fits (sym kept) (ledger.files_fit p)
  ]

  abbrev key_of_blob : QuotaReservationRecord → Str
  key_of_blob r = b.to_json (r.repository ∷ r.digest ∷ [])

  -- The blob of a stored reservation is referred to.
  referred_blob :
      (k : Str) (r : QuotaReservationRecord)
      → b.texts.get t.reservation k ≡ some r
      → 0 < side r.state (blob_at b t.blob r).references
  referred_blob k r present = omega (
    arith,
    ledger.blobs.references (key_of_blob r) r.state,
    weight-le-total b.texts (counts (blob_key b) (key_of_blob r) r.state) t.reservation k,
    ap (weight_of (counts (blob_key b) (key_of_blob r) r.state) k) present,
    own,
  )
    where
      own : counts (blob_key b) (key_of_blob r) r.state k r ≡ 1
      own = rw (beq_refl (key_of_blob r), beq_refl r.state) refl

  some_side :
      (s : QuotaReservationState) (r : References) → 0 < side s r → 0 < r.committed + r.reserved
  some_side reserved r h = omega arith
  some_side committed r h = omega arith

  old_size :
      (k : Str) (r : QuotaReservationRecord)
      → b.texts.get t.reservation k ≡ some r
      → (blob_at b blobs' r).bytes ≡ r.bytes
  old_size k r present = elim (Bool-cases (blob_name == key_of_blob r)) [
    | inl same ↦
        let here : blob_name ≡ key_of_blob r = (list_beq_iff blob_name (key_of_blob r)).0 same in
        let stored : b.texts.get blobs' (key_of_blob r) ≡ some after.blob =
          b.texts.get-insert t.blob blob_name (key_of_blob r) after.blob ∙ rw same refl in
        let set : (blob_at b blobs' r).bytes ≡ request.bytes =
          ap (λ o. (get_or no_blob o).bytes) stored in
        let old : old_blob ≡ blob_at b t.blob r =
          ap (λ x. get_or no_blob (b.texts.get t.blob x)) here in
        let referred : 0 < old_blob.references.committed + old_blob.references.reserved =
          subst (λ (x : BlobUsage). 0 < x.references.committed + x.references.reserved) (sym old)
            (some_side r.state _ (referred_blob k r present)) in
        set ∙ sym (size referred) ∙ ap (λ (x : BlobUsage). x.bytes) old ∙ ledger.sizes k r present
    | inr other ↦
        let kept : b.texts.get blobs' (key_of_blob r) ≡ b.texts.get t.blob (key_of_blob r) =
          b.texts.get-insert t.blob blob_name (key_of_blob r) after.blob ∙ rw other refl in
        ap (λ o. (get_or no_blob o).bytes) kept ∙ ledger.sizes k r present
  ]

  sizes_after :
      (k : Str) (r : QuotaReservationRecord)
      → b.texts.get reservations' k ≡ some r
      → (blob_at b blobs' r).bytes ≡ r.bytes
  sizes_after k r present = elim (Bool-cases (name == k)) [
    | inr other ↦
        old_size k r
          (sym (b.texts.get-insert t.reservation name k reservation ∙ rw other refl) ∙ present)
    | inl same ↦
        let e : some reservation ≡ some r =
          sym (b.texts.get-insert t.reservation name k reservation ∙ rw same refl) ∙ present in
        let is_new : reservation ≡ r = cc in
        let stored : b.texts.get blobs' blob_name ≡ some after.blob =
          b.texts.get-insert t.blob blob_name blob_name after.blob ∙ rw (beq_refl blob_name) refl in
        subst (λ x. (blob_at b blobs' x).bytes ≡ x.bytes) is_new
          (ap (λ o. (get_or no_blob o).bytes) stored)
  ]

  pub written-Ledger :
      (pending' : b.numbers.Table ℕ)
      → Ledger b (record written_tables { reservation = reservations'; pending = pending' })
  unfolding write_rows
  written-Ledger pending' = record {
    files = files_after;
    files_fit = files_fit_after;
    sizes = sizes_after;
    blobs = Blobs-after b t request ledger id violations unused room size;
    projects = Projects-after b t request ledger id violations unused room size;
    versions = Versions-after b t request ledger id violations unused room size;
  }
