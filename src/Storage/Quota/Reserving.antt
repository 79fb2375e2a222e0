-- ===== src/Storage/Quota/Reserving.antt =====
-- An admitted reservation on the levels of the ledger (`MetaStore::reserve_quota` of
-- crates/peryx-storage/src/meta/quota.rs).
use velodex.Prelude.{
  ℕ, ◌+◌, ◌<◌, ◌≡◌, inl, inr, refl, sym, ap, subst, ◌∙◌, Bool, true, false, Option, none, some,
  List, [], ◌∷◌, arith, Str, ◌==◌, list_eq, nat_eq, if◌then◌else◌, is_some, ◌&&◌, get_or,
  list_beq_iff, Bool-cases, not, ltb,
}
use velodex.Prelude.Results.{ok}
use velodex.Storage.Quota.Model
use velodex.Storage.Quota.Model.{
  QuotaValue, QuotaUsage, ProjectUsage, BlobUsage, References, QuotaReservationState, reserved,
  committed, state_eq, NewQuotaReservation, QuotaReservationRecord, QuotaLimit, QuotaLimits,
  no_value, no_blob, no_project, Fallible,
}
use velodex.Storage.Quota.Charges.{Fits, total_lem}
use velodex.Storage.Quota.Admission.{added, added-Fits, grown, Room, RoomFor}
use velodex.Storage.Quota.Rows.{ReservationRows, additions}
use velodex.Storage.Quota.Store.{
  Backend, QuotaTables, usage_of, key_of, project_names, version_names, row_at, insert_at,
  new_record, read_rows,
}
use velodex.Storage.Quota.Ledger.{
  blob_key, project_key, version_key, in_repository, in_repository_owner, in_project, Blobs,
  Projects, Versions, versions_of, Ledger,
}
use velodex.Storage.Quota.Steps.{project_owner, version_owner}
use velodex.Storage.Quota.ProjectStep.{usage_at, field_set, no_version}
use velodex.Storage.Quota.ReserveLevel.{keyed-Balanced, reserved-Balanced}

module _ (b : Backend) (t : QuotaTables b) (request : NewQuotaReservation) where
  abbrev home : Str
  home = request.repository

  abbrev project_name : Option Str
  project_name = key_of b (project_names request.repository request.project)

  abbrev version_name : Option Str
  version_name = key_of b (version_names request.repository request.project request.version)

  abbrev blob_name : Str
  blob_name = b.to_json (request.repository ∷ request.digest ∷ [])

  abbrev old_blob : BlobUsage
  old_blob = get_or no_blob (b.texts.get t.blob blob_name)

  -- The rows that are read, if they can be.
  abbrev pub rows_read : ReservationRows
  rows_read = record {
    usage = usage_of b t request.repository;
    project = row_at b no_project t.project project_name;
    version = row_at b no_value t.version version_name;
    blob = record old_blob { bytes = request.bytes };
    project_key = project_name;
    version_key = version_name;
    blob_key = blob_name;
  }

  -- A blob that is referred to has the size that is asked for.
  abbrev pub HasSize : Type 0
  HasSize =
      0 < old_blob.references.committed + old_blob.references.reserved
      → old_blob.bytes ≡ request.bytes

  pub read_rows-rows_read :
      (rows : ReservationRows)
      → Fits old_blob.references
      → read_rows b t request ≡ ok rows
      → (rows ≡ rows_read) × HasSize
  unfolding read_rows
  read_rows-rows_read rows f h =
      elim (Bool-cases
        (ltb 0 (Model.total old_blob.references) && not (old_blob.bytes == request.bytes))) [
          | inl other_size ↦ let h' = rw other_size at h in cc
          | inr same_size ↦
              let h' : ◌≡◌ {A = Fallible ReservationRows} (ok rows_read) (ok rows) =
                rw same_size at h in
              let e : rows_read ≡ rows = cc in
              let w = total_lem old_blob.references f in
              (sym e, λ referred. ground (arith, same_size, w, referred))
        ]

  module _ (ledger : Ledger b t) (id : ℕ) (violations : List QuotaLimit)
      (unused : b.texts.get t.reservation (b.uuid_text id) ≡ none)
      (room : Room rows_read (additions rows_read) request.bytes) (size : HasSize) where
    abbrev name : Str
    name = b.uuid_text id

    abbrev reservation : QuotaReservationRecord
    reservation = new_record b id request violations

    abbrev after : ReservationRows
    after = grown rows_read (additions rows_read) request.bytes

    abbrev reservations' : b.texts.Table QuotaReservationRecord
    reservations' = b.texts.insert t.reservation name reservation

    abbrev usage' : b.texts.Table QuotaUsage
    usage' = b.texts.insert t.usage home after.usage

    abbrev blobs' : b.texts.Table BlobUsage
    blobs' = b.texts.insert t.blob blob_name after.blob

    pub Blobs-after : Blobs b blobs' reservations' (λ p. (usage_at b usage' p).accounted_bytes)
    unfolding additions
    Blobs-after =
        keyed-Balanced b (λ r. r.references) (λ r. r.bytes) no_blob (in_repository b) (blob_key b)
          refl t.blob t.reservation (λ p. (usage_of b t p).accounted_bytes)
          (λ p. (usage_at b usage' p).accounted_bytes) ledger.blobs name reservation unused refl
          blob_name home refl (in_repository_owner b home request.digest) after.blob refl
          (λ v present referred.
            sym (ap (λ o. (get_or no_blob o).bytes) present)
            ∙ size (
                subst (λ (r : References). 0 < r.committed + r.reserved)
                  (sym (ap (λ o. (get_or no_blob o).references) present)) referred))
          (added-Fits true old_blob.references 1 (ledger.blobs.refs_fit blob_name) (λ e. room.blob))
          (added-Fits (Model.total old_blob.references == 0) (usage_of b t home).accounted_bytes
            request.bytes (ledger.blobs.counter_fit home) room.accounted)
          (field_set b t.usage home after.usage (λ u. u.accounted_bytes))

    project-Fits : (key : Option Str) → Fits (row_at b no_project t.project key).references
    project-Fits none = omega arith
    project-Fits (some key) = ledger.projects.refs_fit key

    version-Fits : (key : Option Str) → Fits (row_at b no_value t.version key)
    version-Fits none = omega arith
    version-Fits (some key) = ledger.versions.refs_fit key

    abbrev projects' : b.texts.Table ProjectUsage
    projects' = insert_at b t.project project_name after.project

    pub Projects-after : Projects b projects' reservations' (λ p. (usage_at b usage' p).projects)
    unfolding additions
    Projects-after =
        reserved-Balanced b (λ r. r.references) (λ r. 1) no_project (in_repository b)
          (project_key b) refl t.project t.reservation (λ p. (usage_of b t p).projects)
          (λ p. (usage_at b usage' p).projects) ledger.projects name reservation unused refl
          project_name home after.project refl (λ k e. project_owner b home request.project k e)
          refl (λ k v present e referred. refl)
          (λ keyed.
            added-Fits true rows_read.project.references 1 (project-Fits project_name)
              (λ e. room.project keyed))
          (added-Fits (additions rows_read).project (usage_of b t home).projects 1
            (ledger.projects.counter_fit home) room.projects)
          (field_set b t.usage home after.usage (λ u. u.projects))

    abbrev versions' : b.texts.Table References
    versions' = insert_at b t.version version_name after.version

    -- The project row is written with the version counter of its versions.
    versions_counted :
        (key : Option Str) (row : ProjectUsage) (grows : Bool)
        → row.versions ≡ added grows (row_at b no_project t.project key).versions 1
        → (key ≡ none → grows ≡ false)
        → (p : Str)
        → versions_of b (insert_at b t.project key row) p ≡ (
            if get_or [] key == p
            then added grows (versions_of b t.project (get_or [] key)) 1
            else versions_of b t.project p)
    versions_counted none row grows e still p = rw (still refl) (elim (Bool-cases ([] == p)) [
      | inl here ↦ rw here (ap (versions_of b t.project) (sym ((list_beq_iff [] p).0 here)))
      | inr other ↦ rw other refl
    ])
    versions_counted (some key) row grows e still p =
        ap (λ o. (get_or no_project o).versions) (b.texts.get-insert t.project key p row)
        ∙ (elim (Bool-cases (key == p)) [ inl here ↦ rw here e | inr other ↦ rw other refl ])

    owned :
        (project version : Option Str) (k : Str)
        → key_of b (version_names home project version) ≡ some k
        → (p : Str) → in_project b p k ≡ (get_or [] (key_of b (project_names home project)) == p)
    owned none version k e p = cc
    owned (some project) version k e p =
        version_owner b home (some project) version k (b.to_json (home ∷ project ∷ [])) e refl p

    at_parent :
        (project version : Option Str)
        → is_some (key_of b (version_names home project version)) ≡ true
        → (row_at b no_project t.project (key_of b (project_names home project))).versions
          ≡ versions_of b t.project (get_or [] (key_of b (project_names home project)))
    at_parent none version e = cc
    at_parent (some project) version e = refl

    version_room :
        (additions rows_read).version ≡ true
        → RoomFor (versions_of b t.project (get_or [] project_name)) 1
    unfolding additions
    version_room grows =
        subst (λ v. RoomFor v 1) (at_parent request.project request.version (ground (arith, grows)))
          (room.versions grows)

    no_growth : project_name ≡ none → (additions rows_read).version ≡ false
    unfolding additions
    no_growth missing = rw (no_version b home request.project request.version missing) refl

    pub Versions-after : Versions b versions' reservations' (versions_of b projects')
    unfolding additions
    Versions-after =
        reserved-Balanced b (λ r. r) (λ r. 1) no_value (in_project b) (version_key b) refl t.version
          t.reservation (versions_of b t.project) (versions_of b projects') ledger.versions name
          reservation unused refl version_name (get_or [] project_name) after.version refl
          (owned request.project request.version) refl (λ k v present e referred. refl)
          (λ keyed.
            added-Fits true rows_read.version 1 (version-Fits version_name)
              (λ e. room.version keyed))
          (added-Fits (additions rows_read).version
            (versions_of b t.project (get_or [] project_name)) 1
            (ledger.versions.counter_fit (get_or [] project_name)) version_room)
          (versions_counted project_name after.project (additions rows_read).version refl no_growth)
