-- ===== src/Storage/Quota/ProjectStep.antt =====
-- The project rows of a commit or a release, with the versions under them.
use velodex.Prelude.{
  ℕ, ◌+◌, ◌≡◌, inl, inr, refl, sym, ap, subst, ◌∙◌, Bool, true, Option, none, some, Str, ◌==◌,
  list_eq, nat_eq, if◌then◌else◌, get_or, list_beq_iff, beq_refl, Option-cases, Bool-cases,
}
use velodex.Prelude.Results.{ok}
use velodex.Storage.Table.{weight_of, total}
use velodex.Storage.Quota.Model.{
  QuotaValue, QuotaUsage, ProjectUsage, BlobUsage, References, QuotaReservationState, reserved,
  committed, state_eq, QuotaReservationRecord, no_value, no_project, no_usage, transition_counter,
  Fallible,
}
use velodex.Storage.Quota.Model
use velodex.Storage.Quota.Charges.{side}
use velodex.Storage.Quota.Store.{
  Backend, QuotaTables, usage_of, key_of, project_names, version_names, write_or_remove,
  transition_project,
}
use velodex.Storage.Quota.Transition.{written, get-write_or_remove}
use velodex.Storage.Quota.Ledger.{
  project_key, version_key, in_repository, in_project, Projects, Versions, versions_of, Ledger,
  no_versions_side,
}
use velodex.Storage.Quota.Change.{Change}
use velodex.Storage.Quota.LevelChange.{next_record, unkeyed_change, counter_change, keyed_change}
use velodex.Storage.Quota.Steps.{project_owner, version_step}

module _ (b : Backend) where
  abbrev pub usage_at : b.texts.Table QuotaUsage → Str → QuotaUsage
  usage_at usage p = get_or no_usage (b.texts.get usage p)

  module _ (usage : b.texts.Table QuotaUsage) (repository : Str) (new : QuotaUsage)
      (field : QuotaUsage → QuotaValue) where
    pub field_set :
        (p : Str)
        → field (usage_at (b.texts.insert usage repository new) p)
          ≡ (if repository == p then field new else field (usage_at usage p))
    field_set p =
        ap (λ o. field (get_or no_usage o)) (b.texts.get-insert usage repository p new) ∙ chosen
      where
        chosen :
            field (get_or no_usage (if repository == p then some new else b.texts.get usage p))
            ≡ (if repository == p then field new else field (usage_at usage p))
        chosen = elim (Bool-cases (repository == p)) [
          | inl hit ↦ rw hit refl
          | inr miss ↦ rw miss refl
        ]

    pub field_kept :
        field new ≡ field (usage_at usage repository)
        → (p : Str)
        → field (usage_at (b.texts.insert usage repository new) p) ≡ field (usage_at usage p)
    field_kept same p = field_set p ∙ chosen
      where
        chosen :
            (if repository == p then field new else field (usage_at usage p))
            ≡ field (usage_at usage p)
        chosen = elim (Bool-cases (repository == p)) [
          | inl hit ↦
              rw hit (same ∙ ap (λ x. field (usage_at usage x)) ((list_beq_iff repository p).0 hit))
          | inr miss ↦ rw miss refl
        ]

  pub no_version :
      (repository : Str) (project version : Option Str)
      → key_of b (project_names repository project) ≡ none
      → key_of b (version_names repository project version) ≡ none
  no_version repository none version e = refl
  no_version repository (some name) version e = cc

no_sides : (v : QuotaValue) → side committed v ≡ 0 → side reserved v ≡ 0 → v ≡ no_value
no_sides v c r = λ i. record { committed = c i; reserved = r i }

module _ (b : Backend) (t : QuotaTables b) (ledger : Ledger b t) (id : Str)
    (reservation : QuotaReservationRecord) (found : b.texts.get t.reservation id ≡ some reservation)
    {commit : Bool} {new_state : Option QuotaReservationState}
    (change : Change reservation.state commit new_state)
    (reservations' : b.texts.Table QuotaReservationRecord)
    (replaced : (w : Str → QuotaReservationRecord → ℕ)
      → total b.texts w reservations' + weight_of w id (some reservation)
        ≡ total b.texts w t.reservation + weight_of w id (next_record new_state reservation)) where
  abbrev count_of : Str → QuotaValue
  count_of p = (usage_of b t p).projects

  -- The version rows under the project rows.
  abbrev VersionsBelow : b.texts.Table References → QuotaValue → Str → Type 0
  VersionsBelow rows value pk =
      (counter' : Str → QuotaValue)
      → ((p : Str) → counter' p ≡ (if pk == p then value else versions_of b t.project p))
      → Versions b rows reservations' counter'

  module _ (pk : Str) (keyed : project_key b reservation ≡ some pk) (references : References)
      (version_rows : b.texts.Table References) (value : QuotaValue)
      (below : VersionsBelow version_rows value pk) (count' : Str → QuotaValue) where
    abbrev row : ProjectUsage
    row = record { references = references; versions = value }

    abbrev projects' : b.texts.Table ProjectUsage
    projects' = write_or_remove b t.project pk references row

    abbrev set_value : Str → QuotaValue
    set_value p = if pk == p then value else versions_of b t.project p

    -- A removed project row had no versions left.
    removed_empty :
        Projects b projects' reservations' count'
        → (Model.total references == 0) ≡ true
        → value ≡ no_value
    removed_empty ps gone =
        no_sides value (side_zero committed (gone_side committed))
          (side_zero reserved (gone_side reserved))
      where
        row_gone : b.texts.get projects' pk ≡ none
        row_gone =
            get-write_or_remove b t.project pk references row pk ∙ rw (beq_refl pk, gone) refl

        gone_side :
            (s : QuotaReservationState)
            → side s (get_or no_project (b.texts.get projects' pk)).references ≡ 0
        gone_side reserved = rw row_gone refl
        gone_side committed = rw row_gone refl

        side_zero :
            (s : QuotaReservationState)
            → side s (get_or no_project (b.texts.get projects' pk)).references ≡ 0
            → side s value ≡ 0
        side_zero s z =
            ap (side s) here
            ∙ no_versions_side b version_rows projects' reservations' set_value count'
                (below set_value (λ p. refl)) ps pk s z
          where
            here : value ≡ set_value pk
            here = rw (beq_refl pk) refl

    Versions-written :
        Projects b projects' reservations' count'
        → Versions b version_rows reservations' (versions_of b projects')
    Versions-written ps = below (versions_of b projects') same
      where
        here : (get_or no_project (written references row)).versions ≡ value
        here = elim (Bool-cases (Model.total references == 0)) [
          | inl gone ↦ rw gone (sym (removed_empty ps gone))
          | inr left ↦ rw left refl
        ]

        same : (p : Str) → versions_of b projects' p ≡ set_value p
        same p =
            ap (λ o. (get_or no_project o).versions)
              (get-write_or_remove b t.project pk references row p)
            ∙ chosen
          where
            chosen :
                (get_or no_project
                  (if pk == p then written references row else b.texts.get t.project p)).versions
                ≡ set_value p
            chosen = elim (Bool-cases (pk == p)) [ inl hit ↦ rw hit here | inr miss ↦ rw miss refl ]

  -- The project and version rows after the change, and the project counter of the repository.
  abbrev pub ProjectStep : QuotaTables b → Fallible (QuotaTables b) → Type 0
  ProjectStep t1 result =
      (t2 : QuotaTables b) × (result ≡ ok t2)
      × (t2.reservation ≡ t1.reservation)
      × (t2.pending ≡ t1.pending)
      × (t2.blob ≡ t1.blob)
      × ((p : Str) → (usage_of b t2 p).file_bytes ≡ (usage_of b t1 p).file_bytes)
      × ((p : Str) → (usage_of b t2 p).accounted_bytes ≡ (usage_of b t1 p).accounted_bytes)
      × Projects b t2.project reservations' (λ p. (usage_of b t2 p).projects)
      × Versions b t2.version reservations' (versions_of b t2.project)

  module _ (usage : b.texts.Table QuotaUsage) (blobs : b.texts.Table BlobUsage)
      (same_count : (p : Str) → (usage_at b usage p).projects ≡ count_of p) where
    abbrev t1 : QuotaTables b
    t1 = record t { usage = usage; blob = blobs }

    abbrev count : Str → QuotaValue
    count p = (usage_at b usage p).projects

    counted : Projects b t.project t.reservation count
    counted =
        subst (Projects b t.project t.reservation) (λ i p. sym (same_count p) i) ledger.projects

    unkeyed-ProjectStep :
        project_key b reservation ≡ none
        → ProjectStep t1 (transition_project b t1 reservation commit)
    unfolding transition_project
    unkeyed-ProjectStep e = (
      t1,
      rw (e, transition_project) refl,
      refl,
      refl,
      refl,
      λ p. refl,
      λ p. refl,
      unkeyed_change b (λ r. r.references) (λ r. 1) no_project (in_repository b) (project_key b)
          refl (λ r s. refl) t.project t.reservation reservations' count counted id reservation
          found change replaced count e (λ p. refl),
      unkeyed_change b (λ r. r) (λ r. 1) no_value (in_project b) (version_key b) refl (λ r s. refl)
          t.version t.reservation reservations' (versions_of b t.project) ledger.versions id
          reservation found change replaced (versions_of b t.project)
          (no_version b reservation.repository reservation.project reservation.version e)
          (λ p. refl),
    )

    module _ (pk : Str) (e : project_key b reservation ≡ some pk) where
      abbrev old_row : ProjectUsage
      old_row = get_or no_project (b.texts.get t.project pk)

      abbrev new_count : QuotaValue
      new_count = change.next_value (count reservation.repository) old_row.references 1

      abbrev new_references : References
      new_references = change.next_refs old_row.references

      abbrev new_usage : QuotaUsage
      new_usage = record (usage_at b usage reservation.repository) { projects = new_count }

      owned : (p : Str) → in_repository b p pk ≡ (reservation.repository == p)
      owned = project_owner b reservation.repository reservation.project pk e

      project_moved :
          transition_counter
            (count reservation.repository)
            old_row.references
            reservation.state
            1
            commit
          ≡ ok (new_count, new_references)
      project_moved =
          counter_change b (λ r. r.references) (λ r. 1) no_project (in_repository b) (project_key b)
            refl (λ r s. refl) t.project t.reservation reservations' count counted id reservation
            found change replaced pk reservation.repository e owned

      keyed-ProjectStep : ProjectStep t1 (transition_project b t1 reservation commit)
      unfolding transition_project
      keyed-ProjectStep =
          let (rows, value, versions_moved, below) =
            version_step b t ledger id reservation found change reservations' replaced pk e in
          let new_row : ProjectUsage = record { references = new_references; versions = value } in
          let new_projects = write_or_remove b t.project pk new_references new_row in
          let usage' = b.texts.insert usage reservation.repository new_usage in
          let count' : Str → QuotaValue = λ p. (usage_at b usage' p).projects in
          let projects_after : Projects b new_projects reservations' count' =
            keyed_change b (λ r. r.references) (λ r. 1) no_project (in_repository b) (project_key b)
              refl (λ r s. refl) t.project t.reservation reservations' count counted id reservation
              found change replaced pk reservation.repository e owned count' new_row refl refl
              (field_set b usage reservation.repository new_usage (λ u. u.projects)) in
          (
            record t1 { version = rows; usage = usage'; project = new_projects },
            rw (e, transition_project) (rw (project_moved, versions_moved) refl),
            refl,
            refl,
            refl,
            field_kept b usage reservation.repository new_usage (λ u. u.file_bytes) refl,
            field_kept b usage reservation.repository new_usage (λ u. u.accounted_bytes) refl,
            projects_after,
            Versions-written pk e new_references rows value below count' projects_after,
          )

    pub project_step : ProjectStep t1 (transition_project b t1 reservation commit)
    project_step = elim (Option-cases (project_key b reservation)) [
      | inl e ↦ unkeyed-ProjectStep e
      | inr (pk, e) ↦ keyed-ProjectStep pk e
    ]
