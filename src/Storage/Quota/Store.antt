-- ===== src/Storage/Quota/Store.antt =====
-- The operations of `MetaStore` in crates/peryx-storage/src/meta/quota.rs, as functions on the tables
-- of a write transaction. Identifiers, `Uuid::new_v4`, are arguments. Failures of the database and of
-- the JSON codec are not modelled: the source drops the transaction.
use velodex.Prelude.{
  ℕ, ◌≡◌, Bool, true, false, not, ◌&&◌, Option, none, some, List, [], ◌∷◌, Str, ltb, ◌==◌, nat_eq,
  list_eq, if◌then◌else◌, length, is_empty, get_or, map, take, drop,
}
use velodex.Prelude.Results.{ok, err, ◌>>=◌, ◌>>◌}
use velodex.Storage.Table.{TableApi}
use velodex.Storage.Quota.Model.{
  QuotaValue, References, QuotaUsage, ProjectUsage, BlobUsage, no_value, no_usage, no_project,
  no_blob, QuotaLimits, QuotaLimit, reserved, committed, state_eq, NewQuotaReservation,
  QuotaReservationRecord, digest_size, Fallible, transition_counter, total, move_value,
  subtract_value,
}
use velodex.Storage.Quota.Rows.{ReservationRows, validate_request, reserve}

-- What the module takes from outside: tables under texts and under numbers, the JSON text of a list of
-- texts (`identity_key`) with its reader, and the text of an identifier.
pub record Backend : Type 1 where
  pub texts : TableApi Str
  pub numbers : TableApi ℕ
  pub to_json : List Str → Str
  pub from_json : Str → Option (List Str)
  pub json_round_trip : (xs : List Str) → from_json (to_json xs) ≡ some xs
  pub uuid_text : ℕ → Str
  pub uuid_text_injective : (a b : ℕ) → uuid_text a ≡ uuid_text b → a ≡ b

-- `Option::map` of a key, `Option::zip` of a project with its version
abbrev pub project_names : Str → Option Str → Option (List Str)
project_names repository none = none
project_names repository (some project) = some (repository ∷ project ∷ [])

abbrev pub version_names : Str → Option Str → Option Str → Option (List Str)
version_names repository none version = none
version_names repository (some project) none = none
version_names repository (some project) (some version) = some (repository ∷ project ∷ version ∷ [])

module _ (b : Backend) where
  abbrev pub Texts : Type 0 → Type 0
  Texts = b.texts.Table

  -- The tables of the database that the module writes.
  pub record QuotaTables : Type 0 where
    pub usage : Texts QuotaUsage
    pub project : Texts ProjectUsage
    pub version : Texts References
    pub blob : Texts BlobUsage
    pub reservation : Texts QuotaReservationRecord
    pub pending : b.numbers.Table ℕ

  abbrev pub usage_of : QuotaTables → Str → QuotaUsage
  usage_of t repository = get_or no_usage (b.texts.get t.usage repository)

  abbrev pub row_at : {V : Type 0} → V → Texts V → Option Str → V
  row_at missing table none = missing
  row_at missing table (some key) = get_or missing (b.texts.get table key)

  abbrev pub key_of : Option (List Str) → Option Str
  key_of none = none
  key_of (some names) = some (b.to_json names)

  -- `ReservationRows::read`
  unfoldable pub read_rows : QuotaTables → NewQuotaReservation → Fallible ReservationRows
  unfolding total
  read_rows t request =
      let project_key = key_of (project_names request.repository request.project) in
      let version_key = key_of (version_names request.repository request.project request.version) in
      let blob_key = b.to_json (request.repository ∷ request.digest ∷ []) in
      let blob = get_or no_blob (b.texts.get t.blob blob_key) in
      if ltb 0 (total blob.references) && not (blob.bytes == request.bytes)
      then err (digest_size request.digest blob.bytes request.bytes)
      else ok (record {
        usage = usage_of t request.repository;
        project = row_at no_project t.project project_key;
        version = row_at no_value t.version version_key;
        blob = record blob { bytes = request.bytes };
        project_key = project_key;
        version_key = version_key;
        blob_key = blob_key;
      })

  abbrev pub insert_at : {V : Type 0} → Texts V → Option Str → V → Texts V
  insert_at table none v = table
  insert_at table (some key) v = b.texts.insert table key v

  -- `ReservationRows::write`
  unfoldable pub write_rows : QuotaTables → Str → ReservationRows → QuotaTables
  write_rows t repository rows = record t {
    usage = b.texts.insert t.usage repository rows.usage;
    blob = b.texts.insert t.blob rows.blob_key rows.blob;
    project = insert_at t.project rows.project_key rows.project;
    version = insert_at t.version rows.version_key rows.version;
  }

  abbrev pub new_record : ℕ → NewQuotaReservation → List QuotaLimit → QuotaReservationRecord
  new_record id request violations = record {
    id = id;
    repository = request.repository;
    project = request.project;
    version = request.version;
    digest = request.digest;
    bytes = request.bytes;
    class = request.class;
    state = reserved;
    created_at_unix = request.created_at_unix;
    violations = violations;
  }

  -- `MetaStore::reserve_quota`, with the identifier that `Uuid::new_v4` returns
  unfoldable pub reserve_quota :
      QuotaTables
      → ℕ
      → NewQuotaReservation
      → QuotaLimits
      → Fallible (QuotaTables × QuotaReservationRecord)
  unfolding validate_request read_rows reserve write_rows
  reserve_quota t id request limits = do
    validate_request request
    rows ← read_rows t request
    (rows', violations) ← reserve rows request.bytes limits
    let reservation = new_record id request violations
    let t' = write_rows t request.repository rows'
    ok (
      record t' {
        reservation = b.texts.insert t'.reservation (b.uuid_text id) reservation;
        pending = b.numbers.insert t'.pending id 0;
      },
      reservation,
    )

  -- A row without references is removed.
  abbrev pub write_or_remove : {V : Type 0} → Texts V → Str → References → V → Texts V
  write_or_remove table key references v =
      if total references == 0 then b.texts.remove table key else b.texts.insert table key v

  -- `transition_version`: the version rows and the version counter of the project
  unfoldable pub transition_version :
      Texts References
      → QuotaValue
      → QuotaReservationRecord
      → Bool
      → Fallible (Texts References × QuotaValue)
  unfolding transition_counter total
  transition_version table versions reservation commit =
      elim (key_of (version_names reservation.repository reservation.project reservation.version)) [
        | none ↦ ok (table, versions)
        | some key ↦ do
          let version = get_or no_value (b.texts.get table key)
          (versions', version') ← transition_counter versions version reservation.state 1 commit
          ok (write_or_remove table key version' version', versions')
      ]

  -- `transition_project`
  unfoldable pub transition_project :
      QuotaTables → QuotaReservationRecord → Bool → Fallible QuotaTables
  unfolding transition_counter total transition_version
  transition_project t reservation commit =
      elim (key_of (project_names reservation.repository reservation.project)) [
        | none ↦ ok t
        | some key ↦ do
          let project = get_or no_project (b.texts.get t.project key)
          let usage = usage_of t reservation.repository
          (count, references) ←
              transition_counter usage.projects project.references reservation.state 1 commit
          (version_rows, versions) ←
              transition_version t.version project.versions reservation commit
          ok (record t {
            version = version_rows;
            usage =
                b.texts.insert t.usage reservation.repository (record usage { projects = count });
            project =
                write_or_remove t.project key references
                  (record { references = references; versions = versions });
          })
      ]

  -- `transition`
  unfoldable pub transition : QuotaTables → QuotaReservationRecord → Bool → Fallible QuotaTables
  unfolding transition_counter total transition_project move_value subtract_value
  transition t reservation commit = do
    let usage = usage_of t reservation.repository
    let blob_key = b.to_json (reservation.repository ∷ reservation.digest ∷ [])
    let blob = get_or no_blob (b.texts.get t.blob blob_key)
    file ←
        (if commit
          then move_value usage.file_bytes reservation.bytes
          else ok (subtract_value usage.file_bytes reservation.state reservation.bytes))
    (accounted, references) ←
        transition_counter usage.accounted_bytes blob.references reservation.state reservation.bytes
          commit
    transition_project
        (record t {
          usage =
              b.texts.insert t.usage reservation.repository
                (record usage { file_bytes = file; accounted_bytes = accounted });
          blob =
              write_or_remove t.blob blob_key references (record blob { references = references });
        })
        reservation commit

  -- `release`, which `MetaStore::release_quota_reservation` runs in a transaction of its own
  unfoldable pub release : QuotaTables → ℕ → Fallible (QuotaTables × Bool)
  unfolding transition
  release t id = elim (b.texts.get t.reservation (b.uuid_text id)) [
    | none ↦ ok (t, false)
    | some reservation ↦ do
      t' ← transition t reservation false
      ok (
        record t' {
          reservation = b.texts.remove t'.reservation (b.uuid_text id);
          pending = b.numbers.remove t'.pending id;
        },
        true,
      )
  ]

  -- `commit_reservation`, which `MetaStore::commit_quota_reservation` runs in a transaction of its own
  unfoldable pub commit_reservation : QuotaTables → ℕ → Fallible (QuotaTables × Bool)
  unfolding transition
  commit_reservation t id = elim (b.texts.get t.reservation (b.uuid_text id)) [
    | none ↦ ok (t, false)
    | some reservation ↦ if reservation.state == committed then ok (t, false) else (do
      t' ← transition t reservation true
      ok (
        record t' {
          reservation =
              b.texts.insert t'.reservation (b.uuid_text id)
                (record reservation { state = committed });
          pending = b.numbers.remove t'.pending id;
        },
        true,
      ))
  ]

  -- The loop of `MetaStore::repair_abandoned_quota_reservations`, and the whole of it. It returns how
  -- many identifiers it took, and whether some are left.
  unfoldable pub release_all : QuotaTables → List ℕ → Fallible QuotaTables
  unfolding release
  release_all t [] = ok t
  release_all t (id ∷ ids) = do (t', _) ← release t id; release_all t' ids

  unfoldable pub repair_abandoned : QuotaTables → ℕ → Fallible (QuotaTables × ℕ × Bool)
  unfolding release_all
  repair_abandoned t limit = if limit == 0 then ok (t, 0, false) else (do
    let entries = b.numbers.iter t.pending
    let ids = map (λ (entry : ℕ × ℕ). entry.0) (take limit entries)
    t' ← release_all t ids
    ok (t', length ids, not (is_empty (drop limit entries))))

  -- `MetaStore::quota_usage`, `quota_project_usage` and `quota_reservation`
  unfoldable pub quota_usage : QuotaTables → Str → QuotaUsage
  quota_usage t repository = usage_of t repository

  unfoldable pub quota_project_usage : QuotaTables → Str → Str → QuotaValue
  quota_project_usage t repository project =
      (get_or no_project (b.texts.get t.project (b.to_json (repository ∷ project ∷ [])))).versions

  unfoldable pub quota_reservation : QuotaTables → ℕ → Option QuotaReservationRecord
  quota_reservation t id = b.texts.get t.reservation (b.uuid_text id)
