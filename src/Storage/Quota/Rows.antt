-- ===== src/Storage/Quota/Rows.antt =====
-- The admission of a reservation in crates/peryx-storage/src/meta/quota.rs: the request's validation,
-- the limits, and the rows that a reservation changes.
use velodex.Prelude.{
  ℕ, Bool, true, not, ◌&&◌, Option, none, some, List, [], ◌∷◌, ◌++◌, Str, ltb, ◌==◌, nat_eq,
  list_eq, if◌then◌else◌, length, is_empty, is_some, is_none_or, is_some_and,
}
use velodex.Prelude.Results.{ok, err, ◌>>=◌, ◌>>◌, when}
use velodex.Storage.Quota.Model.{
  QuotaValue, References, QuotaUsage, ProjectUsage, BlobUsage, QuotaLimits, QuotaLimit, file_bytes,
  accounted_bytes, projects, versions_per_project, state_eq, NewQuotaReservation, Field, empty,
  field_too_long, version_without_project, exceeded, Fallible, checked_add, ensure_total_add, total,
  checked_sum,
}

abbrev pub max_identity_bytes : ℕ
max_identity_bytes = 512

-- One round of the loop of `validate_request`.
pub check_field : Field → Option Str → Fallible (Unit {0})
check_field field none = ok tt
check_field field (some value) =
    if is_empty value
    then err (empty field)
    else if ltb max_identity_bytes (length value)
    then err (field_too_long field max_identity_bytes)
    else ok tt

unfoldable pub validate_request : NewQuotaReservation → Fallible (Unit {0})
unfolding check_field
validate_request request = do
  check_field Field.repository (some request.repository)
  check_field Field.project request.project
  check_field Field.version request.version
  check_field Field.digest (some request.digest)
  if is_some request.version && not (is_some request.project)
      then err version_without_project
      else ok tt

-- A limit is crossed by a sum that is too large, or that overflows.
abbrev pub crosses : Option ℕ → Option ℕ → Bool
crosses sum limit = is_some_and (λ l. is_none_or (λ s. ltb l s) sum) limit

abbrev pub push_if : Bool → QuotaLimit → List QuotaLimit
push_if b limit = if b then limit ∷ [] else []

unfoldable pub limit_violations :
    QuotaUsage → ProjectUsage → ℕ → Bool → Bool → Bool → QuotaLimits → List QuotaLimit
unfolding total
limit_violations usage project bytes adds_accounted_bytes adds_project adds_version limits =
    push_if (is_some_and (λ limit. ltb limit bytes) limits.max_file_bytes) file_bytes
    ++ (push_if
          (adds_accounted_bytes
            && crosses (checked_sum (total usage.accounted_bytes) bytes) limits.max_accounted_bytes)
          accounted_bytes
        ++ (push_if
              (adds_project && crosses (checked_sum (total usage.projects) 1) limits.max_projects)
              projects
            ++ push_if
                (adds_version
                  && crosses (checked_sum (total project.versions) 1)
                      limits.max_versions_per_project)
                versions_per_project))

-- The rows that a reservation touches. `project_key`, `version_key` and `blob_key` are the keys that
-- they are written under.
pub record ReservationRows : Type 0 where
  pub usage : QuotaUsage
  pub project : ProjectUsage
  pub version : References
  pub blob : BlobUsage
  pub project_key : Option Str
  pub version_key : Option Str
  pub blob_key : Str

-- `adds_project`, `adds_version` and `adds_accounted_bytes` of `ReservationRows::reserve`.
pub record Additions : Type 0 where
  pub project : Bool
  pub version : Bool
  pub accounted_bytes : Bool

unfoldable pub additions : ReservationRows → Additions
unfolding total
additions rows = record {
  project = is_some rows.project_key && (total rows.project.references == 0);
  version = is_some rows.version_key && (total rows.version == 0);
  accounted_bytes = total rows.blob.references == 0;
}

-- The checks of `ReservationRows::reserve`, in its order.
unfoldable pub ensure_room : ReservationRows → Additions → ℕ → Fallible (Unit {0})
unfolding ensure_total_add
ensure_room rows adds bytes = do
  ensure_total_add rows.usage.file_bytes bytes
  when adds.accounted_bytes (ensure_total_add rows.usage.accounted_bytes bytes)
  when adds.project (ensure_total_add rows.usage.projects 1)
  when adds.version (ensure_total_add rows.project.versions 1)
  ensure_total_add rows.blob.references 1
  when (is_some rows.project_key) (ensure_total_add rows.project.references 1)
  when (is_some rows.version_key) (ensure_total_add rows.version 1)

-- `checked_add` on the reserved side, made only if the test holds.
unfoldable pub reserve_if : Bool → QuotaValue → ℕ → Fallible QuotaValue
unfolding checked_add
reserve_if b value amount =
    if b
    then (do sum ← checked_add value.reserved amount; ok (record value { reserved = sum }))
    else ok value

-- The additions of `ReservationRows::reserve`, in its order.
unfoldable pub add_reserved : ReservationRows → Additions → ℕ → Fallible ReservationRows
unfolding reserve_if
add_reserved rows adds bytes = do
  file ← reserve_if true rows.usage.file_bytes bytes
  accounted ← reserve_if adds.accounted_bytes rows.usage.accounted_bytes bytes
  blob_references ← reserve_if true rows.blob.references 1
  project_count ← reserve_if adds.project rows.usage.projects 1
  project_references ← reserve_if (is_some rows.project_key) rows.project.references 1
  versions ← reserve_if adds.version rows.project.versions 1
  version ← reserve_if (is_some rows.version_key) rows.version 1
  ok (record rows {
    usage = record { file_bytes = file; accounted_bytes = accounted; projects = project_count };
    project = record { references = project_references; versions = versions };
    version = version;
    blob = record { bytes = rows.blob.bytes; references = blob_references };
  })

unfoldable pub reserve :
    ReservationRows → ℕ → QuotaLimits → Fallible (ReservationRows × List QuotaLimit)
unfolding additions ensure_room limit_violations add_reserved
reserve rows bytes limits = do
  let adds = additions rows
  ensure_room rows adds bytes
  let violations =
      limit_violations rows.usage rows.project bytes adds.accounted_bytes adds.project adds.version
        limits
  if not limits.audit && not (is_empty violations)
      then err (exceeded violations)
      else do rows' ← add_reserved rows adds bytes; ok (rows', violations)
