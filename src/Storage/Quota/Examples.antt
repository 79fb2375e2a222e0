-- ===== src/Storage/Quota/Examples.antt =====
-- A commit and a release on tables with one pending reservation of seven bytes.
use velodex.Prelude.{
  List, true, false, ℕ, ◌≡◌, refl, none, some, [], ◌∷◌, Str, codes, list_eq, nat_eq,
}
use velodex.Prelude.Int.{pos}
use velodex.Storage.Example.{backend}
use velodex.Storage.Quota.Model
use velodex.Storage.Quota.Rows.{ReservationRows, additions, reserve}
use velodex.Storage.Quota.Limits.{IsWithin, reserve-IsWithin}
use velodex.Storage.Quota.Model.{
  NewQuotaReservation, no_usage, no_project, QuotaLimits, QuotaLimit, QuotaValue, BlobUsage, hosted,
  QuotaReservationState, reserved, committed, state_eq, QuotaReservationRecord, no_value, no_blob,
}
use velodex.Storage.Quota.Store.{
  QuotaTables, commit_reservation, release, reserve_quota, read_rows, write_rows, repair_abandoned,
}
use velodex.Storage.Quota.Reached.{
  no_tables, no_tables-Ledger, Reached, empty_tables, then_reserved, Reached-Ledger,
  Reached-never_fails,
}
use velodex.Storage.Quota.Runs.{Succeeds, first_of, repaired_tables, Reserved, reserve_quota-Ledger}
use velodex.Prelude.Results.{ok}
use velodex.Storage.Quota.Ledger.{Ledger}
use velodex.Storage.Quota.Moves.{Keeps, commit_reservation-Keeps, release-Keeps}
open backend.texts use {fresh, insert}

abbrev pending_wheel : QuotaReservationRecord
pending_wheel = record {
  id = 5;
  repository = codes "r";
  project = none;
  version = none;
  digest = codes "d";
  bytes = 7;
  class = hosted;
  state = reserved;
  created_at_unix = pos 0;
  violations = [];
}

abbrev only_reserved : ℕ → QuotaValue
only_reserved amount = record { committed = 0; reserved = amount }

abbrev wheel_blob : BlobUsage
wheel_blob = record { bytes = 7; references = only_reserved 1 }

abbrev blob_name : Str
blob_name = backend.to_json (codes "r" ∷ codes "d" ∷ [])

abbrev tables : QuotaTables backend
tables = record {
  usage = insert fresh (codes "r") (record {
    file_bytes = only_reserved 7;
    accounted_bytes = only_reserved 7;
    projects = no_value;
  });
  project = fresh;
  version = fresh;
  blob = insert fresh blob_name wheel_blob;
  reservation = insert fresh (5 ∷ []) pending_wheel;
  pending = backend.numbers.insert backend.numbers.fresh 5 0;
}

abbrev one_each : QuotaLimits
one_each = record {
  max_file_bytes = some 10;
  max_accounted_bytes = some 7;
  max_projects = some 1;
  max_versions_per_project = some 1;
  audit = false;
}

abbrev wheel_request : NewQuotaReservation
wheel_request = record {
  repository = codes "r";
  project = none;
  version = none;
  digest = codes "d";
  bytes = 7;
  class = hosted;
  created_at_unix = pos 0;
}

wheel_reserved :
    reserve_quota backend (no_tables backend) 5 wheel_request one_each ≡ ok (tables, pending_wheel)
unfolding reserve_quota read_rows write_rows reserve additions
wheel_reserved = refl

abbrev tables-Reached : Reached backend tables
tables-Reached = then_reserved 5 wheel_request one_each empty_tables refl wheel_reserved

tables_Ledger : Ledger backend tables
tables_Ledger = Reached-Ledger backend tables-Reached

Reached-Ledger_example : Ledger backend tables
Reached-Ledger_example = Reached-Ledger backend tables-Reached

Reached-never_fails_example :
    ((id : ℕ) → Succeeds backend (first_of backend) (commit_reservation backend tables id))
    × ((id : ℕ) → Succeeds backend (first_of backend) (release backend tables id))
    × ((limit : ℕ)
        → Succeeds backend (repaired_tables backend) (repair_abandoned backend tables limit))
Reached-never_fails_example = Reached-never_fails backend tables-Reached

reserve_quota-Ledger_example :
    Reserved backend (no_tables backend) 5 wheel_request tables pending_wheel
reserve_quota-Ledger_example =
    reserve_quota-Ledger backend (no_tables backend) 5 wheel_request one_each tables pending_wheel
      (no_tables-Ledger backend) refl wheel_reserved

commit_reservation-Keeps_example :
    Keeps backend tables tables_Ledger 5
      (some (record pending_wheel { state = committed }))
      (commit_reservation backend tables 5)
commit_reservation-Keeps_example =
    commit_reservation-Keeps backend tables tables_Ledger 5 pending_wheel refl refl

release-Keeps_example : Keeps backend tables tables_Ledger 5 none (release backend tables 5)
release-Keeps_example = release-Keeps backend tables tables_Ledger 5 pending_wheel refl

-- The rows of a first reservation in a repository, before and after it.
abbrev first_rows : ReservationRows
first_rows = record {
  usage = no_usage;
  project = no_project;
  version = no_value;
  blob = record { bytes = 7; references = no_value };
  project_key = some (codes "p");
  version_key = some (codes "v");
  blob_key = blob_name;
}

abbrev rows_after : ReservationRows
rows_after = record first_rows {
  usage = record {
    file_bytes = only_reserved 7;
    accounted_bytes = only_reserved 7;
    projects = only_reserved 1;
  };
  project = record { references = only_reserved 1; versions = only_reserved 1 };
  version = only_reserved 1;
  blob = record { bytes = 7; references = only_reserved 1 };
}

abbrev no_violations : List QuotaLimit
no_violations = []

reserve-IsWithin_example :
    (no_violations ≡ [])
    × IsWithin (some 10) 7
    × ((additions first_rows).accounted_bytes ≡ true
        → IsWithin (some 7) (Model.total rows_after.usage.accounted_bytes))
    × ((additions first_rows).project ≡ true
        → IsWithin (some 1) (Model.total rows_after.usage.projects))
    × ((additions first_rows).version ≡ true
        → IsWithin (some 1) (Model.total rows_after.project.versions))
unfolding reserve
reserve-IsWithin_example = reserve-IsWithin first_rows rows_after 7 one_each no_violations refl refl
