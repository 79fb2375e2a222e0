-- ===== src/Storage/Quota/Admission.antt =====
-- What an admitted reservation does to the rows that it touches (`ReservationRows::reserve` and
-- `ensure_total_add` of crates/peryx-storage/src/meta/quota.rs).
use velodex.Prelude.{
  ℕ, ◌+◌, ◌≤◌, ◌≡◌, inl, inr, refl, sym, ap, ◌∙◌, Bool, true, false, arith, leb, is_some, is_empty,
  not, ◌&&◌, if◌then◌else◌, Bool-cases, List,
}
use velodex.Prelude.Results.{ok, err, >>=-eq-ok, when}
use velodex.Storage.Quota.Model.{
  QuotaValue, QuotaLimits, QuotaLimit, u64_max, checked_add, ensure_total_add, Fallible,
}
use velodex.Storage.Quota.Charges.{Fits}
use velodex.Storage.Quota.Rows.{
  ReservationRows, Additions, additions, ensure_room, limit_violations, reserve_if, add_reserved,
  reserve,
}

abbrev pub added : Bool → QuotaValue → ℕ → QuotaValue
added b v amount = if b then record v { reserved = v.reserved + amount } else v

reserve_if_lem :
    (b : Bool) (v v' : QuotaValue) (amount : ℕ)
    → reserve_if b v amount ≡ ok v'
    → v' ≡ added b v amount
unfolding reserve_if checked_add
reserve_if_lem false v v' amount h = cc
reserve_if_lem true v v' amount h = elim (Bool-cases (leb (v.reserved + amount) u64_max)) [
  | inl fits ↦ let h' : the_sum ≡ ok v' = rw fits at h in cc
  | inr over ↦ let h' = rw over at h in cc
]
  where
    the_sum : Fallible QuotaValue
    the_sum = ok (record v { reserved = v.reserved + amount })

abbrev success : {A : Type 0} → A → Fallible A
success x = ok x

abbrev value_or : {A : Type 0} → A → Fallible A → A
value_or otherwise (ok x) = x
value_or otherwise (err e) = otherwise

pub ok_value : {A : Type 0} (x y : A) → success x ≡ success y → x ≡ y
ok_value x y h = ap (value_or x) h

-- The rows after the additions.
abbrev pub grown : ReservationRows → Additions → ℕ → ReservationRows
grown rows adds bytes = record rows {
  usage = record {
    file_bytes = added true rows.usage.file_bytes bytes;
    accounted_bytes = added adds.accounted_bytes rows.usage.accounted_bytes bytes;
    projects = added adds.project rows.usage.projects 1;
  };
  project = record {
    references = added (is_some rows.project_key) rows.project.references 1;
    versions = added adds.version rows.project.versions 1;
  };
  version = added (is_some rows.version_key) rows.version 1;
  blob = record { bytes = rows.blob.bytes; references = added true rows.blob.references 1 };
}

pub add_reserved-grown :
    (rows rows' : ReservationRows) (adds : Additions) (bytes : ℕ)
    → add_reserved rows adds bytes ≡ ok rows'
    → rows' ≡ grown rows adds bytes
unfolding add_reserved
add_reserved-grown rows rows' adds bytes h =
    let (file, e1, h1) = >>=-eq-ok (reserve_if true rows.usage.file_bytes bytes) _ h in
    let (accounted, e2, h2) =
      >>=-eq-ok (reserve_if adds.accounted_bytes rows.usage.accounted_bytes bytes) _ h1 in
    let (blobs, e3, h3) = >>=-eq-ok (reserve_if true rows.blob.references 1) _ h2 in
    let (count, e4, h4) = >>=-eq-ok (reserve_if adds.project rows.usage.projects 1) _ h3 in
    let (references, e5, h5) =
      >>=-eq-ok (reserve_if (is_some rows.project_key) rows.project.references 1) _ h4 in
    let (versions, e6, h6) = >>=-eq-ok (reserve_if adds.version rows.project.versions 1) _ h5 in
    let (version, e7, h7) = >>=-eq-ok (reserve_if (is_some rows.version_key) rows.version 1) _ h6 in
    let f1 = reserve_if_lem true rows.usage.file_bytes file bytes e1 in
    let f2 = reserve_if_lem adds.accounted_bytes rows.usage.accounted_bytes accounted bytes e2 in
    let f3 = reserve_if_lem true rows.blob.references blobs 1 e3 in
    let f4 = reserve_if_lem adds.project rows.usage.projects count 1 e4 in
    let f5 = reserve_if_lem (is_some rows.project_key) rows.project.references references 1 e5 in
    let f6 = reserve_if_lem adds.version rows.project.versions versions 1 e6 in
    let f7 = reserve_if_lem (is_some rows.version_key) rows.version version 1 e7 in
    sym (ok_value _ rows' h7) ∙ (λ i. record rows {
      usage = record { file_bytes = f1 i; accounted_bytes = f2 i; projects = f4 i };
      project = record { references = f5 i; versions = f6 i };
      version = f7 i;
      blob = record { bytes = rows.blob.bytes; references = f3 i };
    })

-- Nothing that the additions raise leaves the range of a `u64`.
abbrev pub RoomFor : QuotaValue → ℕ → Type 0
RoomFor v amount = v.committed + v.reserved + amount ≤ u64_max

pub record Room (rows : ReservationRows) (adds : Additions) (bytes : ℕ) : Type 0 where
  pub file : RoomFor rows.usage.file_bytes bytes
  pub accounted : adds.accounted_bytes ≡ true → RoomFor rows.usage.accounted_bytes bytes
  pub projects : adds.project ≡ true → RoomFor rows.usage.projects 1
  pub versions : adds.version ≡ true → RoomFor rows.project.versions 1
  pub blob : RoomFor rows.blob.references 1
  pub project : is_some rows.project_key ≡ true → RoomFor rows.project.references 1
  pub version : is_some rows.version_key ≡ true → RoomFor rows.version 1

ensure_total_add-RoomFor :
    (v : QuotaValue) (amount : ℕ) (u : Unit {0})
    → ensure_total_add v amount ≡ ok u
    → RoomFor v amount
unfolding ensure_total_add
ensure_total_add-RoomFor v amount u h = ground arith

when-RoomFor :
    (b : Bool) (v : QuotaValue) (amount : ℕ) (u : Unit {0})
    → when b (ensure_total_add v amount) ≡ ok u
    → b ≡ true
    → RoomFor v amount
when-RoomFor true v amount u h e = ensure_total_add-RoomFor v amount u h
when-RoomFor false v amount u h e = cc

pub ensure_room-Room :
    (rows : ReservationRows) (adds : Additions) (bytes : ℕ) (u : Unit {0})
    → ensure_room rows adds bytes ≡ ok u
    → Room rows adds bytes
unfolding ensure_room
ensure_room-Room rows adds bytes u h =
    let (u1, e1, h1) = >>=-eq-ok (ensure_total_add rows.usage.file_bytes bytes) _ h in
    let (u2, e2, h2) =
      >>=-eq-ok (when adds.accounted_bytes (ensure_total_add rows.usage.accounted_bytes bytes)) _
        h1 in
    let (u3, e3, h3) =
      >>=-eq-ok (when adds.project (ensure_total_add rows.usage.projects 1)) _ h2 in
    let (u4, e4, h4) =
      >>=-eq-ok (when adds.version (ensure_total_add rows.project.versions 1)) _ h3 in
    let (u5, e5, h5) = >>=-eq-ok (ensure_total_add rows.blob.references 1) _ h4 in
    let (u6, e6, e7) =
      >>=-eq-ok (when (is_some rows.project_key) (ensure_total_add rows.project.references 1)) _
        h5 in
    record {
      file = ensure_total_add-RoomFor rows.usage.file_bytes bytes u1 e1;
      accounted = when-RoomFor adds.accounted_bytes rows.usage.accounted_bytes bytes u2 e2;
      projects = when-RoomFor adds.project rows.usage.projects 1 u3 e3;
      versions = when-RoomFor adds.version rows.project.versions 1 u4 e4;
      blob = ensure_total_add-RoomFor rows.blob.references 1 u5 e5;
      project = when-RoomFor (is_some rows.project_key) rows.project.references 1 u6 e6;
      version = when-RoomFor (is_some rows.version_key) rows.version 1 u e7;
    }

pub added-Fits :
    (b : Bool) (v : QuotaValue) (amount : ℕ)
    → Fits v
    → (b ≡ true → RoomFor v amount)
    → Fits (added b v amount)
added-Fits true v amount f room = let r = room refl in omega arith
added-Fits false v amount f room = f

-- An admitted reservation had room, and adds to the counters that it found.
pub reserve-grown :
    (rows rows' : ReservationRows) (bytes : ℕ) (limits : QuotaLimits) (violations : List QuotaLimit)
    → reserve rows bytes limits ≡ ok (rows', violations)
    → Room rows (additions rows) bytes × (rows' ≡ grown rows (additions rows) bytes)
unfolding reserve
reserve-grown rows rows' bytes limits violations h =
    let adds = additions rows in
    let found =
      limit_violations rows.usage rows.project bytes adds.accounted_bytes adds.project adds.version
        limits in
    let (u, room, h1) = >>=-eq-ok (ensure_room rows adds bytes) _ h in
    elim (Bool-cases (not limits.audit && not (is_empty found))) [
      | inl refused ↦ let h2 = rw refused at h1 in cc
      | inr admitted ↦
          let h2 = rw admitted at h1 in
          let (after, e, h3) = >>=-eq-ok (add_reserved rows adds bytes) _ h2 in
          let same : after ≡ rows' =
            ap (λ r. r.0) (ok_value (after, found) (rows', violations) h3) in
          (
            ensure_room-Room rows adds bytes u room,
            sym same ∙ add_reserved-grown rows after adds bytes e,
          )
    ]
