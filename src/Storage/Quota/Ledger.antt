-- ===== src/Storage/Quota/Ledger.antt =====
-- The invariant of the quota tables: every counter is the sum of what the reservations hold.
use velodex.Prelude.{
  ℕ, ◌<◌, ◌≡◌, inl, inr, refl, sym, ap, subst, ◌∙◌, Bool, true, false, ◌&&◌, Option, none, some,
  List, [], ◌∷◌, arith, Str, ◌==◌, list_eq, nat_eq, if◌then◌else◌, ltb, ltb→lt, Bool-cases,
  is_some_and, get_or, list_beq_iff,
}
use velodex.Storage.Table.{weight_of, total, total_positive, weight-le-total}
use velodex.Storage.Quota.Model.{
  QuotaValue, References, ProjectUsage, BlobUsage, no_value, no_project, no_blob,
  QuotaReservationState, reserved, committed, state_eq, QuotaReservationRecord,
}
use velodex.Storage.Quota.Charges.{side, charge, Fits}
use velodex.Storage.Quota.Store.{
  Backend, QuotaTables, usage_of, key_of, project_names, version_names,
}
use velodex.Storage.Quota.Level.{counts, charges, Balanced}

module _ (b : Backend) where
  -- The keys of the rows that a reservation refers to.
  abbrev pub blob_key : QuotaReservationRecord → Option Str
  blob_key r = some (b.to_json (r.repository ∷ r.digest ∷ []))

  abbrev pub project_key : QuotaReservationRecord → Option Str
  project_key r = key_of b (project_names r.repository r.project)

  abbrev pub version_key : QuotaReservationRecord → Option Str
  version_key r = key_of b (version_names r.repository r.project r.version)

  -- Whose counter a row is charged to: its repository's, or its project's.
  abbrev first_is : Str → Option (List Str) → Bool
  first_is repository none = false
  first_is repository (some []) = false
  first_is repository (some (r ∷ names)) = r == repository

  abbrev pub in_repository : Str → Str → Bool
  in_repository repository key = first_is repository (b.from_json key)

  abbrev project_is : Str → Option (List Str) → Bool
  project_is project (some (r ∷ p ∷ v ∷ [])) = b.to_json (r ∷ p ∷ []) == project
  project_is project _ = false

  abbrev pub in_project : Str → Str → Bool
  in_project project key = project_is project (b.from_json key)

  pub in_repository_owner :
      (repository name p : Str)
      → in_repository p (b.to_json (repository ∷ name ∷ [])) ≡ (repository == p)
  in_repository_owner repository name p = rw (b.json_round_trip (repository ∷ name ∷ [])) refl

  pub in_project_owner :
      (repository project version p : Str)
      → in_project p (b.to_json (repository ∷ project ∷ version ∷ []))
        ≡ (b.to_json (repository ∷ project ∷ []) == p)
  in_project_owner repository project version p =
      rw (b.json_round_trip (repository ∷ project ∷ version ∷ [])) refl

  abbrev pub file_weight : Str → QuotaReservationState → Str → QuotaReservationRecord → ℕ
  file_weight repository s id r =
      if (r.repository == repository) && (r.state == s) then r.bytes else 0

  abbrev pub Blobs :
      b.texts.Table BlobUsage → b.texts.Table QuotaReservationRecord → (Str → QuotaValue) → Type 0
  Blobs = Balanced b (λ r. r.references) (λ r. r.bytes) no_blob in_repository blob_key

  abbrev pub Projects :
      b.texts.Table ProjectUsage
      → b.texts.Table QuotaReservationRecord
      → (Str → QuotaValue)
      → Type 0
  Projects = Balanced b (λ r. r.references) (λ r. 1) no_project in_repository project_key

  abbrev pub Versions :
      b.texts.Table References → b.texts.Table QuotaReservationRecord → (Str → QuotaValue) → Type 0
  Versions = Balanced b (λ r. r) (λ r. 1) no_value in_project version_key

  abbrev pub versions_of : b.texts.Table ProjectUsage → Str → QuotaValue
  versions_of projects key = (get_or no_project (b.texts.get projects key)).versions

  abbrev pub blob_at : b.texts.Table BlobUsage → QuotaReservationRecord → BlobUsage
  blob_at blobs r = get_or no_blob (b.texts.get blobs (b.to_json (r.repository ∷ r.digest ∷ [])))

  pub record Ledger (t : QuotaTables b) : Type 0 where
    -- File bytes are the bytes of the repository's reservations.
    pub files :
        (repository : Str) (s : QuotaReservationState)
        → side s (usage_of b t repository).file_bytes
          ≡ total b.texts (file_weight repository s) t.reservation
    pub files_fit : (repository : Str) → Fits (usage_of b t repository).file_bytes
    -- A stored blob has the size that its reservations have.
    pub sizes :
        (id : Str) (r : QuotaReservationRecord)
        → b.texts.get t.reservation id ≡ some r
        → (blob_at t.blob r).bytes ≡ r.bytes
    -- Accounted bytes charge each blob once, project counts each project, version counts each version.
    pub blobs : Blobs t.blob t.reservation (λ r. (usage_of b t r).accounted_bytes)
    pub projects : Projects t.project t.reservation (λ r. (usage_of b t r).projects)
    pub versions : Versions t.version t.reservation (versions_of t.project)

  -- A version that counts belongs to a project that is referred to.
  keyed_in_project :
      (repository : Str) (project version : Option Str) (key pk : Str)
      → is_some_and (λ k. k == key) (key_of b (version_names repository project version)) ≡ true
      → in_project pk key ≡ true
      → is_some_and (λ k. k == pk) (key_of b (project_names repository project)) ≡ true
  keyed_in_project repository none version key pk h owned = cc
  keyed_in_project repository (some p) none key pk h owned = cc
  keyed_in_project repository (some p) (some v) key pk h owned =
      let e : b.to_json (repository ∷ p ∷ v ∷ []) ≡ key = (list_beq_iff _ key).0 h in
      let owned' : in_project pk (b.to_json (repository ∷ p ∷ v ∷ [])) ≡ true =
        subst (λ k. in_project pk k ≡ true) (sym e) owned in
      sym (in_project_owner repository p v pk) ∙ owned'

  version_in_project :
      (id key pk : Str) (s : QuotaReservationState) (r : QuotaReservationRecord)
      → 0 < counts version_key key s id r
      → in_project pk key ≡ true
      → counts project_key pk s id r ≡ 1
  version_in_project id key pk s r h owned =
      let counted : (is_some_and (λ k. k == key) (version_key r) && (r.state == s)) ≡ true =
        positive _ h in
      let same_state : (r.state == s) ≡ true = both_right _ _ counted in
      rw
        (
          keyed_in_project r.repository r.project r.version key pk (both_left _ _ counted) owned,
          same_state,
        )
        refl
    where
      positive : (c : Bool) → 0 < (if c then 1 else 0) → c ≡ true
      positive true h = refl
      positive false h = absurd (omega arith)

      both_left : (c d : Bool) → (c && d) ≡ true → c ≡ true
      both_left true d h = refl
      both_left false d h = cc

      both_right : (c d : Bool) → (c && d) ≡ true → d ≡ true
      both_right true d h = h
      both_right false d h = cc

  module _ (versions : b.texts.Table References) (projects : b.texts.Table ProjectUsage)
      (reservations : b.texts.Table QuotaReservationRecord)
      (version_counter project_counter : Str → QuotaValue)
      (vs : Versions versions reservations version_counter)
      (ps : Projects projects reservations project_counter) where
    -- Some pending or committed allocation of a project that has none cannot be.
    no_allocation :
        (pk : Str) (s : QuotaReservationState)
        → side s (get_or no_project (b.texts.get projects pk)).references ≡ 0
        → (id : Str) (r : QuotaReservationRecord) → b.texts.get reservations id ≡ some r
        → counts project_key pk s id r ≡ 1
        → ⊥
    no_allocation pk s zero_refs id r found one = omega (
      arith,
      ps.references pk s,
      weight-le-total b.texts (counts project_key pk s) reservations id,
      ap (weight_of (counts project_key pk s) id) found,
    )

    charged_references :
        (s : QuotaReservationState) (v : References) (c : Bool)
        → 0 < (if c then side s (charge v 1) else 0)
        → (c ≡ true) × (0 < side s v)
    charged_references s v false h = absurd (omega arith)
    charged_references committed v true h = (refl, ground arith)
    charged_references reserved v true h = (refl, ground arith)

    -- A project without references has no versions.
    pub no_versions_side :
        (pk : Str) (s : QuotaReservationState)
        → side s (get_or no_project (b.texts.get projects pk)).references ≡ 0
        → side s (version_counter pk) ≡ 0
    no_versions_side pk s zero_refs = elim (Bool-cases (ltb 0 (side s (version_counter pk)))) [
      | inr none_left ↦ ground arith
      | inl some_left ↦
          let positive : 0 < total b.texts (charges (λ r. r) (λ r. 1) in_project pk s) versions =
            omega (arith, vs.charged pk s, ltb→lt 0 (side s (version_counter pk)) some_left) in
          let (key, v, found, pos) =
            total_positive b.texts (charges (λ r. r) (λ r. 1) in_project pk s) versions positive in
          let (owned, live) = charged_references s v (in_project pk key) pos in
          let counted : 0 < total b.texts (counts version_key key s) reservations =
            omega (arith, vs.references key s, ap (λ o. side s (get_or no_value o)) found) in
          let (id, r, held, one) =
            total_positive b.texts (counts version_key key s) reservations counted in
          absurd
            (no_allocation pk s zero_refs id r held (version_in_project id key pk s r one owned))
    ]
