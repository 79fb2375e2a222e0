-- ===== src/Storage/Quota/Steps.antt =====
-- The keys and the version rows of a commit or a release.
use velodex.Prelude.{
  ℕ, ◌+◌, ◌≡◌, inl, inr, refl, ap, subst, ◌∙◌, Bool, Option, none, some, [], ◌∷◌, Str, ◌==◌,
  list_eq, nat_eq, if◌then◌else◌, get_or, list_beq_iff, Option-cases, Bool-cases,
}
use velodex.Prelude.Results.{ok}
use velodex.Storage.Table.{weight_of, total}
use velodex.Storage.Quota.Model.{
  QuotaValue, References, QuotaReservationState, state_eq, QuotaReservationRecord, no_value,
  Fallible,
}
use velodex.Storage.Quota.Store.{
  Backend, QuotaTables, key_of, project_names, version_names, write_or_remove, transition_version,
}
use velodex.Storage.Quota.Ledger.{
  project_key, version_key, in_repository, in_project, in_repository_owner, in_project_owner,
  Versions, versions_of, Ledger,
}
use velodex.Storage.Quota.Change.{Change}
use velodex.Storage.Quota.LevelChange.{next_record, unkeyed_change, counter_change, keyed_change}

module _ (b : Backend) where
  -- The keys of a reservation's rows lead back to its repository and its project.
  pub project_owner :
      (repository : Str) (project : Option Str) (key : Str)
      → key_of b (project_names repository project) ≡ some key
      → (p : Str) → in_repository b p key ≡ (repository == p)
  project_owner repository none key e p = cc
  project_owner repository (some name) key e p =
      let k : b.to_json (repository ∷ name ∷ []) ≡ key = cc in
      subst (λ x. in_repository b p x ≡ (repository == p)) k
        (in_repository_owner b repository name p)

  pub version_owner :
      (repository : Str) (project version : Option Str) (key pk : Str)
      → key_of b (version_names repository project version) ≡ some key
      → key_of b (project_names repository project) ≡ some pk
      → (p : Str) → in_project b p key ≡ (pk == p)
  version_owner repository none version key pk e e' p = cc
  version_owner repository (some name) none key pk e e' p = cc
  version_owner repository (some name) (some version) key pk e e' p =
      let k : b.to_json (repository ∷ name ∷ version ∷ []) ≡ key = cc in
      let k' : b.to_json (repository ∷ name ∷ []) ≡ pk = cc in
      subst (λ x. in_project b p x ≡ (pk == p)) k
        (in_project_owner b repository name version p ∙ rw k' refl)

module _ (b : Backend) (t : QuotaTables b) (ledger : Ledger b t) (id : Str)
    (reservation : QuotaReservationRecord) (found : b.texts.get t.reservation id ≡ some reservation)
    {commit : Bool} {new_state : Option QuotaReservationState}
    (change : Change reservation.state commit new_state)
    (reservations' : b.texts.Table QuotaReservationRecord)
    (replaced : (w : Str → QuotaReservationRecord → ℕ)
      → total b.texts w reservations' + weight_of w id (some reservation)
        ≡ total b.texts w t.reservation + weight_of w id (next_record new_state reservation)) where
  abbrev repository : Str
  repository = reservation.repository

  -- The version rows and the version counter of one project.
  abbrev pub VersionStep : Str → Fallible (b.texts.Table References × QuotaValue) → Type 0
  VersionStep pk result =
      (rows : b.texts.Table References) × (value : QuotaValue) × (result ≡ ok (rows, value))
      × ((counter' : Str → QuotaValue)
          → ((p : Str) → counter' p ≡ (if pk == p then value else versions_of b t.project p))
          → Versions b rows reservations' counter')

  pub version_step :
      (pk : Str)
      → project_key b reservation ≡ some pk
      → VersionStep pk
          (transition_version b t.version (versions_of b t.project pk) reservation commit)
  unfolding transition_version
  version_step pk has_project = elim (Option-cases (version_key b reservation)) [
    | inl e ↦
        rw (e, transition_version)
          (
            t.version,
            versions_of b t.project pk,
            refl,
            λ counter' updated.
                unkeyed_change b (λ r. r) (λ r. 1) no_value (in_project b) (version_key b) refl
                  (λ r s. refl) t.version t.reservation reservations' (versions_of b t.project)
                  ledger.versions id reservation found change replaced counter' e
                  (λ p. updated p ∙ same_counter p),
          )
    | inr (key, e) ↦
        let owner =
          version_owner b repository reservation.project reservation.version key pk e has_project in
        let moved =
          counter_change b (λ r. r) (λ r. 1) no_value (in_project b) (version_key b) refl
            (λ r s. refl) t.version t.reservation reservations' (versions_of b t.project)
            ledger.versions id reservation found change replaced key pk e owner in
        let v = get_or no_value (b.texts.get t.version key) in
        rw (e, transition_version, moved)
          (
            write_or_remove b t.version key (change.next_refs v) (change.next_refs v),
            change.next_value (versions_of b t.project pk) v 1,
            refl,
            λ counter' updated.
                keyed_change b (λ r. r) (λ r. 1) no_value (in_project b) (version_key b) refl
                  (λ r s. refl) t.version t.reservation reservations' (versions_of b t.project)
                  ledger.versions id reservation found change replaced key pk e owner counter'
                  (change.next_refs v) refl refl updated,
          )
  ]
    where
      same_counter :
          (p : Str)
          → (if pk == p then versions_of b t.project pk else versions_of b t.project p)
            ≡ versions_of b t.project p
      same_counter p = elim (Bool-cases (pk == p)) [
        | inl same ↦ rw same (ap (versions_of b t.project) ((list_beq_iff pk p).0 same))
        | inr other ↦ rw other refl
      ]
