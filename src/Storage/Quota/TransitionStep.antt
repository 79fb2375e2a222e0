-- ===== src/Storage/Quota/TransitionStep.antt =====
-- A transition of a stored reservation on the ledger
-- (`transition` of crates/peryx-storage/src/meta/quota.rs).
use velodex.Prelude.{
  ℕ, ◌+◌, ◌≤◌, ◌≡◌, inl, inr, refl, sym, ap, subst, ◌∙◌, Bool, Option, none, some, [], ◌∷◌, arith,
  Str, ◌==◌, list_eq, nat_eq, if◌then◌else◌, get_or, list_beq_iff, beq_refl, Option-cases,
  Bool-cases,
}
use velodex.Prelude.Results.{ok}
use velodex.Storage.Table.{weight_of, total, weight-le-total}
use velodex.Storage.Quota.Model.{
  QuotaValue, QuotaUsage, BlobUsage, References, QuotaReservationState, reserved, committed,
  state_eq, QuotaReservationRecord, no_blob, transition_counter, move_value, subtract_value,
  Fallible,
}
use velodex.Storage.Quota.Model
use velodex.Storage.Quota.Charges.{side, Fits}
use velodex.Storage.Quota.Level.{counts}
use velodex.Storage.Quota.Store.{Backend, QuotaTables, usage_of, write_or_remove, transition}
use velodex.Storage.Quota.Transition.{written, get-write_or_remove}
use velodex.Storage.Quota.Ledger.{
  blob_key, in_repository, in_repository_owner, file_weight, Blobs, blob_at, Ledger,
}
use velodex.Storage.Quota.Change.{Change, hit}
use velodex.Storage.Quota.LevelChange.{next_record, counter_change, keyed_change}
use velodex.Storage.Quota.ProjectStep.{usage_at, field_set, field_kept, project_step}

module _ (b : Backend) (t : QuotaTables b) (ledger : Ledger b t) (id : Str)
    (reservation : QuotaReservationRecord) (found : b.texts.get t.reservation id ≡ some reservation)
    {commit : Bool} {new_state : Option QuotaReservationState}
    (change : Change reservation.state commit new_state)
    (reservations' : b.texts.Table QuotaReservationRecord)
    (replaced : (w : Str → QuotaReservationRecord → ℕ)
      → total b.texts w reservations' + weight_of w id (some reservation)
        ≡ total b.texts w t.reservation + weight_of w id (next_record new_state reservation))
    (stored : (k : Str)
      → b.texts.get reservations' k ≡ (
          if id == k then next_record new_state reservation else b.texts.get t.reservation k)) where
  abbrev home : Str
  home = reservation.repository

  abbrev blob_name : Str
  blob_name = b.to_json (reservation.repository ∷ reservation.digest ∷ [])

  abbrev old_usage : QuotaUsage
  old_usage = usage_of b t home

  abbrev old_blob : BlobUsage
  old_blob = blob_at b t.blob reservation

  abbrev accounted_of : Str → QuotaValue
  accounted_of p = (usage_of b t p).accounted_bytes

  same_size : old_blob.bytes ≡ reservation.bytes
  same_size = ledger.sizes id reservation found

  abbrev new_accounted : QuotaValue
  new_accounted = change.next_value old_usage.accounted_bytes old_blob.references reservation.bytes

  abbrev new_references : References
  new_references = change.next_refs old_blob.references

  abbrev new_file : QuotaValue
  new_file = change.next_file old_usage.file_bytes reservation.bytes

  abbrev new_usage : QuotaUsage
  new_usage = record old_usage { file_bytes = new_file; accounted_bytes = new_accounted }

  abbrev usage' : b.texts.Table QuotaUsage
  usage' = b.texts.insert t.usage home new_usage

  abbrev new_blob : BlobUsage
  new_blob = record old_blob { references = new_references }

  abbrev blobs' : b.texts.Table BlobUsage
  blobs' = write_or_remove b t.blob blob_name new_references new_blob

  owned : (p : Str) → in_repository b p blob_name ≡ (home == p)
  owned = in_repository_owner b home reservation.digest

  -- Blobs and accounted bytes.
  blob_moved :
      transition_counter old_usage.accounted_bytes old_blob.references reservation.state
        reservation.bytes commit
      ≡ ok (new_accounted, new_references)
  blob_moved =
      subst
        (λ bytes.
          transition_counter old_usage.accounted_bytes old_blob.references reservation.state bytes
            commit
          ≡ ok (
            change.next_value old_usage.accounted_bytes old_blob.references bytes,
            new_references,
          ))
        same_size
        (counter_change b (λ r. r.references) (λ r. r.bytes) no_blob (in_repository b) (blob_key b)
          refl (λ r s. refl) t.blob t.reservation reservations' accounted_of ledger.blobs id
          reservation found change replaced blob_name home refl owned)

  Blobs-after : Blobs b blobs' reservations' (λ p. (usage_at b usage' p).accounted_bytes)
  Blobs-after =
      keyed_change b (λ r. r.references) (λ r. r.bytes) no_blob (in_repository b) (blob_key b) refl
        (λ r s. refl) t.blob t.reservation reservations' accounted_of ledger.blobs id reservation
        found change replaced blob_name home refl owned (λ p. (usage_at b usage' p).accounted_bytes)
        new_blob refl refl updated
    where
      updated :
          (p : Str)
          → (usage_at b usage' p).accounted_bytes ≡ (
              if home == p
              then change.next_value (accounted_of home) old_blob.references old_blob.bytes
              else accounted_of p)
      updated p =
          subst
            (λ bytes. (usage_at b usage' p).accounted_bytes ≡ (
              if home == p
              then change.next_value (accounted_of home) old_blob.references bytes
              else accounted_of p))
            (sym same_size) (field_set b t.usage home new_usage (λ u. u.accounted_bytes) p)

  -- File bytes.
  file_here : reservation.bytes ≤ side reservation.state old_usage.file_bytes
  file_here = omega (
    arith,
    ledger.files home reservation.state,
    weight-le-total b.texts (file_weight b home reservation.state) t.reservation id,
    ap (weight_of (file_weight b home reservation.state) id) found,
    own,
  )
    where
      own : file_weight b home reservation.state id reservation ≡ reservation.bytes
      own = rw (beq_refl home, beq_refl reservation.state) refl

  file_moved :
      (if commit
        then move_value old_usage.file_bytes reservation.bytes
        else ok (subtract_value old_usage.file_bytes reservation.state reservation.bytes))
      ≡ ok new_file
  file_moved = change.file old_usage.file_bytes reservation.bytes (ledger.files_fit home) file_here

  hit_old :
      (p : Str) (s : QuotaReservationState)
      → file_weight b p s id reservation
        ≡ (if home == p then hit (some reservation.state) s reservation.bytes else 0)
  hit_old p s = ground arith

  hit_next :
      (o : Option QuotaReservationState) (p : Str) (s : QuotaReservationState)
      → weight_of (file_weight b p s) id (next_record o reservation)
        ≡ (if home == p then hit o s reservation.bytes else 0)
  hit_next none p s = ground arith
  hit_next (some x) p s = ground arith

  files_after :
      (p : Str) (s : QuotaReservationState)
      → side s (usage_at b usage' p).file_bytes ≡ total b.texts (file_weight b p s) reservations'
  files_after p s = elim (Bool-cases (home == p)) [
    | inl same ↦
        let e : home ≡ p = (list_beq_iff home p).0 same in
        let set : (usage_at b usage' p).file_bytes ≡ new_file =
          field_set b t.usage home new_usage (λ u. u.file_bytes) p ∙ rw same refl in
        let before : file_weight b p s id reservation
            ≡ hit (some reservation.state) s reservation.bytes =
          hit_old p s ∙ rw same refl in
        let next : weight_of (file_weight b p s) id (next_record new_state reservation)
            ≡ hit new_state s reservation.bytes =
          hit_next new_state p s ∙ rw same refl in
        omega (
          arith,
          ap (side s) set,
          ap (λ x. side s (usage_of b t x).file_bytes) e,
          ledger.files p s,
          replaced (file_weight b p s),
          before,
          next,
          change.file_side old_usage.file_bytes reservation.bytes s file_here,
        )
    | inr other ↦
        let kept : (usage_at b usage' p).file_bytes ≡ (usage_of b t p).file_bytes =
          field_set b t.usage home new_usage (λ u. u.file_bytes) p ∙ rw other refl in
        let before : file_weight b p s id reservation ≡ 0 = hit_old p s ∙ rw other refl in
        let next : weight_of (file_weight b p s) id (next_record new_state reservation) ≡ 0 =
          hit_next new_state p s ∙ rw other refl in
        omega
          (arith, ap (side s) kept, ledger.files p s, replaced (file_weight b p s), before, next)
  ]

  files_fit_after : (p : Str) → Fits (usage_at b usage' p).file_bytes
  files_fit_after p = elim (Bool-cases (home == p)) [
    | inl same ↦
        let set : (usage_at b usage' p).file_bytes ≡ new_file =
          field_set b t.usage home new_usage (λ u. u.file_bytes) p ∙ rw same refl in
        subst Fits (sym set) (
          change.file_fits old_usage.file_bytes reservation.bytes (ledger.files_fit home) file_here)
    | inr other ↦
        let kept : (usage_at b usage' p).file_bytes ≡ (usage_of b t p).file_bytes =
          field_set b t.usage home new_usage (λ u. u.file_bytes) p ∙ rw other refl in
        subst Fits (sym kept) (ledger.files_fit p)
  ]

  -- A blob row that is left has the size it had.
  kept_size :
      (key : Str) (row : BlobUsage)
      → b.texts.get blobs' key ≡ some row
      → row.bytes ≡ (get_or no_blob (b.texts.get t.blob key)).bytes
  kept_size key row present = elim (Bool-cases (blob_name == key)) [
    | inl same ↦
        let e : blob_name ≡ key = (list_beq_iff blob_name key).0 same in
        let now : written new_references new_blob ≡ some row =
          sym (get-write_or_remove b t.blob blob_name new_references new_blob key ∙ rw same refl)
          ∙ present in
        let is_new : new_blob ≡ row = only now in
        sym (ap (λ r. r.bytes) is_new) ∙ ap (λ k. (get_or no_blob (b.texts.get t.blob k)).bytes) e
    | inr other ↦
        let kept : b.texts.get t.blob key ≡ some row =
          sym (get-write_or_remove b t.blob blob_name new_references new_blob key ∙ rw other refl)
          ∙ present in
        rw kept refl
  ]
    where
      only : written new_references new_blob ≡ some row → new_blob ≡ row
      only h = elim (Bool-cases (Model.total new_references == 0)) [
        | inl gone ↦ let h' : none ≡ some row = rw gone at h in cc
        | inr left ↦ let h' : some new_blob ≡ some row = rw left at h in cc
      ]

  -- The blob of a reservation that is left has a row.
  row_left :
      (k : Str) (r : QuotaReservationRecord)
      → b.texts.get reservations' k ≡ some r
      → (row : BlobUsage) × (b.texts.get blobs' (b.to_json (r.repository ∷ r.digest ∷ []))
          ≡ some row)
  row_left k r present =
      elim (Option-cases (b.texts.get blobs' (b.to_json (r.repository ∷ r.digest ∷ [])))) [
        | inr (row, e) ↦ (row, e)
        | inl gone ↦ absurd (referred gone)
      ]
    where
      key : Str
      key = b.to_json (r.repository ∷ r.digest ∷ [])

      own : counts (blob_key b) key r.state k r ≡ 1
      own = rw (beq_refl key, beq_refl r.state) refl

      no_side : (s : QuotaReservationState) → side s (get_or no_blob none).references ≡ 0
      no_side reserved = refl
      no_side committed = refl

      referred : b.texts.get blobs' key ≡ none → ⊥
      referred gone = omega (
        arith,
        Blobs-after.references key r.state,
        ap (λ o. side r.state (get_or no_blob o).references) gone,
        no_side r.state,
        weight-le-total b.texts (counts (blob_key b) key r.state) reservations' k,
        ap (weight_of (counts (blob_key b) key r.state) k) present,
        own,
      )

  origin :
      (k : Str) (r : QuotaReservationRecord)
      → b.texts.get reservations' k ≡ some r
      → (k0 : Str) × (r0 : QuotaReservationRecord) × (b.texts.get t.reservation k0 ≡ some r0)
        × (b.to_json (r0.repository ∷ r0.digest ∷ []) ≡ b.to_json (r.repository ∷ r.digest ∷ []))
        × (r0.bytes ≡ r.bytes)
  origin k r present = elim (Bool-cases (id == k)) [
    | inr other ↦ (k, r, sym (stored k ∙ rw other refl) ∙ present, refl, refl)
    | inl same ↦ from new_state (sym (stored k ∙ rw same refl) ∙ present)
  ]
    where
      from :
          (o : Option QuotaReservationState)
          → next_record o reservation ≡ some r
          → (k0 : Str) × (r0 : QuotaReservationRecord) × (b.texts.get t.reservation k0 ≡ some r0)
            × (b.to_json (r0.repository ∷ r0.digest ∷ [])
                ≡ b.to_json (r.repository ∷ r.digest ∷ []))
            × (r0.bytes ≡ r.bytes)
      from none e = cc
      from (some s) e =
          let q : record reservation { state = s } ≡ r = cc in
          (
            id,
            reservation,
            found,
            ap (λ x. b.to_json (x.repository ∷ x.digest ∷ [])) q,
            ap (λ x. x.bytes) q,
          )

  sizes_after :
      (k : Str) (r : QuotaReservationRecord)
      → b.texts.get reservations' k ≡ some r
      → (blob_at b blobs' r).bytes ≡ r.bytes
  sizes_after k r present =
      let (row, e) = row_left k r present in
      let (k0, r0, found0, key, bytes) = origin k r present in
      ap (λ o. (get_or no_blob o).bytes) e
      ∙ kept_size (b.to_json (r.repository ∷ r.digest ∷ [])) row e
      ∙ ap (λ x. (get_or no_blob (b.texts.get t.blob x)).bytes) (sym key)
      ∙ ledger.sizes k0 r0 found0
      ∙ bytes

  -- The transition succeeds, and with the new reservations its tables keep the ledger.
  pub transition_step :
      (t2 : QuotaTables b) × (transition b t reservation commit ≡ ok t2)
      × (t2.reservation ≡ t.reservation)
      × (t2.pending ≡ t.pending)
      × ((pending' : b.numbers.Table ℕ)
          → Ledger b (record t2 { reservation = reservations'; pending = pending' }))
  unfolding transition
  transition_step =
      let (
        t2, moved, same_reservation, same_pending, same_blob, same_file, same_accounted, projects,
        versions,
      ) =
        project_step b t ledger id reservation found change reservations' replaced usage' blobs'
          (field_kept b t.usage home new_usage (λ u. u.projects) refl) in
      (
        t2,
        rw (file_moved, blob_moved, transition) moved,
        same_reservation,
        same_pending,
        λ pending'. record {
          files = λ p s. ap (side s) (same_file p) ∙ files_after p s;
          files_fit = λ p. subst Fits (sym (same_file p)) (files_fit_after p);
          sizes =
              λ k r present. ap (λ x. (blob_at b x r).bytes) same_blob ∙ sizes_after k r present;
          blobs =
              subst (λ x. Blobs b x reservations' (λ p. (usage_of b t2 p).accounted_bytes))
                (sym same_blob)
                (subst (Blobs b blobs' reservations') (λ i p. sym (same_accounted p) i)
                  Blobs-after);
          projects = projects;
          versions = versions;
        },
      )
