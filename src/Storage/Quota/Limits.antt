-- ===== src/Storage/Quota/Limits.antt =====
-- What the limits enforce on an admitted reservation (`ReservationRows::reserve` of
-- crates/peryx-storage/src/meta/quota.rs).
use velodex.Prelude.{
  ℕ, ◌≤◌, ◌≡◌, inl, inr, refl, sym, ap, subst, ◌∙◌, Bool, true, false, ◌&&◌, Option, none, some,
  List, [], ◌∷◌, ◌++◌, arith, ltb, is_empty, is_some_and, Bool-cases,
}
use velodex.Prelude.Results.{ok, >>=-eq-ok}
use velodex.Storage.Quota.Model.{
  QuotaValue, QuotaLimits, QuotaLimit, file_bytes, accounted_bytes, projects, versions_per_project,
  total, checked_sum, Fallible,
}
use velodex.Storage.Quota.Admission.{added, ok_value, add_reserved-grown}
use velodex.Storage.Quota.Rows.{
  ReservationRows, additions, ensure_room, limit_violations, crosses, push_if, add_reserved,
  reserve,
}

abbrev pub IsWithin : Option ℕ → ℕ → Type 0
IsWithin limit amount = (l : ℕ) → limit ≡ some l → amount ≤ l

none_pushed :
    (b : Bool) (l : QuotaLimit) (rest : List QuotaLimit)
    → push_if b l ++ rest ≡ []
    → (b ≡ false) × (rest ≡ [])
none_pushed true l rest h = cc
none_pushed false l rest h = (refl, h)

last_pushed : (b : Bool) (l : QuotaLimit) → push_if b l ≡ [] → b ≡ false
last_pushed true l h = cc
last_pushed false l h = refl

-- A limit that is not crossed bounds the total after the addition.
not_crossed :
    (v : QuotaValue) (amount : ℕ) (limit : Option ℕ)
    → crosses (checked_sum (total v) amount) limit ≡ false
    → IsWithin limit (total (added true v amount))
unfolding total
not_crossed v amount none h l e = cc
not_crossed v amount (some limit) h l e = let same : limit ≡ l = cc in ground (arith, h, same)

abbrev success : {A : Type 0} → A → Fallible A
success x = ok x

is_empty_lem : (vs : List QuotaLimit) → is_empty vs ≡ true → vs ≡ []
is_empty_lem [] h = refl
is_empty_lem (v ∷ vs) h = cc

file-IsWithin :
    (bytes : ℕ) (limit : Option ℕ)
    → is_some_and (λ l. ltb l bytes) limit ≡ false
    → IsWithin limit bytes
file-IsWithin bytes none h l e = cc
file-IsWithin bytes (some limit) h l e = let same : limit ≡ l = cc in ground (arith, h, same)

counter-IsWithin :
    (adds : Bool) (v v' : QuotaValue) (amount : ℕ) (limit : Option ℕ)
    → adds && crosses (checked_sum (total v) amount) limit ≡ false
    → v' ≡ added adds v amount
    → adds ≡ true
    → IsWithin limit (total v')
counter-IsWithin true v v' amount limit h e grows =
    subst (λ x. IsWithin limit (total x)) (sym e) (not_crossed v amount limit h)
counter-IsWithin false v v' amount limit h e grows = cc

-- Where the limits are enforced, an admitted reservation has no violation: its bytes are within the
-- file limit, and each counter that it adds to is within its limit after the addition.
pub reserve-IsWithin :
    (rows rows' : ReservationRows) (bytes : ℕ) (limits : QuotaLimits) (violations : List QuotaLimit)
    → limits.audit ≡ false
    → reserve rows bytes limits ≡ ok (rows', violations)
    → (violations ≡ [])
      × IsWithin limits.max_file_bytes bytes
      × ((additions rows).accounted_bytes ≡ true
          → IsWithin limits.max_accounted_bytes (total rows'.usage.accounted_bytes))
      × ((additions rows).project ≡ true
          → IsWithin limits.max_projects (total rows'.usage.projects))
      × ((additions rows).version ≡ true
          → IsWithin limits.max_versions_per_project (total rows'.project.versions))
unfolding reserve limit_violations
reserve-IsWithin rows rows' bytes limits violations enforced h =
    let adds = additions rows in
    let found =
      limit_violations rows.usage rows.project bytes adds.accounted_bytes adds.project adds.version
        limits in
    let (u, room, h1) = >>=-eq-ok (ensure_room rows adds bytes) _ h in
    elim (Bool-cases (is_empty found)) [
      | inr some_found ↦ let h2 = rw (enforced, some_found) at h1 in cc
      | inl none_found ↦
          let h2 = rw (enforced, none_found) at h1 in
          let (after, e, h3) = >>=-eq-ok (add_reserved rows adds bytes) _ h2 in
          let results = ok_value (after, found) (rows', violations) h3 in
          let same : after ≡ rows' = ap (λ r. r.0) results in
          let empty : found ≡ [] = is_empty_lem found none_found in
          let (small, rest) = none_pushed _ file_bytes _ empty in
          let (room_left, rest') = none_pushed _ accounted_bytes _ rest in
          let (few_projects, rest'') = none_pushed _ projects _ rest' in
          let few_versions = last_pushed _ versions_per_project rest'' in
          let after_all = add_reserved-grown rows rows' adds bytes (e ∙ ap success same) in
          (
            sym (ap (λ r. r.1) results) ∙ empty,
            file-IsWithin bytes limits.max_file_bytes small,
            counter-IsWithin adds.accounted_bytes _ _ bytes limits.max_accounted_bytes room_left
                (ap (λ r. r.usage.accounted_bytes) after_all),
            counter-IsWithin adds.project _ _ 1 limits.max_projects few_projects
                (ap (λ r. r.usage.projects) after_all),
            counter-IsWithin adds.version _ _ 1 limits.max_versions_per_project few_versions
                (ap (λ r. r.project.versions) after_all),
          )
    ]
