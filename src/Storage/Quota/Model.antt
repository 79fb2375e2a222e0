-- ===== src/Storage/Quota/Model.antt =====
-- The counters and records of crates/peryx-storage/src/meta/quota.rs, and the arithmetic on them.
-- Values are `u64`: an addition is checked, a subtraction wraps.
use velodex.Prelude.{
  ℕ, ◌+◌, ◌-◌, ◌%◌, ◌≡◌, ◌↔◌, Bool, true, false, Option, none, some, List, arith, Str, leb,
  PartialEq, ◌==◌, nat_eq, if◌then◌else◌,
}
use velodex.Prelude.Int.{ℤ}
use velodex.Prelude.Results.{Result, ok, err, ◌>>=◌}

pub data AccountingClass : Type 0 where
  hosted cached generated trash : AccountingClass

pub record QuotaValue : Type 0 where
  pub committed : ℕ
  pub reserved : ℕ

abbrev pub u64_modulus : ℕ
u64_modulus = 18446744073709551616

abbrev pub u64_max : ℕ
u64_max = 18446744073709551615

-- `u64::saturating_add` and `-=` on a `u64`
abbrev pub saturating_add : ℕ → ℕ → ℕ
saturating_add a b = if leb (a + b) u64_max then a + b else u64_max

unfoldable pub wrapping_sub : ℕ → ℕ → ℕ
wrapping_sub a b = (a + u64_modulus - b) % u64_modulus

-- `u64::checked_add`
abbrev pub checked_sum : ℕ → ℕ → Option ℕ
checked_sum a b = if leb (a + b) u64_max then some (a + b) else none

-- `QuotaValue::total` and `References::total`
unfoldable pub total : QuotaValue → ℕ
total v = saturating_add v.committed v.reserved

-- `References` has the fields of `QuotaValue`.
abbrev pub References : Type 0
References = QuotaValue

abbrev pub no_value : QuotaValue
no_value = record { committed = 0; reserved = 0 }

pub record QuotaUsage : Type 0 where
  pub file_bytes : QuotaValue
  pub accounted_bytes : QuotaValue
  pub projects : QuotaValue

pub record ProjectUsage : Type 0 where
  pub references : References
  pub versions : QuotaValue

pub record BlobUsage : Type 0 where
  pub bytes : ℕ
  pub references : References

abbrev pub no_usage : QuotaUsage
no_usage = record { file_bytes = no_value; accounted_bytes = no_value; projects = no_value }

abbrev pub no_project : ProjectUsage
no_project = record { references = no_value; versions = no_value }

abbrev pub no_blob : BlobUsage
no_blob = record { bytes = 0; references = no_value }

pub record QuotaLimits : Type 0 where
  pub max_file_bytes : Option ℕ
  pub max_accounted_bytes : Option ℕ
  pub max_projects : Option ℕ
  pub max_versions_per_project : Option ℕ
  pub audit : Bool

pub data QuotaLimit : Type 0 where
  file_bytes accounted_bytes projects versions_per_project : QuotaLimit

pub data QuotaReservationState : Type 0 where
  reserved committed : QuotaReservationState

abbrev state_beq : QuotaReservationState → QuotaReservationState → Bool
state_beq reserved reserved = true
state_beq reserved committed = false
state_beq committed reserved = false
state_beq committed committed = true

pub state_beq_iff : (a b : QuotaReservationState) → (state_beq a b ≡ true) ↔ (a ≡ b)
state_beq_iff a b = (λ h. ground arith, λ h. ground arith)

instance abbrev pub state_eq : PartialEq QuotaReservationState
state_eq = record { eq = state_beq; eq_iff = state_beq_iff }

pub record NewQuotaReservation : Type 0 where
  pub repository : Str
  pub project : Option Str
  pub version : Option Str
  pub digest : Str
  pub bytes : ℕ
  pub class : AccountingClass
  pub created_at_unix : ℤ

pub record QuotaReservationRecord : Type 0 where
  pub id : ℕ
  pub repository : Str
  pub project : Option Str
  pub version : Option Str
  pub digest : Str
  pub bytes : ℕ
  pub class : AccountingClass
  pub state : QuotaReservationState
  pub created_at_unix : ℤ
  pub violations : List QuotaLimit

-- The fields that `validate_request` names.
pub data Field : Type 0 where
  repository project version digest : Field

pub data QuotaError : Type 0 where
  empty : Field → QuotaError
  field_too_long : Field → ℕ → QuotaError
  version_without_project : QuotaError
  digest_size : Str → ℕ → ℕ → QuotaError
  counter_overflow : QuotaError
  reservation_unavailable : ℕ → QuotaError
  exceeded : List QuotaLimit → QuotaError

abbrev pub Fallible : Type 0 → Type 0
Fallible = Result QuotaError

-- `checked_add`
unfoldable pub checked_add : ℕ → ℕ → Fallible ℕ
checked_add value amount =
    if leb (value + amount) u64_max then ok (value + amount) else err counter_overflow

-- `ensure_total_add` and, with an amount of one, `ensure_references_add`
unfoldable pub ensure_total_add : QuotaValue → ℕ → Fallible (Unit {0})
ensure_total_add value amount = elim (checked_sum value.committed value.reserved) [
  | none ↦ err counter_overflow
  | some sum ↦ elim (checked_sum sum amount) [ none ↦ err counter_overflow | some _ ↦ ok tt ]
]

-- `move_value`
unfoldable pub move_value : QuotaValue → ℕ → Fallible QuotaValue
move_value value amount = do
  let left = wrapping_sub value.reserved amount
  sum ← checked_add value.committed amount
  ok (record { committed = sum; reserved = left })

-- `subtract_value` and, with an amount of one, `subtract_reference`
unfoldable pub subtract_value : QuotaValue → QuotaReservationState → ℕ → QuotaValue
subtract_value value committed amount = record value {
  committed = wrapping_sub value.committed amount;
}
subtract_value value reserved amount = record value {
  reserved = wrapping_sub value.reserved amount;
}

-- `rebalance_or_remove`
unfoldable pub rebalance_or_remove :
    QuotaValue → References → QuotaReservationState → ℕ → Fallible QuotaValue
rebalance_or_remove value references released amount =
    if total references == 0 then ok (subtract_value value released amount) else elim released [
      | reserved ↦ ok value
      | committed ↦
          if references.committed == 0
          then (do
            let left = wrapping_sub value.committed amount
            sum ← checked_add value.reserved amount
            ok (record { committed = left; reserved = sum }))
          else ok value
    ]

-- What a commit, or a release, does to one counter and to the references that share it. The three
-- functions `transition`, `transition_project` and `transition_version` repeat these lines.
unfoldable pub commit_counter : QuotaValue → References → ℕ → Fallible (QuotaValue × References)
unfolding checked_add move_value
commit_counter value references amount = do
  value' ← (if references.committed == 0 then move_value value amount else ok value)
  let left = wrapping_sub references.reserved 1
  sum ← checked_add references.committed 1
  ok (value', record { committed = sum; reserved = left })

unfoldable pub release_counter :
    QuotaValue → References → QuotaReservationState → ℕ → Fallible (QuotaValue × References)
unfolding checked_add subtract_value rebalance_or_remove total
release_counter value references state amount = do
  let left = subtract_value references state 1
  value' ← rebalance_or_remove value left state amount
  ok (value', left)

unfoldable pub transition_counter :
    QuotaValue → References → QuotaReservationState → ℕ → Bool → Fallible (QuotaValue × References)
unfolding commit_counter release_counter
transition_counter value references state amount commit =
    if commit
    then commit_counter value references amount
    else release_counter value references state amount
