-- ===== src/Storage/Quota.antt =====
-- crates/peryx-storage/src/meta/quota.rs: storage quotas by reservation, commit and release.
pub mod Model
pub mod Charges
pub mod Rows
pub mod Store
pub mod Level
pub mod Transition
pub mod Ledger
pub mod Change
pub mod LevelChange
pub mod Steps
pub mod ProjectStep
pub mod TransitionStep
pub mod Moves
pub mod Admission
pub mod ReserveLevel
pub mod Reserving
pub mod ReserveLedger
pub mod Runs
pub mod Reached
pub mod Limits
mod Examples
