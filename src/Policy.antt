-- ===== src/Policy.antt =====
-- The policy engine, crates/peryx-policy, and the role grants of crates/peryx-identity/src/roles.rs.
pub mod Model
pub mod Evaluation
pub mod Decisions
pub mod Versions
pub mod Roles
mod Examples
