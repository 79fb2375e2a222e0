-- ===== src/Identity.antt =====
-- crates/peryx-identity: who a request speaks as, what it may do, and the patterns of its grants.
pub mod Glob
pub mod Secrets
pub mod Basic
pub mod Acl
mod Examples
