-- ===== src/Storage.antt =====
-- crates/peryx-storage: the metadata store.
pub mod Table
pub mod Quota
pub mod Webhooks
mod Example
