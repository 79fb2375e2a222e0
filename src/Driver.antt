-- ===== src/Driver.antt =====
-- crates/peryx-driver: what the server does for every ecosystem.
pub mod RateLimit
pub mod Jobs
mod Examples
