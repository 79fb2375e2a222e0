-- ===== src/Core.antt =====
-- crates/peryx-core: percent encoding and the checks of paths.
pub mod Encoding
pub mod Routes
mod Examples
