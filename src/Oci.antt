-- ===== src/Oci.antt =====
-- crates/peryx-ecosystem-oci: the names and the paths of the distribution protocol.
pub mod Names
pub mod Paths
mod Examples
