-- ===== src/Oci.antt =====
-- Image references, src/oci/reference.rs.
pub mod Reference
mod Tests
