-- ===== src/Builder.antt =====
-- Image building, src/builder: the Dockerfile parser (parser.rs) and dockerignore.rs.
pub mod Texts
pub mod Ignore
pub mod Wildcard
pub mod Pairs
pub mod Instructions
mod Tests
