-- ===== src/Network.antt =====
-- Networks: src/network/mod.rs.
pub mod Ports
pub mod Addresses
pub mod Ipam
pub mod Store
pub mod Endpoints
pub mod Members
pub mod Invariant
pub mod Reach
pub mod Connections
mod Tests
