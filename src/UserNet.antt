-- ===== src/UserNet.antt =====
-- The user-mode network stack, src/network/usernet.
pub mod Packets
pub mod Engine
mod Tests
