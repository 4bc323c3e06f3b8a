-- ===== src/Sdls.antt =====
-- The security associations of the space data link security protocol
-- (crates/leodos-protocols/src/datalink/security/sdls).
pub mod Association
pub mod Table
pub mod Keys
pub mod KeyContract
mod Tests
