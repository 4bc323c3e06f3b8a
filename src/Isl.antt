-- ===== src/Isl.antt =====
-- Routing and duplicate suppression on the inter-satellite links
-- (crates/leodos-protocols/src/network/isl).
pub mod Torus
pub mod Address
pub mod Manhattan
pub mod Duplicate
mod Tests
