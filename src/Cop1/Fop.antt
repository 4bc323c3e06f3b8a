-- ===== src/Cop1/Fop.antt =====
-- FOP-1, the sender of COP-1
-- (crates/leodos-protocols/src/datalink/reliability/cop1/fop.rs).
pub mod State
pub mod Queue
pub mod Machine
mod Slots
mod Buffer
pub mod Invariant
pub mod Preserve
pub mod Payload
pub mod Order
pub mod Limits
mod Tests
