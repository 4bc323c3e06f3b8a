-- ===== src/Srspp/Sender.antt =====
-- The sender of SRSPP (crates/leodos-protocols/src/transport/srspp/machine/sender.rs).
pub mod State
pub mod Queue
pub mod Machine
pub mod Layout
pub mod Moving
pub mod Sorting
pub mod Compact
pub mod Store
pub mod Queueing
pub mod Preserve
pub mod Events
mod Buffer
pub mod Runs
