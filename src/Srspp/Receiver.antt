-- ===== src/Srspp/Receiver.antt =====
-- The receiver of SRSPP (crates/leodos-protocols/src/transport/srspp/machine/receiver).
pub mod Base
pub mod Reassembly
pub mod Bitset
pub mod SlotMap
pub mod Fast
pub mod Slab
pub mod Packed
pub mod Ordered
pub mod Represent
pub mod Keep
pub mod Refine
pub mod Respond
pub mod Calls
pub mod Segments
pub mod Ack
pub mod Delayed
mod Tests
