-- ===== src/Srspp.antt =====
-- The reliable transport of space packets (crates/leodos-protocols/src/transport/srspp).
pub mod Sequence
pub mod Sender
pub mod Receiver
pub mod Packets
pub mod Segmentation
pub mod EndToEnd
mod Tests
