-- ===== src/Rice.antt =====
-- The Rice coder of CCSDS 121.0-B-3 (crates/leodos-protocols/src/application/compression/rice.rs).
pub mod Config
pub mod BitWriter
pub mod BitReader
pub mod Mapper
pub mod Coding
pub mod Encoder
pub mod Decoder
mod Tests
mod Mapped
mod Pairs
mod DataCode
mod DataRoundTrip
mod Selection
mod Cds
mod BlockData
mod ZeroRuns
mod Steps
mod Sync
mod BlockStep
mod ZeroStep
mod CodedStep
mod AllBlocks
pub mod RoundTrip
mod BitLists
mod Written
mod Writes
mod Output
mod Ahead
mod Reads
