-- ===== src/Lib.antt =====
-- A model of LeoDOS's protocol crate (crates/leodos-protocols), which links satellites of a
-- constellation to each other and to the ground, with the theorems that make it correct.
--
-- The parts, and the files that model them:
--
-- - Cop1: the reliable hop of the data link (crates/leodos-protocols/src/datalink/reliability/cop1).
--   Cop1.Clcw is the control word of clcw.rs, a number with masks: `get` and `set` are its bit
--   operations, and each reading and writing method is one definition. Cop1.Farm is the receiver of
--   farm.rs: FarmMachine is its struct, `handle` its `handle`, and the list of actions stands for
--   FarmActions. Cop1.Fop is the sender of fop.rs: Fop.State has its types, Fop.Queue the sent queue
--   and the data buffer, Fop.Machine the handlers. The receiver's `clcw` makes the control word that
--   the sender's `handle` reads.
-- - Isl: the network between satellites (crates/leodos-protocols/src/network/isl). Isl.Torus is the grid
--   of torus.rs, Isl.Address the addresses of address.rs, Isl.Manhattan the routing of
--   routing/algorithm/manhattan.rs, which asks the grid for directions. The gateway that a ground
--   station's line of sight gives is computed in floating point, and is a parameter. Isl.Duplicate
--   is the duplicate filter of gossip/bitmap.rs, its bitmap a number below 2 ^ 128.
-- - Sdls: the security associations (crates/leodos-protocols/src/datalink/security/sdls/sa_mgmt.rs):
--   Sdls.Association is ManagedSa, Sdls.Table is SaTable, and Sdls.Table.Command gathers the
--   table's operations and states their contract. Sdls.Keys is the key ring of key.rs beside it, and
--   Sdls.KeyContract its contract.
-- - Rice: the lossless compression of application/compression/rice.rs. Rice.BitWriter and
--   Rice.BitReader are its bit streams, Rice.Mapper the preprocessor, Rice.Coding the options and
--   their costs, Rice.Encoder `compress` and Rice.Decoder `decompress` with their parts. A call gives
--   an Outcome: a value, an error, or a panic where an index is out of range. The other files lead
--   from the bits of a call, by the code of a block, to the round trip of all blocks.
-- - Srspp: the reliable transport (crates/leodos-protocols/src/transport/srspp/machine).
--   Srspp.Sequence is the 14-bit count of datalink/spp/mod.rs. Srspp.Sender is sender.rs: Sender.State
--   has its types, Sender.Queue the window and the send buffer with `compact`, Sender.Machine the
--   handlers. Srspp.Receiver is receiver/: Base is base.rs, Bitset, SlotMap and Slab are the files of
--   utils, Reassembly the delivery that fast.rs and packed.rs share, Fast and Packed the two
--   receivers, Ack the AckState of mod.rs, and Delayed the acknowledgements that are due. Receiver.Ordered is what a receiver promises: a map from
--   numbers that never wrap to packets, delivered in order. Srspp.Packets and Srspp.Segmentation follow
--   a request through the sender, and Srspp.EndToEnd leads its packets to the receiver's buffer.
-- - Prelude: tests, lists as arrays, bit operations and slices.
--
-- A method with `&mut self` is a function from a state to the new state, next to its answer; a
-- handler that fills an action vector takes the actions so far and returns the longer list, cut at
-- the vector's capacity as `push` cuts it (4 for FARM-1, 16 for FOP-1, 32 for the SRSPP sender). Bytes
-- and words are numbers with the source's wrap-around written out. The windows and the buffers, WIN,
-- BUF and REASM, are the lengths of lists; a copy that does not fit into its buffer, at which the code
-- panics, writes nothing. Loops are structural recursion, but for these on fuel:
-- `Isl.Manhattan.Delivery.travel` has one more than the links between the two satellites, the loop
-- over the segments of a `send_request` takes a slot in each turn, and the receivers'
-- `deliver_buffered` frees one; these two have one turn more than there are slots. In
-- Rice the loops over bits have the number of bits, `read_fs` and `decompress` the bits of the input
-- (the latter with the samples of the output added), and the search for a pair its number.
--
-- Not modelled: the asynchronous drivers around the machines, zero-copy parsing of frames, floating-point
-- geometry and modulation, ciphers, SRSPP's LiteReceiver and CFDP, the coding layer,
-- the compression of images and of spectra, the loop of
-- the flooding between satellites and the flight system's bindings.

pub mod Prelude
pub mod Cop1
pub mod Isl
pub mod Rice
pub mod Sdls
pub mod Srspp
