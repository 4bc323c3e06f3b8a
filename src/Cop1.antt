-- ===== src/Cop1.antt =====
-- COP-1, the hop-by-hop reliability of the data link: the control word, the receiver FARM-1 and the
-- sender FOP-1 (crates/leodos-protocols/src/datalink/reliability/cop1).
pub mod Clcw
pub mod Farm
pub mod Fop
