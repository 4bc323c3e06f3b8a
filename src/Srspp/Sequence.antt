-- ===== src/Srspp/Sequence.antt =====
-- Sequence counts and flags of space packets
-- (crates/leodos-protocols/src/datalink/spp/mod.rs). A count is 14 bits in a `u16`, and the mask
-- with `SequenceCount::MAX`, fourteen ones, is a remainder.
use leo_dos.Prelude.{ℕ, ◌+◌, ◌-◌, ◌%◌, ◌^◌}

pub data SequenceFlag : Type 0 where
  continuation : SequenceFlag
  first : SequenceFlag
  last : SequenceFlag
  unsegmented : SequenceFlag

-- `SequenceCount::MAX`
abbrev pub max_count : ℕ
max_count = 2 ^ 14 - 1

-- `(x + 1) & SequenceCount::MAX`
abbrev pub increment : ℕ → ℕ
increment x = (x + 1) % 2 ^ 14

-- `a.wrapping_sub(b) & SequenceCount::MAX`
abbrev pub ahead : ℕ → ℕ → ℕ
ahead a b = (a + 2 ^ 16 - b) % 2 ^ 16 % 2 ^ 14
