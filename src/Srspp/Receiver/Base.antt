-- ===== src/Srspp/Receiver/Base.antt =====
-- The sequence tracking of the receivers
-- (crates/leodos-protocols/src/transport/srspp/machine/receiver/base.rs).
use leo_dos.Prelude.{ℕ, ◌-◌, ◌/◌, ◌%◌, ◌^◌, bit_and, bit_or, Bool, not, ◌==◌}
use leo_dos.Srspp.Sequence.{increment, ahead}

pub record ReceiverBase : Type 0 where
  pub expected_seq : ℕ
  pub recv_bitmap : ℕ

abbrev pub new : ReceiverBase
new = record { expected_seq = 0; recv_bitmap = 0 }

abbrev pub distance : ReceiverBase → ℕ → ℕ
distance b seq = ahead seq b.expected_seq

-- `1u16 << bit_pos`: a shift of 16 or more, at which a checked build stops, is cut to four bits.
abbrev pub is_ooo_duplicate : ReceiverBase → ℕ → Bool
is_ooo_duplicate b distance = not (bit_and b.recv_bitmap (2 ^ ((distance - 1) % 16)) == 0)

abbrev pub record_ooo : ReceiverBase → ℕ → ReceiverBase
record_ooo b distance = record b { recv_bitmap = bit_or b.recv_bitmap (2 ^ ((distance - 1) % 16)) }

abbrev pub advance : ReceiverBase → ReceiverBase
advance b = record { expected_seq = increment b.expected_seq; recv_bitmap = b.recv_bitmap / 2 }
