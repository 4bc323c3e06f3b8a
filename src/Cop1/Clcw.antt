-- ===== src/Cop1/Clcw.antt =====
-- The Communications Link Control Word, 32 bits that FARM-1 sends to FOP-1
-- (crates/leodos-protocols/src/datalink/reliability/cop1/clcw.rs).
-- A `u8` or `u32` is a number; `Vcid` of ids.rs is its `u32`.
mod Tests
pub mod Fields
mod Raw
pub mod View
use leo_dos.Prelude.{
  ℕ, zero, suc, ◌+◌, ◌-◌, ◌*◌, ◌/◌, ◌%◌, ◌^◌, Bool, true, false, ◌==◌, not, if◌then◌else◌, bit_and,
  bit_or,
}

pub record Clcw : Type 0 where
  pub word : ℕ

abbrev pub type_mask : ℕ
type_mask = 0b1000_0000_0000_0000_0000_0000_0000_0000

abbrev pub version_mask : ℕ
version_mask = 0b0110_0000_0000_0000_0000_0000_0000_0000

abbrev pub status_mask : ℕ
status_mask = 0b0001_1100_0000_0000_0000_0000_0000_0000

abbrev pub cop_mask : ℕ
cop_mask = 0b0000_0011_0000_0000_0000_0000_0000_0000

abbrev pub vcid_mask : ℕ
vcid_mask = 0b0000_0000_1111_1100_0000_0000_0000_0000

abbrev pub no_rf_mask : ℕ
no_rf_mask = 0b0000_0000_0000_0000_1000_0000_0000_0000

abbrev pub no_bit_lock_mask : ℕ
no_bit_lock_mask = 0b0000_0000_0000_0000_0100_0000_0000_0000

abbrev pub lockout_mask : ℕ
lockout_mask = 0b0000_0000_0000_0000_0010_0000_0000_0000

abbrev pub wait_mask : ℕ
wait_mask = 0b0000_0000_0000_0000_0001_0000_0000_0000

abbrev pub retransmit_mask : ℕ
retransmit_mask = 0b0000_0000_0000_0000_0000_1000_0000_0000

abbrev pub farm_b_mask : ℕ
farm_b_mask = 0b0000_0000_0000_0000_0000_0110_0000_0000

abbrev pub report_mask : ℕ
report_mask = 0b0000_0000_0000_0000_0000_0000_1111_1111

-- `u32::trailing_zeros`: the first argument counts the bits left to look at.
unfoldable pub trailing_zeros : ℕ → ℕ → ℕ
trailing_zeros zero x = 0
trailing_zeros (suc n) x = if x % 2 == 1 then 0 else suc (trailing_zeros n (x / 2))

-- `(word & mask) >> mask.trailing_zeros()`
unfoldable pub get : ℕ → ℕ → ℕ
get word mask = bit_and word mask / 2 ^ trailing_zeros 32 mask

-- `(word & !mask) | (value << mask.trailing_zeros())`; a shift drops what leaves the 32 bits.
unfoldable pub set : ℕ → ℕ → ℕ → ℕ
set word mask value =
    bit_or (bit_and word (0xffff_ffff - mask)) (value * 2 ^ trailing_zeros 32 mask % 2 ^ 32)

-- `v as u32` of a flag
abbrev pub bit : Bool → ℕ
bit true = 1
bit false = 0

unfoldable pub new : Clcw
new = record { word = 0 }

-- The reading methods; `as u8` cuts a number to 8 bits.
unfoldable pub control_word_type : Clcw → ℕ
control_word_type c = get c.word type_mask % 256

unfoldable pub version : Clcw → ℕ
version c = get c.word version_mask % 256

unfoldable pub status : Clcw → ℕ
status c = get c.word status_mask % 256

unfoldable pub cop_in_effect : Clcw → ℕ
cop_in_effect c = get c.word cop_mask % 256

unfoldable pub vcid : Clcw → ℕ
vcid c = get c.word vcid_mask

unfoldable pub no_rf_available : Clcw → Bool
no_rf_available c = not (get c.word no_rf_mask == 0)

unfoldable pub no_bit_lock : Clcw → Bool
no_bit_lock c = not (get c.word no_bit_lock_mask == 0)

unfoldable pub lockout : Clcw → Bool
lockout c = not (get c.word lockout_mask == 0)

unfoldable pub wait : Clcw → Bool
wait c = not (get c.word wait_mask == 0)

unfoldable pub retransmit : Clcw → Bool
retransmit c = not (get c.word retransmit_mask == 0)

unfoldable pub farm_b_counter : Clcw → ℕ
farm_b_counter c = get c.word farm_b_mask % 256

unfoldable pub report_value : Clcw → ℕ
report_value c = get c.word report_mask % 256

-- The writing methods.
unfoldable pub set_version : Clcw → ℕ → Clcw
set_version c v = record { word = set c.word version_mask v }

unfoldable pub set_status : Clcw → ℕ → Clcw
set_status c v = record { word = set c.word status_mask v }

unfoldable pub set_cop_in_effect : Clcw → ℕ → Clcw
set_cop_in_effect c v = record { word = set c.word cop_mask v }

unfoldable pub set_vcid : Clcw → ℕ → Clcw
set_vcid c v = record { word = set c.word vcid_mask v }

unfoldable pub set_no_rf_available : Clcw → Bool → Clcw
set_no_rf_available c v = record { word = set c.word no_rf_mask (bit v) }

unfoldable pub set_no_bit_lock : Clcw → Bool → Clcw
set_no_bit_lock c v = record { word = set c.word no_bit_lock_mask (bit v) }

unfoldable pub set_lockout : Clcw → Bool → Clcw
set_lockout c v = record { word = set c.word lockout_mask (bit v) }

unfoldable pub set_wait : Clcw → Bool → Clcw
set_wait c v = record { word = set c.word wait_mask (bit v) }

unfoldable pub set_retransmit : Clcw → Bool → Clcw
set_retransmit c v = record { word = set c.word retransmit_mask (bit v) }

unfoldable pub set_farm_b_counter : Clcw → ℕ → Clcw
set_farm_b_counter c v = record { word = set c.word farm_b_mask (bit_and v 3) }

unfoldable pub set_report_value : Clcw → ℕ → Clcw
set_report_value c v = record { word = set c.word report_mask v }
