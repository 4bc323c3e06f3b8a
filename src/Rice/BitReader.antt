-- ===== src/Rice/BitReader.antt =====
-- `BitReader` of crates/leodos-protocols/src/application/compression/rice.rs.
use leo_dos.Prelude.{
  ℕ, zero, suc, ◌+◌, ◌-◌, ◌*◌, ◌/◌, ◌%◌, ◌^◌, min, bit_or, true, false, List, [], ◌∷◌, ◌==◌,
  if◌then◌else◌, length,
}
use leo_dos.Rice.Config.{Outcome, truncated, done, failed, ◌>>=◌}

-- `bit` bits of `buf[pos]` are not read yet.
pub record BitReader : Type 0 where
  pub buf : List ℕ
  pub pos : ℕ
  pub bit : ℕ

unfoldable pub new : List ℕ → BitReader
new buf = record { buf = buf; pos = 0; bit = 8 }

-- The test of `pos`, and `buf[pos]`.
unfoldable pub byte_at : List ℕ → ℕ → Outcome ℕ
byte_at [] i = failed truncated
byte_at (c ∷ cs) zero = done c
byte_at (c ∷ cs) (suc i) = byte_at cs i

unfoldable pub skip : ℕ → BitReader → BitReader
skip w r =
    if r.bit - w == 0 then record r { pos = r.pos + 1; bit = 8 } else record r { bit = r.bit - w }

-- The loop of `read`, with `rem` bits to come behind `result`.
unfoldable pub read_loop : ℕ → ℕ → ℕ → BitReader → Outcome (ℕ × BitReader)
read_loop fuel result zero r = done (result, r)
read_loop zero result (suc rem) r = done (result, r)
read_loop (suc fuel) result (suc rem) r =
    let w = min (suc rem) r.bit in
    do
      c ← byte_at r.buf r.pos
      read_loop fuel (bit_or (result * 2 ^ w % 2 ^ 64) (c / 2 ^ (r.bit - w) % 2 ^ w)) (suc rem - w)
          (skip w r)

unfoldable pub read : ℕ → BitReader → Outcome (ℕ × BitReader)
read n_bits r = read_loop n_bits 0 n_bits r

-- The loop of `read_fs`, with `m` zeros read. It ends at a one or at the end of the input, so the
-- bits of the input are enough fuel.
unfoldable pub fs_loop : ℕ → ℕ → BitReader → Outcome (ℕ × BitReader)
fs_loop zero m r = failed truncated
fs_loop (suc fuel) m r = do
  (b, r') ← read 1 r
  elim (b == 1) [ true ↦ done (m, r') | false ↦ fs_loop fuel (m + 1) r' ]

unfoldable pub read_fs : BitReader → Outcome (ℕ × BitReader)
read_fs r = fs_loop (8 * length r.buf + 1) 0 r
