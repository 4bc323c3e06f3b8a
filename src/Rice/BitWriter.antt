-- ===== src/Rice/BitWriter.antt =====
-- `BitWriter` of crates/leodos-protocols/src/application/compression/rice.rs. `x & ((1 << w) - 1)`
-- is `x % 2 ^ w`, and a shift to the right is a division by a power of two.
use leo_dos.Prelude.{
  ℕ, zero, suc, ◌+◌, ◌-◌, ◌*◌, ◌/◌, ◌%◌, ◌^◌, min, bit_or, List, [], ◌∷◌, ◌==◌, if◌then◌else◌, set,
}
use leo_dos.Rice.Config.{Outcome, done, panicked, ◌>>=◌}

-- The bits are written from the top of a byte: `bit` of them are free in `buf[pos]`.
pub record BitWriter : Type 0 where
  pub buf : List ℕ
  pub pos : ℕ
  pub bit : ℕ

unfoldable pub new : List ℕ → BitWriter
new buf = record { buf = set buf 0 0; pos = 0; bit = 8 }

-- `buf[pos] |= x`, which panics out of range.
unfoldable pub or_at : List ℕ → ℕ → ℕ → Outcome (List ℕ)
or_at [] i x = panicked
or_at (c ∷ cs) zero x = done (bit_or c x ∷ cs)
or_at (c ∷ cs) (suc i) x = do cs' ← or_at cs i x; done (c ∷ cs')

-- The last steps of a turn of the loops: the cursor moves by `w` bits.
unfoldable pub advance : ℕ → BitWriter → BitWriter
advance w s =
    if s.bit - w == 0
    then record { buf = set s.buf (s.pos + 1) 0; pos = s.pos + 1; bit = 8 }
    else record s { bit = s.bit - w }

-- The loop of `write`, with `rem` bits of `value` left. A turn writes one at least, so the number
-- of bits is enough fuel.
unfoldable pub write_loop : ℕ → ℕ → ℕ → BitWriter → Outcome BitWriter
write_loop fuel value zero s = done s
write_loop zero value (suc rem) s = done s
write_loop (suc fuel) value (suc rem) s =
    let w = min (suc rem) s.bit in
    do
      buf ← or_at s.buf s.pos (value / 2 ^ (suc rem - w) % 2 ^ w * 2 ^ (s.bit - w))
      write_loop fuel value (suc rem - w) (advance w (record s { buf = buf }))

unfoldable pub write : ℕ → ℕ → BitWriter → Outcome BitWriter
write value n_bits s = write_loop n_bits value n_bits s

-- The loop of `write_fs`, which compares the `u32` that is left of the zeros with the free bits. A
-- turn takes one zero at least, unless all 32 bits are zero: the source's loop then never ends, and
-- the theorems are about fewer than 2 ^ 32 zeros.
unfoldable pub zeros_loop : ℕ → ℕ → BitWriter → BitWriter
zeros_loop fuel zero s = s
zeros_loop zero (suc rem) s = s
zeros_loop (suc fuel) (suc rem) s =
    let w = min (suc rem % 2 ^ 32) s.bit in zeros_loop fuel (suc rem - w) (advance w s)

unfoldable pub write_fs : ℕ → BitWriter → Outcome BitWriter
write_fs m s = write 1 1 (zeros_loop m m s)

unfoldable pub bytes_written : BitWriter → ℕ
bytes_written s = if s.bit == 8 then s.pos else s.pos + 1
