-- ===== src/Srspp/Receiver/Bitset.antt =====
-- The bit set of the receivers
-- (crates/leodos-protocols/src/transport/srspp/machine/receiver/utils/bitset.rs): a `u32`.
use Prim.Native.Nat.{ℕ, ◌-◌, ◌^◌, ◌<◌, bit_and, bit_or}
use mathlib.Core.Path.{◌≡◌, sym, ap, ◌∙◌}
use mathlib.Core.Logic.{◌≢◌}
use mathlib.Core.Bool.{Bool, true, false, not}
use native.Mathlib.Omega.{arith}
use leo_dos.Prelude.{min, max, ◌==◌}
use leo_dos.Prelude.Digits.{
  digit, digit-lt, digit-bit_or, digit-bit_and, digit-pow, digit-pow_other, digit-complement,
  masked_eq, pow-lt_pow,
}

unfoldable pub set : ℕ → ℕ → ℕ
set bits i = bit_or bits (2 ^ i)

unfoldable pub clear : ℕ → ℕ → ℕ
clear bits i = bit_and bits (2 ^ 32 - 1 - 2 ^ i)

unfoldable pub is_set : ℕ → ℕ → Bool
is_set bits i = not (bit_and bits (2 ^ i) == 0)

-- `1 << N` is beyond the word where N is 32.
unfoldable pub any : ℕ → ℕ → Bool
any n bits = not (bit_and bits (2 ^ n - 1) == 0)

pub is_set-set_same : (bits i : ℕ) → is_set (set bits i) i ≡ true
unfolding is_set set
is_set-set_same bits i =
    masked_eq i (bit_or bits (2 ^ i))
    ∙ ground (arith, digit-bit_or i bits (2 ^ i), digit-pow i, digit-lt i bits)

pub is_set-set_other : (bits i j : ℕ) → i ≢ j → is_set (set bits i) j ≡ is_set bits j
unfolding is_set set
is_set-set_other bits i j h =
    masked_eq j (bit_or bits (2 ^ i))
    ∙ ap (λ d. d == 1)
        (digit-bit_or j bits (2 ^ i)
          ∙ ap (max (digit j bits)) (digit-pow_other j i (λ e. h (sym e)))
          ∙ omega arith)
    ∙ sym (masked_eq j bits)

-- A bit of the mask of `clear`.
mask_digit : (i j : ℕ) → i < 32 → j < 32 → digit j (2 ^ 32 - 1 - 2 ^ i) ≡ 1 - digit j (2 ^ i)
mask_digit i j h k = digit-complement 32 j (2 ^ i) k (pow-lt_pow i 32 h)

pub is_set-clear_same : (bits i : ℕ) → i < 32 → is_set (clear bits i) i ≡ false
unfolding is_set clear
is_set-clear_same bits i h =
    masked_eq i (bit_and bits (2 ^ 32 - 1 - 2 ^ i))
    ∙ ap (λ d. d == 1)
        (digit-bit_and i bits (2 ^ 32 - 1 - 2 ^ i)
          ∙ ap (min (digit i bits)) (mask_digit i i h h ∙ ap (λ d. 1 - d) (digit-pow i))
          ∙ none_left (digit i bits))
  where
    none_left : (d : ℕ) → min d 0 ≡ 0
    none_left d = omega arith

pub is_set-clear_other :
    (bits i j : ℕ) → i < 32 → j < 32 → i ≢ j → is_set (clear bits i) j ≡ is_set bits j
unfolding is_set clear
is_set-clear_other bits i j h k n =
    masked_eq j (bit_and bits (2 ^ 32 - 1 - 2 ^ i))
    ∙ ap (λ d. d == 1)
        (digit-bit_and j bits (2 ^ 32 - 1 - 2 ^ i)
          ∙ ap (min (digit j bits))
              (mask_digit i j h k ∙ ap (λ d. 1 - d) (digit-pow_other j i (λ e. n (sym e))))
          ∙ kept (digit j bits) (digit-lt j bits))
    ∙ sym (masked_eq j bits)
  where
    kept : (d : ℕ) → d < 2 → min d 1 ≡ d
    kept d h = omega arith
