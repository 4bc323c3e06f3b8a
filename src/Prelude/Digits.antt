-- ===== src/Prelude/Digits.antt =====
-- The bits of a word one by one, and what the bit operations do to each.
use Prim.Native.Nat.{ℕ, zero, suc, ◌-◌, ◌*◌, ◌/◌, ◌%◌, ◌^◌, ◌≤◌, ◌<◌, min, max, bit_and, bit_or}
use mathlib.Core.Path.{◌≡◌, refl, ap, ◌∙◌}
use mathlib.Core.Logic.{◌≢◌}
use mathlib.Core.Bool.{not}
use native.Mathlib.Nat.{pow-suc, pow-le-pow_right}
use native.Mathlib.Omega.{arith}
use leo_dos.Prelude.Tests.{◌==◌}
use leo_dos.Prelude.Bits.{bit_and_halves, bit_or_halves, bit_and-zero}

-- Bit `i` of a word.
unfoldable pub digit : ℕ → ℕ → ℕ
digit zero x = x % 2
digit (suc i) x = digit i (x / 2)

pub digit-lt : (i x : ℕ) → digit i x < 2
unfolding digit
digit-lt zero x = omega arith
digit-lt (suc i) x = digit-lt i (x / 2)

pub digit-zero : (i : ℕ) → digit i 0 ≡ 0
unfolding digit
digit-zero zero = refl
digit-zero (suc i) = digit-zero i

pub digit-bit_or : (i x y : ℕ) → digit i (bit_or x y) ≡ max (digit i x) (digit i y)
unfolding digit
digit-bit_or zero x y = ground (arith, bit_or_halves x y)
digit-bit_or (suc i) x y =
    let half : bit_or x y / 2 ≡ bit_or (x / 2) (y / 2) = ground (arith, bit_or_halves x y) in
    ap (digit i) half ∙ digit-bit_or i (x / 2) (y / 2)

pub digit-bit_and : (i x y : ℕ) → digit i (bit_and x y) ≡ min (digit i x) (digit i y)
unfolding digit
digit-bit_and zero x y = ground (arith, bit_and_halves x y)
digit-bit_and (suc i) x y =
    let half : bit_and x y / 2 ≡ bit_and (x / 2) (y / 2) = ground (arith, bit_and_halves x y) in
    ap (digit i) half ∙ digit-bit_and i (x / 2) (y / 2)

half-pow : (i : ℕ) → 2 ^ suc i / 2 ≡ 2 ^ i
half-pow i = omega (arith, pow-suc 2 i)

pub digit-pow : (i : ℕ) → digit i (2 ^ i) ≡ 1
unfolding digit
digit-pow zero = refl
digit-pow (suc i) = ap (digit i) (half-pow i) ∙ digit-pow i

pub digit-pow_other : (i j : ℕ) → i ≢ j → digit i (2 ^ j) ≡ 0
unfolding digit
digit-pow_other zero zero h = absurd (h refl)
digit-pow_other zero (suc j) h = omega (arith, pow-suc 2 j)
digit-pow_other (suc i) zero h = digit-zero i
digit-pow_other (suc i) (suc j) h =
    ap (digit i) (half-pow j) ∙ digit-pow_other i j (λ e. h (ap suc e))

-- All ones but those of `y`.
pub digit-complement : (n i y : ℕ) → i < n → y < 2 ^ n → digit i (2 ^ n - 1 - y) ≡ 1 - digit i y
unfolding digit
digit-complement zero i y h l = absurd (omega arith)
digit-complement (suc n) zero y h l = omega (arith, pow-suc 2 n, l)
digit-complement (suc n) (suc i) y h l =
    let half : (2 ^ suc n - 1 - y) / 2 ≡ 2 ^ n - 1 - y / 2 = omega (arith, pow-suc 2 n, l) in
    ap (digit i) half ∙ digit-complement n i (y / 2) (omega arith) (omega (arith, pow-suc 2 n, l))

twice : (a p q : ℕ) → q ≡ p * 2 → a * q ≡ a * p * 2
twice a p q h = rw h (omega arith)

bit_and-pow : (i x : ℕ) → bit_and x (2 ^ i) ≡ digit i x * 2 ^ i
unfolding digit
bit_and-pow zero x = omega (arith, bit_and_halves x 1, bit_and-zero (x / 2))
bit_and-pow (suc i) x =
    let inner : bit_and (x / 2) (2 ^ suc i / 2) ≡ digit i (x / 2) * 2 ^ i =
      ap (bit_and (x / 2)) (half-pow i) ∙ bit_and-pow i (x / 2) in
    let even : 2 ^ suc i ≡ 2 ^ i * 2 = pow-suc 2 i in
    omega (
      arith,
      bit_and_halves x (2 ^ suc i),
      inner,
      even,
      twice (digit i (x / 2)) (2 ^ i) (2 ^ suc i) even,
    )

pow_apart : (i : ℕ) → 2 ^ i ≢ 0
pow_apart zero h = omega arith
pow_apart (suc i) h = pow_apart i (omega (arith, pow-suc 2 i))

-- The test of a bit by a mask.
pub masked_eq : (i x : ℕ) → not (bit_and x (2 ^ i) == 0) ≡ (digit i x == 1)
masked_eq i x = ground (arith, bit_and-pow i x, digit-lt i x, pow_apart i)

pub pow-lt_pow : (i n : ℕ) → i < n → 2 ^ i < 2 ^ n
pow-lt_pow i n h =
    let le : 2 ^ suc i ≤ 2 ^ n = pow-le-pow_right (omega arith) (omega arith) in
    omega (arith, pow-suc 2 i, pow_apart i, le)
