-- ===== src/Prelude/Bits.antt =====
-- The bit operations of Rust's unsigned words, in arithmetic. A pair of words is cut at a bit
-- position; so a mask of ones in the middle of a word reads one field of it, and clears one.
use Prim.Native.Nat.{
  ℕ, zero, suc, ◌+◌, ◌*◌, ◌/◌, ◌%◌, ◌^◌, ◌≤◌, ◌<◌, min, max, bit_and, bit_or, digits, bitwise,
  bit_and-bitwise, bit_or-bitwise,
}
use mathlib.Core.Path.{◌≡◌, refl}
use native.Mathlib.Nat.{pow-suc, le_refl}
use native.Mathlib.Omega.{arith}

module _ (z : ℕ → ℕ) (f : ℕ → ℕ → ℕ) where
  -- Fuel beyond the first number changes nothing.
  spare_fuel : (j k x y : ℕ) → x ≤ j → x ≤ k → digits z f j x y ≡ digits z f k x y
  spare_fuel zero zero x y h l = refl
  spare_fuel (suc j) zero zero y h l = refl
  spare_fuel zero (suc k) zero y h l = refl
  spare_fuel (suc j) (suc k) zero y h l = refl
  spare_fuel zero (suc k) (suc x) y h l = absurd (omega arith)
  spare_fuel (suc j) zero (suc x) y h l = absurd (omega arith)
  spare_fuel (suc j) (suc k) (suc x) y h l =
      rw (spare_fuel j k (suc x / 2) (y / 2) (omega arith) (omega arith))

  lowest_digit :
      (x y : ℕ)
      → bitwise z f (suc x) y ≡ bitwise z f (suc x / 2) (y / 2) * 2 + f (suc x % 2) (y % 2)
  lowest_digit x y = rw (spare_fuel x (suc x / 2) (suc x / 2) (y / 2) (omega arith) (le_refl _))

pub bit_and_halves : (x y : ℕ) → bit_and x y ≡ bit_and (x / 2) (y / 2) * 2 + min (x % 2) (y % 2)
bit_and_halves zero y = simp bit_and-bitwise (omega arith)
bit_and_halves (suc x) y = simp bit_and-bitwise (lowest_digit (λ y. 0) min x y)

pub bit_or_halves : (x y : ℕ) → bit_or x y ≡ bit_or (x / 2) (y / 2) * 2 + max (x % 2) (y % 2)
bit_or_halves zero y = simp bit_or-bitwise (omega arith)
bit_or_halves (suc x) y = simp bit_or-bitwise (lowest_digit (λ y. y) max x y)

bit_and_double :
    (p q r s t : ℕ)
    → bit_and (q * p + r / 2) (s * p + t / 2) ≡ bit_and q s * p + bit_and (r / 2) (t / 2)
    → bit_and (q * (p * 2) + r) (s * (p * 2) + t) ≡ bit_and q s * (p * 2) + bit_and r t
bit_and_double p q r s t h =
    ground (arith, bit_and_halves (q * (p * 2) + r) (s * (p * 2) + t), bit_and_halves r t)

bit_or_double :
    (p q r s t : ℕ)
    → bit_or (q * p + r / 2) (s * p + t / 2) ≡ bit_or q s * p + bit_or (r / 2) (t / 2)
    → bit_or (q * (p * 2) + r) (s * (p * 2) + t) ≡ bit_or q s * (p * 2) + bit_or r t
bit_or_double p q r s t h =
    ground (arith, bit_or_halves (q * (p * 2) + r) (s * (p * 2) + t), bit_or_halves r t)

-- Both words are cut at bit k: `q` and `s` are the high parts, `r` and `t` the low ones.
pub bit_and_cut :
    (k q r s t : ℕ)
    → r < 2 ^ k
    → t < 2 ^ k
    → bit_and (q * 2 ^ k + r) (s * 2 ^ k + t) ≡ bit_and q s * 2 ^ k + bit_and r t
bit_and_cut zero q r s t h l = ground arith
bit_and_cut (suc k) q r s t h l =
    rw (pow-suc 2 k)
      (bit_and_double (2 ^ k) q r s t (bit_and_cut k q (r / 2) s (t / 2) (half h) (half l)))
  where
    half : {x : ℕ} → x < 2 ^ suc k → x / 2 < 2 ^ k
    half b = omega (arith, pow-suc 2 k)

pub bit_or_cut :
    (k q r s t : ℕ)
    → r < 2 ^ k
    → t < 2 ^ k
    → bit_or (q * 2 ^ k + r) (s * 2 ^ k + t) ≡ bit_or q s * 2 ^ k + bit_or r t
bit_or_cut zero q r s t h l = ground arith
bit_or_cut (suc k) q r s t h l =
    rw (pow-suc 2 k)
      (bit_or_double (2 ^ k) q r s t (bit_or_cut k q (r / 2) s (t / 2) (half h) (half l)))
  where
    half : {x : ℕ} → x < 2 ^ suc k → x / 2 < 2 ^ k
    half b = omega (arith, pow-suc 2 k)

and_digits-zero : (n x : ℕ) → x ≤ n → digits (λ y. 0) min n x 0 ≡ 0
and_digits-zero zero x h = refl
and_digits-zero (suc n) zero h = refl
and_digits-zero (suc n) (suc x) h = omega (arith, and_digits-zero n (suc x / 2) (omega arith))

or_digits-zero : (n x : ℕ) → x ≤ n → digits (λ y. y) max n x 0 ≡ x
or_digits-zero zero zero h = refl
or_digits-zero zero (suc x) h = absurd (omega arith)
or_digits-zero (suc n) zero h = refl
or_digits-zero (suc n) (suc x) h = omega (arith, or_digits-zero n (suc x / 2) (omega arith))

pub bit_and-zero : (x : ℕ) → bit_and x 0 ≡ 0
bit_and-zero x = simp bit_and-bitwise (and_digits-zero x x (le_refl x))

pub bit_or-zero : (x : ℕ) → bit_or x 0 ≡ x
bit_or-zero x = simp bit_or-bitwise (or_digits-zero x x (le_refl x))

zero-bit_and : (y : ℕ) → bit_and 0 y ≡ 0
zero-bit_and y = bit_and-bitwise 0 y

zero-bit_or : (y : ℕ) → bit_or 0 y ≡ y
zero-bit_or y = bit_or-bitwise 0 y

-- A mask of `k` ones keeps a number below `2 ^ k`.
pub bit_and_ones : (k x m : ℕ) → m + 1 ≡ 2 ^ k → x < 2 ^ k → bit_and x m ≡ x
bit_and_ones zero x m h b = ground (arith, zero-bit_and m)
bit_and_ones (suc k) x m h b = omega (
  arith,
  pow-suc 2 k,
  bit_and_halves x m,
  bit_and_ones k (x / 2) (m / 2) (omega (arith, pow-suc 2 k)) (omega (arith, pow-suc 2 k)),
)

-- It drops all above.
pub bit_and_mask : (k q r m : ℕ) → r < 2 ^ k → m + 1 ≡ 2 ^ k → bit_and (q * 2 ^ k + r) m ≡ r
bit_and_mask k q r m b h =
    ground (arith, bit_and_cut k q r 0 m b (omega arith), bit_and-zero q, bit_and_ones k r m h b)

module _ (k w h u l : ℕ) (u_fits : u < 2 ^ w) (l_fits : l < 2 ^ k) where
  -- The word is cut into `h`, the field `u` of `w` bits, and `l` of `k` bits. A mask of the field
  -- reads it, in its place.
  pub bit_and_field :
      (m : ℕ) → m + 1 ≡ 2 ^ w → bit_and ((h * 2 ^ w + u) * 2 ^ k + l) (m * 2 ^ k) ≡ u * 2 ^ k
  bit_and_field m ones = ground (
    arith,
    bit_and_cut k (h * 2 ^ w + u) l m 0 l_fits (omega arith),
    bit_and_mask w h u m u_fits ones,
    bit_and-zero l,
  )

  -- The complement of that mask, `o` above the field and `p` below it, clears the field.
  pub clear_field :
      (j o p : ℕ)
      → h < 2 ^ j
      → o + 1 ≡ 2 ^ j
      → p + 1 ≡ 2 ^ k
      → bit_and ((h * 2 ^ w + u) * 2 ^ k + l) (o * 2 ^ w * 2 ^ k + p) ≡ h * 2 ^ w * 2 ^ k + l
  clear_field j o p h_fits high low = ground (
    arith,
    bit_and_cut k (h * 2 ^ w + u) l (o * 2 ^ w) p l_fits (omega arith),
    bit_and_cut w h u o 0 u_fits (omega arith),
    bit_and_ones j h o high h_fits,
    bit_and-zero u,
    bit_and_ones k l p low l_fits,
  )

-- An or writes a cleared field.
pub bit_or_field :
    (k w h l v : ℕ)
    → l < 2 ^ k
    → v < 2 ^ w
    → bit_or (h * 2 ^ w * 2 ^ k + l) (v * 2 ^ k) ≡ (h * 2 ^ w + v) * 2 ^ k + l
bit_or_field k w h l v l_fits v_fits = ground (
  arith,
  bit_or_cut k (h * 2 ^ w) l v 0 l_fits (omega arith),
  bit_or_cut w h 0 0 v (omega arith) v_fits,
  bit_or-zero h,
  zero-bit_or v,
  bit_or-zero l,
)

pub bit_and_three : (x : ℕ) → bit_and x 3 ≡ x % 4
bit_and_three x = ground (arith, bit_and_mask 2 (x / 4) (x % 4) 3 (omega arith) refl)
