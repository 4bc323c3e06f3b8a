-- ===== src/Cop1/Clcw/Fields.antt =====
-- `get` and `set` of the control word in arithmetic, for a mask of ones in the middle of the word.
use native.Mathlib.Nat.{mod-lt, mod-eq_of_lt, div-add-mod', mul-div_cancel, one-le-pow}
use leo_dos.Prelude.{
  ℕ, ◌+◌, ◌-◌, ◌*◌, ◌/◌, ◌%◌, ◌^◌, ◌<◌, ◌≡◌, refl, sym, ap, ap₂, ◌∙◌, bit_and, bit_or, arith,
}
use leo_dos.Prelude.Bits.{bit_and_field, clear_field, bit_or_field}
use leo_dos.Cop1.Clcw.{
  trailing_zeros, get, set, type_mask, version_mask, status_mask, cop_mask, vcid_mask, no_rf_mask,
  no_bit_lock_mask, lockout_mask, wait_mask, retransmit_mask, farm_b_mask, report_mask,
}

-- A word is cut into what stands above a field of `w` bits at place `k`, the field, and what
-- stands below.
abbrev pub above : ℕ → ℕ → ℕ → ℕ
above k w x = x / 2 ^ k / 2 ^ w

abbrev pub field_at : ℕ → ℕ → ℕ → ℕ
field_at k w x = x / 2 ^ k % 2 ^ w

abbrev pub below : ℕ → ℕ → ℕ
below k x = x % 2 ^ k

-- `mask` covers a field of `w` bits at place `k`: `m` is the field's ones, `o` those above it (`j`
-- bits), and `p` those below.
pub record IsMask (mask k w j m o p : ℕ) : Type 0 where
  pub place : trailing_zeros 32 mask ≡ k
  pub ones : m + 1 ≡ 2 ^ w
  pub shape : mask ≡ m * 2 ^ k
  pub high : o + 1 ≡ 2 ^ j
  pub low : p + 1 ≡ 2 ^ k
  pub rest : 0xffff_ffff - mask ≡ o * 2 ^ w * 2 ^ k + p

two-pow-pos : (k : ℕ) → 0 < 2 ^ k
two-pow-pos k = one-le-pow k 2 (omega arith)

cut : (k w x : ℕ) → x ≡ (above k w x * 2 ^ w + field_at k w x) * 2 ^ k + below k x
cut k w x = sym (rw (div-add-mod' (x / 2 ^ k) (2 ^ w)) (div-add-mod' x (2 ^ k)))

module _ {mask k w j m o p : ℕ} (i : IsMask mask k w j m o p) (x : ℕ) where
  pub get-field : get x mask ≡ field_at k w x
  unfolding get
  get-field = rw i.place (
      ap (λ t. t / 2 ^ k)
        (ap₂ bit_and (cut k w x) i.shape
          ∙ bit_and_field k w (above k w x) (field_at k w x) (below k x)
              (mod-lt (x / 2 ^ k) (two-pow-pos w)) (mod-lt x (two-pow-pos k)) m i.ones)
      ∙ mul-div_cancel (field_at k w x) (two-pow-pos k))

  pub set-field :
      (v : ℕ)
      → above k w x < 2 ^ j
      → v < 2 ^ w
      → v * 2 ^ k < 2 ^ 32
      → set x mask v ≡ (above k w x * 2 ^ w + v) * 2 ^ k + below k x
  unfolding set
  set-field v h b c =
      rw (i.place, mod-eq_of_lt c)
        (ap (λ t. bit_or t (v * 2 ^ k))
            (ap₂ bit_and (cut k w x) i.rest
              ∙ clear_field k w (above k w x) (field_at k w x) (below k x)
                  (mod-lt (x / 2 ^ k) (two-pow-pos w)) (mod-lt x (two-pow-pos k)) j o p h i.high
                  i.low)
          ∙ bit_or_field k w (above k w x) (below k x) v (mod-lt x (two-pow-pos k)) b)

-- The masks of clcw.rs.
pub type-IsMask : IsMask type_mask 31 1 0 1 0 2147483647
unfolding trailing_zeros
type-IsMask = record {
  place = refl;
  ones = refl;
  shape = refl;
  high = refl;
  low = refl;
  rest = refl;
}

pub version-IsMask : IsMask version_mask 29 2 1 3 1 536870911
unfolding trailing_zeros
version-IsMask = record {
  place = refl;
  ones = refl;
  shape = refl;
  high = refl;
  low = refl;
  rest = refl;
}

pub status-IsMask : IsMask status_mask 26 3 3 7 7 67108863
unfolding trailing_zeros
status-IsMask = record {
  place = refl;
  ones = refl;
  shape = refl;
  high = refl;
  low = refl;
  rest = refl;
}

pub cop-IsMask : IsMask cop_mask 24 2 6 3 63 16777215
unfolding trailing_zeros
cop-IsMask = record {
  place = refl;
  ones = refl;
  shape = refl;
  high = refl;
  low = refl;
  rest = refl;
}

pub vcid-IsMask : IsMask vcid_mask 18 6 8 63 255 262143
unfolding trailing_zeros
vcid-IsMask = record {
  place = refl;
  ones = refl;
  shape = refl;
  high = refl;
  low = refl;
  rest = refl;
}

pub no_rf-IsMask : IsMask no_rf_mask 15 1 16 1 65535 32767
unfolding trailing_zeros
no_rf-IsMask = record {
  place = refl;
  ones = refl;
  shape = refl;
  high = refl;
  low = refl;
  rest = refl;
}

pub no_bit_lock-IsMask : IsMask no_bit_lock_mask 14 1 17 1 131071 16383
unfolding trailing_zeros
no_bit_lock-IsMask = record {
  place = refl;
  ones = refl;
  shape = refl;
  high = refl;
  low = refl;
  rest = refl;
}

pub lockout-IsMask : IsMask lockout_mask 13 1 18 1 262143 8191
unfolding trailing_zeros
lockout-IsMask = record {
  place = refl;
  ones = refl;
  shape = refl;
  high = refl;
  low = refl;
  rest = refl;
}

pub wait-IsMask : IsMask wait_mask 12 1 19 1 524287 4095
unfolding trailing_zeros
wait-IsMask = record {
  place = refl;
  ones = refl;
  shape = refl;
  high = refl;
  low = refl;
  rest = refl;
}

pub retransmit-IsMask : IsMask retransmit_mask 11 1 20 1 1048575 2047
unfolding trailing_zeros
retransmit-IsMask = record {
  place = refl;
  ones = refl;
  shape = refl;
  high = refl;
  low = refl;
  rest = refl;
}

pub farm_b-IsMask : IsMask farm_b_mask 9 2 21 3 2097151 511
unfolding trailing_zeros
farm_b-IsMask = record {
  place = refl;
  ones = refl;
  shape = refl;
  high = refl;
  low = refl;
  rest = refl;
}

pub report-IsMask : IsMask report_mask 0 8 24 255 16777215 0
unfolding trailing_zeros
report-IsMask = record {
  place = refl;
  ones = refl;
  shape = refl;
  high = refl;
  low = refl;
  rest = refl;
}
