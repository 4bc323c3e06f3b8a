-- ===== src/Rice/DataCode.antt =====
-- The code of a block's data, between `encode_data` and `decode_single_block`
-- (crates/leodos-protocols/src/application/compression/rice.rs).
use mathlib.Core.Path.{subst}
use native.Mathlib.Nat.{div-add-mod', mod-lt, mul-one}
use leo_dos.Prelude.Bits.{bit_or_field}
use leo_dos.Prelude.{
  ℕ, suc, ◌+◌, ◌*◌, ◌/◌, ◌%◌, ◌^◌, ◌≤◌, ◌<◌, bit_or, ◌≡◌, sym, ap, ap₂, ◌∙◌, List, [], ◌∷◌, ◌++◌,
  map, arith, length, All,
}
use leo_dos.Rice.Config.{Outcome, done}
use leo_dos.Rice.BitWriter.{BitWriter, write_fs}
use leo_dos.Rice.BitReader.{BitReader, read, read_fs}
use leo_dos.Rice.Coding.{gamma, decode_second_ext_pair}
use leo_dos.Rice.Encoder.{write_each, write_pairs}
use leo_dos.Rice.Decoder.{read_each, read_low_bits, read_shifted, read_pairs}
use leo_dos.Rice.BitLists.{bits, pow_pos}
use leo_dos.Rice.Writes.{Writes, Writes-bind, done-Writes, write_fs-Writes, fs_bits}
use leo_dos.Rice.Reads.{Reads, Reads-bind, done-Reads, Reads-then, read-Reads, read_fs-Reads}
use leo_dos.Rice.Pairs.{decode_second_ext_pair-gamma}

-- The codes of the values, one after another.
unfoldable pub codes : (ℕ → List ℕ) → List ℕ → List ℕ
codes f [] = []
codes f (d ∷ ds) = f d ++ codes f ds

pub write_each-Writes :
    (f : ℕ → BitWriter → Outcome BitWriter) (code : ℕ → List ℕ) (ds : List ℕ)
    → All (λ d. Writes (f d) (code d)) ds
    → Writes (write_each f ds) (codes code ds)
unfolding write_each codes
write_each-Writes f code [] h = done-Writes
write_each-Writes f code (d ∷ ds) h =
    Writes-bind (f d) (write_each f ds) (code d) (codes code ds) h.0
      (write_each-Writes f code ds h.1)

-- `value` is what the reader makes of the code.
pub read_each-Reads :
    (f : BitReader → Outcome (ℕ × BitReader)) (code : ℕ → List ℕ) (value : ℕ → ℕ) (ds : List ℕ)
    → All (λ d. Reads f (code d) (value d)) ds
    → Reads (read_each f (length ds)) (codes code ds) (map value ds)
unfolding read_each codes
read_each-Reads f code value [] h = done-Reads []
read_each-Reads f code value (d ∷ ds) h =
    Reads-bind f _ (code d) (codes code ds) (value d) (map value (d ∷ ds)) h.0 (
      Reads-then (read_each f (length ds)) _ (codes code ds) (map value ds) (map value (d ∷ ds))
        (read_each-Reads f code value ds h.1) (done-Reads (map value (d ∷ ds))))

module _ (k : ℕ) (k_le : k ≤ 64) where
  unfoldable pub high : ℕ → ℕ
  high d = d / 2 ^ k * 2 ^ k

  unfoldable pub low_code : ℕ → List ℕ
  low_code d = bits k (d % 2 ^ k)

  pub shifted : (d : ℕ) → d < 2 ^ 32 → Reads (read_shifted k) (fs_bits (d / 2 ^ k)) (high d)
  unfolding read_shifted high
  shifted d h =
      let same : d / 2 ^ k * 2 ^ k % 2 ^ 64 ≡ d / 2 ^ k * 2 ^ k =
        omega (arith, h, div-add-mod' d (2 ^ k)) in
      subst (Reads (read_shifted k) (fs_bits (d / 2 ^ k))) same (
        Reads-then read_fs _ (fs_bits (d / 2 ^ k)) (d / 2 ^ k) _ (read_fs-Reads (d / 2 ^ k))
          (done-Reads _))

  rejoined : (d : ℕ) → bit_or (high d) (d % 2 ^ k) ≡ d
  unfolding high
  rejoined d =
      ap₂ (λ a b. bit_or a b) (before (d / 2 ^ k * 2 ^ k)) (sym (mul-one (d % 2 ^ k)))
      ∙ bit_or_field 0 k (d / 2 ^ k) 0 (d % 2 ^ k) (omega arith) (mod-lt d (pow_pos k))
      ∙ after (d / 2 ^ k * 2 ^ k + d % 2 ^ k)
      ∙ div-add-mod' d (2 ^ k)
    where
      before : (a : ℕ) → a ≡ a * 2 ^ 0 + 0
      before a = omega arith

      after : (a : ℕ) → a * 2 ^ 0 + 0 ≡ a
      after a = omega arith

  pub read_low_bits-Reads :
      (ds : List ℕ) → Reads (read_low_bits k (map high ds)) (codes low_code ds) ds
  unfolding read_low_bits codes low_code
  read_low_bits-Reads [] = done-Reads []
  read_low_bits-Reads (d ∷ ds) =
      Reads-bind (read k) _ (low_code d) (codes low_code ds) (d % 2 ^ k) (d ∷ ds)
        (read-Reads k (d % 2 ^ k) (mod-lt d (pow_pos k)) k_le)
        (Reads-then (read_low_bits k (map high ds)) _ (codes low_code ds) ds (d ∷ ds)
          (read_low_bits-Reads ds)
          (subst (Reads (λ r. done (bit_or (high d) (d % 2 ^ k) ∷ ds, r)) [])
            (ap (λ x. x ∷ ds) (rejoined d)) (done-Reads _)))

-- A pair fits when its number is less than 2 ^ 32.
abbrev pub PairsFit : List ℕ → Type 0
PairsFit [] = Unit
PairsFit (d ∷ []) = ⊥
PairsFit (d1 ∷ d2 ∷ ds) =
    (gamma d1 d2 < 2 ^ 32) × ((d1 + d2) * (d1 + d2 + 1) < 2 ^ 64) × PairsFit ds

unfoldable pub pairs_code : List ℕ → List ℕ
pairs_code [] = []
pairs_code (d ∷ []) = []
pairs_code (d1 ∷ d2 ∷ ds) = fs_bits (gamma d1 d2) ++ pairs_code ds

pub write_pairs-Writes : (ds : List ℕ) → PairsFit ds → Writes (write_pairs ds) (pairs_code ds)
unfolding write_pairs pairs_code
write_pairs-Writes [] h = done-Writes
write_pairs-Writes (d ∷ []) h = absurd h
write_pairs-Writes (d1 ∷ d2 ∷ ds) h =
    Writes-bind (write_fs (gamma d1 d2)) (write_pairs ds) (fs_bits (gamma d1 d2)) (pairs_code ds)
      (write_fs-Writes (gamma d1 d2) h.0) (write_pairs-Writes ds h.2)

pub read_pairs-Reads :
    (ds : List ℕ) → PairsFit ds → Reads (read_pairs (length ds / 2)) (pairs_code ds) ds
unfolding read_pairs pairs_code
read_pairs-Reads [] h = done-Reads []
read_pairs-Reads (d ∷ []) h = absurd h
read_pairs-Reads (d1 ∷ d2 ∷ ds) h =
    let count : length (d1 ∷ d2 ∷ ds) / 2 ≡ suc (length ds / 2) = omega arith in
    let pair : decode_second_ext_pair (gamma d1 d2) ≡ (d1, d2) =
      decode_second_ext_pair-gamma d1 d2 h.1 in
    subst (λ n. Reads (read_pairs n) (pairs_code (d1 ∷ d2 ∷ ds)) (d1 ∷ d2 ∷ ds)) (sym count)
      (Reads-bind read_fs _ (fs_bits (gamma d1 d2)) (pairs_code ds) (gamma d1 d2) (d1 ∷ d2 ∷ ds)
        (read_fs-Reads (gamma d1 d2))
        (Reads-then (read_pairs (length ds / 2)) _ (pairs_code ds) ds (d1 ∷ d2 ∷ ds)
          (read_pairs-Reads ds h.2)
          (subst (Reads (λ r. done (_, r)) []) (ap (λ p. p.0 ∷ p.1 ∷ ds) pair) (done-Reads _))))
