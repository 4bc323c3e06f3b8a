-- ===== src/Rice/DataRoundTrip.antt =====
-- Reading the data of a block from its code, for each option
-- (crates/leodos-protocols/src/application/compression/rice.rs).
use mathlib.Core.Path.{subst}
use native.Mathlib.Nat.{div-le_self, pow-le-pow_right}
use leo_dos.Prelude.{
  ℕ, zero, suc, ◌*◌, ◌/◌, ◌%◌, ◌^◌, ◌≤◌, ◌<◌, ◌≡◌, refl, sym, ap, ap₂, Bool, false, List, [], ◌∷◌,
  ◌++◌, map, arith, length, take, All, All-map,
}
use leo_dos.Rice.Config.{Outcome, done}
use leo_dos.Rice.BitWriter.{BitWriter, write, write_fs}
use leo_dos.Rice.BitReader.{BitReader, read}
use leo_dos.Rice.Coding.{CodingOption, zero_block, second_extension, split, no_compression}
use leo_dos.Rice.Encoder.{write_each, write_low_bits, encode_data}
use leo_dos.Rice.Decoder.{
  read_each, join_low_bits, read_shifted, read_pairs, read_extension, read_data,
}
use leo_dos.Rice.BitLists.{bits}
use leo_dos.Rice.Writes.{Writes, Writes-bind, done-Writes, write-Writes, write_fs-Writes, fs_bits}
use leo_dos.Rice.Reads.{Reads, Reads-bind, done-Reads, Reads-then, read-Reads}
use leo_dos.Rice.DataCode.{
  codes, write_each-Writes, read_each-Reads, pairs_code, write_pairs-Writes, read_pairs-Reads,
  PairsFit, high, low_code, shifted, read_low_bits-Reads,
}

-- There is a code that the one writes and the other reads as `a`.
abbrev pub Coded {ℓ} :
    {A : Type ℓ}
    → (BitWriter → Outcome BitWriter)
    → (BitReader → Outcome (A × BitReader))
    → A
    → Type ℓ
Coded f g a = (code : List ℕ) × Writes f code × Reads g code a

-- What an option asks of the data: the pairs of the second extension fit, of a whole block.
abbrev pub Fits : CodingOption → Bool → List ℕ → Type 0
Fits zero_block is_ref ds = ⊥
Fits second_extension is_ref ds = (is_ref ≡ false) × PairsFit ds
Fits (split k) is_ref ds = k ≤ 64
Fits no_compression is_ref ds = Unit

less-2^32 : (n d : ℕ) → n ≤ 32 → d < 2 ^ n → d < 2 ^ 32
less-2^32 n d l h = let p : 2 ^ n ≤ 2 ^ 32 = pow-le-pow_right (omega arith) l in omega (arith, p)

take_all : (ds : List ℕ) → take (length ds) ds ≡ ds
take_all [] = refl
take_all (d ∷ ds) = ap (λ t. d ∷ t) (take_all ds)

map_same : (f : ℕ → ℕ) → ((d : ℕ) → f d ≡ d) → (ds : List ℕ) → map f ds ≡ ds
map_same f e [] = refl
map_same f e (d ∷ ds) = ap₂ (λ x t. x ∷ t) (e d) (map_same f e ds)

module _ (j n : ℕ) (n_le : n ≤ 32) (is_ref : Bool) (ds : List ℕ)
    (small : All (λ d. d < 2 ^ n) ds) where
  fs_codes : ℕ → List ℕ
  fs_codes k = codes (λ d. fs_bits (d / 2 ^ k)) ds

  fs_written : (k : ℕ) → Writes (write_each (λ d. write_fs (d / 2 ^ k)) ds) (fs_codes k)
  unfolding fs_codes
  fs_written k =
      write_each-Writes (λ d. write_fs (d / 2 ^ k)) (λ d. fs_bits (d / 2 ^ k)) ds
        (All-map _ _ ds
          (λ d h.
            write_fs-Writes (d / 2 ^ k)
              (omega (arith, less-2^32 n d n_le h, div-le_self d (2 ^ k))))
          small)

  fs_read :
      (k : ℕ)
      → (l : k ≤ 64)
      → Reads (read_each (read_shifted k) (length ds)) (fs_codes k) (map (high k l) ds)
  unfolding fs_codes
  fs_read k l =
      read_each-Reads (read_shifted k) (λ d. fs_bits (d / 2 ^ k)) (high k l) ds
        (All-map _ _ ds (λ d h. shifted k l d (less-2^32 n d n_le h)) small)

  pairs_read :
      is_ref ≡ false → PairsFit ds → Reads (read_extension j is_ref (length ds)) (pairs_code ds) ds
  unfolding read_extension
  pairs_read e h =
      subst (λ b. Reads (read_extension j b (length ds)) (pairs_code ds) ds) (sym e)
        (Reads-then (read_pairs (length ds / 2)) _ (pairs_code ds) ds ds (read_pairs-Reads ds h)
          (subst (Reads (λ r. done (take (length ds) ds, r)) []) (take_all ds) (done-Reads _)))

  low_written :
      (k : ℕ) (l : suc k ≤ 64)
      → Writes (write_each (λ d. write (d % 2 ^ suc k) (suc k)) ds) (codes (low_code (suc k) l) ds)
  unfolding low_code
  low_written k l =
      write_each-Writes (λ d. write (d % 2 ^ suc k) (suc k)) (low_code (suc k) l) ds
        (All-map _ _ ds (λ d h. write-Writes (d % 2 ^ suc k) (suc k)) small)

  all_high : (l : 0 ≤ 64) → map (high 0 l) ds ≡ ds
  unfolding high
  all_high l = map_same (λ d. d / 2 ^ 0 * 2 ^ 0) (λ d. omega arith) ds

  pub data-Coded :
      (option : CodingOption)
      → Fits option is_ref ds
      → Coded (encode_data ds n option) (read_data j n is_ref (length ds) option) ds
  unfolding encode_data read_data write_low_bits join_low_bits
  data-Coded zero_block h = absurd h
  data-Coded second_extension h = (pairs_code ds, write_pairs-Writes ds h.1, pairs_read h.0 h.1)
  data-Coded (split zero) h = (
    fs_codes 0 ++ [],
    Writes-bind (write_each (λ d. write_fs (d / 2 ^ 0)) ds) done (fs_codes 0) [] (fs_written 0)
        done-Writes,
    Reads-bind (read_each (read_shifted 0) (length ds)) _ (fs_codes 0) [] (map (high 0 h) ds) ds
        (fs_read 0 h)
        (subst (Reads (λ r. done (map (high 0 h) ds, r)) []) (all_high h) (done-Reads _)),
  )
  data-Coded (split (suc k)) h = (
    fs_codes (suc k) ++ codes (low_code (suc k) h) ds,
    Writes-bind (write_each (λ d. write_fs (d / 2 ^ suc k)) ds) _ (fs_codes (suc k))
        (codes (low_code (suc k) h) ds) (fs_written (suc k)) (low_written k h),
    Reads-bind (read_each (read_shifted (suc k)) (length ds)) _ (fs_codes (suc k))
        (codes (low_code (suc k) h) ds) (map (high (suc k) h) ds) ds (fs_read (suc k) h)
        (read_low_bits-Reads (suc k) h ds),
  )
  data-Coded no_compression h = (
    codes (bits n) ds,
    write_each-Writes (λ d. write d n) (bits n) ds (All-map _ _ ds (λ d h. write-Writes d n) small),
    subst (Reads (read_each (read n) (length ds)) (codes (bits n) ds))
        (map_same (λ d. d) (λ d. refl) ds)
        (read_each-Reads (read n) (bits n) (λ d. d) ds
          (All-map _ _ ds (λ d h. read-Reads n d h (omega arith)) small)),
  )
