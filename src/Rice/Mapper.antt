-- ===== src/Rice/Mapper.antt =====
-- The preprocessor of crates/leodos-protocols/src/application/compression/rice.rs. `x_hat` is at
-- most `x_max`, as the code's own subtraction wants it.
use leo_dos.Prelude.{
  ℕ, ◌+◌, ◌-◌, ◌*◌, ◌/◌, ◌%◌, ◌^◌, min, Bool, true, false, List, [], ◌∷◌, leb, ◌==◌, if◌then◌else◌,
}

-- `i64`
pub data ℤ : Type 0 where
  pos : ℕ → ℤ
  negsuc : ℕ → ℤ

-- `a as i64 - b as i64`
unfoldable pub minus : ℕ → ℕ → ℤ
minus a b = if leb b a then pos (a - b) else negsuc (b - a - 1)

-- `a as i64 + d`
unfoldable pub plus : ℕ → ℤ → ℤ
plus a (pos d) = pos (a + d)
plus a (negsuc d) = minus a (d + 1)

-- `z as u32`
unfoldable pub as_u32 : ℤ → ℕ
as_u32 (pos n) = n % 2 ^ 32
as_u32 (negsuc n) = 2 ^ 32 - 1 - n % 2 ^ 32

abbrev pub theta : ℕ → ℕ → ℕ
theta x_hat x_max = min x_hat (x_max - x_hat)

unfoldable pub map_error : ℤ → ℕ → ℕ → ℕ
map_error (pos d) x_hat x_max = let t = theta x_hat x_max in if leb d t then 2 * d else t + d
map_error (negsuc d) x_hat x_max =
    let t = theta x_hat x_max in if leb (d + 1) t then 2 * (d + 1) - 1 else t + (d + 1)

unfoldable pub unmap_error : ℕ → ℕ → ℕ → ℤ
unmap_error d x_hat x_max =
    let t = theta x_hat x_max in
    if leb d (2 * t)
    then (if d % 2 == 0 then pos (d / 2) else minus 0 ((d + 1) / 2))
    else if leb x_hat (x_max - x_hat)
    then minus d t
    else minus t d

-- The loop of `preprocess_block`.
unfoldable pub map_from : ℕ → ℕ → List ℕ → List ℕ
map_from x_max prev [] = []
map_from x_max prev (x ∷ xs) = map_error (minus x prev) prev x_max ∷ map_from x_max x xs

-- A reference block gives its first sample up as the predictor.
unfoldable pub preprocess_block : List ℕ → Bool → ℕ → ℕ → List ℕ
preprocess_block samples false prev x_max = map_from x_max prev samples
preprocess_block [] true prev x_max = []
preprocess_block (x ∷ xs) true prev x_max = map_from x_max x xs

-- The loop over the samples at the end of `decode_single_block`.
unfoldable pub reconstruct : ℕ → ℕ → List ℕ → List ℕ
reconstruct x_max prev [] = []
reconstruct x_max prev (d ∷ ds) =
    let sample = as_u32 (plus prev (unmap_error d prev x_max)) in
    sample ∷ reconstruct x_max sample ds
