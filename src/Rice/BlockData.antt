-- ===== src/Rice/BlockData.antt =====
-- The data of a block: `compress` makes it from the samples, `decompress` the samples from it
-- (crates/leodos-protocols/src/application/compression/rice.rs).
use mathlib.Core.Path.{subst}
use native.Mathlib.Nat.{pow-le-pow_right}
use leo_dos.Prelude.Arrays.{item}
use leo_dos.Prelude.{
  ℕ, zero, suc, ◌-◌, ◌%◌, ◌^◌, ◌≤◌, ◌<◌, ◌≡◌, refl, sym, ap, ap₂, ◌∙◌, Bool, true, false, ◌&&◌,
  List, [], ◌∷◌, map, arith, if◌then◌else◌, length, replicate, All, All-map,
}
use leo_dos.Rice.Config.{Config, x_max}
use leo_dos.Rice.Mapper.{pos, plus, as_u32, unmap_error, map_from, preprocess_block, reconstruct}
use leo_dos.Rice.Coding.{all_zero}
use leo_dos.Rice.Encoder.{reference_block, block_data}
use leo_dos.Rice.Decoder.{restore, zero_samples}
use leo_dos.Rice.Mapped.{reconstruct-map_from, map_from-All, length-map_from}
use leo_dos.Rice.BitLists.{pow_pos}

unmap_zero : (top prev : ℕ) → unmap_error 0 prev top ≡ pos 0
unfolding unmap_error
unmap_zero top prev = ground arith

-- Data of zeros repeats the predictor.
reconstruct-zeros :
    (top prev m : ℕ) → prev < 2 ^ 32 → reconstruct top prev (replicate m 0) ≡ replicate m prev
unfolding reconstruct as_u32 plus
reconstruct-zeros top prev zero h = refl
reconstruct-zeros top prev (suc m) h =
    let same : as_u32 (plus prev (unmap_error 0 prev top)) ≡ prev =
      ap (λ z. as_u32 (plus prev z)) (unmap_zero top prev) ∙ omega (arith, h) in
    ap (λ s. s ∷ reconstruct top s (replicate m 0)) same
    ∙ ap (λ t. prev ∷ t) (reconstruct-zeros top prev m h)

all_zero-replicate : (ds : List ℕ) → all_zero ds ≡ true → ds ≡ replicate (length ds) 0
unfolding all_zero
all_zero-replicate [] e = refl
all_zero-replicate (d ∷ ds) e =
    ap₂ (λ x t. x ∷ t) (ground (arith, e)) (all_zero-replicate ds (ground (arith, e)))

map-cast : (n : ℕ) (ds : List ℕ) → n ≤ 32 → All (λ d. d < 2 ^ n) ds → map (λ d. d % 2 ^ 32) ds ≡ ds
map-cast n [] l h = refl
map-cast n (d ∷ ds) l h =
    let bound : 2 ^ n ≤ 2 ^ 32 = pow-le-pow_right (omega arith) l in
    ap₂ (λ x t. x ∷ t) (omega (arith, bound, h.0)) (map-cast n ds l h.1)

replicate_head : (j x : ℕ) → 1 ≤ j → x ∷ replicate (j - 1) x ≡ replicate j x
replicate_head zero x h = absurd (omega arith)
replicate_head (suc j) x h =
    let index : suc j - 1 ≡ j = omega arith in ap (λ m. x ∷ replicate m x) index

-- The facts of the data `ds` of a block of `j` samples.
pub record BlockData (cfg : Config) (is_ref : Bool) (prev : ℕ) (block ds : List ℕ) : Type 0 where
  pub small : All (λ d. d < 2 ^ cfg.bits_per_sample) ds
  pub size : length ds ≡ (if is_ref then cfg.block_size - 1 else cfg.block_size)
  pub restored : restore cfg is_ref (if is_ref then item 0 block 0 else 0) prev ds ≡ block
  pub zeros :
      all_zero ds ≡ true
      → zero_samples cfg is_ref (if is_ref then item 0 block 0 else 0) prev ≡ block

module _ (cfg : Config) (n_le : cfg.bits_per_sample ≤ 32) (prev : ℕ)
    (prev_lt : prev < 2 ^ cfg.bits_per_sample) (block : List ℕ)
    (size : length block ≡ cfg.block_size) (one : 1 ≤ cfg.block_size)
    (samples_lt : All (λ x. x < 2 ^ cfg.bits_per_sample) block) where
  abbrev n : ℕ
  n = cfg.bits_per_sample

  n_bound : 2 ^ n ≤ 2 ^ 32
  n_bound = pow-le-pow_right (omega arith) n_le

  top_lt : x_max cfg < 2 ^ 32
  unfolding x_max
  top_lt = omega (arith, n_bound)

  to_top : (x : ℕ) → x < 2 ^ n → x ≤ x_max cfg
  unfolding x_max
  to_top x h = omega (arith, h)

  from_top : (x : ℕ) → x ≤ x_max cfg → x < 2 ^ n
  unfolding x_max
  from_top x h = omega (arith, h, pow_pos n)

  -- Zeros behind a predictor.
  flat :
      (start m : ℕ) (ds xs : List ℕ)
      → start < 2 ^ n
      → length ds ≡ m
      → reconstruct (x_max cfg) start ds ≡ xs
      → all_zero ds ≡ true
      → replicate m start ≡ xs
  flat start m ds xs h l r z =
      ap (λ k. replicate k start) (sym l)
      ∙ sym (reconstruct-zeros (x_max cfg) start (length ds) (omega (arith, h, n_bound)))
      ∙ ap (reconstruct (x_max cfg) start) (sym (all_zero-replicate ds z))
      ∙ r

  plain : cfg.preprocessor ≡ false → BlockData cfg false prev block block
  unfolding restore zero_samples
  plain e = record {
    small = samples_lt;
    size = size;
    restored = rw e (map-cast n block n_le samples_lt);
    zeros = λ z. rw e (
        replicate_head cfg.block_size 0 one
        ∙ ap (λ m. replicate m 0) (sym size)
        ∙ sym (all_zero-replicate block z));
  }

  all_le : (xs : List ℕ) → All (λ x. x < 2 ^ n) xs → All (λ x. x ≤ x_max cfg) xs
  all_le xs h = All-map _ _ xs to_top h

  mapped_small :
      (start : ℕ) (xs : List ℕ)
      → start < 2 ^ n
      → All (λ x. x < 2 ^ n) xs
      → All (λ d. d < 2 ^ n) (map_from (x_max cfg) start xs)
  mapped_small start xs h l =
      All-map _ _ (map_from (x_max cfg) start xs) from_top
        (map_from-All (x_max cfg) top_lt start xs (to_top start h) (all_le xs l))

  predicted :
      cfg.preprocessor ≡ true → BlockData cfg false prev block (map_from (x_max cfg) prev block)
  unfolding restore zero_samples
  predicted e =
      let back : reconstruct (x_max cfg) prev (map_from (x_max cfg) prev block) ≡ block =
        reconstruct-map_from (x_max cfg) top_lt prev block (to_top prev prev_lt)
          (all_le block samples_lt) in
      let count : length (map_from (x_max cfg) prev block) ≡ cfg.block_size =
        length-map_from (x_max cfg) prev block ∙ size in
      record {
        small = mapped_small prev block prev_lt samples_lt;
        size = count;
        restored = simp e back;
        zeros = λ z. simp e (
            replicate_head cfg.block_size prev one
            ∙ flat prev cfg.block_size _ block prev_lt count back z);
      }

  referenced :
      (x : ℕ) (xs : List ℕ)
      → block ≡ x ∷ xs
      → cfg.preprocessor ≡ true
      → BlockData cfg true prev block (map_from (x_max cfg) x xs)
  unfolding restore zero_samples item
  referenced x xs b e =
      let all_lt : All (λ y. y < 2 ^ n) (x ∷ xs) = subst (All (λ y. y < 2 ^ n)) b samples_lt in
      let back : reconstruct (x_max cfg) x (map_from (x_max cfg) x xs) ≡ xs =
        reconstruct-map_from (x_max cfg) top_lt x xs (to_top x all_lt.0) (all_le xs all_lt.1) in
      let count : length (map_from (x_max cfg) x xs) ≡ cfg.block_size - 1 =
        omega (arith, length-map_from (x_max cfg) x xs, size, ap length b) in
      let first : item 0 block 0 ≡ x = ap (λ l. item 0 l 0) b in
      record {
        small = mapped_small x xs all_lt.0 all_lt.1;
        size = count;
        restored = simp e (
            ap (λ v. v ∷ reconstruct (x_max cfg) v (map_from (x_max cfg) x xs)) first
            ∙ ap (λ t. x ∷ t) back
            ∙ sym b);
        zeros = λ z. simp e (
            ap (λ v. v ∷ replicate (cfg.block_size - 1) v) first
            ∙ ap (λ t. x ∷ t) (flat x (cfg.block_size - 1) _ xs all_lt.0 count back z)
            ∙ sym b);
      }

  pub block_data-BlockData :
      (blk : ℕ) → BlockData cfg (reference_block cfg blk) prev block (block_data cfg blk prev block)
  unfolding block_data preprocess_block reference_block
  block_data-BlockData blk = by_case cfg.preprocessor _ refl
    where
      with_first :
          (l : List ℕ)
          → block ≡ l
          → cfg.preprocessor ≡ true
          → BlockData cfg true prev block (preprocess_block block true prev (x_max cfg))
      with_first [] b e = absurd (omega (arith, size, ap length b))
      with_first (x ∷ xs) b e =
          subst (BlockData cfg true prev block)
            (ap (λ l. preprocess_block l true prev (x_max cfg)) (sym b)) (referenced x xs b e)

      by_case :
          (p q : Bool)
          → cfg.preprocessor ≡ p
          → BlockData cfg
              (p && q)
              prev
              block
              (if p then preprocess_block block (p && q) prev (x_max cfg) else block)
      by_case true true e = with_first block refl e
      by_case true false e = predicted e
      by_case false q e = plain e
