-- ===== src/Rice/AllBlocks.antt =====
-- All blocks through `compress` and `decompress`
-- (crates/leodos-protocols/src/application/compression/rice.rs).
use mathlib.Core.Path.{subst}
use leo_dos.Prelude.Slices.{length-take, length-drop}
use leo_dos.Prelude.{
  ℕ, zero, suc, ◌+◌, ◌-◌, ◌*◌, ◌%◌, ◌^◌, ◌≤◌, ◌<◌, min, ◌≡◌, refl, sym, ap, ◌∙◌, ◌⊎◌, inl, inr,
  Bool, true, false, List, [], ◌∷◌, ◌++◌, arith, if◌then◌else◌, Bool-cases, length, take, drop, All,
}
use leo_dos.Rice.Config.{Config, done, id_len, validate}
use leo_dos.Rice.Coding.{
  CodingOption, zero_block, second_extension, split, no_compression, all_zero, select_option,
}
use leo_dos.Rice.Encoder.{Encoding, reference_block, block_data, select_block, compress_loop}
use leo_dos.Rice.Decoder.{Decoding, put_block}
use leo_dos.Rice.BitLists.{append_assoc, append_nil}
use leo_dos.Rice.Writes.{done-Writes}
use leo_dos.Rice.DataRoundTrip.{Fits}
use leo_dos.Rice.Selection.{Selected, select_option-Selected}
use leo_dos.Rice.Cds.{Width, id_len-bounds}
use leo_dos.Rice.BlockData.{BlockData, block_data-BlockData}
use leo_dos.Rice.Steps.{Decodes, Decodes-end, Decodes-weaken}
use leo_dos.Rice.Sync.{Sync}
use leo_dos.Rice.BlockStep.{Finish, AtBlock, StepFinish}
use leo_dos.Rice.ZeroStep.{zero_step}
use leo_dos.Rice.CodedStep.{coded_step}

module _ {ℓ} {A : Type ℓ} where
  take-drop : (n : ℕ) (xs : List A) → take n xs ++ drop n xs ≡ xs
  take-drop zero xs = refl
  take-drop (suc n) [] = refl
  take-drop (suc n) (x ∷ xs) = ap (λ t. x ∷ t) (take-drop n xs)

  All-take : (P : A → Type 0) (n : ℕ) (xs : List A) → All P xs → All P (take n xs)
  All-take P zero xs h = tt
  All-take P (suc n) [] h = tt
  All-take P (suc n) (x ∷ xs) h = (h.0, All-take P n xs h.1)

  All-drop : (P : A → Type 0) (n : ℕ) (xs : List A) → All P xs → All P (drop n xs)
  All-drop P zero xs h = h
  All-drop P (suc n) [] h = tt
  All-drop P (suc n) (x ∷ xs) h = All-drop P n xs h.1

-- The parameters that `validate` accepts, but for samples of fewer than 3 or more than 28 bits.
pub record Valid (cfg : Config) : Type 0 where
  pub width : Width cfg
  pub sizes :
      (cfg.block_size ≡ 8) ⊎ (cfg.block_size ≡ 16) ⊎ (cfg.block_size ≡ 32) ⊎ (cfg.block_size ≡ 64)
  pub interval : cfg.ref_interval ≤ 4096

module _ (cfg : Config) (valid : Valid cfg) where
  pub validate-Valid : validate cfg ≡ done tt
  unfolding validate
  validate-Valid = ground (arith, valid.width.n_ge, valid.width.n_le, valid.sizes, valid.interval)

  pub block_size-bounds : (8 ≤ cfg.block_size) × (cfg.block_size ≤ 64) × (cfg.block_size % 2 ≡ 0)
  block_size-bounds = ground (arith, valid.sizes)

  Selected-Fits :
      (is_ref : Bool) (ds : List ℕ) (option : CodingOption)
      → length ds ≡ (if is_ref then cfg.block_size - 1 else cfg.block_size)
      → Selected (min (2 ^ id_len cfg - 3) (cfg.bits_per_sample - 2)) ds option
      → Fits option is_ref ds
  Selected-Fits is_ref ds zero_block size h = h
  Selected-Fits true ds second_extension size h =
      absurd (omega (arith, size, h.0, block_size-bounds.0, block_size-bounds.2))
  Selected-Fits false ds second_extension size h = (refl, h.1)
  Selected-Fits is_ref ds (split k) size h = omega (arith, h, valid.width.n_le)
  Selected-Fits is_ref ds no_compression size h = tt

  select_zero : (ds : List ℕ) → all_zero ds ≡ true → select_block cfg ds ≡ zero_block
  unfolding select_block select_option
  select_zero ds h = rw h refl

  select_coded :
      (ds : List ℕ)
      → length ds ≤ 64
      → All (λ d. d < 2 ^ cfg.bits_per_sample) ds
      → all_zero ds ≡ false
      → Selected (min (2 ^ id_len cfg - 3) (cfg.bits_per_sample - 2)) ds (select_block cfg ds)
  unfolding select_block
  select_coded ds short small h =
      select_option-Selected cfg.bits_per_sample (id_len cfg) _ valid.width.n_le
        (id_len-bounds cfg valid.width).1 ds short small h

  short_data :
      (is_ref : Bool) (ds : List ℕ)
      → length ds ≡ (if is_ref then cfg.block_size - 1 else cfg.block_size)
      → length ds ≤ 64
  short_data true ds h = omega (arith, h, block_size-bounds.1)
  short_data false ds h = omega (arith, h, block_size-bounds.1)

  nothing_left : (samples : List ℕ) → length samples ≡ 0 → samples ≡ []
  nothing_left [] h = refl
  nothing_left (x ∷ xs) h = absurd (omega (arith, h))

  pub loop-Finish :
      (len count blk : ℕ) (samples : List ℕ) (e : Encoding) (d d' : Decoding) (v : ℕ)
      → Sync cfg len blk count e d d' v
      → length samples ≡ count * cfg.block_size
      → All (λ x. x < 2 ^ cfg.bits_per_sample) samples
      → blk + count < 2 ^ 32
      → Finish cfg len count blk samples e d (d'.out ++ samples)
  unfolding compress_loop put_block
  loop-Finish len zero blk samples e d d' v s size small fewer =
      let none_held : e.zero_run ≡ 0 = s.ended refl in
      let nil : samples ≡ [] = nothing_left samples (omega (arith, size)) in
      let finished : Decodes cfg len d' 0 [] d'.out =
        Decodes-end cfg len d' (omega (arith, s.out_eq, block_size-bounds.0)) in
      (
        [],
        done-Writes,
        Decodes-weaken cfg len d 0 (0 + min 1 e.zero_run) [] (d'.out ++ samples) (omega arith) (
            subst (λ t. Decodes cfg len t 0 [] (d'.out ++ samples)) (sym (s.fresh none_held))
              (subst (Decodes cfg len d' 0 []) (sym (ap (λ l. d'.out ++ l) nil ∙ append_nil d'.out))
                finished)),
      )
  loop-Finish len (suc count) blk samples e d d' v s size small fewer =
      let j : ℕ = cfg.block_size in
      let block : List ℕ = take j samples in
      let rest : List ℕ = drop j samples in
      let ds : List ℕ = block_data cfg blk e.prev_sample block in
      let block_size_eq : length block ≡ j = length-take j samples (omega (arith, size)) in
      let one : 1 ≤ j = omega (arith, block_size-bounds.0) in
      let block_lt = All-take (λ x. x < 2 ^ cfg.bits_per_sample) j samples small in
      let facts : BlockData cfg (reference_block cfg blk) e.prev_sample block ds =
        block_data-BlockData cfg (omega (arith, valid.width.n_le)) e.prev_sample s.prev_lt block
          block_size_eq one block_lt blk in
      let rest_size : length rest ≡ count * j = omega (arith, size, length-drop j samples) in
      let IH : (e1 : Encoding) (d1 d1' : Decoding) (v1 : ℕ)
          → Sync cfg len (blk + 1) count e1 d1 d1' v1
          → Finish cfg len count (blk + 1) rest e1 d1 (d1'.out ++ rest) =
        λ e1 d1 d1' v1 s1.
          loop-Finish len count (blk + 1) rest e1 d1 d1' v1 s1 rest_size
            (All-drop (λ x. x < 2 ^ cfg.bits_per_sample) j samples small) (omega (arith, fewer)) in
      let t : AtBlock cfg len blk count e d d' v block rest = record {
        width = valid.width;
        sync = s;
        fewer = omega (arith, fewer);
        size = block_size_eq;
        one = one;
        samples_lt = block_lt;
        behind = IH;
      } in
      let made : StepFinish t ds (select_block cfg ds) = elim (Bool-cases (all_zero ds)) [
        | inl h ↦ subst (StepFinish t ds) (sym (select_zero ds h)) (zero_step t (facts.zeros h) ds)
        | inr h ↦
            let sel =
              select_coded ds (short_data (reference_block cfg blk) ds facts.size) facts.small h in
            coded_step t ds (select_block cfg ds) facts sel
              (Selected-Fits (reference_block cfg blk) ds _ facts.size sel)
      ] in
      (
        made.0,
        made.1,
        subst (Decodes cfg len d (suc count + min 1 e.zero_run) made.0)
            (append_assoc d'.out block rest ∙ ap (λ l. d'.out ++ l) (take-drop j samples)) made.2,
      )
