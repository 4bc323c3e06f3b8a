-- ===== src/Rice/Sync.antt =====
-- How far `compress` is ahead of `decompress` while it holds a run of zero blocks back
-- (crates/leodos-protocols/src/application/compression/rice.rs).
use leo_dos.Prelude.Arrays.{item}
use leo_dos.Prelude.{
  ℕ, suc, ◌+◌, ◌*◌, ◌^◌, ◌≤◌, ◌<◌, ◌≡◌, refl, sym, ap, ◌∙◌, inl, inr, Bool, true, false, ◌&&◌,
  Option, List, arith, ◌==◌, if◌then◌else◌, ==_iff, ==_eq, ==_ne, Bool-cases, length,
}
use leo_dos.Rice.Config.{Config, done}
use leo_dos.Rice.Encoder.{Encoding, reference_block, block_ref}
use leo_dos.Rice.Decoder.{Decoding, zero_blocks, zero_samples, put_block}
use leo_dos.Rice.BitLists.{pow_pos}
use leo_dos.Rice.Cds.{reference}
use leo_dos.Rice.ZeroRuns.{Segment, zero_blocks-more}

-- The encoder, at block `blk` with `count` blocks to go, stands where the decoder, at `d`, will
-- stand at `d'`, once it has read the run that is held back. Its first block has the reference
-- sample `v`, if it is a reference block.
pub record Sync (cfg : Config) (len blk count : ℕ) (e : Encoding) (d d' : Decoding) (v : ℕ)
    : Type 0 where
  pub blk_eq : d'.blk_idx ≡ blk
  pub prev_eq : d'.prev_sample ≡ e.prev_sample
  pub prev_lt : e.prev_sample < 2 ^ cfg.bits_per_sample
  pub seg_eq : d'.seg_remaining ≡ e.seg_remaining
  pub segment : Segment cfg blk e.seg_remaining
  pub out_eq : length d'.out + count * cfg.block_size ≡ len
  pub fresh : e.zero_run ≡ 0 → d ≡ d'
  pub pending :
      zero_blocks cfg len e.zero_run
        (reference_block cfg d.blk_idx)
        (if reference_block cfg d.blk_idx then v else 0)
        d
      ≡ done d'
  pub run_seg : d.seg_remaining ≡ e.seg_remaining + e.zero_run
  pub run_short : e.seg_remaining + e.zero_run ≤ 64
  pub run_ref :
      1 ≤ e.zero_run
      → (e.zero_ref ≡ reference (reference_block cfg d.blk_idx) v)
        × (reference_block cfg blk ≡ false)
  pub v_lt : v < 2 ^ cfg.bits_per_sample
  pub ended : count ≡ 0 → e.zero_run ≡ 0
  pub start_room : length d.out ≤ length d'.out

-- With no run held back the two stand at one place.
pub settled :
    (cfg : Config) (len blk count : ℕ) (e : Encoding) (d : Decoding)
    → d.blk_idx ≡ blk
    → d.prev_sample ≡ e.prev_sample
    → e.prev_sample < 2 ^ cfg.bits_per_sample
    → d.seg_remaining ≡ e.seg_remaining
    → Segment cfg blk e.seg_remaining
    → length d.out + count * cfg.block_size ≡ len
    → e.zero_run ≡ 0
    → Sync cfg len blk count e d d 0
unfolding zero_blocks
settled cfg len blk count e d blk_eq prev_eq prev_lt seg_eq segment out_eq none_held = record {
  blk_eq = blk_eq;
  prev_eq = prev_eq;
  prev_lt = prev_lt;
  seg_eq = seg_eq;
  segment = segment;
  out_eq = out_eq;
  fresh = λ z. refl;
  pending =
      ap
        (λ run.
          zero_blocks cfg len run (reference_block cfg d.blk_idx)
            (if reference_block cfg d.blk_idx then 0 else 0) d)
        none_held;
  run_seg = omega (arith, seg_eq, none_held);
  run_short = omega (arith, segment.short, none_held);
  run_ref = λ l. absurd (omega (arith, none_held, l));
  v_lt = pow_pos cfg.bits_per_sample;
  ended = λ z. none_held;
  start_room = omega arith;
}

module _ (cfg : Config) (len blk count : ℕ) (e : Encoding) (d d' : Decoding) (v : ℕ)
    (s : Sync cfg len blk (suc count) e d d' v) (block : List ℕ)
    (size : length block ≡ cfg.block_size)
    (zeros : zero_samples cfg
        (reference_block cfg blk)
        (if reference_block cfg blk then item 0 block 0 else 0)
        e.prev_sample
      ≡ block) where
  -- The run with the zero block behind it.
  abbrev pub next : Decoding
  next = put_block cfg block d'

  abbrev pub next_ref : Option ℕ
  next_ref = if e.zero_run == 0 then block_ref cfg blk block else e.zero_ref

  pub record Longer : Type 0 where
    pub sample : ℕ
    pub sample_lt : item 0 block 0 < 2 ^ cfg.bits_per_sample → sample < 2 ^ cfg.bits_per_sample
    pub ref_eq : next_ref ≡ reference (reference_block cfg d.blk_idx) sample
    pub run :
        zero_blocks cfg len
          (e.zero_run + 1)
          (reference_block cfg d.blk_idx)
          (if reference_block cfg d.blk_idx then sample else 0)
          d
        ≡ done next

  room : length d'.out + cfg.block_size ≤ len
  room = omega (arith, s.out_eq)

  abbrev run_is_ref : Bool
  run_is_ref = reference_block cfg d.blk_idx

  -- The samples that the decoder makes of the block.
  made :
      (flag : Bool) (val : ℕ)
      → zero_samples cfg flag val e.prev_sample ≡ block
      → done (put_block cfg (zero_samples cfg flag val d'.prev_sample) d') ≡ done next
  made flag val h =
      ap (λ p. done (put_block cfg (zero_samples cfg flag val p) d')) s.prev_eq
      ∙ ap (λ b. done (put_block cfg b d')) h

  longer_first : e.zero_run ≡ 0 → Longer
  unfolding zero_blocks block_ref
  longer_first z =
      let here : d.blk_idx ≡ blk = ap (λ t. t.blk_idx) (s.fresh z) ∙ s.blk_eq in
      let same : run_is_ref ≡ reference_block cfg blk = ap (reference_block cfg) here in
      let val : ℕ = if run_is_ref then item 0 block 0 else 0 in
      let none_held : (e.zero_run == 0) ≡ true = ==_eq _ _ z in
      let flag : (run_is_ref && (e.zero_run == 0)) ≡ reference_block cfg blk =
        ap (λ b. run_is_ref && b) none_held ∙ always run_is_ref ∙ same in
      let nothing : zero_blocks cfg len e.zero_run run_is_ref val d ≡ done d' =
        ap (λ n. zero_blocks cfg len n run_is_ref val d) z ∙ ap done (s.fresh z) in
      record {
        sample = item 0 block 0;
        sample_lt = λ h. h;
        ref_eq =
            ap (λ b. if b then block_ref cfg blk block else e.zero_ref) none_held
            ∙ ap (λ b. reference b (item 0 block 0)) (sym same);
        run =
            zero_blocks-more cfg len e.zero_run run_is_ref val d d' nothing room
            ∙ made (run_is_ref && (e.zero_run == 0)) val (
                ap (λ b. zero_samples cfg b val e.prev_sample) flag
                ∙ ap
                    (λ b.
                      zero_samples cfg (reference_block cfg blk) (if b then item 0 block 0 else 0)
                        e.prev_sample)
                    same
                ∙ zeros);
      }
    where
      always : (f : Bool) → (f && true) ≡ f
      always true = refl
      always false = refl

  longer_next : 1 ≤ e.zero_run → Longer
  unfolding zero_samples
  longer_next l =
      let val : ℕ = if run_is_ref then v else 0 in
      let some_held : (e.zero_run == 0) ≡ false = ==_ne _ 0 (λ z. omega (arith, z, l)) in
      let flag : (run_is_ref && (e.zero_run == 0)) ≡ false =
        ap (λ b. run_is_ref && b) some_held ∙ never run_is_ref in
      let facts = s.run_ref l in
      record {
        sample = v;
        sample_lt = λ h. s.v_lt;
        ref_eq = ap (λ b. if b then block_ref cfg blk block else e.zero_ref) some_held ∙ facts.0;
        run =
            zero_blocks-more cfg len e.zero_run run_is_ref val d d' s.pending room
            ∙ made (run_is_ref && (e.zero_run == 0)) val (
                ap (λ b. zero_samples cfg b val e.prev_sample) flag
                ∙ ap (λ b. zero_samples cfg b (if b then item 0 block 0 else 0) e.prev_sample)
                    (sym facts.1)
                ∙ zeros);
      }
    where
      never : (f : Bool) → (f && false) ≡ false
      never true = refl
      never false = refl

  pub longer : Longer
  longer = elim (Bool-cases (e.zero_run == 0)) [
    | inl z ↦ longer_first ((==_iff _ 0).0 z)
    | inr z ↦ longer_next (ground (arith, z))
  ]
