-- ===== src/Rice/ZeroStep.antt =====
-- A zero block, which lengthens a run or ends it
-- (crates/leodos-protocols/src/application/compression/rice.rs).
use mathlib.Core.Path.{subst, fun_ext}
use mathlib.Core.Bool.{true≢false}
use leo_dos.Prelude.Arrays.{item}
use leo_dos.Prelude.{
  ℕ, suc, ◌+◌, ◌-◌, ◌≤◌, min, ◌≡◌, refl, sym, ap, ◌∙◌, inl, inr, Bool, true, false, ◌&&◌, ◌||◌,
  List, [], ◌++◌, arith, leb, ◌==◌, if◌then◌else◌, ==_iff, Bool-cases, length-append,
}
use leo_dos.Rice.Config.{Config, Outcome, done, ◌>>=◌, id_len}
use leo_dos.Rice.BitWriter.{BitWriter}
use leo_dos.Rice.Coding.{zero_block}
use leo_dos.Rice.Encoder.{
  Encoding, reference_block, seg_size, next_segment, after_block, after_zero, add_zero_block,
  add_block, flush_zero_blocks,
}
use leo_dos.Rice.Decoder.{Decoding, zero_samples, put_block}
use leo_dos.Rice.Writes.{Writes, done-Writes}
use leo_dos.Rice.Cds.{zero_run-Coded}
use leo_dos.Rice.ZeroRuns.{Segment, next_segment-Segment, inside-not-reference}
use leo_dos.Rice.Steps.{Sets, Writes-Sets, Sets-then, Decodes-turn, Decodes-weaken}
use leo_dos.Rice.Sync.{Sync, Longer, longer}
use leo_dos.Rice.BlockStep.{
  AtBlock, after, room, out_after, segment_after, sample_lt, Sync-after_block, StepFinish,
}

and_left : (a b : Bool) → (a && b) ≡ true → a ≡ true
and_left true b h = refl
and_left false b h = h

or_false : (a b : Bool) → (a || b) ≡ false → (a ≡ false) × (b ≡ false)
or_false true b h = absurd (true≢false h)
or_false false b h = (refl, h)

module _ {cfg : Config} {len blk count : ℕ} {e : Encoding} {d d' : Decoding} {v : ℕ}
    {block rest : List ℕ} (t : AtBlock cfg len blk count e d d' v block rest) where
  module _
      (zeros : zero_samples cfg
          (reference_block cfg blk)
          (if reference_block cfg blk then item 0 block 0 else 0)
          e.prev_sample
        ≡ block) where
    run : Longer cfg len blk count e d d' v t.sync block t.size zeros
    run = longer cfg len blk count e d d' v t.sync block t.size zeros

    abbrev held : Encoding
    held = after_zero cfg blk block e

    abbrev at_end : Bool
    at_end = e.seg_remaining - 1 == 0

    abbrev ros : Bool
    ros = at_end && leb 5 (e.zero_run + 1)

    abbrev flush : BitWriter → Outcome BitWriter
    flush = flush_zero_blocks (id_len cfg) cfg.bits_per_sample held.zero_ref (e.zero_run + 1) ros

    abbrev branches : Bool → BitWriter → Outcome (Encoding × BitWriter)
    branches b w =
        if b then (flush w >>= λ w'. done (after_block cfg blk block e, w')) else done (held, w)

    branch_eq :
        (b : Bool)
        → (at_end || (count == 0)) ≡ b
        → add_zero_block cfg blk (count == 0) block e ≡ branches b
    unfolding add_zero_block
    branch_eq b h = fun_ext λ w. ap (λ c. branches c w) h

    -- The run ends with this block.
    flush_step :
        (mapped : List ℕ) → (at_end || (count == 0)) ≡ true → StepFinish t mapped zero_block
    unfolding add_block
    flush_step mapped ends =
        let whole : ros ≡ true → d.seg_remaining ≡ e.zero_run + 1 = λ h.
          omega (arith, (==_iff _ 0).0 (and_left at_end _ h), t.sync.run_seg, t.sync.segment.one) in
        let coded =
          zero_run-Coded cfg t.width len d (e.zero_run + 1) run.sample ros (after t) (omega arith)
            (omega (arith, t.sync.run_short)) (run.sample_lt (sample_lt t 0 t.one)) whole run.run in
        let rest' =
          t.behind (after_block cfg blk block e) (after t) (after t) 0 (Sync-after_block t) in
        let writes : Writes flush coded.0 =
          subst
            (λ z.
              Writes (flush_zero_blocks (id_len cfg) cfg.bits_per_sample z (e.zero_run + 1) ros)
                coded.0)
            (sym run.ref_eq) coded.1 in
        (
          coded.0 ++ rest'.0,
          Sets-then (add_zero_block cfg blk (count == 0) block e) _ coded.0 rest'.0
              (after_block cfg blk block e)
              (subst (λ f. Sets f coded.0 (after_block cfg blk block e)) (sym (branch_eq true ends))
                (Writes-Sets flush coded.0 (after_block cfg blk block e) writes))
              rest'.1,
          Decodes-weaken cfg len d (count + min 1 0 + 1) (suc count + min 1 e.zero_run) _ _
              (omega arith)
              (Decodes-turn cfg len d (after t) (count + min 1 0) coded.0 rest'.0 _
                (omega (arith, (room t), t.sync.start_room)) coded.2 rest'.2),
        )

    Sync-after_zero :
        at_end ≡ false
        → (count == 0) ≡ false
        → Sync cfg len (blk + 1) count held d (after t) run.sample
    unfolding put_block next_segment
    Sync-after_zero inside more =
        let two : 2 ≤ e.seg_remaining = ground (arith, inside) in
        let kept : next_segment cfg blk (e.seg_remaining - 1) ≡ e.seg_remaining - 1 =
          ap (λ b. if b then seg_size cfg (blk + 1) else e.seg_remaining - 1) inside in
        record {
          blk_eq = ap (λ b. b + 1) t.sync.blk_eq;
          prev_eq = refl;
          prev_lt = sample_lt t (cfg.block_size - 1) (omega arith);
          seg_eq = (segment_after t) ∙ kept;
          segment =
              subst (Segment cfg (blk + 1)) kept
                (next_segment-Segment cfg blk e.seg_remaining t.fewer t.sync.segment);
          out_eq = (out_after t);
          fresh = λ z. absurd (omega (arith, z));
          pending = run.run;
          run_seg = omega (arith, t.sync.run_seg, two);
          run_short = omega (arith, t.sync.run_short, two);
          run_ref =
              λ l. (run.ref_eq, inside-not-reference cfg blk e.seg_remaining t.sync.segment two);
          v_lt = run.sample_lt (sample_lt t 0 t.one);
          ended = λ z. absurd (ground (arith, more, z));
          start_room = omega (arith, t.sync.start_room, length-append d'.out block);
        }

    -- The run is held back.
    hold_step :
        (mapped : List ℕ) → (at_end || (count == 0)) ≡ false → StepFinish t mapped zero_block
    unfolding add_block
    hold_step mapped on =
        let both = or_false at_end (count == 0) on in
        let rest' = t.behind held d (after t) run.sample (Sync-after_zero both.0 both.1) in
        (
          rest'.0,
          Sets-then (add_zero_block cfg blk (count == 0) block e) _ [] rest'.0 held
              (subst (λ f. Sets f [] held) (sym (branch_eq false on))
                (Writes-Sets done [] held done-Writes))
              rest'.1,
          Decodes-weaken cfg len d (count + min 1 held.zero_run) (suc count + min 1 e.zero_run) _ _
              (omega arith) rest'.2,
        )

    pub zero_step : (mapped : List ℕ) → StepFinish t mapped zero_block
    zero_step mapped = elim (Bool-cases (at_end || (count == 0))) [
      | inl h ↦ flush_step mapped h
      | inr h ↦ hold_step mapped h
    ]
