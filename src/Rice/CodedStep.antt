-- ===== src/Rice/CodedStep.antt =====
-- A block of another option than zero blocks, behind the run that was held back
-- (crates/leodos-protocols/src/application/compression/rice.rs).
use mathlib.Core.Path.{subst, fun_ext}
use mathlib.Core.Bool.{true≢false}
use leo_dos.Prelude.Arrays.{item}
use leo_dos.Prelude.{
  ℕ, suc, ◌+◌, ◌-◌, ◌^◌, ◌≤◌, min, ◌≡◌, refl, sym, ap, ap₂, ◌∙◌, inl, inr, Bool, true, false, List,
  [], ◌++◌, arith, ltb, ◌==◌, if◌then◌else◌, ltb→lt, Bool-cases,
}
use leo_dos.Rice.Config.{Config, Outcome, done, ◌>>=◌, id_len}
use leo_dos.Rice.BitWriter.{BitWriter}
use leo_dos.Rice.Coding.{CodingOption, zero_block, second_extension, split, no_compression}
use leo_dos.Rice.Encoder.{
  Encoding, reference_block, block_ref, after_block, add_coded_block, add_block, flush_pending,
  flush_zero_blocks, write_block, write_id, write_reference, encode_data,
}
use leo_dos.Rice.Decoder.{Decoding, put_block, restore, decode_turn}
use leo_dos.Rice.BitLists.{append_assoc}
use leo_dos.Rice.Writes.{Writes, done-Writes}
use leo_dos.Rice.Reads.{Reads}
use leo_dos.Rice.DataRoundTrip.{Coded, Fits}
use leo_dos.Rice.Selection.{Selected}
use leo_dos.Rice.Cds.{reference, zero_run-Coded, block-Coded}
use leo_dos.Rice.BlockData.{BlockData}
use leo_dos.Rice.Steps.{
  Sets, Writes-Sets, Writes-then-Sets, Sets-then, Decodes, Decodes-turn, Decodes-weaken,
}
use leo_dos.Rice.BlockStep.{AtBlock, after, room, sample_lt, Sync-after_block, StepFinish}

-- `add_block` of an option that is selected.
coded_block :
    (cfg : Config) (blk : ℕ) (last : Bool) (block mapped : List ℕ) (option : CodingOption)
    (e : Encoding) (max_k : ℕ)
    → Selected max_k mapped option
    → add_block cfg blk last block mapped option e ≡ add_coded_block cfg blk block mapped option e
unfolding add_block
coded_block cfg blk last block mapped zero_block e max_k h = absurd h
coded_block cfg blk last block mapped second_extension e max_k h = refl
coded_block cfg blk last block mapped (split k) e max_k h = refl
coded_block cfg blk last block mapped no_compression e max_k h = refl

module _ {cfg : Config} {len blk count : ℕ} {e : Encoding} {d d' : Decoding} {v : ℕ}
    {block rest : List ℕ} (t : AtBlock cfg len blk count e d d' v block rest) where
  -- The run that was held back is read first.
  held_back :
      (code : List ℕ) × Writes (flush_pending cfg e) code
      × ((turns : ℕ) (ys target : List ℕ)
          → Decodes cfg len d' turns ys target
          → Decodes cfg len d (turns + min 1 e.zero_run) (code ++ ys) target)
  unfolding flush_pending
  held_back = elim (Bool-cases (ltb 0 e.zero_run)) [
    | inl h ↦
        let l : 1 ≤ e.zero_run = ltb→lt 0 e.zero_run h in
        let coded =
          zero_run-Coded cfg t.width len d e.zero_run v false d' l (omega (arith, t.sync.run_short))
            t.sync.v_lt (λ f. absurd (true≢false (sym f))) t.sync.pending in
        (
          coded.0,
          subst (λ f. Writes f coded.0) (sym (flush_eq true h))
              (subst
                (λ z.
                  Writes (flush_zero_blocks (id_len cfg) cfg.bits_per_sample z e.zero_run false)
                    coded.0)
                (sym (t.sync.run_ref l).0) coded.1),
          λ turns ys target p.
              Decodes-weaken cfg len d (turns + 1) (turns + min 1 e.zero_run) _ _ (omega (arith, l))
                (Decodes-turn cfg len d d' turns coded.0 ys target
                  (omega (arith, (room t), t.sync.start_room)) coded.2 p),
        )
    | inr h ↦
        let z : e.zero_run ≡ 0 = ground (arith, h) in
        (
          [],
          subst (λ f. Writes f []) (sym (flush_eq false h)) done-Writes,
          λ turns ys target p.
              Decodes-weaken cfg len d turns (turns + min 1 e.zero_run) _ _ (omega arith)
                (subst (λ t. Decodes cfg len t turns ys target) (sym (t.sync.fresh z)) p),
        )
  ]
    where
      flushes : Bool → BitWriter → Outcome BitWriter
      flushes b w =
          if b
          then flush_zero_blocks (id_len cfg) cfg.bits_per_sample e.zero_ref e.zero_run false w
          else done w

      flush_eq : (b : Bool) → ltb 0 e.zero_run ≡ b → flush_pending cfg e ≡ flushes b
      flush_eq b h = fun_ext λ w. ap (λ c. flushes c w) h

  module _ (mapped : List ℕ) (option : CodingOption)
      (facts : BlockData cfg (reference_block cfg blk) e.prev_sample block mapped)
      (sel : Selected (min (2 ^ id_len cfg - 3) (cfg.bits_per_sample - 2)) mapped option)
      (fits : Fits option (reference_block cfg blk) mapped) where
    same_ref : reference_block cfg blk ≡ reference_block cfg d'.blk_idx
    same_ref = ap (reference_block cfg) (sym t.sync.blk_eq)

    block_read : Coded (write_block cfg blk block mapped option) (decode_turn cfg len d') (after t)
    unfolding write_block block_ref
    block_read =
        let sample : ℕ = item 0 block 0 in
        let coded =
          block-Coded cfg t.width len d' sample mapped (sample_lt t 0 t.one) facts.small
            (facts.size ∙ ap (λ b. if b then cfg.block_size - 1 else cfg.block_size) same_ref)
            option (subst (λ b. Fits option b mapped) same_ref fits) sel in
        let restored : restore cfg (reference_block cfg d'.blk_idx)
              (if reference_block cfg d'.blk_idx then sample else 0) d'.prev_sample mapped
            ≡ block =
          ap₂ (λ b p. restore cfg b (if b then sample else 0) p mapped) (sym same_ref)
            t.sync.prev_eq
          ∙ facts.restored in
        (
          coded.0,
          subst
              (λ b.
                Writes
                  (λ w. write_id (id_len cfg) option w >>= λ w'.
                    write_reference cfg.bits_per_sample (reference b sample) w'
                    >>= encode_data mapped cfg.bits_per_sample option)
                  coded.0)
              (sym same_ref) coded.1,
          subst (Reads (decode_turn cfg len d') coded.0) (ap (λ b. put_block cfg b d') restored)
              coded.2,
        )

    pub coded_step : StepFinish t mapped option
    unfolding add_coded_block
    coded_step =
        let e' : Encoding = after_block cfg blk block e in
        let rest' = t.behind e' (after t) (after t) 0 (Sync-after_block t) in
        let sets : Sets (add_coded_block cfg blk block mapped option e)
            (held_back.0 ++ block_read.0) e' =
          Writes-then-Sets (flush_pending cfg e) _ held_back.0 block_read.0 e' held_back.1
            (Writes-Sets (write_block cfg blk block mapped option) block_read.0 e' block_read.1) in
        let all : List ℕ = (held_back.0 ++ block_read.0) ++ rest'.0 in
        (
          all,
          Sets-then (add_block cfg blk (count == 0) block mapped option e) _
              (held_back.0 ++ block_read.0) rest'.0 e'
              (subst (λ f. Sets f (held_back.0 ++ block_read.0) e')
                (sym (coded_block cfg blk (count == 0) block mapped option e _ sel)) sets)
              rest'.1,
          subst (λ c. Decodes cfg len d (suc count + min 1 e.zero_run) c ((after t).out ++ rest))
              (sym (append_assoc held_back.0 block_read.0 rest'.0))
              (Decodes-weaken cfg len d (count + min 1 0 + 1 + min 1 e.zero_run)
                (suc count + min 1 e.zero_run) _ _ (omega arith)
                (held_back.2 (count + min 1 0 + 1) (block_read.0 ++ rest'.0) ((after t).out ++ rest)
                  (Decodes-turn cfg len d' (after t) (count + min 1 0) block_read.0 rest'.0 _
                    (room t) block_read.2 rest'.2))),
        )
