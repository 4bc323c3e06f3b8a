-- ===== src/Rice/BlockStep.antt =====
-- A block through `compress` and `decompress`, with the blocks behind it
-- (crates/leodos-protocols/src/application/compression/rice.rs).
use leo_dos.Prelude.Arrays.{item}
use leo_dos.Prelude.{
  ℕ, zero, suc, ◌+◌, ◌-◌, ◌*◌, ◌^◌, ◌≤◌, ◌<◌, min, ◌≡◌, refl, ap, ap₂, List, [], ◌∷◌, ◌++◌, arith,
  ◌==◌, if◌then◌else◌, length, All, length-append,
}
use leo_dos.Rice.Config.{Config, Outcome, ◌>>=◌}
use leo_dos.Rice.BitWriter.{BitWriter}
use leo_dos.Rice.Coding.{CodingOption}
use leo_dos.Rice.Encoder.{Encoding, seg_size, next_segment, after_block, add_block, compress_loop}
use leo_dos.Rice.Decoder.{Decoding, put_block}
use leo_dos.Rice.Writes.{Writes}
use leo_dos.Rice.Cds.{Width}
use leo_dos.Rice.ZeroRuns.{next_segment-Segment}
use leo_dos.Rice.Steps.{Decodes}
use leo_dos.Rice.Sync.{Sync, settled}

-- The rest of the input is encoded, and decoded from `d` on.
abbrev pub Finish : Config → ℕ → ℕ → ℕ → List ℕ → Encoding → Decoding → List ℕ → Type 0
Finish cfg len count blk samples e d target =
    (code : List ℕ) × Writes (compress_loop cfg count blk samples e) code
    × Decodes cfg len d (count + min 1 e.zero_run) code target

item-lt :
    (n : ℕ) (xs : List ℕ) (i : ℕ) → i < length xs → All (λ x. x < 2 ^ n) xs → item 0 xs i < 2 ^ n
unfolding item
item-lt n [] i h l = absurd (omega arith)
item-lt n (x ∷ xs) zero h l = l.0
item-lt n (x ∷ xs) (suc i) h l = item-lt n xs i (omega arith) l.1

-- Where the encoder stands before a block, and how the blocks behind it are done.
pub record AtBlock (cfg : Config) (len blk count : ℕ) (e : Encoding) (d d' : Decoding) (v : ℕ)
    (block rest : List ℕ) : Type 0 where
  pub width : Width cfg
  pub sync : Sync cfg len blk (suc count) e d d' v
  pub fewer : blk + 1 < 2 ^ 32
  pub size : length block ≡ cfg.block_size
  pub one : 1 ≤ cfg.block_size
  pub samples_lt : All (λ x. x < 2 ^ cfg.bits_per_sample) block
  pub behind :
      (e1 : Encoding) (d1 d1' : Decoding) (v1 : ℕ)
      → Sync cfg len (blk + 1) count e1 d1 d1' v1
      → Finish cfg len count (blk + 1) rest e1 d1 (d1'.out ++ rest)

module _ {cfg : Config} {len blk count : ℕ} {e : Encoding} {d d' : Decoding} {v : ℕ}
    {block rest : List ℕ} (t : AtBlock cfg len blk count e d d' v block rest) where
  abbrev pub after : Decoding
  after = put_block cfg block d'

  pub room : length d'.out + cfg.block_size ≤ len
  room = omega (arith, t.sync.out_eq)

  pub out_after : length after.out + count * cfg.block_size ≡ len
  unfolding put_block
  out_after = omega (arith, t.sync.out_eq, length-append d'.out block, t.size)

  pub segment_after : after.seg_remaining ≡ next_segment cfg blk (e.seg_remaining - 1)
  unfolding put_block next_segment
  segment_after =
      ap₂ (λ seg b. if seg - 1 == 0 then seg_size cfg (b + 1) else seg - 1) t.sync.seg_eq
        t.sync.blk_eq

  pub sample_lt : (i : ℕ) → i < cfg.block_size → item 0 block i < 2 ^ cfg.bits_per_sample
  sample_lt i h = item-lt cfg.bits_per_sample block i (omega (arith, t.size, h)) t.samples_lt

  -- After a block with no run held back.
  pub Sync-after_block : Sync cfg len (blk + 1) count (after_block cfg blk block e) after after 0
  unfolding put_block
  Sync-after_block =
      settled cfg len (blk + 1) count (after_block cfg blk block e) after
        (ap (λ b. b + 1) t.sync.blk_eq) refl (sample_lt (cfg.block_size - 1) (omega arith))
        segment_after (next_segment-Segment cfg blk e.seg_remaining t.fewer t.sync.segment)
        out_after refl

  -- The body of the loop with the rest of the loop behind it.
  abbrev pub step : List ℕ → CodingOption → BitWriter → Outcome BitWriter
  step mapped option w = add_block cfg blk (count == 0) block mapped option e w >>= λ p.
      compress_loop cfg count (blk + 1) rest p.0 p.1

  abbrev pub StepFinish : List ℕ → CodingOption → Type 0
  StepFinish mapped option =
      (code : List ℕ) × Writes (step mapped option) code
      × Decodes cfg len d (suc count + min 1 e.zero_run) code (after.out ++ rest)
