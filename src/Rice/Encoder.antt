-- ===== src/Rice/Encoder.antt =====
-- `compress` of crates/leodos-protocols/src/application/compression/rice.rs, its parts first.
use leo_dos.Prelude.{
  ℕ, zero, suc, ◌+◌, ◌-◌, ◌/◌, ◌%◌, ◌^◌, min, Bool, false, ◌&&◌, ◌||◌, not, Option, none, some,
  List, [], ◌∷◌, ltb, leb, ◌==◌, if◌then◌else◌, length, take, drop,
}
use leo_dos.Prelude.Arrays.{item}
use leo_dos.Rice.Config.{
  Config, Outcome, invalid_config, done, failed, panicked, ◌>>=◌, id_len, validate, x_max,
}
use leo_dos.Rice.BitWriter.{BitWriter, new, write, write_fs, bytes_written}
use leo_dos.Rice.Mapper.{preprocess_block}
use leo_dos.Rice.Coding.{
  CodingOption, zero_block, second_extension, split, no_compression, gamma, select_option,
}

-- `is_ref`
unfoldable pub reference_block : Config → ℕ → Bool
reference_block cfg blk =
    cfg.preprocessor && (ltb 0 cfg.ref_interval && (blk % cfg.ref_interval == 0))

unfoldable pub seg_size : Config → ℕ → ℕ
seg_size cfg block_idx =
    if cfg.ref_interval == 0
    then 64
    else min (cfg.ref_interval - block_idx % 2 ^ 32 % cfg.ref_interval) 64

-- One call of the writer for each value.
unfoldable pub write_each :
    (ℕ → BitWriter → Outcome BitWriter) → List ℕ → BitWriter → Outcome BitWriter
write_each f [] w = done w
write_each f (d ∷ ds) w = do w' ← f d w; write_each f ds w'

unfoldable pub write_pairs : List ℕ → BitWriter → Outcome BitWriter
write_pairs [] w = done w
write_pairs (d1 ∷ []) w = write_fs (gamma d1 0) w
write_pairs (d1 ∷ d2 ∷ ds) w = do w' ← write_fs (gamma d1 d2) w; write_pairs ds w'

-- The low bits of all values, `if k > 0`.
unfoldable pub write_low_bits : ℕ → List ℕ → BitWriter → Outcome BitWriter
write_low_bits zero mapped w = done w
write_low_bits (suc k) mapped w = write_each (λ d. write (d % 2 ^ suc k) (suc k)) mapped w

unfoldable pub encode_data : List ℕ → ℕ → CodingOption → BitWriter → Outcome BitWriter
encode_data mapped n (split k) w = do
  w' ← write_each (λ d. write_fs (d / 2 ^ k)) mapped w
  write_low_bits k mapped w'
encode_data mapped n second_extension w = write_pairs mapped w
encode_data mapped n no_compression w = write_each (λ d. write d n) mapped w
encode_data mapped n zero_block w = done w

unfoldable pub write_reference : ℕ → Option ℕ → BitWriter → Outcome BitWriter
write_reference n none w = done w
write_reference n (some r) w = write r n w

-- The number of zeros that stands for a run of zero blocks.
unfoldable pub zero_count : ℕ → Bool → ℕ
zero_count count use_ros =
    if use_ros && leb 5 count then 4 else if leb count 4 then count - 1 else count

unfoldable pub flush_zero_blocks : ℕ → ℕ → Option ℕ → ℕ → Bool → BitWriter → Outcome BitWriter
flush_zero_blocks id_len n ref_sample count use_ros w = do
  w1 ← write 0 (id_len + 1) w
  w2 ← write_reference n ref_sample w1
  write_fs (zero_count count use_ros) w2

unfoldable pub write_id : ℕ → CodingOption → BitWriter → Outcome BitWriter
write_id id_len second_extension w = write 1 (id_len + 1) w
write_id id_len (split k) w = write (k + 1) id_len w
write_id id_len no_compression w = write (2 ^ id_len - 1) id_len w
write_id id_len zero_block w = panicked

-- The variables of the loop of `compress`, but for the writer.
pub record Encoding : Type 0 where
  pub prev_sample : ℕ
  pub zero_run : ℕ
  pub zero_ref : Option ℕ
  pub seg_remaining : ℕ

unfoldable pub block_data : Config → ℕ → ℕ → List ℕ → List ℕ
block_data cfg blk prev block =
    if cfg.preprocessor
    then preprocess_block block (reference_block cfg blk) prev (x_max cfg)
    else block

unfoldable pub block_ref : Config → ℕ → List ℕ → Option ℕ
block_ref cfg blk block = if reference_block cfg blk then some (item 0 block 0) else none

unfoldable pub next_segment : Config → ℕ → ℕ → ℕ
next_segment cfg blk seg = if seg == 0 then seg_size cfg (blk + 1) else seg

unfoldable pub select_block : Config → List ℕ → CodingOption
select_block cfg mapped =
    let n = cfg.bits_per_sample in
    select_option mapped n (id_len cfg) (min (2 ^ id_len cfg - 3) (n - 2))

-- The variables after a block with no run held back.
abbrev pub after_block : Config → ℕ → List ℕ → Encoding → Encoding
after_block cfg blk block e = record {
  prev_sample = item 0 block (cfg.block_size - 1);
  zero_run = 0;
  zero_ref = none;
  seg_remaining = next_segment cfg blk (e.seg_remaining - 1);
}

-- The variables after a zero block that does not end its run.
abbrev pub after_zero : Config → ℕ → List ℕ → Encoding → Encoding
after_zero cfg blk block e = record {
  prev_sample = item 0 block (cfg.block_size - 1);
  zero_run = e.zero_run + 1;
  zero_ref = if e.zero_run == 0 then block_ref cfg blk block else e.zero_ref;
  seg_remaining = e.seg_remaining - 1;
}

-- The branch of a zero block. `last` tells whether it is the last block of the input.
unfoldable pub add_zero_block :
    Config → ℕ → Bool → List ℕ → Encoding → BitWriter → Outcome (Encoding × BitWriter)
add_zero_block cfg blk last block e w =
    let held : Encoding = after_zero cfg blk block e in
    let at_seg_end : Bool = held.seg_remaining == 0 in
    if at_seg_end || last
    then (flush_zero_blocks (id_len cfg) cfg.bits_per_sample held.zero_ref held.zero_run
          (at_seg_end && leb 5 held.zero_run) w
        >>= λ w'. done (after_block cfg blk block e, w'))
    else done (held, w)

unfoldable pub flush_pending : Config → Encoding → BitWriter → Outcome BitWriter
flush_pending cfg e w =
    if ltb 0 e.zero_run
    then flush_zero_blocks (id_len cfg) cfg.bits_per_sample e.zero_ref e.zero_run false w
    else done w

-- A block of another option than zero blocks: identifier, reference sample and data.
unfoldable pub write_block :
    Config → ℕ → List ℕ → List ℕ → CodingOption → BitWriter → Outcome BitWriter
write_block cfg blk block mapped option w = do
  w' ← write_id (id_len cfg) option w
  w'' ← write_reference cfg.bits_per_sample (block_ref cfg blk block) w'
  encode_data mapped cfg.bits_per_sample option w''

-- The rest of the loop's body, for such a block.
unfoldable pub add_coded_block :
    Config
    → ℕ
    → List ℕ
    → List ℕ
    → CodingOption
    → Encoding
    → BitWriter
    → Outcome (Encoding × BitWriter)
add_coded_block cfg blk block mapped option e w = do
  w' ← flush_pending cfg e w
  w'' ← write_block cfg blk block mapped option w'
  done (after_block cfg blk block e, w'')

unfoldable pub add_block :
    Config
    → ℕ
    → Bool
    → List ℕ
    → List ℕ
    → CodingOption
    → Encoding
    → BitWriter
    → Outcome (Encoding × BitWriter)
add_block cfg blk last block mapped zero_block e w = add_zero_block cfg blk last block e w
add_block cfg blk last block mapped option e w = add_coded_block cfg blk block mapped option e w

-- The loop of `compress`, with `count` blocks left, which are at the front of `samples`.
unfoldable pub compress_loop : Config → ℕ → ℕ → List ℕ → Encoding → BitWriter → Outcome BitWriter
compress_loop cfg zero blk samples e w = done w
compress_loop cfg (suc count) blk samples e w =
    let block : List ℕ = take cfg.block_size samples in
    let mapped : List ℕ = block_data cfg blk e.prev_sample block in
    do
      (e', w') ← add_block cfg blk (count == 0) block mapped (select_block cfg mapped) e w
      compress_loop cfg count (blk + 1) (drop cfg.block_size samples) e' w'

unfoldable pub start : Config → Encoding
start cfg = record {
  prev_sample = 0;
  zero_run = 0;
  zero_ref = none;
  seg_remaining = seg_size cfg 0;
}

-- A result is the number of bytes, and the output.
-- The call for samples that are not empty, in `output`.
unfoldable pub compress_blocks : Config → List ℕ → List ℕ → Outcome (ℕ × List ℕ)
compress_blocks cfg samples output =
    if not (length samples % cfg.block_size == 0)
    then failed invalid_config
    else (compress_loop cfg (length samples / cfg.block_size) 0 samples (start cfg) (new output)
        >>= λ w. done (bytes_written w, w.buf))

unfoldable pub compress : Config → List ℕ → List ℕ → Outcome (ℕ × List ℕ)
compress cfg samples output = validate cfg >>= λ valid.
    if length samples == 0 then done (0, output) else compress_blocks cfg samples output
