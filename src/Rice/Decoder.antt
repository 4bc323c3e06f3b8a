-- ===== src/Rice/Decoder.antt =====
-- `decompress` of crates/leodos-protocols/src/application/compression/rice.rs, its parts first.
use leo_dos.Prelude.{
  ℕ, zero, suc, ◌+◌, ◌-◌, ◌*◌, ◌/◌, ◌%◌, ◌^◌, bit_or, Bool, true, false, ◌&&◌, List, [], ◌∷◌, ◌++◌,
  map, ltb, leb, ◌==◌, if◌then◌else◌, length, take, replicate,
}
use leo_dos.Prelude.Arrays.{item}
use leo_dos.Rice.Config.{Config, Outcome, done, panicked, ◌>>=◌, id_len, validate, x_max, max_j}
use leo_dos.Rice.BitReader.{BitReader, new, read, read_fs}
use leo_dos.Rice.Mapper.{reconstruct}
use leo_dos.Rice.Coding.{
  CodingOption, zero_block, second_extension, split, no_compression, decode_second_ext_pair,
}
use leo_dos.Rice.Encoder.{reference_block, seg_size}

-- One call of the reader for each of `count` values.
unfoldable pub read_each :
    (BitReader → Outcome (ℕ × BitReader)) → ℕ → BitReader → Outcome (List ℕ × BitReader)
read_each f zero r = done ([], r)
read_each f (suc count) r = do (d, r') ← f r; (ds, r'') ← read_each f count r'; done (d ∷ ds, r'')

-- `mapped[i] |= r.read(k)?`
unfoldable pub read_low_bits : ℕ → List ℕ → BitReader → Outcome (List ℕ × BitReader)
read_low_bits k [] r = done ([], r)
read_low_bits k (m ∷ ms) r = do
  (d, r') ← read k r
  (ds, r'') ← read_low_bits k ms r'
  done (bit_or m d ∷ ds, r'')

-- The low bits of all values, `if k > 0`.
unfoldable pub join_low_bits : ℕ → List ℕ → BitReader → Outcome (List ℕ × BitReader)
join_low_bits zero ms r = done (ms, r)
join_low_bits (suc k) ms r = read_low_bits (suc k) ms r

unfoldable pub read_shifted : ℕ → BitReader → Outcome (ℕ × BitReader)
read_shifted k r = do (m, r') ← read_fs r; done (m * 2 ^ k % 2 ^ 64, r')

unfoldable pub read_pairs : ℕ → BitReader → Outcome (List ℕ × BitReader)
read_pairs zero r = done ([], r)
read_pairs (suc count) r = do
  (g, r') ← read_fs r
  (ds, r'') ← read_pairs count r'
  done ((decode_second_ext_pair g).0 ∷ (decode_second_ext_pair g).1 ∷ ds, r'')

-- The second extension. The pairs of a reference block are stored one place further on, the last
-- of them beyond the array when the block has as many samples as the array.
unfoldable pub read_extension : ℕ → Bool → ℕ → BitReader → Outcome (List ℕ × BitReader)
read_extension j is_ref data_len r = do
  (ds, r') ← read_pairs (if is_ref then j / 2 else data_len / 2) r
  if is_ref && leb max_j j then panicked else done (take data_len ds, r')

unfoldable pub read_data :
    ℕ → ℕ → Bool → ℕ → CodingOption → BitReader → Outcome (List ℕ × BitReader)
read_data j n is_ref data_len (split k) r = do
  (ms, r') ← read_each (read_shifted k) data_len r
  join_low_bits k ms r'
read_data j n is_ref data_len second_extension r = read_extension j is_ref data_len r
read_data j n is_ref data_len no_compression r = read_each (read n) data_len r
read_data j n is_ref data_len zero_block r = panicked

unfoldable pub read_reference : ℕ → Bool → BitReader → Outcome (ℕ × BitReader)
read_reference n true r = do (v, r') ← read n r; done (v % 2 ^ 32, r')
read_reference n false r = done (0, r)

-- The variables of the loop of `decompress`, but for the reader. `out` is the output up to
-- `out_pos`.
pub record Decoding : Type 0 where
  pub out : List ℕ
  pub blk_idx : ℕ
  pub prev_sample : ℕ
  pub seg_remaining : ℕ

-- A block is done.
unfoldable pub put_block : Config → List ℕ → Decoding → Decoding
put_block cfg block d = record {
  out = d.out ++ block;
  blk_idx = d.blk_idx + 1;
  prev_sample = item 0 block (cfg.block_size - 1);
  seg_remaining =
      if d.seg_remaining - 1 == 0 then seg_size cfg (d.blk_idx + 1) else d.seg_remaining - 1;
}

-- The samples of a block of other than zero blocks.
unfoldable pub restore : Config → Bool → ℕ → ℕ → List ℕ → List ℕ
restore cfg is_ref ref_val prev ds =
    if cfg.preprocessor
    then (if is_ref
        then ref_val ∷ reconstruct (x_max cfg) ref_val ds
        else reconstruct (x_max cfg) prev ds)
    else (if is_ref then ref_val ∷ map (λ d. d % 2 ^ 32) ds else map (λ d. d % 2 ^ 32) ds)

unfoldable pub decode_single_block :
    Config → Bool → CodingOption → Decoding → BitReader → Outcome (Decoding × BitReader)
decode_single_block cfg is_ref option d r = do
  (ref_val, r1) ← read_reference cfg.bits_per_sample is_ref r
  (ds, r2) ←
      read_data cfg.block_size cfg.bits_per_sample is_ref
        (if is_ref then cfg.block_size - 1 else cfg.block_size) option r1
  done (put_block cfg (restore cfg is_ref ref_val d.prev_sample ds) d, r2)

unfoldable pub decode_zero_count : ℕ → ℕ → ℕ
decode_zero_count fs_val seg_remaining =
    if leb fs_val 3 then fs_val + 1 else if fs_val == 4 then seg_remaining else fs_val % 2 ^ 32

-- The samples of a zero block.
unfoldable pub zero_samples : Config → Bool → ℕ → ℕ → List ℕ
zero_samples cfg this_ref ref_val prev =
    let first = if this_ref then ref_val else if cfg.preprocessor then prev else 0 in
    first ∷ replicate (cfg.block_size - 1) (if cfg.preprocessor then first else 0)

-- The loop over the zero blocks of a run, of which only the first may be a reference block. It
-- panics when the output, of `len` samples, is full.
unfoldable pub zero_blocks : Config → ℕ → ℕ → Bool → ℕ → Decoding → Outcome Decoding
zero_blocks cfg len zero this_ref ref_val d = done d
zero_blocks cfg len (suc count) this_ref ref_val d =
    elim (ltb len (length d.out + cfg.block_size)) [
      | true ↦ panicked
      | false ↦
          zero_blocks cfg len count false ref_val
            (put_block cfg (zero_samples cfg this_ref ref_val d.prev_sample) d)
    ]

unfoldable pub decode_zero_blocks :
    Config → ℕ → Bool → Decoding → BitReader → Outcome (Decoding × BitReader)
decode_zero_blocks cfg len is_ref d r = do
  (ref_val, r1) ← read_reference cfg.bits_per_sample is_ref r
  (fs_val, r2) ← read_fs r1
  d' ← zero_blocks cfg len (decode_zero_count fs_val d.seg_remaining) is_ref ref_val d
  done (d', r2)

-- What the body of the loop does with the identifier.
unfoldable pub decode_id :
    Config → ℕ → Bool → ℕ → Decoding → BitReader → Outcome (Decoding × BitReader)
decode_id cfg len is_ref id_val d r =
    if id_val == 0
    then (read 1 r >>= λ extra.
        if extra.0 == 0
        then decode_zero_blocks cfg len is_ref d extra.1
        else decode_single_block cfg is_ref second_extension d extra.1)
    else if id_val == 2 ^ id_len cfg - 1
    then decode_single_block cfg is_ref no_compression d r
    else decode_single_block cfg is_ref (split (id_val % 2 ^ 32 - 1)) d r

unfoldable pub decode_turn : Config → ℕ → Decoding → BitReader → Outcome (Decoding × BitReader)
decode_turn cfg len d r = do
  (id_val, r') ← read (id_len cfg) r
  decode_id cfg len (reference_block cfg d.blk_idx) id_val d r'

-- A turn reads one bit at least, so that the bits of the input are enough fuel.
unfoldable pub decompress_loop : ℕ → Config → ℕ → Decoding → BitReader → Outcome (List ℕ)
decompress_loop zero cfg len d r = done d.out
decompress_loop (suc fuel) cfg len d r = elim (leb (length d.out + cfg.block_size) len) [
  | true ↦ decode_turn cfg len d r >>= λ next. decompress_loop fuel cfg len next.0 next.1
  | false ↦ done d.out
]

unfoldable pub fresh : Config → Decoding
fresh cfg = record { out = []; blk_idx = 0; prev_sample = 0; seg_remaining = seg_size cfg 0 }

-- The samples that are written at the front of an output of `len` samples.
unfoldable pub decompress : Config → List ℕ → ℕ → Outcome (List ℕ)
decompress cfg input len = do
  valid ← validate cfg
  decompress_loop (8 * length input + len + 1) cfg len (fresh cfg) (new input)
