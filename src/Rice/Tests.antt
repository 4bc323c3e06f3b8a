-- ===== src/Rice/Tests.antt =====
-- The Rice coder's properties at concrete inputs, and a run of it.
use leo_dos.Prelude.{
  ℕ, ◌≡◌, refl, inl, true, false, List, [], ◌∷◌, ◌++◌, arith, length, take, replicate,
}
use leo_dos.Prelude.Arrays.{item}
use leo_dos.Rice.Config.{Config, Yields, done, id_len, validate, x_max}
use leo_dos.Rice.BitWriter.{
  new, or_at, advance, write_loop, write, zeros_loop, write_fs, bytes_written,
}
use leo_dos.Rice.Mapper.{
  as_u32, map_error, map_from, minus, plus, preprocess_block, reconstruct, unmap_error,
}
use leo_dos.Rice.Coding.{
  all_zero, better, cost_no_comp, cost_second_ext, cost_split, decode_second_ext_pair, gamma,
  pair_loop, pairs_total, select_option, split_total, with_second, with_splits,
}
use leo_dos.Rice.Encoder.{
  add_block, add_coded_block, add_zero_block, block_data, block_ref, compress, compress_blocks,
  compress_loop, encode_data, flush_pending, flush_zero_blocks, next_segment, reference_block,
  seg_size, select_block, start, write_block, write_each, write_id, write_low_bits, write_pairs,
  write_reference, zero_count,
}
use leo_dos.Rice.Decoder.{decompress}
use leo_dos.Rice.Mapped.{unmap_error-map_error}
use leo_dos.Rice.Pairs.{decode_second_ext_pair-gamma}
use leo_dos.Rice.Selection.{Selected, select_option-Selected}
use leo_dos.Rice.AllBlocks.{Valid}
use leo_dos.Rice.RoundTrip.{decompress-compress}

abbrev eight_bits : Config
eight_bits = record { bits_per_sample = 8; block_size = 8; ref_interval = 2; preprocessor = true }

eight_bits-Valid : Valid eight_bits
eight_bits-Valid = record {
  width = record { n_ge = omega arith; n_le = omega arith };
  sizes = inl refl;
  interval = omega arith;
}

-- A reference block, a block of zeros, a reference block of zeros, and a block of small errors.
abbrev ramp : List ℕ
ramp =
    0 ∷ 1 ∷ 3 ∷ 3 ∷ 4 ∷ 5 ∷ 200 ∷ 7 ∷ 7 ∷ 7 ∷ 7 ∷ 7 ∷ 7 ∷ 7 ∷ 7 ∷ 7 ∷ 7 ∷ 7 ∷ 7 ∷ 7 ∷ 7 ∷ 7 ∷ 7 ∷ 7
    ∷ 8 ∷ 8 ∷ 9 ∷ 8 ∷ 9 ∷ 8 ∷ 8 ∷ 8 ∷ []

decompress-compress_example :
    (need : ℕ) × ((output : List ℕ)
      → Yields
          (compress eight_bits ramp (output ++ replicate need 0))
          (λ p. decompress eight_bits (take p.0 p.1) (length ramp) ≡ done ramp))
decompress-compress_example =
    decompress-compress eight_bits eight_bits-Valid ramp (omega arith) (omega arith) (omega arith)

unmap_error-map_error_example : unmap_error (map_error (minus 200 60) 60 255) 60 255 ≡ minus 200 60
unmap_error-map_error_example = unmap_error-map_error 200 60 255 (omega arith) (omega arith)

decode_second_ext_pair-gamma_example : decode_second_ext_pair (gamma 3 5) ≡ (3, 5)
decode_second_ext_pair-gamma_example = decode_second_ext_pair-gamma 3 5 (omega arith)

abbrev small_values : List ℕ
small_values = 1 ∷ 0 ∷ 2 ∷ 1 ∷ 1 ∷ 0 ∷ 0 ∷ 0 ∷ []

small_values-not_zero : all_zero small_values ≡ false
unfolding all_zero
small_values-not_zero = refl

select_option-Selected_example : Selected 5 small_values (select_option small_values 8 3 5)
select_option-Selected_example =
    select_option-Selected 8 3 5 (omega arith) (omega arith) small_values (omega arith)
      (omega arith) small_values-not_zero

-- Of the 32 samples 13 bytes are left.
ramp_compressed :
    compress eight_bits ramp (replicate 16 9)
    ≡ done (13, 192 ∷ 31 ∷ 2 ∷ 2 ∷ 17 ∷ 128 ∷ 66 ∷ 70 ∷ 2 ∷ 0 ∷ 242 ∷ 101 ∷ 46 ∷ 9 ∷ 9 ∷ 9 ∷ [])
unfolding item id_len validate x_max new or_at advance write_loop write zeros_loop write_fs
    bytes_written minus plus as_u32 map_error unmap_error map_from preprocess_block reconstruct
    gamma split_total cost_split pairs_total cost_second_ext cost_no_comp all_zero better
    with_second with_splits select_option pair_loop decode_second_ext_pair reference_block seg_size
    write_each write_pairs write_low_bits encode_data write_reference zero_count flush_zero_blocks
    write_id block_data block_ref next_segment select_block add_zero_block flush_pending write_block
    add_coded_block add_block compress_loop start compress_blocks compress
ramp_compressed = refl
