-- ===== src/Rice/RoundTrip.antt =====
-- `decompress` on the output of `compress`
-- (crates/leodos-protocols/src/application/compression/rice.rs).
use mathlib.Core.Path.{subst}
use native.Mathlib.Nat.{div-add-mod', div-le_self}
use leo_dos.Prelude.{
  ℕ, suc, ◌+◌, ◌*◌, ◌/◌, ◌%◌, ◌^◌, ◌≤◌, ◌<◌, min, ◌≡◌, refl, ap, ◌∙◌, true, List, [], ◌∷◌, ◌++◌,
  arith, ◌==◌, if◌then◌else◌, ==_eq, ==_ne, length, take, replicate, All, length-append,
  length-replicate,
}
use leo_dos.Rice.Config.{Config, done, ◌>>=◌, Yields, Yields-bind}
use leo_dos.Rice.BitWriter.{BitWriter, bytes_written}
use leo_dos.Rice.BitWriter
use leo_dos.Rice.BitReader
use leo_dos.Rice.Encoder.{compress_loop, start, compress_blocks, compress}
use leo_dos.Rice.Decoder.{fresh, decompress_loop, decompress}
use leo_dos.Rice.BitLists.{bytes, pow_pos}
use leo_dos.Rice.Output.{new-Wrote, bytes-take}
use leo_dos.Rice.Ahead.{Ahead}
use leo_dos.Rice.Reads.{new-Ahead}
use leo_dos.Rice.ZeroRuns.{seg_size-Segment}
use leo_dos.Rice.Steps.{Decodes, Decodes-end, Decodes-weaken}
use leo_dos.Rice.Sync.{Sync, settled}
use leo_dos.Rice.BlockStep.{Finish}
use leo_dos.Rice.AllBlocks.{Valid, block_size-bounds, validate-Valid, loop-Finish}

module _ (cfg : Config) (valid : Valid cfg) where
  -- All blocks, from the start.
  blocks-Finish :
      (samples : List ℕ)
      → All (λ x. x < 2 ^ cfg.bits_per_sample) samples
      → length samples % cfg.block_size ≡ 0
      → length samples < 2 ^ 32
      → Finish cfg
          (length samples)
          (length samples / cfg.block_size)
          0
          samples
          (start cfg)
          (fresh cfg)
          samples
  unfolding start fresh
  blocks-Finish samples small whole fewer =
      let j : ℕ = cfg.block_size in
      let size : length samples ≡ length samples / j * j =
        omega (arith, div-add-mod' (length samples) j, whole) in
      let few : length samples / j ≤ length samples = div-le_self (length samples) j in
      let s : Sync cfg (length samples) 0 (length samples / j) (start cfg) (fresh cfg) (fresh cfg)
          0 =
        settled cfg (length samples) 0 (length samples / j) (start cfg) (fresh cfg) refl refl
          (pow_pos cfg.bits_per_sample) refl (seg_size-Segment cfg 0 (omega arith))
          (omega (arith, size)) refl in
      loop-Finish cfg valid (length samples) (length samples / j) 0 samples (start cfg) (fresh cfg)
        (fresh cfg) 0 s size small (omega (arith, few, fewer))

  room_at : (need : ℕ) (output : List ℕ) → 0 + need ≤ 8 * length (output ++ replicate need 0)
  room_at need output =
      let byte : ℕ = 0 in
      omega (arith, length-append output (replicate need byte), length-replicate need byte)

  decompress-blocks :
      (samples input pad code : List ℕ)
      → length samples / cfg.block_size ≤ length samples
      → bytes input ≡ code ++ pad
      → Decodes cfg
          (length samples)
          (fresh cfg)
          (length samples / cfg.block_size + min 1 0)
          code
          samples
      → decompress cfg input (length samples) ≡ done samples
  unfolding decompress
  decompress-blocks samples input pad code few e p =
      ap
        (λ o. o >>= λ t.
          decompress_loop (8 * length input + length samples + 1) cfg (length samples) (fresh cfg)
            (BitReader.new input))
        (validate-Valid cfg valid)
      ∙ p (length input) (BitReader.new input) pad (8 * length input + length samples + 1)
          (subst (Ahead (length input) (BitReader.new input)) e (new-Ahead input))
          (omega (arith, few))

  compress_blocks-decompress :
      (samples : List ℕ)
      → All (λ x. x < 2 ^ cfg.bits_per_sample) samples
      → length samples % cfg.block_size ≡ 0
      → length samples < 2 ^ 32
      → (need : ℕ) × ((output : List ℕ)
          → Yields
              (compress_blocks cfg samples (output ++ replicate need 0))
              (λ p. decompress cfg (take p.0 p.1) (length samples) ≡ done samples))
  unfolding compress_blocks start
  compress_blocks-decompress samples small whole fewer =
      let f = blocks-Finish samples small whole fewer in
      let need : ℕ = length f.0 in
      let exact : (length samples % cfg.block_size == 0) ≡ true = ==_eq _ _ whole in
      let few : length samples / cfg.block_size ≤ length samples =
        div-le_self (length samples) cfg.block_size in
      (
        need,
        λ output.
            let buffer : List ℕ = output ++ replicate need 0 in
            rw exact (
              Yields-bind _ _
                (compress_loop cfg (length samples / cfg.block_size) 0 samples (start cfg)
                  (BitWriter.new buffer))
                (λ w. done (bytes_written w, w.buf))
                (f.1 (length buffer) (BitWriter.new buffer) [] (new-Wrote buffer)
                  (room_at need output))
                (λ w k.
                  let cut =
                    bytes-take (length buffer) w f.0 k (omega (arith, room_at need output)) in
                  decompress-blocks samples (take (bytes_written w) w.buf) cut.0 f.0 few cut.1
                    f.2)),
      )

  no_samples : decompress cfg [] 0 ≡ done []
  unfolding fresh bytes
  no_samples = decompress-blocks [] [] [] [] (div-le_self 0 cfg.block_size) refl (
      Decodes-weaken cfg 0 (fresh cfg) 0 (0 / cfg.block_size + min 1 0) [] [] (omega arith)
        (Decodes-end cfg 0 (fresh cfg) (omega (arith, (block_size-bounds cfg valid).0))))

  -- For samples of n bits, 3 ≤ n ≤ 28, fewer than 2 ^ 32 and in whole blocks of 8, 16, 32 or 64,
  -- with an interval of at most 4096: there is a number of bytes such that on every output that
  -- ends in so many zeros `compress` succeeds, and from the bytes that it reports `decompress`,
  -- with an output as long as the samples, restores the samples.
  pub decompress-compress :
      (samples : List ℕ)
      → All (λ x. x < 2 ^ cfg.bits_per_sample) samples
      → length samples % cfg.block_size ≡ 0
      → length samples < 2 ^ 32
      → (need : ℕ) × ((output : List ℕ)
          → Yields
              (compress cfg samples (output ++ replicate need 0))
              (λ p. decompress cfg (take p.0 p.1) (length samples) ≡ done samples))
  unfolding compress
  decompress-compress samples small whole fewer =
      let h = compress_blocks-decompress samples small whole fewer in
      (h.0, λ output. rw (validate-Valid cfg valid) (by_length samples output h.0 (h.1 output)))
    where
      by_length :
          (samples output : List ℕ) (need : ℕ)
          → Yields
              (compress_blocks cfg samples (output ++ replicate need 0))
              (λ p. decompress cfg (take p.0 p.1) (length samples) ≡ done samples)
          → Yields
              (if length samples == 0
                then done (0, output ++ replicate need 0)
                else compress_blocks cfg samples (output ++ replicate need 0))
              (λ p. decompress cfg (take p.0 p.1) (length samples) ≡ done samples)
      by_length [] output need h = no_samples
      by_length (x ∷ xs) output need h = rw (==_ne (suc (length xs)) 0 (λ e. omega (arith, e))) h
