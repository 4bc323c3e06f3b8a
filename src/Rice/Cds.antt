-- ===== src/Rice/Cds.antt =====
-- The coded data sets of a block and of a run of zero blocks, between `compress` and a turn of
-- `decompress` (crates/leodos-protocols/src/application/compression/rice.rs).
use mathlib.Core.Path.{subst}
use native.Mathlib.Nat.{pow-le-pow_right}
use leo_dos.Prelude.{
  ℕ, ◌+◌, ◌-◌, ◌/◌, ◌%◌, ◌^◌, ◌≤◌, ◌<◌, min, ◌≡◌, refl, sym, ap, ◌∙◌, Bool, true, false, Option,
  none, some, List, [], ◌++◌, arith, ◌==◌, if◌then◌else◌, ==_eq, ==_ne, length, All,
}
use leo_dos.Rice.Config.{Config, done, ◌>>=◌, id_len}
use leo_dos.Rice.BitWriter.{write, write_fs}
use leo_dos.Rice.BitReader.{BitReader, read, read_fs}
use leo_dos.Rice.Coding.{CodingOption, zero_block, second_extension, split, no_compression}
use leo_dos.Rice.Encoder.{
  reference_block, write_reference, write_id, zero_count, flush_zero_blocks, encode_data,
}
use leo_dos.Rice.Decoder.{
  read_reference, read_data, decode_id, decode_turn, decode_single_block, decode_zero_blocks,
  decode_zero_count, zero_blocks, put_block, restore, Decoding,
}
use leo_dos.Rice.BitLists.{bits, bits-cut, append_assoc, pow_pos}
use leo_dos.Rice.Writes.{Writes-bind, done-Writes, write-Writes, write_fs-Writes, fs_bits}
use leo_dos.Rice.Reads.{Reads, Reads-bind, done-Reads, Reads-then, read-Reads, read_fs-Reads}
use leo_dos.Rice.Selection.{Selected}
use leo_dos.Rice.DataRoundTrip.{Coded, Fits, data-Coded}

-- The widths of samples for which the identifiers of the options are different.
pub record Width (cfg : Config) : Type 0 where
  pub n_ge : 3 ≤ cfg.bits_per_sample
  pub n_le : cfg.bits_per_sample ≤ 28

-- The bits of the identifier.
pub id_len-bounds : (cfg : Config) → Width cfg → (2 ≤ id_len cfg) × (id_len cfg ≤ 5)
unfolding id_len
id_len-bounds cfg width = ground (arith, width.n_ge, width.n_le)

-- The zeros that stand for a run give its length back.
pub decode_zero_count-zero_count :
    (count seg : ℕ) (use_ros : Bool)
    → 1 ≤ count
    → count < 2 ^ 32
    → (use_ros ≡ true → seg ≡ count)
    → decode_zero_count (zero_count count use_ros) seg ≡ count
unfolding decode_zero_count zero_count
decode_zero_count-zero_count count seg true h l e = ground (arith, e refl)
decode_zero_count-zero_count count seg false h l e = ground arith

-- The reference sample of a block, if it has one.
abbrev pub reference : Bool → ℕ → Option ℕ
reference is_ref v = if is_ref then some v else none

reference-Coded :
    (n : ℕ) (is_ref : Bool) (v : ℕ)
    → n ≤ 32
    → v < 2 ^ n
    → Coded
        (write_reference n (reference is_ref v))
        (read_reference n is_ref)
        (if is_ref then v else 0)
unfolding write_reference read_reference
reference-Coded n true v l b =
    let bound : 2 ^ n ≤ 2 ^ 32 = pow-le-pow_right (omega arith) l in
    let same : v % 2 ^ 32 ≡ v = omega (arith, b, bound) in
    (
      bits n v,
      write-Writes v n,
      Reads-then (read n) _ (bits n v) v v (read-Reads n v b (omega arith))
          (subst (Reads (λ r. done (v % 2 ^ 32, r)) []) same (done-Reads _)),
    )
reference-Coded n false v l b = ([], done-Writes, done-Reads 0)

module _ (cfg : Config) (width : Width cfg) (len : ℕ) (d : Decoding) where
  abbrev pub is_ref : Bool
  is_ref = reference_block cfg d.blk_idx

  -- The identifiers with a bit behind them.
  zero_id :
      (b : ℕ) (a : Decoding) (code : List ℕ)
      → b < 2
      → Reads
          (λ r.
            if b == 0
            then decode_zero_blocks cfg len is_ref d r
            else decode_single_block cfg is_ref second_extension d r)
          code
          a
      → Reads (decode_turn cfg len d) (bits (id_len cfg + 1) b ++ code) a
  unfolding decode_turn decode_id
  zero_id b a code h p =
      let long : bits (id_len cfg + 1) b ≡ bits (id_len cfg) 0 ++ bits 1 b =
        bits-cut (id_len cfg) 1 b ∙ ap (λ q. bits (id_len cfg) q ++ bits 1 b) (half b h) in
      subst (λ c. Reads (decode_turn cfg len d) c a)
        (sym (append_assoc (bits (id_len cfg) 0) (bits 1 b) code) ∙ ap (λ c. c ++ code) (sym long))
        (Reads-bind (read (id_len cfg)) _ (bits (id_len cfg) 0) (bits 1 b ++ code) 0 a
          (read-Reads (id_len cfg) 0 (pow_pos (id_len cfg))
            (omega (arith, (id_len-bounds cfg width).1)))
          (Reads-bind (read 1) _ (bits 1 b) code b a (read-Reads 1 b (omega arith) (omega arith))
            p))
    where
      half : (b : ℕ) → b < 2 → b / 2 ^ 1 ≡ 0
      half b h = omega arith

  -- A run of zero blocks.
  pub zero_run-Coded :
      (count v : ℕ) (use_ros : Bool) (d' : Decoding)
      → 1 ≤ count
      → count < 2 ^ 32
      → v < 2 ^ cfg.bits_per_sample
      → (use_ros ≡ true → d.seg_remaining ≡ count)
      → zero_blocks cfg len count is_ref (if is_ref then v else 0) d ≡ done d'
      → Coded
          (flush_zero_blocks (id_len cfg) cfg.bits_per_sample (reference is_ref v) count use_ros)
          (decode_turn cfg len d)
          d'
  unfolding flush_zero_blocks decode_zero_blocks zero_count
  zero_run-Coded count v use_ros d' one small b ros run =
      let n : ℕ = cfg.bits_per_sample in
      let zeros : ℕ = zero_count count use_ros in
      let ref = reference-Coded n is_ref v (omega (arith, width.n_le)) b in
      let counted : decode_zero_count zeros d.seg_remaining ≡ count =
        decode_zero_count-zero_count count d.seg_remaining use_ros one small ros in
      (
        bits (id_len cfg + 1) 0 ++ (ref.0 ++ fs_bits zeros),
        Writes-bind (write 0 (id_len cfg + 1)) _ (bits (id_len cfg + 1) 0) (ref.0 ++ fs_bits zeros)
            (write-Writes 0 (id_len cfg + 1))
            (Writes-bind (write_reference n (reference is_ref v)) (write_fs zeros) ref.0
              (fs_bits zeros) ref.1 (write_fs-Writes zeros (zero_count_lt count use_ros small))),
        zero_id 0 d' (ref.0 ++ fs_bits zeros) (omega arith) (
            Reads-bind (read_reference n is_ref) _ ref.0 (fs_bits zeros) (if is_ref then v else 0)
              d' ref.2
              (Reads-then read_fs _ (fs_bits zeros) zeros d' (read_fs-Reads zeros) (λ limit r bs k.
                (
                  r,
                  ap
                        (λ c. zero_blocks cfg len c is_ref (if is_ref then v else 0) d >>= λ t.
                          done (t, r))
                        counted
                      ∙ ap (λ o. o >>= λ t. done (t, r)) run,
                  k,
                )))),
      )
    where
      zero_count_lt :
          (count : ℕ) (use_ros : Bool) → count < 2 ^ 32 → zero_count count use_ros < 2 ^ 32
      zero_count_lt count true h = ground arith
      zero_count_lt count false h = ground arith

  module _ (v : ℕ) (ds : List ℕ) (v_lt : v < 2 ^ cfg.bits_per_sample)
      (small : All (λ x. x < 2 ^ cfg.bits_per_sample) ds)
      (size : length ds ≡ (if is_ref then cfg.block_size - 1 else cfg.block_size)) where
    abbrev pub after_block : Decoding
    after_block = put_block cfg (restore cfg is_ref (if is_ref then v else 0) d.prev_sample ds) d

    -- What follows the identifier of a block.
    body-Coded :
        (option : CodingOption)
        → Fits option is_ref ds
        → Coded
            (λ w.
              write_reference cfg.bits_per_sample (reference is_ref v) w
              >>= encode_data ds cfg.bits_per_sample option)
            (decode_single_block cfg is_ref option d)
            after_block
    unfolding decode_single_block
    body-Coded option fits =
        let n : ℕ = cfg.bits_per_sample in
        let ref = reference-Coded n is_ref v (omega (arith, width.n_le)) v_lt in
        let body =
          data-Coded cfg.block_size n (omega (arith, width.n_le)) is_ref ds small option fits in
        let read_body : Reads
            (read_data cfg.block_size n is_ref
              (if is_ref then cfg.block_size - 1 else cfg.block_size) option)
            body.0 ds =
          subst (λ s. Reads (read_data cfg.block_size n is_ref s option) body.0 ds) size body.2 in
        (
          ref.0 ++ body.0,
          Writes-bind (write_reference n (reference is_ref v)) _ ref.0 body.0 ref.1 body.1,
          Reads-bind (read_reference n is_ref) _ ref.0 body.0 (if is_ref then v else 0) after_block
              ref.2
              (Reads-then (read_data cfg.block_size n is_ref _ option) _ body.0 ds after_block
                read_body (done-Reads after_block)),
        )

    -- The identifiers of `id_len` bits.
    short_id :
        (option : CodingOption) (id : ℕ)
        → Fits option is_ref ds
        → id < 2 ^ id_len cfg
        → ((r : BitReader)
            → decode_id cfg len is_ref id d r ≡ decode_single_block cfg is_ref option d r)
        → Coded
            (λ w. write id (id_len cfg) w >>= λ w'.
              write_reference cfg.bits_per_sample (reference is_ref v) w'
              >>= encode_data ds cfg.bits_per_sample option)
            (decode_turn cfg len d)
            after_block
    unfolding decode_turn
    short_id option id fits h same =
        let body = body-Coded option fits in
        (
          bits (id_len cfg) id ++ body.0,
          Writes-bind (write id (id_len cfg)) _ (bits (id_len cfg) id) body.0
              (write-Writes id (id_len cfg)) body.1,
          Reads-bind (read (id_len cfg)) _ (bits (id_len cfg) id) body.0 id after_block
              (read-Reads (id_len cfg) id h (omega (arith, (id_len-bounds cfg width).1)))
              (λ limit r bs k. let rest = body.2 limit r bs k in (rest.0, same r ∙ rest.1, rest.2)),
        )

    pub block-Coded :
        (option : CodingOption)
        → Fits option is_ref ds
        → Selected (min (2 ^ id_len cfg - 3) (cfg.bits_per_sample - 2)) ds option
        → Coded
            (λ w. write_id (id_len cfg) option w >>= λ w'.
              write_reference cfg.bits_per_sample (reference is_ref v) w'
              >>= encode_data ds cfg.bits_per_sample option)
            (decode_turn cfg len d)
            after_block
    unfolding write_id decode_id
    block-Coded zero_block fits sel = absurd fits
    block-Coded second_extension fits sel =
        let body = body-Coded second_extension fits in
        (
          bits (id_len cfg + 1) 1 ++ body.0,
          Writes-bind (write 1 (id_len cfg + 1)) _ (bits (id_len cfg + 1) 1) body.0
              (write-Writes 1 (id_len cfg + 1)) body.1,
          zero_id 1 after_block body.0 (omega arith) body.2,
        )
    block-Coded (split k) fits sel =
        let four : 2 ^ 2 ≤ 2 ^ id_len cfg =
          pow-le-pow_right (omega arith) (id_len-bounds cfg width).0 in
        let other : (k + 1 == 0) ≡ false = ground arith in
        let apart : (k + 1 == 2 ^ id_len cfg - 1) ≡ false =
          ==_ne _ _ (λ e. omega (arith, sel, four, e)) in
        let back : (k + 1) % 2 ^ 32 - 1 ≡ k = omega (arith, sel, width.n_le) in
        short_id (split k) (k + 1) fits (omega (arith, sel, four))
          (λ r. rw other (rw apart (ap (λ i. decode_single_block cfg is_ref (split i) d r) back)))
    block-Coded no_compression fits sel =
        let four : 2 ^ 2 ≤ 2 ^ id_len cfg =
          pow-le-pow_right (omega arith) (id_len-bounds cfg width).0 in
        let other : (2 ^ id_len cfg - 1 == 0) ≡ false = ==_ne _ _ (λ e. omega (arith, four, e)) in
        let same : (2 ^ id_len cfg - 1 == 2 ^ id_len cfg - 1) ≡ true = ==_eq _ _ refl in
        short_id no_compression (2 ^ id_len cfg - 1) fits (omega (arith, four))
          (λ r. rw other (rw same refl))
