-- ===== src/Srspp/Receiver/SlotMap.antt =====
-- The slots of equal size
-- (crates/leodos-protocols/src/transport/srspp/machine/receiver/utils/slotmap.rs).
use leo_dos.Prelude.{
  ℕ, suc, ◌+◌, ◌-◌, ◌*◌, ◌%◌, ◌^◌, ◌≤◌, ◌<◌, ◌≡◌, sym, ap, ◌∙◌, ◌≢◌, inl, inr, List, arith, ltb,
  ◌==◌, ==_iff, Bool-cases, length, set, replicate, length-set, slice, copy_at,
}
use leo_dos.Prelude.Arrays.{item, item-set_same, item-set_other}
use leo_dos.Prelude.Slices.{
  slice-copy_at_self, slice-copy_at_before, slice-copy_at_after, length-copy_at,
}

pub record SlotMap : Type 0 where
  pub data_buf : List ℕ  -- `data`
  pub lens : List ℕ

unfoldable pub new : ℕ → ℕ → SlotMap
new total n = record { data_buf = replicate total 0; lens = replicate n 0 }

-- `write`, where a slot has `size` bytes. A length is a `u16`.
unfoldable pub write : ℕ → SlotMap → ℕ → List ℕ → SlotMap
write size m i payload = record {
  data_buf = copy_at m.data_buf (i * size) payload;
  lens = set m.lens i (length payload % 2 ^ 16);
}

-- The bytes that `read` copies.
unfoldable pub read : ℕ → SlotMap → ℕ → List ℕ
unfolding item
read size m i = slice m.data_buf (i * size) (item 0 m.lens i)

-- `n` slots, which fit.
pub record Sized (size n : ℕ) (m : SlotMap) : Type 0 where
  pub bytes : length m.data_buf ≡ n * size
  pub count : length m.lens ≡ n
  pub small : size < 2 ^ 16
  pub fit : (i : ℕ) → i < n → item 0 m.lens i ≤ size

pub slot_end : (i n size : ℕ) → i < n → i * size + size ≤ n * size
slot_end i n size h = let (k, e) = gap i n h in rw e (omega arith)
  where
    gap : (i n : ℕ) → i < n → (k : ℕ) × (n ≡ suc i + k)
    gap i n h = (n - suc i, omega arith)

module _ (size n : ℕ) (m : SlotMap) (z : Sized size n m) (i : ℕ) (h : i < n) (payload : List ℕ)
    (fits : length payload ≤ size) where
  room : i * size + length payload ≤ length m.data_buf
  room = omega (arith, slot_end i n size h, z.bytes, fits)

  short : length payload % 2 ^ 16 ≡ length payload
  short = omega (arith, fits, z.small)

  pub read-write_same : read size (write size m i payload) i ≡ payload
  unfolding read write
  read-write_same =
      let len : item 0 (set m.lens i (length payload % 2 ^ 16)) i ≡ length payload =
        item-set_same 0 m.lens i (length payload % 2 ^ 16) (omega (arith, z.count, h)) ∙ short in
      ap (slice (copy_at m.data_buf (i * size) payload) (i * size)) len
      ∙ slice-copy_at_self m.data_buf (i * size) payload room

  pub read-write_other :
      (j : ℕ) → j < n → i ≢ j → read size (write size m i payload) j ≡ read size m j
  unfolding read write
  read-write_other j k d =
      let same = item-set_other 0 m.lens i j (length payload % 2 ^ 16) d in
      ap (slice (copy_at m.data_buf (i * size) payload) (j * size)) same
      ∙ elim (Bool-cases (ltb i j)) [
        | inl e ↦
            slice-copy_at_after m.data_buf (i * size) payload (j * size) (item 0 m.lens j)
              (omega (arith, slot_end i j size (ground arith), fits)) (omega (arith, room))
        | inr e ↦
            slice-copy_at_before m.data_buf (i * size) payload (j * size) (item 0 m.lens j)
              (omega (arith, slot_end j i size (ground arith), z.fit j k)) (omega (arith, room))
      ]

  pub write-Sized : Sized size n (write size m i payload)
  unfolding write
  write-Sized = record {
    bytes = length-copy_at m.data_buf (i * size) payload ∙ z.bytes;
    count = length-set m.lens i (length payload % 2 ^ 16) ∙ z.count;
    small = z.small;
    fit = λ j k. elim (Bool-cases (i == j)) [
      | inl e ↦
          let same =
            item-set_same 0 m.lens i (length payload % 2 ^ 16) (omega (arith, z.count, h)) in
          rw (sym ((==_iff i j).0 e), same) (omega (arith, short, fits))
      | inr e ↦
          rw (item-set_other 0 m.lens i j (length payload % 2 ^ 16) (ground arith)) (z.fit j k)
    ];
  }
