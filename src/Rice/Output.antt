-- ===== src/Rice/Output.antt =====
-- The first and the last state of a `BitWriter`
-- (crates/leodos-protocols/src/application/compression/rice.rs).
use native.Mathlib.Nat.{add-zero}
use leo_dos.Prelude.{
  ℕ, ◌+◌, ◌-◌, ◌*◌, ◌^◌, ◌≤◌, ◌<◌, ◌≡◌, refl, sym, ap, ap₂, ◌∙◌, inl, inr, false, List, [], ◌∷◌,
  ◌++◌, arith, ◌==◌, if◌then◌else◌, ==_eq, length, set, take, length-append, length-set,
}
use leo_dos.Rice.BitWriter.{BitWriter, new, bytes_written}
use leo_dos.Rice.BitLists.{
  bits, bytes, append_assoc, append_nil, take-append, bytes-append, pow_pos, bits-join,
}
use leo_dos.Rice.Written.{Wrote, place, order}
use leo_dos.Rice.Writes.{written, room}

pub new-Wrote : (output : List ℕ) → Wrote (length output) (new output) []
unfolding new place bytes bits
new-Wrote output = record {
  passed = [];
  hi = 0;
  rest = output;
  buf_eq = cleared output;
  pos_eq = refl;
  bits_eq = refl;
  bit_pos = omega arith;
  bit_le = omega arith;
  hi_lt = omega arith;
  limit_eq = length-set output 0 0;
}
  where
    cleared : (output : List ℕ) → set output 0 0 ≡ place 0 8 output
    cleared [] = refl
    cleared (c ∷ cs) = refl

module _ (limit : ℕ) (s : BitWriter) (bs : List ℕ) (k : Wrote limit s bs)
    (fits : length bs ≤ 8 * limit) where
  -- The output, as long as `bytes_written` says, holds the bits, and less than a byte of padding.
  whole_bytes : s.bit ≡ 8 → bytes (take (bytes_written s) s.buf) ≡ bs
  unfolding bytes_written bits
  whole_bytes e =
      let none_free : 8 - s.bit ≡ 0 = omega (arith, e) in
      ap (λ t. bytes (take (if t then s.pos else s.pos + 1) s.buf)) (==_eq s.bit 8 e)
      ∙ ap₂ (λ n b. bytes (take n b)) k.pos_eq k.buf_eq
      ∙ ap bytes (take-append k.passed (place k.hi s.bit k.rest))
      ∙ sym (
          k.bits_eq
          ∙ ap (λ n. bytes k.passed ++ bits n k.hi) none_free
          ∙ append_nil (bytes k.passed))

  part_byte : s.bit < 8 → bytes (take (bytes_written s) s.buf) ≡ bs ++ bits s.bit 0
  unfolding bytes_written place bytes
  part_byte h =
      let r : (c : ℕ) × (cs : List ℕ) × (k.rest ≡ c ∷ cs) =
        room limit s bs k (omega (arith, fits, written limit s bs k)) in
      let partly : (s.bit == 8) ≡ false = ground arith in
      let byte : ℕ = k.hi * 2 ^ s.bit in
      let one_more : length (k.passed ++ (byte ∷ [])) ≡ s.pos + 1 =
        omega (arith, length-append k.passed (byte ∷ []), k.pos_eq) in
      let buf_eq : s.buf ≡ (k.passed ++ (byte ∷ [])) ++ r.1 =
        k.buf_eq
        ∙ ap (λ t. k.passed ++ place k.hi s.bit t) r.2
        ∙ sym (append_assoc k.passed (byte ∷ []) r.1) in
      let size : 8 - s.bit + s.bit ≡ 8 = omega (arith, h) in
      let last : bits 8 byte ≡ bits (8 - s.bit) k.hi ++ bits s.bit 0 =
        ap₂ (λ n v. bits n v) (sym size) (sym (add-zero byte))
        ∙ bits-join (8 - s.bit) s.bit k.hi 0 (pow_pos s.bit) in
      ap (λ t. bytes (take (if t then s.pos else s.pos + 1) s.buf)) partly
      ∙ ap₂ (λ n b. bytes (take n b)) (sym one_more) buf_eq
      ∙ ap bytes (take-append (k.passed ++ (byte ∷ [])) r.1)
      ∙ bytes-append k.passed (byte ∷ [])
      ∙ ap (λ l. bytes k.passed ++ l) (append_nil (bits 8 byte) ∙ last)
      ∙ sym (append_assoc (bytes k.passed) (bits (8 - s.bit) k.hi) (bits s.bit 0))
      ∙ ap (λ l. l ++ bits s.bit 0) (sym k.bits_eq)

  pub bytes-take : (pad : List ℕ) × (bytes (take (bytes_written s) s.buf) ≡ bs ++ pad)
  bytes-take = elim (order 8 s.bit) [
    | inl h ↦ ([], whole_bytes (omega (arith, h, k.bit_le)) ∙ sym (append_nil bs))
    | inr h ↦ (bits s.bit 0, part_byte h)
  ]
