-- ===== src/Rice/Ahead.antt =====
-- The bits that a `BitReader` has in front of it
-- (crates/leodos-protocols/src/application/compression/rice.rs).
use native.Mathlib.Nat.{mod-lt}
use leo_dos.Prelude.{
  ℕ, ◌+◌, ◌-◌, ◌/◌, ◌%◌, ◌^◌, ◌≤◌, ◌<◌, ◌≡◌, refl, sym, ap, ap₂, ◌∙◌, inl, inr, true, false, List,
  [], ◌∷◌, ◌++◌, arith, ◌==◌, length, length-append,
}
use leo_dos.Rice.Config.{done}
use leo_dos.Rice.BitReader.{BitReader, byte_at, skip}
use leo_dos.Rice.BitLists.{
  bits, bytes, length-bits, append_assoc, append_inj, pow_pos, bits-mod, bits-cut, bits-ext,
}
use leo_dos.Rice.Written.{order}

-- What is left of the byte that is being read, and of those behind it.
unfoldable pub left : ℕ → List ℕ → List ℕ
left free [] = []
left free (c ∷ cs) = bits free c ++ bytes cs

-- The reader has `bs` to read, of an input of `limit` bytes.
pub record Ahead (limit : ℕ) (r : BitReader) (bs : List ℕ) : Type 0 where
  pub passed : List ℕ
  pub rest : List ℕ
  pub buf_eq : r.buf ≡ passed ++ rest
  pub pos_eq : r.pos ≡ length passed
  pub bits_eq : bs ≡ left r.bit rest
  pub bit_pos : 1 ≤ r.bit
  pub bit_le : r.bit ≤ 8
  pub limit_eq : length r.buf ≡ limit

byte_at-append : (ps cs : List ℕ) (c : ℕ) → byte_at (ps ++ (c ∷ cs)) (length ps) ≡ done c
unfolding byte_at
byte_at-append [] cs c = refl
byte_at-append (p ∷ ps) cs c = byte_at-append ps cs c

pub bytes-left : (cs : List ℕ) → bytes cs ≡ left 8 cs
unfolding bytes left
bytes-left [] = refl
bytes-left (c ∷ cs) = refl

module _ (limit : ℕ) (r : BitReader) (w x : ℕ) (bs : List ℕ) (k : Ahead limit r (bits w x ++ bs))
    (one : 1 ≤ w) (w_le : w ≤ r.bit) (x_lt : x < 2 ^ w) where
  -- The byte that is being read starts with the bits.
  pub record Front : Type 0 where
    pub byte : ℕ
    pub behind : List ℕ
    pub rest_eq : k.rest ≡ byte ∷ behind
    pub value : byte / 2 ^ (r.bit - w) % 2 ^ w ≡ x
    pub after : bs ≡ bits (r.bit - w) byte ++ bytes behind

  pub front : Front
  unfolding left
  front = by_rest k.rest refl
    where
      by_rest : (l : List ℕ) → k.rest ≡ l → Front
      by_rest [] e =
          let nothing : bits w x ++ bs ≡ [] = k.bits_eq ∙ ap (left r.bit) e in
          absurd (omega (arith, ap length nothing, length-append (bits w x) bs, length-bits w x))
      by_rest (c ∷ cs) e =
          let parts : w + (r.bit - w) ≡ r.bit = omega arith in
          let cut : bits r.bit c ≡ bits w (c / 2 ^ (r.bit - w)) ++ bits (r.bit - w) c =
            ap (λ n. bits n c) (sym parts) ∙ bits-cut w (r.bit - w) c in
          let both : bits w x ++ bs
              ≡ bits w (c / 2 ^ (r.bit - w)) ++ (bits (r.bit - w) c ++ bytes cs) =
            k.bits_eq
            ∙ ap (left r.bit) e
            ∙ ap (λ l. l ++ bytes cs) cut
            ∙ append_assoc (bits w (c / 2 ^ (r.bit - w))) (bits (r.bit - w) c) (bytes cs) in
          let apart =
            append_inj (bits w x) bs (bits w (c / 2 ^ (r.bit - w))) _
              (length-bits w x ∙ sym (length-bits w _)) both in
          record {
            byte = c;
            behind = cs;
            rest_eq = e;
            value = bits-ext w _ x (mod-lt _ (pow_pos w)) x_lt (bits-mod w _ ∙ sym apart.0);
            after = apart.1;
          }

  pub byte_at-front : byte_at r.buf r.pos ≡ done front.byte
  byte_at-front =
      ap₂ (λ b i. byte_at b i) (k.buf_eq ∙ ap (λ l. k.passed ++ l) front.rest_eq) k.pos_eq
      ∙ byte_at-append k.passed front.behind front.byte

  skip_inside : w < r.bit → Ahead limit (skip w r) bs
  unfolding skip left
  skip_inside h =
      let e : (r.bit - w == 0) ≡ false = ground arith in
      let moved : BitReader = record r { bit = r.bit - w } in
      let ahead : Ahead limit moved bs = record {
        passed = k.passed;
        rest = k.rest;
        buf_eq = k.buf_eq;
        pos_eq = k.pos_eq;
        bits_eq = front.after ∙ ap (left (r.bit - w)) (sym front.rest_eq);
        bit_pos = omega arith;
        bit_le = omega (arith, k.bit_le);
        limit_eq = k.limit_eq;
      } in
      rw e ahead

  skip_over : w ≡ r.bit → Ahead limit (skip w r) bs
  unfolding skip left bits
  skip_over h =
      let e : (r.bit - w == 0) ≡ true = ground arith in
      let none_left : r.bit - w ≡ 0 = omega (arith, h) in
      let moved : BitReader = record r { pos = r.pos + 1; bit = 8 } in
      let ahead : Ahead limit moved bs = record {
        passed = k.passed ++ (front.byte ∷ []);
        rest = front.behind;
        buf_eq =
            k.buf_eq
            ∙ ap (λ l. k.passed ++ l) front.rest_eq
            ∙ sym (append_assoc k.passed (front.byte ∷ []) front.behind);
        pos_eq = omega (arith, k.pos_eq, length-append k.passed (front.byte ∷ []));
        bits_eq =
            front.after
            ∙ ap (λ n. bits n front.byte ++ bytes front.behind) none_left
            ∙ bytes-left front.behind;
        bit_pos = omega arith;
        bit_le = omega arith;
        limit_eq = k.limit_eq;
      } in
      rw e ahead

  pub skip-Ahead : Ahead limit (skip w r) bs
  skip-Ahead = elim (order r.bit w) [
    | inl h ↦ skip_over (omega (arith, h, w_le))
    | inr h ↦ skip_inside h
  ]
