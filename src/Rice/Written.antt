-- ===== src/Rice/Written.antt =====
-- The bits that a `BitWriter` has written
-- (crates/leodos-protocols/src/application/compression/rice.rs).
use native.Mathlib.Nat.{div-lt_iff_lt-mul, add-zero, mul-one}
use mathlib.Core.Path.{subst}
use leo_dos.Prelude.Bits.{bit_or_field}
use leo_dos.Prelude.{
  ℕ, suc, ◌+◌, ◌-◌, ◌*◌, ◌/◌, ◌^◌, ◌≤◌, ◌<◌, bit_or, ◌≡◌, refl, sym, ap, ap₂, ◌∙◌, ◌⊎◌, inl, inr,
  true, false, List, [], ◌∷◌, ◌++◌, arith, ◌==◌, length, set, length-append, length-set,
}
use leo_dos.Rice.Config.{done, ◌>>=◌}
use leo_dos.Rice.BitWriter.{BitWriter, or_at, advance}
use leo_dos.Rice.BitLists.{
  bits, bytes, append_assoc, append_nil, bytes-append, pow_pos, pow-add, bits-join, div-join,
}

-- The byte that is being filled, with `hi` above its free bits, unless the buffer is full.
unfoldable pub place : ℕ → ℕ → List ℕ → List ℕ
place hi free [] = []
place hi free (c ∷ cs) = hi * 2 ^ free ∷ cs

-- The writer has written `bs` to a buffer of `limit` bytes: the bytes `passed`, and `hi`.
pub record Wrote (limit : ℕ) (s : BitWriter) (bs : List ℕ) : Type 0 where
  pub passed : List ℕ
  pub hi : ℕ
  pub rest : List ℕ
  pub buf_eq : s.buf ≡ passed ++ place hi s.bit rest
  pub pos_eq : s.pos ≡ length passed
  pub bits_eq : bs ≡ bytes passed ++ bits (8 - s.bit) hi
  pub bit_pos : 1 ≤ s.bit
  pub bit_le : s.bit ≤ 8
  pub hi_lt : hi < 2 ^ (8 - s.bit)
  pub limit_eq : length s.buf ≡ limit

pub or_at-place :
    (passed cs : List ℕ) (c x : ℕ)
    → or_at (passed ++ (c ∷ cs)) (length passed) x ≡ done (passed ++ (bit_or c x ∷ cs))
unfolding or_at
or_at-place [] cs c x = refl
or_at-place (p ∷ ps) cs c x = ap (λ o. o >>= λ t. done (p ∷ t)) (or_at-place ps cs c x)

-- The byte after the one that is full is cleared, where there is one.
set-next :
    (passed cs : List ℕ) (c : ℕ)
    → set (passed ++ (c ∷ cs)) (length passed + 1) 0 ≡ (passed ++ (c ∷ [])) ++ place 0 8 cs
unfolding place
set-next [] [] c = refl
set-next [] (d ∷ cs) c = refl
set-next (p ∷ ps) cs c =
    let index : suc (length ps) + 1 ≡ suc (length ps + 1) = omega arith in
    ap (λ i. set (p ∷ (ps ++ (c ∷ cs))) i 0) index ∙ ap (λ t. p ∷ t) (set-next ps cs c)

-- An or below `hi` adds.
pub or-below :
    (hi x w free : ℕ)
    → x < 2 ^ w
    → bit_or (hi * 2 ^ (w + free)) (x * 2 ^ free) ≡ (hi * 2 ^ w + x) * 2 ^ free
or-below hi x w free h =
    let apart : hi * 2 ^ (w + free) ≡ hi * 2 ^ w * 2 ^ free + 0 =
      ap (λ p. hi * p) (pow-add w free) ∙ grouped hi (2 ^ w) (2 ^ free) in
    ap (λ a. bit_or a (x * 2 ^ free)) apart
    ∙ bit_or_field free w hi 0 x (pow_pos free) h
    ∙ add-zero _
  where
    grouped : (a b c : ℕ) → a * (b * c) ≡ a * b * c + 0
    grouped a b c = omega arith

pub order : (a b : ℕ) → (a ≤ b) ⊎ (b < a)
order a b = ground arith

below : (m w hi x : ℕ) → hi < 2 ^ m → x < 2 ^ w → hi * 2 ^ w + x < 2 ^ (m + w)
below m w hi x h l =
    let quotient : (hi * 2 ^ w + x) / 2 ^ w < 2 ^ m = omega (arith, div-join w hi x l) in
    omega (arith, (div-lt_iff_lt-mul (pow_pos w)).0 quotient, pow-add m w)

-- What a turn of the loops, that sets `w` bits to `x`, finds.
pub record Turn (limit w x : ℕ) (s : BitWriter) (bs passed cs : List ℕ) (hi : ℕ) : Type 0 where
  pub buf_eq : s.buf ≡ passed ++ ((hi * 2 ^ w + x) * 2 ^ (s.bit - w) ∷ cs)
  pub pos_eq : s.pos ≡ length passed
  pub bits_eq : bs ≡ bytes passed ++ bits (8 - s.bit) hi
  pub one : 1 ≤ w
  pub w_le : w ≤ s.bit
  pub bit_le : s.bit ≤ 8
  pub hi_lt : hi < 2 ^ (8 - s.bit)
  pub x_lt : x < 2 ^ w
  pub limit_eq : length s.buf ≡ limit

module _ (limit w x : ℕ) (s : BitWriter) (bs passed cs : List ℕ) (hi : ℕ)
    (t : Turn limit w x s bs passed cs hi) where
  joined : bs ++ bits w x ≡ bytes passed ++ bits (8 - s.bit + w) (hi * 2 ^ w + x)
  joined =
      ap (λ l. l ++ bits w x) t.bits_eq
      ∙ append_assoc (bytes passed) (bits (8 - s.bit) hi) (bits w x)
      ∙ ap (λ l. bytes passed ++ l) (sym (bits-join (8 - s.bit) w hi x t.x_lt))

  advance_inside : w < s.bit → Wrote limit (advance w s) (bs ++ bits w x)
  unfolding advance place
  advance_inside h =
      let e : (s.bit - w == 0) ≡ false = ground arith in
      let size : 8 - s.bit + w ≡ 8 - (s.bit - w) = omega (arith, h, t.bit_le) in
      let moved : BitWriter = record s { bit = s.bit - w } in
      let wrote : Wrote limit moved (bs ++ bits w x) = record {
        passed = passed;
        hi = hi * 2 ^ w + x;
        rest = 0 ∷ cs;
        buf_eq = t.buf_eq;
        pos_eq = t.pos_eq;
        bits_eq = joined ∙ ap (λ k. bytes passed ++ bits k (hi * 2 ^ w + x)) size;
        bit_pos = omega arith;
        bit_le = omega (arith, t.bit_le);
        hi_lt = subst (λ k. hi * 2 ^ w + x < 2 ^ k) size (below (8 - s.bit) w hi x t.hi_lt t.x_lt);
        limit_eq = t.limit_eq;
      } in
      rw e wrote

  full : (b : ℕ) → bytes (passed ++ (b ∷ [])) ++ [] ≡ bytes passed ++ bits 8 b
  unfolding bytes
  full b =
      append_nil (bytes (passed ++ (b ∷ [])))
      ∙ bytes-append passed (b ∷ [])
      ∙ ap (λ l. bytes passed ++ l) (append_nil (bits 8 b))

  advance_over : w ≡ s.bit → Wrote limit (advance w s) (bs ++ bits w x)
  unfolding advance bits
  advance_over h =
      let e : (s.bit - w == 0) ≡ true = ground arith in
      let size : 8 - s.bit + w ≡ 8 = omega (arith, h, t.bit_le) in
      let b : ℕ = hi * 2 ^ w + x in
      let no_more : s.bit - w ≡ 0 = omega (arith, h) in
      let whole : b * 2 ^ (s.bit - w) ≡ b = ap (λ k. b * 2 ^ k) no_more ∙ mul-one b in
      let moved : BitWriter = record { buf = set s.buf (s.pos + 1) 0; pos = s.pos + 1; bit = 8 } in
      let wrote : Wrote limit moved (bs ++ bits w x) = record {
        passed = passed ++ (b ∷ []);
        hi = 0;
        rest = cs;
        buf_eq =
            ap₂ (λ l i. set l i 0) t.buf_eq (ap (λ n. n + 1) t.pos_eq)
            ∙ set-next passed cs (b * 2 ^ (s.bit - w))
            ∙ ap (λ c. (passed ++ (c ∷ [])) ++ place 0 8 cs) whole;
        pos_eq = omega (arith, t.pos_eq, length-append passed (b ∷ []));
        bits_eq = joined ∙ ap (λ k. bytes passed ++ bits k b) size ∙ sym (full b);
        bit_pos = omega arith;
        bit_le = omega arith;
        hi_lt = omega arith;
        limit_eq = length-set s.buf (s.pos + 1) 0 ∙ t.limit_eq;
      } in
      rw e wrote

  pub advance-Wrote : Wrote limit (advance w s) (bs ++ bits w x)
  advance-Wrote = elim (order s.bit w) [
    | inl h ↦ advance_over (omega (arith, h, t.w_le))
    | inr h ↦ advance_inside h
  ]
