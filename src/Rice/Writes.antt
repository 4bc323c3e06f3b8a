-- ===== src/Rice/Writes.antt =====
-- What the calls of a `BitWriter` write
-- (crates/leodos-protocols/src/application/compression/rice.rs).
use mathlib.Core.Path.{subst}
use native.Mathlib.Nat.{mod-lt, zero-div}
use leo_dos.Prelude.{
  ℕ, zero, suc, ◌+◌, ◌-◌, ◌*◌, ◌/◌, ◌%◌, ◌^◌, ◌≤◌, ◌<◌, min, bit_or, ◌≡◌, refl, sym, ap, ap₂, ◌∙◌,
  List, [], ◌∷◌, ◌++◌, arith, length, length-append,
}
use leo_dos.Rice.Config.{Outcome, done, ◌>>=◌, Yields, Yields-bind}
use leo_dos.Rice.BitWriter.{BitWriter, or_at, advance, write_loop, write, zeros_loop, write_fs}
use leo_dos.Rice.BitLists.{
  bits, bytes, length-bits, length-bytes, append_assoc, append_nil, pow_pos, pow-add, bits-mod,
  bits-cut,
}
use leo_dos.Rice.Written.{Wrote, place, Turn, or_at-place, or-below, advance-Wrote}

-- A call writes `code` where there is room for it.
abbrev pub Writes : (BitWriter → Outcome BitWriter) → List ℕ → Type 0
Writes f code =
    (limit : ℕ) (s : BitWriter) (bs : List ℕ)
    → Wrote limit s bs
    → length bs + length code ≤ 8 * limit
    → Yields (f s) (λ s'. Wrote limit s' (bs ++ code))

module _ (limit : ℕ) (s : BitWriter) (bs : List ℕ) (k : Wrote limit s bs) where
  -- Room for a bit is in the byte that is being filled.
  pub written : length bs ≡ 8 * length k.passed + (8 - s.bit)
  written = omega (
    arith,
    ap length k.bits_eq,
    length-append (bytes k.passed) (bits (8 - s.bit) k.hi),
    length-bytes k.passed,
    length-bits (8 - s.bit) k.hi,
  )

  pub full-Wrote : k.rest ≡ [] → 8 * limit ≤ length bs
  unfolding place
  full-Wrote e = omega (
    arith,
    written,
    k.limit_eq,
    ap length (k.buf_eq ∙ ap (λ r. k.passed ++ place k.hi s.bit r) e ∙ append_nil k.passed),
  )

  pub room : length bs < 8 * limit → (c : ℕ) × (cs : List ℕ) × (k.rest ≡ c ∷ cs)
  room h = first k.rest refl
    where
      first : (r : List ℕ) → k.rest ≡ r → (c : ℕ) × (cs : List ℕ) × (k.rest ≡ c ∷ cs)
      first [] e = absurd (omega (arith, full-Wrote e, h))
      first (c ∷ cs) e = (c, cs, e)

  module _ (w x : ℕ) (one : 1 ≤ w) (w_le : w ≤ s.bit) (x_lt : x < 2 ^ w)
      (h : length bs < 8 * limit) where
    -- The or of `write`, with the steps behind it.
    or-Wrote :
        Yields
          (or_at s.buf s.pos (x * 2 ^ (s.bit - w)))
          (λ buf. Wrote limit (advance w (record s { buf = buf })) (bs ++ bits w x))
    unfolding place
    or-Wrote =
        let cs : List ℕ = (room h).1 in
        let byte : ℕ = k.hi * 2 ^ s.bit in
        let buf_eq : s.buf ≡ k.passed ++ (byte ∷ cs) =
          k.buf_eq ∙ ap (λ r. k.passed ++ place k.hi s.bit r) (room h).2 in
        let sum : bit_or byte (x * 2 ^ (s.bit - w)) ≡ (k.hi * 2 ^ w + x) * 2 ^ (s.bit - w) =
          ap (λ n. bit_or (k.hi * 2 ^ n) (x * 2 ^ (s.bit - w))) parts
          ∙ or-below k.hi x w (s.bit - w) x_lt in
        let buf' : List ℕ = k.passed ++ ((k.hi * 2 ^ w + x) * 2 ^ (s.bit - w) ∷ cs) in
        let ored : or_at s.buf s.pos (x * 2 ^ (s.bit - w)) ≡ done buf' =
          ap₂ (λ b i. or_at b i (x * 2 ^ (s.bit - w))) buf_eq k.pos_eq
          ∙ or_at-place k.passed cs byte (x * 2 ^ (s.bit - w))
          ∙ ap (λ c. done (k.passed ++ (c ∷ cs))) sum in
        let size : length buf' ≡ limit =
          length-append k.passed _
          ∙ sym (length-append k.passed _)
          ∙ ap length (sym buf_eq)
          ∙ k.limit_eq in
        let turn : Turn limit w x (record s { buf = buf' }) bs k.passed cs k.hi = record {
          buf_eq = refl;
          pos_eq = k.pos_eq;
          bits_eq = k.bits_eq;
          one = one;
          w_le = w_le;
          bit_le = k.bit_le;
          hi_lt = k.hi_lt;
          x_lt = x_lt;
          limit_eq = size;
        } in
        let Holds : List ℕ → Type 0 =
          λ buf. Wrote limit (advance w (record s { buf = buf })) (bs ++ bits w x) in
        subst (λ o. Yields o Holds) (sym ored) (advance-Wrote limit w x _ bs k.passed cs k.hi turn)
      where
        parts : s.bit ≡ w + (s.bit - w)
        parts = omega arith

  -- A turn of `zeros_loop`.
  module _ (w : ℕ) (one : 1 ≤ w) (w_le : w ≤ s.bit) (h : length bs < 8 * limit) where
    zeros-Wrote : Wrote limit (advance w s) (bs ++ bits w 0)
    unfolding place
    zeros-Wrote =
        let cs : List ℕ = (room h).1 in
        let turn : Turn limit w 0 s bs k.passed cs k.hi = record {
          buf_eq =
              k.buf_eq
              ∙ ap (λ r. k.passed ++ place k.hi s.bit r) (room h).2
              ∙ ap (λ c. k.passed ++ (c ∷ cs)) same;
          pos_eq = k.pos_eq;
          bits_eq = k.bits_eq;
          one = one;
          w_le = w_le;
          bit_le = k.bit_le;
          hi_lt = k.hi_lt;
          x_lt = pow_pos w;
          limit_eq = k.limit_eq;
        } in
        advance-Wrote limit w 0 s bs k.passed cs k.hi turn
      where
        parts : s.bit ≡ w + (s.bit - w)
        parts = omega arith

        grouped : (a b c : ℕ) → a * (b * c) ≡ (a * b + 0) * c
        grouped a b c = omega arith

        same : k.hi * 2 ^ s.bit ≡ (k.hi * 2 ^ w + 0) * 2 ^ (s.bit - w)
        same =
            ap (λ n. k.hi * 2 ^ n) parts
            ∙ ap (λ p. k.hi * p) (pow-add w (s.bit - w))
            ∙ grouped k.hi (2 ^ w) (2 ^ (s.bit - w))

write_loop-Writes : (fuel value n : ℕ) → n ≤ fuel → Writes (write_loop fuel value n) (bits n value)
unfolding write_loop bits
write_loop-Writes fuel value zero l limit s bs k h = subst (Wrote limit s) (sym (append_nil bs)) k
write_loop-Writes zero value (suc m) l limit s bs k h = absurd (omega arith)
write_loop-Writes (suc fuel) value (suc m) l limit s bs k h =
    let w : ℕ = min (suc m) s.bit in
    let left : ℕ = suc m - w in
    let one : 1 ≤ w = omega (arith, k.bit_pos) in
    let x : ℕ = value / 2 ^ left % 2 ^ w in
    let lengths : length (bits (suc m) value) ≡ suc m = length-bits (suc m) value in
    Yields-bind _ _ (or_at s.buf s.pos (x * 2 ^ (s.bit - w))) _
      (or-Wrote limit s bs k w x one (omega arith) (mod-lt _ (pow_pos w))
        (omega (arith, h, lengths)))
      (λ buf k'.
        let s' : BitWriter = advance w (record s { buf = buf }) in
        subst (λ l. Yields (write_loop fuel value left s') (λ t. Wrote limit t l))
          (cut_at bs value w left (suc m) (omega arith))
          (write_loop-Writes fuel value left (omega (arith, one)) limit s' (bs ++ bits w x) k' (
            omega (
              arith,
              h,
              lengths,
              length-bits left value,
              length-append bs (bits w x),
              length-bits w x,
            ))))
  where
    cut_at :
        (bs : List ℕ) (value w left n : ℕ)
        → w + left ≡ n
        → (bs ++ bits w (value / 2 ^ left % 2 ^ w)) ++ bits left value ≡ bs ++ bits n value
    cut_at bs value w left n e =
        append_assoc bs _ _
        ∙ ap (λ l. bs ++ (l ++ bits left value)) (bits-mod w (value / 2 ^ left))
        ∙ ap (λ l. bs ++ l) (sym (bits-cut w left value) ∙ ap (λ j. bits j value) e)

pub write-Writes : (value n : ℕ) → Writes (write value n) (bits n value)
unfolding write
write-Writes value n = write_loop-Writes n value n (omega arith)

-- The zeros of `write_fs`.
zeros_loop-Wrote :
    (fuel n : ℕ) (limit : ℕ) (s : BitWriter) (bs : List ℕ)
    → n ≤ fuel
    → n < 2 ^ 32
    → Wrote limit s bs
    → length bs + n ≤ 8 * limit
    → Wrote limit (zeros_loop fuel n s) (bs ++ bits n 0)
unfolding zeros_loop bits
zeros_loop-Wrote fuel zero limit s bs l b k h = subst (Wrote limit s) (sym (append_nil bs)) k
zeros_loop-Wrote zero (suc m) limit s bs l b k h = absurd (omega arith)
zeros_loop-Wrote (suc fuel) (suc m) limit s bs l b k h =
    let w : ℕ = min (suc m % 2 ^ 32) s.bit in
    let left : ℕ = suc m - w in
    let one : 1 ≤ w = omega (arith, k.bit_pos) in
    let parts : w + left ≡ suc m = omega arith in
    subst (Wrote limit (zeros_loop fuel left (advance w s)))
      (append_assoc bs (bits w 0) (bits left 0)
        ∙ ap (λ l. bs ++ l) (zeros_cut w left ∙ ap (λ j. bits j 0) parts))
      (zeros_loop-Wrote fuel left limit (advance w s) (bs ++ bits w 0) (omega (arith, one))
        (omega arith) (zeros-Wrote limit s bs k w one (omega arith) (omega arith))
        (omega (arith, length-append bs (bits w 0), length-bits w 0)))
  where
    zeros_cut : (w left : ℕ) → bits w 0 ++ bits left 0 ≡ bits (w + left) 0
    zeros_cut w left =
        ap (λ q. bits w q ++ bits left 0) (sym (zero-div (2 ^ left))) ∙ sym (bits-cut w left 0)

-- The bits of a fundamental sequence: `m` zeros and a one.
abbrev pub fs_bits : ℕ → List ℕ
fs_bits m = bits m 0 ++ (1 ∷ [])

pub write_fs-Writes : (m : ℕ) → m < 2 ^ 32 → Writes (write_fs m) (fs_bits m)
unfolding write_fs bits
write_fs-Writes m b limit s bs k h =
    let total : length (fs_bits m) ≡ m + 1 =
      length-append (bits m 0) _ ∙ ap (λ n. n + 1) (length-bits m 0) in
    subst (λ l. Yields (write_fs m s) (λ t. Wrote limit t l)) (append_assoc bs (bits m 0) (1 ∷ []))
      (write-Writes 1 1 limit (zeros_loop m m s) (bs ++ bits m 0)
        (zeros_loop-Wrote m m limit s bs (omega arith) b k (omega (arith, h, total)))
        (omega (arith, h, total, length-append bs (bits m 0), length-bits m 0)))

-- One call after another.
pub Writes-bind :
    (f g : BitWriter → Outcome BitWriter) (xs ys : List ℕ)
    → Writes f xs
    → Writes g ys
    → Writes (λ s. f s >>= g) (xs ++ ys)
Writes-bind f g xs ys p q limit s bs k h =
    Yields-bind _ _ (f s) g (p limit s bs k (omega (arith, length-append xs ys))) (λ t k'.
      subst (λ l. Yields (g t) (λ u. Wrote limit u l)) (append_assoc bs xs ys)
        (q limit t (bs ++ xs) k' (omega (arith, h, length-append xs ys, length-append bs xs))))

pub done-Writes : Writes done []
done-Writes limit s bs k h = subst (Wrote limit s) (sym (append_nil bs)) k
