-- ===== src/Rice/Steps.antt =====
-- Steps of the loops of `compress` and `decompress`
-- (crates/leodos-protocols/src/application/compression/rice.rs).
use mathlib.Core.Path.{subst}
use leo_dos.Prelude.{
  ℕ, zero, suc, ◌+◌, ◌*◌, ◌≤◌, ◌<◌, ◌≡◌, refl, sym, ap, ◌∙◌, true, false, List, [], ◌++◌, arith,
  leb, length, length-append,
}
use leo_dos.Rice.Config.{Config, Outcome, done, ◌>>=◌, Yields, Yields-bind}
use leo_dos.Rice.BitWriter.{BitWriter}
use leo_dos.Rice.BitReader.{BitReader}
use leo_dos.Rice.Encoder.{Encoding}
use leo_dos.Rice.Decoder.{Decoding, decode_turn, decompress_loop}
use leo_dos.Rice.BitLists.{append_assoc}
use leo_dos.Rice.Written.{Wrote}
use leo_dos.Rice.Writes.{Writes}
use leo_dos.Rice.Ahead.{Ahead}
use leo_dos.Rice.Reads.{Reads}

-- A step of the encoder writes `code` and goes on with `e`.
abbrev pub Sets : (BitWriter → Outcome (Encoding × BitWriter)) → List ℕ → Encoding → Type 0
Sets f code e =
    (limit : ℕ) (s : BitWriter) (bs : List ℕ)
    → Wrote limit s bs
    → length bs + length code ≤ 8 * limit
    → Yields (f s) (λ p. (p.0 ≡ e) × Wrote limit p.1 (bs ++ code))

pub Writes-Sets :
    (f : BitWriter → Outcome BitWriter) (code : List ℕ) (e : Encoding)
    → Writes f code
    → Sets (λ w. f w >>= λ w'. done (e, w')) code e
Writes-Sets f code e p limit s bs k h =
    Yields-bind _ _ (f s) (λ w'. done (e, w')) (p limit s bs k h) (λ w' k'. (refl, k'))

pub Writes-then-Sets :
    (f : BitWriter → Outcome BitWriter) (g : BitWriter → Outcome (Encoding × BitWriter))
    (xs ys : List ℕ) (e : Encoding)
    → Writes f xs
    → Sets g ys e
    → Sets (λ w. f w >>= g) (xs ++ ys) e
Writes-then-Sets f g xs ys e p q limit s bs k h =
    Yields-bind _ _ (f s) g (p limit s bs k (omega (arith, length-append xs ys, h))) (λ t k'.
      subst (λ l. Yields (g t) (λ u. (u.0 ≡ e) × Wrote limit u.1 l)) (append_assoc bs xs ys)
        (q limit t (bs ++ xs) k' (omega (arith, h, length-append xs ys, length-append bs xs))))

pub Sets-then :
    (f : BitWriter → Outcome (Encoding × BitWriter)) (g : Encoding × BitWriter → Outcome BitWriter)
    (xs ys : List ℕ) (e : Encoding)
    → Sets f xs e
    → Writes (λ w. g (e, w)) ys
    → Writes (λ w. f w >>= g) (xs ++ ys)
Sets-then f g xs ys e p q limit s bs k h =
    Yields-bind _ _ (f s) g (p limit s bs k (omega (arith, length-append xs ys, h))) (λ t k'.
      subst (λ l. Yields (g t) (λ u. Wrote limit u l)) (append_assoc bs xs ys)
        (subst (λ e'. Yields (g (e', t.1)) (λ u. Wrote limit u ((bs ++ xs) ++ ys))) (sym k'.0)
          (q limit t.1 (bs ++ xs) k'.1
            (omega (arith, h, length-append xs ys, length-append bs xs)))))

-- The decoder makes `target` of the code, in the given number of turns.
abbrev pub Decodes : Config → ℕ → Decoding → ℕ → List ℕ → List ℕ → Type 0
Decodes cfg len d turns code target =
    (limit : ℕ) (r : BitReader) (bs : List ℕ) (fuel : ℕ)
    → Ahead limit r (code ++ bs)
    → turns < fuel
    → decompress_loop fuel cfg len d r ≡ done target

module _ (cfg : Config) (len : ℕ) where
  pub Decodes-end :
      (d : Decoding) → len < length d.out + cfg.block_size → Decodes cfg len d 0 [] d.out
  unfolding decompress_loop
  Decodes-end d h limit r bs zero k l = absurd (omega arith)
  Decodes-end d h limit r bs (suc fuel) k l =
      let full : leb (length d.out + cfg.block_size) len ≡ false = ground arith in
      rw (full, decompress_loop) refl

  pub Decodes-turn :
      (d d' : Decoding) (turns : ℕ) (xs ys target : List ℕ)
      → length d.out + cfg.block_size ≤ len
      → Reads (decode_turn cfg len d) xs d'
      → Decodes cfg len d' turns ys target
      → Decodes cfg len d (turns + 1) (xs ++ ys) target
  unfolding decompress_loop
  Decodes-turn d d' turns xs ys target h p q limit r bs zero k l = absurd (omega arith)
  Decodes-turn d d' turns xs ys target h p q limit r bs (suc fuel) k l =
      let room : leb (length d.out + cfg.block_size) len ≡ true = ground arith in
      let turn = p limit r (ys ++ bs) (subst (Ahead limit r) (append_assoc xs ys bs) k) in
      rw (room, decompress_loop)
        (ap (λ o. o >>= λ next. decompress_loop fuel cfg len next.0 next.1) turn.1
          ∙ q limit turn.0 bs fuel turn.2 (omega arith))

  pub Decodes-weaken :
      (d : Decoding) (t t' : ℕ) (code target : List ℕ)
      → t ≤ t'
      → Decodes cfg len d t code target
      → Decodes cfg len d t' code target
  Decodes-weaken d t t' code target h p limit r bs fuel k l =
      p limit r bs fuel k (omega (arith, h, l))
