-- ===== src/Rice/Pairs.antt =====
-- The pairing of the second extension
-- (crates/leodos-protocols/src/application/compression/rice.rs).
use native.Mathlib.Nat.{add-zero}
use leo_dos.Prelude.{
  ℕ, zero, suc, ◌+◌, ◌-◌, ◌*◌, ◌^◌, ◌≤◌, ◌<◌, ◌≡◌, refl, sym, ap, ap₂, ◌∙◌, true, false, arith, ltb,
  lt→ltb,
}
use leo_dos.Rice.Coding.{gamma, pair_loop, decode_second_ext_pair}

-- The sum of the numbers up to `n`.
triangle : ℕ → ℕ
triangle zero = 0
triangle (suc n) = triangle n + n + 1

triangle-twice : (n : ℕ) → n * (n + 1) ≡ triangle n * 2
unfolding triangle
triangle-twice zero = refl
triangle-twice (suc n) = omega (arith, triangle-twice n)

triangle_le : (n : ℕ) → n ≤ triangle n
unfolding triangle
triangle_le zero = omega arith
triangle_le (suc n) = omega (arith, triangle_le n)

gamma-triangle :
    (d1 d2 : ℕ) → (d1 + d2) * (d1 + d2 + 1) < 2 ^ 64 → gamma d1 d2 ≡ triangle (d1 + d2) + d2
unfolding gamma
gamma-triangle d1 d2 h = omega (arith, triangle-twice (d1 + d2), h)

triangle_mono : (b steps : ℕ) → triangle b ≤ triangle (b + steps)
unfolding triangle
triangle_mono b zero = omega (arith, ap triangle (add-zero b))
triangle_mono b (suc steps) =
    let next : b + suc steps ≡ suc (b + steps) = omega arith in
    omega (arith, ap triangle next, triangle_mono b steps)

triangle_next : (b : ℕ) → triangle (b + 1) ≡ triangle b + b + 1
unfolding triangle
triangle_next b = let index : b + 1 ≡ suc b = omega arith in ap triangle index

-- The loop climbs from `beta` to the sum, `steps` further on.
pair_loop-triangle :
    (fuel g beta threshold steps d2 : ℕ)
    → threshold ≡ triangle beta
    → steps < fuel
    → d2 ≤ beta + steps
    → g ≡ triangle (beta + steps) + d2
    → pair_loop fuel g beta threshold ≡ (beta + steps - d2, d2)
unfolding pair_loop
pair_loop-triangle zero g beta threshold steps d2 t h l e = absurd (omega arith)
pair_loop-triangle (suc fuel) g beta threshold zero d2 t h l e =
    let same : triangle (beta + 0) ≡ triangle beta = ap triangle (add-zero beta) in
    let here : ltb g (threshold + beta + 1) ≡ true = lt→ltb g _ (omega (arith, same, t, e)) in
    rw (here, pair_loop)
      (ap₂ (λ a b. (a, b)) (omega (arith, same, t, e)) (omega (arith, same, t, e)))
pair_loop-triangle (suc fuel) g beta threshold (suc steps) d2 t h l e =
    let index : beta + suc steps ≡ beta + 1 + steps = omega arith in
    let next : triangle (beta + 1) ≡ threshold + beta + 1 =
      triangle_next beta ∙ ap (λ n. n + beta + 1) (sym t) in
    let further : ltb g (threshold + beta + 1) ≡ false =
      ground (arith, triangle_mono (beta + 1) steps, next, e, ap triangle index) in
    rw (further, pair_loop)
      (pair_loop-triangle fuel g (beta + 1) (threshold + beta + 1) steps d2 (sym next) (omega arith)
          (omega arith) (e ∙ ap (λ n. triangle n + d2) index)
        ∙ ap (λ n. (n - d2, d2)) (sym index))

-- A pair of values of the second extension comes back from its number, where
-- (d1 + d2) * (d1 + d2 + 1) is less than 2 ^ 64.
pub decode_second_ext_pair-gamma :
    (d1 d2 : ℕ)
    → (d1 + d2) * (d1 + d2 + 1) < 2 ^ 64
    → decode_second_ext_pair (gamma d1 d2) ≡ (d1, d2)
unfolding decode_second_ext_pair triangle
decode_second_ext_pair-gamma d1 d2 h =
    let g : gamma d1 d2 ≡ triangle (d1 + d2) + d2 = gamma-triangle d1 d2 h in
    let start : 0 + (d1 + d2) ≡ d1 + d2 = omega arith in
    pair_loop-triangle (gamma d1 d2 + 1) (gamma d1 d2) 0 0 (d1 + d2) d2 refl
      (omega (arith, g, triangle_le (d1 + d2))) (omega arith)
      (g ∙ ap (λ n. triangle n + d2) (sym start))
    ∙ ap (λ n. (n, d2)) (omega arith)
