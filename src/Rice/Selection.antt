-- ===== src/Rice/Selection.antt =====
-- What `select_option` of crates/leodos-protocols/src/application/compression/rice.rs may select.
use native.Mathlib.Nat.{mul-le-mul, pow-le-pow_right}
use leo_dos.Prelude.{
  ℕ, zero, suc, ◌+◌, ◌*◌, ◌%◌, ◌^◌, ◌≤◌, ◌<◌, ◌≡◌, inl, inr, true, false, List, [], ◌∷◌, arith, ltb,
  ◌==◌, ltb→lt, ==_iff, Bool-cases, length, All, All-map,
}
use leo_dos.Rice.Coding.{
  CodingOption, zero_block, second_extension, split, no_compression, gamma, pairs_total,
  cost_second_ext, cost_no_comp, all_zero, better, with_second, with_splits, select_option,
}
use leo_dos.Rice.DataCode.{PairsFit}

-- The numbers of pairs of values below 2 ^ 28.
gamma_bounds :
    (d1 d2 : ℕ)
    → d1 < 2 ^ 28
    → d2 < 2 ^ 28
    → (gamma d1 d2 + 1 ≤ 2 ^ 58) × ((d1 + d2) * (d1 + d2 + 1) < 2 ^ 64)
unfolding gamma
gamma_bounds d1 d2 h l =
    let product : (d1 + d2) * (d1 + d2 + 1) ≤ 2 ^ 29 * 2 ^ 29 =
      mul-le-mul {n₂ = 2 ^ 29} {m₂ = 2 ^ 29} (omega arith) (omega arith) in
    (omega (arith, product), omega (arith, product))

-- The sum of up to 32 of them does not wrap around, so that each is below it.
pairs_total-PairsFit :
    (total : ℕ) (ds : List ℕ)
    → All (λ d. d < 2 ^ 28) ds
    → length ds % 2 ≡ 0
    → total + length ds * 2 ^ 57 ≤ 2 ^ 63
    → (total ≤ pairs_total total ds)
      × (pairs_total total ds ≤ 2 ^ 63)
      × (pairs_total total ds < 2 ^ 32 → PairsFit ds)
unfolding pairs_total
pairs_total-PairsFit total [] h e l = (omega arith, omega (arith, l), λ b. tt)
pairs_total-PairsFit total (d ∷ []) h e l = absurd (omega (arith, e))
pairs_total-PairsFit total (d1 ∷ d2 ∷ ds) h e l =
    let g : (gamma d1 d2 + 1 ≤ 2 ^ 58) × ((d1 + d2) * (d1 + d2 + 1) < 2 ^ 64) =
      gamma_bounds d1 d2 h.0 h.1.0 in
    let next : (total + (gamma d1 d2 + 1)) % 2 ^ 64 ≡ total + (gamma d1 d2 + 1) =
      omega (arith, g.0, l) in
    let rest =
      pairs_total-PairsFit ((total + (gamma d1 d2 + 1)) % 2 ^ 64) ds h.1.1 (omega (arith, e))
        (omega (arith, next, g.0, l)) in
    (omega (arith, next, rest.0), rest.1, λ b. (omega (arith, next, rest.0, b), g.1, rest.2 b))

-- What holds of a selected option.
abbrev pub Selected : ℕ → List ℕ → CodingOption → Type 0
Selected max_k ds zero_block = ⊥
Selected max_k ds second_extension = (length ds % 2 ≡ 0) × PairsFit ds
Selected max_k ds (split k) = k ≤ max_k
Selected max_k ds no_compression = Unit

better-Selected :
    (max_k : ℕ) (ds : List ℕ) (best : ℕ × CodingOption) (total : ℕ) (option : CodingOption)
    → Selected max_k ds best.1
    → (total < best.0 → Selected max_k ds option)
    → Selected max_k ds (better best total option).1
unfolding better
better-Selected max_k ds best total option h k = elim (Bool-cases (ltb total best.0)) [
  | inl e ↦ rw e (k (ltb→lt total best.0 e))
  | inr e ↦ rw e h
]

with_splits-Selected :
    (max_k id_len : ℕ) (ds : List ℕ) (count k : ℕ) (best : ℕ × CodingOption)
    → k + count ≤ max_k + 1
    → Selected max_k ds best.1
    → Selected max_k ds (with_splits ds id_len count k best).1
unfolding with_splits
with_splits-Selected max_k id_len ds zero k best l h = h
with_splits-Selected max_k id_len ds (suc count) k best l h =
    with_splits-Selected max_k id_len ds count (k + 1) _ (omega arith)
      (better-Selected max_k ds best _ (split k) h (λ b. omega arith))

module _ (n id_len max_k : ℕ) (n_le : n ≤ 28) (id_le : id_len ≤ 5) (ds : List ℕ)
    (short : length ds ≤ 64) (small : All (λ d. d < 2 ^ n) ds) where
  abbrev first_best : ℕ × CodingOption
  first_best = (cost_no_comp (length ds) n + id_len, no_compression)

  cheap : cost_no_comp (length ds) n ≤ 64 * 28
  unfolding cost_no_comp
  cheap = mul-le-mul short n_le

  second-PairsFit :
      length ds % 2 ≡ 0 → (pairs_total 0 ds + (id_len + 1)) % 2 ^ 64 < first_best.0 → PairsFit ds
  second-PairsFit e h =
      let bound : 2 ^ n ≤ 2 ^ 28 = pow-le-pow_right (omega arith) n_le in
      let sums =
        pairs_total-PairsFit 0 ds (All-map _ _ ds (λ d b. omega (arith, b, bound)) small) e
          (omega arith) in
      sums.2 (omega (arith, sums.1, h, cheap))

  with_second-Selected : Selected max_k ds (with_second ds id_len first_best (cost_second_ext ds)).1
  unfolding with_second cost_second_ext
  with_second-Selected = elim (Bool-cases (length ds % 2 == 0)) [
    | inl e ↦ rw e (
        better-Selected max_k ds first_best _ second_extension tt
          (λ b. (even e, second-PairsFit (even e) b)))
    | inr e ↦ rw e tt
  ]
    where
      even : (length ds % 2 == 0) ≡ true → length ds % 2 ≡ 0
      even e = (==_iff _ 0).0 e

  -- For at most 64 values of n ≤ 28 bits, not all zero, and an identifier of at most 5 bits, the
  -- selected option is a split of at most max_k bits, no compression, or, for an even number of
  -- values whose pairs have numbers below 2 ^ 32, the second extension.
  pub select_option-Selected :
      all_zero ds ≡ false → Selected max_k ds (select_option ds n id_len max_k)
  unfolding select_option
  select_option-Selected e =
      rw e (with_splits-Selected max_k id_len ds (max_k + 1) 0 _ (omega arith) with_second-Selected)
