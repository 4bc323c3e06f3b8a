-- ===== src/Isl/Duplicate/Seen.antt =====
-- A number that is presented twice in a row
-- (crates/leodos-protocols/src/network/isl/gossip/bitmap.rs).
use leo_dos.Prelude.{
  ℕ, zero, suc, ◌+◌, ◌-◌, ◌*◌, ◌/◌, ◌%◌, ◌^◌, ◌<◌, bit_and, bit_or, ◌≡◌, refl, sym, ap, ◌∙◌, ◌≢◌,
  ◌⊎◌, inl, inr, Bool, true, false, arith, ltb, Bool-cases,
}
use native.Mathlib.Nat.{pow-suc}
use leo_dos.Prelude.Bits.{bit_and_cut, bit_or_cut}
use leo_dos.Isl.Duplicate.{
  capacity, mark, is_marked, ShortestPath, coincident, forward, backward, compute, DuplicateFilter,
  duplicate_at, is_duplicate,
}

low_bit : (w : ℕ) → (w % 2 ≡ 0) ⊎ (w % 2 ≡ 1)
low_bit w = ground arith

low_or : (w b : ℕ) → b < 2 → (bit_or (w % 2) b < 2) × (bit_and (bit_or (w % 2) 1) 1 ≡ 1)
low_or w zero h = elim (low_bit w) [
  | inl e ↦ rw e (omega arith, refl)
  | inr e ↦ rw e (omega arith, refl)
]
low_or w (suc zero) h = elim (low_bit w) [
  | inl e ↦ rw e (omega arith, refl)
  | inr e ↦ rw e (omega arith, refl)
]
low_or w (suc (suc b)) h = absurd (omega arith)

-- A word, with a bit of `t` or-ed in, under a mask of `s` and `t`: the upper bits and the lowest.
or_then_and :
    (w s t : ℕ)
    → t < 2
    → bit_and (bit_or w (s * 2 ^ 1 + t)) (s * 2 ^ 1 + t)
      ≡ bit_and (bit_or (w / 2) s) s * 2 ^ 1 + bit_and (bit_or (w % 2) t) t
or_then_and w s t h =
    let cut : w ≡ w / 2 * 2 ^ 1 + w % 2 = omega arith in
    ap (λ x. bit_and (bit_or x (s * 2 ^ 1 + t)) (s * 2 ^ 1 + t)) cut
    ∙ ap (λ x. bit_and x (s * 2 ^ 1 + t)) (bit_or_cut 1 (w / 2) (w % 2) s t (omega arith) h)
    ∙ bit_and_cut 1 (bit_or (w / 2) s) (bit_or (w % 2) t) s t (low_or w t h).0 h

marked_bit : (i w : ℕ) → bit_and (bit_or w (2 ^ i)) (2 ^ i) ≢ 0
marked_bit zero w e =
    omega (arith, or_then_and w 0 1 (omega arith), (low_or w 1 (omega arith)).1, e)
marked_bit (suc i) w e =
    let double : 2 ^ suc i ≡ 2 ^ i * 2 ^ 1 + 0 = omega (arith, pow-suc 2 i) in
    let under : bit_and (bit_or w (2 ^ i * 2 ^ 1 + 0)) (2 ^ i * 2 ^ 1 + 0) ≡ 0 =
      ap (λ m. bit_and (bit_or w m) m) (sym double) ∙ e in
    marked_bit i (w / 2) (omega (arith, or_then_and w (2 ^ i) 0 (omega arith), under))

mark-is_marked : (bits i : ℕ) → i < 128 → is_marked (mark bits i) i ≡ true
unfolding is_marked mark
mark-is_marked bits i h = ground (arith, marked_bit i bits)

compute_self : (n : ℕ) → n < 65536 → compute n n ≡ coincident
unfolding compute
compute_self n h = ground arith

-- A backward distance is not 0.
abbrev IsApart : ShortestPath → Type 0
IsApart (backward d) = 0 < d
IsApart _ = Unit

compute-IsApart : (from to : ℕ) → from < 65536 → to < 65536 → IsApart (compute from to)
unfolding compute
compute-IsApart from to h k = ground arith

is_duplicate_on :
    (f : DuplicateFilter) (n : ℕ)
    → f.initialized ≡ true
    → is_duplicate f n ≡ duplicate_at (compute f.head n) f n
unfolding is_duplicate
is_duplicate_on f n on = rw on refl

is_duplicate_off :
    (f : DuplicateFilter) (n : ℕ)
    → f.initialized ≡ false
    → is_duplicate f n ≡ (false, record f { head = n; initialized = true })
unfolding is_duplicate
is_duplicate_off f n off = rw off refl

is_duplicate_head :
    (f : DuplicateFilter) (n : ℕ)
    → f.initialized ≡ true
    → f.head ≡ n
    → n < 65536
    → (is_duplicate f n).0 ≡ true
unfolding duplicate_at
is_duplicate_head f n on e h = rw (is_duplicate_on f n on, e, compute_self n h) refl

backward_twice :
    (f : DuplicateFilter) (n d : ℕ)
    → compute f.head n ≡ backward d
    → 0 < d
    → f.initialized ≡ true
    → (b b' : Bool) → ltb capacity d ≡ b
    → is_marked f.history (d - 1) ≡ b'
    → (is_duplicate (duplicate_at (backward d) f n).1 n).0 ≡ true
unfolding duplicate_at
backward_twice f n d e p on true b' c c' =
    rw c (rw (is_duplicate_on f n on, e, duplicate_at, c) refl)
backward_twice f n d e p on false true c c' =
    rw (c, c') (rw (is_duplicate_on f n on, e, duplicate_at, c, c') refl)
backward_twice f n d e p on false false c c' =
    rw (c, c')
      (rw
        (
          is_duplicate_on (record f { history = mark f.history (d - 1) }) n on,
          e,
          duplicate_at,
          c,
          mark-is_marked f.history (d - 1) (ground arith),
        )
        refl)

twice_at :
    (f : DuplicateFilter) (n : ℕ) (p : ShortestPath)
    → compute f.head n ≡ p
    → IsApart p
    → f.initialized ≡ true
    → n < 65536
    → (is_duplicate (duplicate_at p f n).1 n).0 ≡ true
unfolding duplicate_at
twice_at f n coincident e a on h = rw (is_duplicate_on f n on, e) refl
twice_at f n (forward d) e a on h = is_duplicate_head _ n on refl h
twice_at f n (backward d) e a on h = backward_twice f n d e a on _ _ refl refl

-- A number that the filter was given, in any state whose head is in `u16`, is a duplicate if it is given
-- again at once.
pub is_duplicate_twice :
    (f : DuplicateFilter) (n : ℕ)
    → f.head < 65536
    → n < 65536
    → (is_duplicate (is_duplicate f n).1 n).0 ≡ true
is_duplicate_twice f n k h = elim (Bool-cases f.initialized) [
  | inl on ↦
      rw (is_duplicate_on f n on)
        (twice_at f n (compute f.head n) refl (compute-IsApart f.head n k h) on h)
  | inr off ↦ rw (is_duplicate_off f n off) (is_duplicate_head _ n refl refl h)
]
