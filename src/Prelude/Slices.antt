-- ===== src/Prelude/Slices.antt =====
-- Reading a buffer after a write: the written bytes, and the bytes before and behind them.
use Prim.Native.Nat.{ℕ, zero, suc, ◌+◌, ◌-◌, ◌≤◌}
use mathlib.Core.Path.{◌≡◌, refl, sym, ◌∙◌}
use mathlib.Core.List.{List, [], ◌∷◌, ◌++◌}
use native.Mathlib.Omega.{arith}
use native.Mathlib.Nat.{zero-add, suc-add}
use leo_dos.Prelude.{
  false, ◌⊎◌, inl, inr, ap, ltb, Bool-cases, length, take, drop, slice, copy_at, length-append,
}

module _ {ℓ} {A : Type ℓ} where
  -- Writing `ys` at `off`, by recursion.
  write_over : List A → ℕ → List A → List A
  write_over xs zero ys = ys ++ drop (length ys) xs
  write_over [] (suc off) ys = ys ++ []
  write_over (x ∷ xs) (suc off) ys = x ∷ write_over xs off ys

  drop-nil : (n : ℕ) → drop {A = A} n [] ≡ []
  drop-nil zero = refl
  drop-nil (suc n) = refl

  pub length-drop : (n : ℕ) (xs : List A) → length (drop n xs) ≡ length xs - n
  length-drop zero xs = omega arith
  length-drop (suc n) [] = omega arith
  length-drop (suc n) (x ∷ xs) = omega (arith, length-drop n xs)

  write_over-eq :
      (xs : List A) (off : ℕ) (ys : List A)
      → take off xs ++ (ys ++ drop (off + length ys) xs) ≡ write_over xs off ys
  unfolding write_over
  write_over-eq xs zero ys = rw zero-add
  write_over-eq [] (suc off) ys = rw drop-nil
  write_over-eq (x ∷ xs) (suc off) ys = rw suc-add (ap (λ t. x ∷ t) (write_over-eq xs off ys))

  -- A write that does not fit, and one that does.
  copy_at-cases :
      (xs : List A) (off : ℕ) (ys : List A)
      → (copy_at xs off ys ≡ xs)
        ⊎ (off + length ys ≤ length xs) × (copy_at xs off ys ≡ write_over xs off ys)
  copy_at-cases xs off ys = elim (Bool-cases (ltb (length xs) (off + length ys))) [
    | inl full ↦ rw full (inl refl)
    | inr fits ↦ rw fits (inr (ground (arith, fits), write_over-eq xs off ys))
  ]

  copy_at-eq :
      (xs : List A) (off : ℕ) (ys : List A)
      → off + length ys ≤ length xs
      → copy_at xs off ys ≡ write_over xs off ys
  copy_at-eq xs off ys h =
      let fits : ltb (length xs) (off + length ys) ≡ false = ground arith in
      rw fits (write_over-eq xs off ys)

  -- A write at the start of a buffer.
  pub copy_at-start :
      (xs ys : List A) → length ys ≤ length xs → copy_at xs 0 ys ≡ ys ++ drop (length ys) xs
  unfolding write_over
  copy_at-start xs ys h = copy_at-eq xs 0 ys (omega arith)

  take-append_self : (ys zs : List A) → take (length ys) (ys ++ zs) ≡ ys
  take-append_self [] zs = refl
  take-append_self (y ∷ ys) zs = ap (λ t. y ∷ t) (take-append_self ys zs)

  write_over_read :
      (xs : List A) (off : ℕ) (ys : List A)
      → off ≤ length xs
      → slice (write_over xs off ys) off (length ys) ≡ ys
  unfolding write_over
  write_over_read xs zero ys h = take-append_self ys (drop (length ys) xs)
  write_over_read [] (suc off) ys h = absurd (omega arith)
  write_over_read (x ∷ xs) (suc off) ys h = write_over_read xs off ys (omega arith)

  -- The bytes that were written are read back.
  pub slice-copy_at_self :
      (xs : List A) (off : ℕ) (ys : List A)
      → off + length ys ≤ length xs
      → slice (copy_at xs off ys) off (length ys) ≡ ys
  slice-copy_at_self xs off ys h =
      ap (λ l. slice l off (length ys)) (copy_at-eq xs off ys h)
      ∙ write_over_read xs off ys (omega arith)

  take-write_over :
      (xs : List A) (off : ℕ) (ys : List A) (n : ℕ)
      → n ≤ off
      → off ≤ length xs
      → take n (write_over xs off ys) ≡ take n xs
  unfolding write_over
  take-write_over xs off ys zero h l = refl
  take-write_over xs zero ys (suc n) h l = absurd (omega arith)
  take-write_over [] (suc off) ys (suc n) h l = absurd (omega arith)
  take-write_over (x ∷ xs) (suc off) ys (suc n) h l =
      ap (λ t. x ∷ t) (take-write_over xs off ys n (omega arith) (omega arith))

  slice-write_over :
      (xs : List A) (off : ℕ) (ys : List A) (o n : ℕ)
      → o + n ≤ off
      → off ≤ length xs
      → slice (write_over xs off ys) o n ≡ slice xs o n
  unfolding write_over
  slice-write_over xs off ys zero n h l = take-write_over xs off ys n (omega arith) l
  slice-write_over xs zero ys (suc o) n h l = absurd (omega arith)
  slice-write_over [] (suc off) ys (suc o) n h l = absurd (omega arith)
  slice-write_over (x ∷ xs) (suc off) ys (suc o) n h l =
      slice-write_over xs off ys o n (omega arith) (omega arith)

  -- What ends at or before the write is read as before.
  pub slice-copy_at_before :
      (xs : List A) (off : ℕ) (ys : List A) (o n : ℕ)
      → o + n ≤ off
      → off ≤ length xs
      → slice (copy_at xs off ys) o n ≡ slice xs o n
  slice-copy_at_before xs off ys o n h l = elim (copy_at-cases xs off ys) [
    | inl same ↦ ap (λ t. slice t o n) same
    | inr (fits, over) ↦ ap (λ t. slice t o n) over ∙ slice-write_over xs off ys o n h l
  ]

  length-write_over :
      (xs : List A) (off : ℕ) (ys : List A)
      → off + length ys ≤ length xs
      → length (write_over xs off ys) ≡ length xs
  unfolding write_over
  length-write_over xs zero ys h =
      omega (arith, length-append ys (drop (length ys) xs), length-drop (length ys) xs)
  length-write_over [] (suc off) ys h = absurd (omega arith)
  length-write_over (x ∷ xs) (suc off) ys h = ap suc (length-write_over xs off ys (omega arith))

  -- A write keeps the length of the buffer.
  pub length-copy_at :
      (xs : List A) (off : ℕ) (ys : List A) → length (copy_at xs off ys) ≡ length xs
  length-copy_at xs off ys = elim (copy_at-cases xs off ys) [
    | inl same ↦ ap length same
    | inr (fits, over) ↦ ap length over ∙ length-write_over xs off ys fits
  ]

  pub drop-drop : (k n : ℕ) (xs : List A) → drop k (drop n xs) ≡ drop (n + k) xs
  drop-drop k zero xs = rw zero-add
  drop-drop k (suc n) [] = drop-nil k ∙ sym (drop-nil (suc n + k))
  drop-drop k (suc n) (x ∷ xs) = rw suc-add (drop-drop k n xs)

  drop-append : (k : ℕ) (ys zs : List A) → drop (length ys + k) (ys ++ zs) ≡ drop k zs
  drop-append k [] zs = rw zero-add
  drop-append k (y ∷ ys) zs = rw suc-add (drop-append k ys zs)

  drop-write_over :
      (xs : List A) (off : ℕ) (ys : List A) (k : ℕ)
      → off ≤ length xs
      → drop (off + (length ys + k)) (write_over xs off ys) ≡ drop (off + (length ys + k)) xs
  unfolding write_over
  drop-write_over xs zero ys k l =
      rw zero-add (drop-append k ys (drop (length ys) xs) ∙ drop-drop k (length ys) xs)
  drop-write_over [] (suc off) ys k l = absurd (omega arith)
  drop-write_over (x ∷ xs) (suc off) ys k l = rw suc-add (drop-write_over xs off ys k (omega arith))

  pub length-take : (n : ℕ) (xs : List A) → n ≤ length xs → length (take n xs) ≡ n
  length-take zero xs h = refl
  length-take (suc n) [] h = absurd (omega arith)
  length-take (suc n) (x ∷ xs) h = ap suc (length-take n xs (omega arith))

  -- What starts behind the write is read as before.
  pub slice-copy_at_after :
      (xs : List A) (off : ℕ) (ys : List A) (o n : ℕ)
      → off + length ys ≤ o
      → off ≤ length xs
      → slice (copy_at xs off ys) o n ≡ slice xs o n
  slice-copy_at_after xs off ys o n h l =
      let at : off + (length ys + (o - (off + length ys))) ≡ o = omega arith in
      elim (copy_at-cases xs off ys) [
        | inl same ↦ ap (λ t. slice t o n) same
        | inr (fits, over) ↦
            ap (λ t. slice t o n) over
            ∙ ap (take n) (rw at at (drop-write_over xs off ys (o - (off + length ys)) l))
      ]

  pub length-slice : (xs : List A) (o n : ℕ) → o + n ≤ length xs → length (slice xs o n) ≡ n
  length-slice xs zero n h = length-take n xs (omega arith)
  length-slice [] (suc o) n h = absurd (omega arith)
  length-slice (x ∷ xs) (suc o) n h = length-slice xs o n (omega arith)
