-- ===== src/Prelude/Arrays.antt =====
-- A place of an array, with what stands for a place beyond it.
use Prim.Native.Nat.{ℕ, zero, suc, ◌<◌}
use mathlib.Core.Path.{◌≡◌, refl, ap}
use mathlib.Core.Logic.{◌≢◌}
use mathlib.Core.List.{List, [], ◌∷◌}
use native.Mathlib.Omega.{arith}
use leo_dos.Prelude.Lists.{length, set}

unfoldable pub item {ℓ} : {A : Type ℓ} → A → List A → ℕ → A
item d [] i = d
item d (x ∷ xs) zero = x
item d (x ∷ xs) (suc i) = item d xs i

pub item-set_same {ℓ} :
    {A : Type ℓ} (d : A) (xs : List A) (i : ℕ) (x : A) → i < length xs → item d (set xs i x) i ≡ x
unfolding item
item-set_same d [] i x h = absurd (omega arith)
item-set_same d (y ∷ xs) zero x h = refl
item-set_same d (y ∷ xs) (suc i) x h = item-set_same d xs i x (omega arith)

pub item-set_other {ℓ} :
    {A : Type ℓ} (d : A) (xs : List A) (i j : ℕ) (x : A)
    → i ≢ j
    → item d (set xs i x) j ≡ item d xs j
unfolding item
item-set_other d [] i j x h = refl
item-set_other d (y ∷ xs) zero zero x h = absurd (h refl)
item-set_other d (y ∷ xs) zero (suc j) x h = refl
item-set_other d (y ∷ xs) (suc i) zero x h = refl
item-set_other d (y ∷ xs) (suc i) (suc j) x h = item-set_other d xs i j x (λ e. h (ap suc e))
