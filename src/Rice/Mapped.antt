-- ===== src/Rice/Mapped.antt =====
-- The decoder's mapping behind the encoder's
-- (crates/leodos-protocols/src/application/compression/rice.rs).
use leo_dos.Prelude.{ℕ, suc, ◌^◌, ◌≤◌, ◌<◌, ◌≡◌, refl, ap, ◌∙◌, List, [], ◌∷◌, arith, length, All}
use leo_dos.Rice.Mapper.{minus, plus, as_u32, map_error, unmap_error, map_from, reconstruct}

-- The prediction error of a sample, mapped and unmapped, is the error again, where the sample and
-- its prediction are at most x_max.
pub unmap_error-map_error :
    (x x_hat x_max : ℕ)
    → x ≤ x_max
    → x_hat ≤ x_max
    → unmap_error (map_error (minus x x_hat) x_hat x_max) x_hat x_max ≡ minus x x_hat
unfolding unmap_error map_error minus
unmap_error-map_error x x_hat x_max h l = ground arith

map_error-le :
    (x x_hat x_max : ℕ) → x ≤ x_max → x_hat ≤ x_max → map_error (minus x x_hat) x_hat x_max ≤ x_max
unfolding map_error minus
map_error-le x x_hat x_max h l = ground arith

as_u32-plus-minus : (x prev : ℕ) → x < 2 ^ 32 → as_u32 (plus prev (minus x prev)) ≡ x
unfolding as_u32 plus minus
as_u32-plus-minus x prev h = ground arith

module _ (x_max : ℕ) (bound : x_max < 2 ^ 32) where
  pub reconstruct-map_from :
      (prev : ℕ) (xs : List ℕ)
      → prev ≤ x_max
      → All (λ x. x ≤ x_max) xs
      → reconstruct x_max prev (map_from x_max prev xs) ≡ xs
  unfolding reconstruct map_from
  reconstruct-map_from prev [] p h = refl
  reconstruct-map_from prev (x ∷ xs) p h =
      let same : as_u32 (plus prev (unmap_error (map_error (minus x prev) prev x_max) prev x_max))
          ≡ x =
        ap (λ z. as_u32 (plus prev z)) (unmap_error-map_error x prev x_max h.0 p)
        ∙ as_u32-plus-minus x prev (omega (arith, bound, h.0)) in
      ap (λ s. s ∷ reconstruct x_max s (map_from x_max x xs)) same
      ∙ ap (λ t. x ∷ t) (reconstruct-map_from x xs h.0 h.1)

  pub map_from-All :
      (prev : ℕ) (xs : List ℕ)
      → prev ≤ x_max
      → All (λ x. x ≤ x_max) xs
      → All (λ d. d ≤ x_max) (map_from x_max prev xs)
  unfolding map_from
  map_from-All prev [] p h = tt
  map_from-All prev (x ∷ xs) p h = (map_error-le x prev x_max h.0 p, map_from-All x xs h.0 h.1)

pub length-map_from : (x_max prev : ℕ) (xs : List ℕ) → length (map_from x_max prev xs) ≡ length xs
unfolding map_from
length-map_from x_max prev [] = refl
length-map_from x_max prev (x ∷ xs) = ap suc (length-map_from x_max x xs)
