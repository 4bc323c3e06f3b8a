-- ===== src/Isl/Torus/Axis.antt =====
-- One circular axis of the torus: steps and distances.
use leo_dos.Prelude.{ℕ, ◌+◌, ◌-◌, ◌≤◌, ◌<◌, min, ◌≡◌, ◌≢◌, ◌⊎◌, arith}
use leo_dos.Isl.Torus.{next, prev, distance}

-- The hops between two places of a ring, the shorter way round.
unfoldable pub circular : ℕ → ℕ → ℕ → ℕ
unfolding distance
circular n i j = min (distance i j n) (distance j i n)

module _ (n : ℕ) (n_byte : n < 256) where
  pub next-< : (i : ℕ) → i < n → next i n < n
  unfolding next
  next-< i i_lt = ground arith

  pub prev-< : (i : ℕ) → i < n → prev i n < n
  unfolding prev
  prev-< i i_lt = ground arith

  pub prev-next : (i : ℕ) → i < n → prev (next i n) n ≡ i
  unfolding next prev
  prev-next i i_lt = ground arith

  pub next-prev : (i : ℕ) → i < n → next (prev i n) n ≡ i
  unfolding next prev
  next-prev i i_lt = ground arith

  pub circular-next : (i j : ℕ) → i < n → j < n → circular n i j ≤ circular n (next i n) j + 1
  unfolding next circular
  circular-next i j i_lt j_lt = ground arith

  pub circular-prev : (i j : ℕ) → i < n → j < n → circular n i j ≤ circular n (prev i n) j + 1
  unfolding prev circular
  circular-prev i j i_lt j_lt = ground arith

  -- The two ways round the ring add up to it.
  pub distance_cases :
      (i j : ℕ)
      → i < n
      → j < n
      → i ≢ j
      → (i < j) × (distance i j n ≡ j - i) × (distance j i n ≡ n - (j - i))
        ⊎ (j < i) × (distance i j n ≡ n - (i - j)) × (distance j i n ≡ i - j)
  unfolding distance
  distance_cases i j i_lt j_lt i≢j = ground arith

  pub circular_closer_prev :
      (i j : ℕ)
      → i < n
      → j < n
      → i ≢ j
      → distance j i n < distance i j n
      → circular n (prev i n) j + 1 ≡ circular n i j
  unfolding prev distance circular
  circular_closer_prev i j i_lt j_lt i≢j h = ground arith

  pub circular_closer_next :
      (i j : ℕ)
      → i < n
      → j < n
      → i ≢ j
      → distance i j n ≤ distance j i n
      → circular n (next i n) j + 1 ≡ circular n i j
  unfolding next distance circular
  circular_closer_next i j i_lt j_lt i≢j h = ground arith
