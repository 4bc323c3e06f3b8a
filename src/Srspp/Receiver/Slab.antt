-- ===== src/Srspp/Receiver/Slab.antt =====
-- The bump allocator
-- (crates/leodos-protocols/src/transport/srspp/machine/receiver/utils/bump_slab.rs).
use leo_dos.Prelude.Slices.{slice-copy_at_self, slice-copy_at_before, length-copy_at}
use leo_dos.Prelude.{
  ℕ, ◌+◌, ◌≤◌, ◌<◌, ◌≡◌, refl, ◌⊎◌, inl, inr, Option, none, some, List, arith, ltb, if◌then◌else◌,
  length, replicate, slice, copy_at,
}

pub record BumpSlab : Type 0 where
  pub data_buf : List ℕ  -- `data`
  pub len : ℕ

abbrev pub new : ℕ → BumpSlab
new n = record { data_buf = replicate n 0; len = 0 }

-- The slab, and the place and length of the payload in it.
unfoldable pub alloc : BumpSlab → List ℕ → Option (BumpSlab × ℕ × ℕ)
alloc s payload =
    if ltb (length s.data_buf) (s.len + length payload)
    then none
    else some (
      record { data_buf = copy_at s.data_buf s.len payload; len = s.len + length payload },
      s.len,
      length payload,
    )

abbrev pub get : BumpSlab → ℕ → ℕ → List ℕ
get s offset len = slice s.data_buf offset len

abbrev pub clear : BumpSlab → BumpSlab
clear s = record s { len = 0 }

abbrev pub Allocated : BumpSlab → List ℕ → Option (BumpSlab × ℕ × ℕ) → Type 0
Allocated s payload none = length s.data_buf < s.len + length payload
Allocated s payload (some (s', offset, len)) =
    (s.len + length payload ≤ length s.data_buf)
    × (s'.len ≡ s.len + length payload)
    × (length s'.data_buf ≡ length s.data_buf)
    × (s.len ≤ offset)
    × (offset + len ≤ s'.len)
    × (get s' offset len ≡ payload)
    × ((o n : ℕ) → o + n ≤ s.len → get s' o n ≡ get s o n)

alloc_cases :
    (s : BumpSlab) (payload : List ℕ)
    → (length s.data_buf < s.len + length payload) × (alloc s payload ≡ none)
      ⊎ (s.len + length payload ≤ length s.data_buf)
        × (alloc s payload
            ≡ some (
              record { data_buf = copy_at s.data_buf s.len payload; len = s.len + length payload },
              s.len,
              length payload,
            ))
unfolding alloc
alloc_cases s payload = ground arith

-- A payload is refused just where it does not fit behind what is used. Else what is used goes up by
-- its length, within an array that keeps its size; its place is in that new part, where it is read
-- back; and all that was allocated before reads the same.
pub alloc-Allocated :
    (s : BumpSlab) (payload : List ℕ)
    → s.len ≤ length s.data_buf
    → Allocated s payload (alloc s payload)
alloc-Allocated s payload v = elim (alloc_cases s payload) [
  | inl full ↦ rw full.1 full.0
  | inr (fits, eq) ↦ rw eq (
    fits,
    refl,
    length-copy_at s.data_buf s.len payload,
    omega arith,
    omega arith,
    slice-copy_at_self s.data_buf s.len payload fits,
    λ o n h. slice-copy_at_before s.data_buf s.len payload o n h v,
  )
]
