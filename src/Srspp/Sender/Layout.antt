-- ===== src/Srspp/Sender/Layout.antt =====
-- The payloads in the send buffer, and how `compact` moves them.
use leo_dos.Prelude.{
  ℕ, zero, suc, ◌+◌, ◌≤◌, ◌<◌, ◌≡◌, refl, sym, ap, ◌∙◌, ◌≢◌, ◌⊎◌, inl, inr, List, [], ◌∷◌, arith,
  ◌==◌, if◌then◌else◌, ==_iff, Bool-cases, length, set, All, length-set, All-zip, slice, copy_at,
}
use leo_dos.Prelude.Slices.{
  slice-copy_at_self, slice-copy_at_before, slice-copy_at_after, length-copy_at, length-slice,
}
use leo_dos.Srspp.Sender.State.{PacketMeta}
use leo_dos.Srspp.Sender.Queue.{slot}

pub slot-set_same :
    (meta : List PacketMeta) (i : ℕ) (s : PacketMeta) → i < length meta → slot (set meta i s) i ≡ s
unfolding slot
slot-set_same [] i s h = absurd (omega arith)
slot-set_same (x ∷ meta) zero s h = refl
slot-set_same (x ∷ meta) (suc i) s h = slot-set_same meta i s (omega arith)

pub slot-set_other :
    (meta : List PacketMeta) (i j : ℕ) (s : PacketMeta)
    → i ≢ j
    → slot (set meta i s) j ≡ slot meta j
unfolding slot
slot-set_other [] i j s h = refl
slot-set_other (x ∷ meta) zero zero s h = absurd (h refl)
slot-set_other (x ∷ meta) zero (suc j) s h = refl
slot-set_other (x ∷ meta) (suc i) zero s h = refl
slot-set_other (x ∷ meta) (suc i) (suc j) s h = slot-set_other meta i j s (λ e. h (ap suc e))

-- The bytes of a slot.
abbrev pub payload : List ℕ → PacketMeta → List ℕ
payload data_buf s = slice data_buf s.offset s.len

-- An index of the list.
abbrev pub In : ℕ → List ℕ → Type 0
In j [] = ⊥
In j (i ∷ is) = (j ≡ i) ⊎ In j is

pub In-or_not : (j : ℕ) (is : List ℕ) → In j is ⊎ (¬ In j is)
In-or_not j [] = inr (λ h. h)
In-or_not j (i ∷ is) = elim (Bool-cases (j == i)) [
  | inl e ↦ inl (inl (ground arith))
  | inr e ↦ elim (In-or_not j is) [ inl h ↦ inl (inr h) | inr h ↦ inr (ground arith) ]
]

-- `All` over the indices, at one of them.
pub All-In {ℓ} : (P : ℕ → Type ℓ) (is : List ℕ) (j : ℕ) → All P is → In j is → P j
All-In P [] j a h = elim h [ ]
All-In P (i ∷ is) j a (inl e) = rw e a.0
All-In P (i ∷ is) j a (inr h) = All-In P is j a.1 h

-- The bytes of the first slot end before those of the second, or one has none.
abbrev pub Before : PacketMeta → PacketMeta → Type 0
Before s t = (s.len ≡ 0) ⊎ (t.len ≡ 0) ⊎ (s.offset + s.len ≤ t.offset)

abbrev pub Spread : List PacketMeta → List ℕ → Type 0
Spread meta [] = Unit
Spread meta (i ∷ is) = All (λ j. (i ≢ j) × Before (slot meta i) (slot meta j)) is × Spread meta is

-- The slot exists, and its bytes stand below `end`; those from `pos` on can be moved to `pos`.
abbrev pub Held : List PacketMeta → ℕ → ℕ → ℕ → Type 0
Held meta pos end i =
    (i < length meta)
    × ((slot meta i).offset + (slot meta i).len ≤ end)
    × (((slot meta i).len ≡ 0) ⊎ (pos ≤ (slot meta i).offset))

-- All but the place is the same.
abbrev pub Moved : PacketMeta → PacketMeta → Type 0
Moved s t = t ≡ record s { offset = t.offset }

abbrev pub moved_to : List PacketMeta → ℕ → ℕ → List PacketMeta
moved_to meta i pos = set meta i (record (slot meta i) { offset = pos })

-- The buffer after a turn of the loop.
abbrev pub shifted : List ℕ → ℕ → PacketMeta → List ℕ
shifted data_buf pos s =
    if pos == s.offset then data_buf else copy_at data_buf pos (slice data_buf s.offset s.len)

module _ (data_buf : List ℕ) (pos : ℕ) (s : PacketMeta) (ends : s.offset + s.len ≤ length data_buf)
    (room : pos + s.len ≤ length data_buf) where
  pub length-shifted : length (shifted data_buf pos s) ≡ length data_buf
  length-shifted = elim (Bool-cases (pos == s.offset)) [
    | inl e ↦ rw e refl
    | inr e ↦ rw e (length-copy_at data_buf pos (slice data_buf s.offset s.len))
  ]

  pub shifted-here : slice (shifted data_buf pos s) pos s.len ≡ slice data_buf s.offset s.len
  shifted-here = elim (Bool-cases (pos == s.offset)) [
    | inl e ↦ rw (e, (==_iff pos s.offset).0 e) refl
    | inr e ↦ rw e (
        let bytes = slice data_buf s.offset s.len in
        ap (λ n. slice (copy_at data_buf pos bytes) pos n)
          (sym (length-slice data_buf s.offset s.len ends))
        ∙ slice-copy_at_self data_buf pos bytes
            (omega (arith, length-slice data_buf s.offset s.len ends, room)))
  ]

  pub shifted-before :
      (o n : ℕ) → o + n ≤ pos → slice (shifted data_buf pos s) o n ≡ slice data_buf o n
  shifted-before o n h = elim (Bool-cases (pos == s.offset)) [
    | inl e ↦ rw e refl
    | inr e ↦
        rw e (slice-copy_at_before data_buf pos (slice data_buf s.offset s.len) o n h (omega arith))
  ]

  pub shifted-after :
      (o n : ℕ) → pos + s.len ≤ o → slice (shifted data_buf pos s) o n ≡ slice data_buf o n
  shifted-after o n h = elim (Bool-cases (pos == s.offset)) [
    | inl e ↦ rw e refl
    | inr e ↦ rw e (
        slice-copy_at_after data_buf pos (slice data_buf s.offset s.len) o n
          (omega (arith, length-slice data_buf s.offset s.len ends, h)) (omega arith))
  ]

pub held-end :
    (meta : List PacketMeta) (pos end i : ℕ)
    → Held meta pos end i
    → pos ≤ end
    → pos + (slot meta i).len ≤ end
held-end meta pos end i h l = ground arith

pub All-of_In {ℓ} : (P : ℕ → Type ℓ) (is : List ℕ) → ((j : ℕ) → In j is → P j) → All P is
All-of_In P [] f = tt
All-of_In P (i ∷ is) f = (f i (inl refl), All-of_In P is (λ j h. f j (inr h)))

pub not-In : (i : ℕ) (is : List ℕ) → All (λ j. i ≢ j) is → ¬ In i is
not-In i [] a h = h
not-In i (j ∷ js) a (inl e) = a.0 e
not-In i (j ∷ js) a (inr h) = not-In i js a.1 h

-- One turn: slot `i` goes to `pos`, and the others are as far apart as before.
module _ (meta : List PacketMeta) (pos end i : ℕ) (held : Held meta pos end i) where
  pub held-after :
      (j : ℕ)
      → (i ≢ j) × Before (slot meta i) (slot meta j)
      → Held meta pos end j
      → Held (moved_to meta i pos) (pos + (slot meta i).len) end j
  held-after j a h =
      rw
        (
          slot-set_other meta i j (record (slot meta i) { offset = pos }) a.0,
          length-set meta i (record (slot meta i) { offset = pos }),
        )
        (h.0, h.1, ground arith)

  Before-after :
      (j k : ℕ)
      → i ≢ j
      → i ≢ k
      → Before (slot meta j) (slot meta k)
      → Before (slot (moved_to meta i pos) j) (slot (moved_to meta i pos) k)
  Before-after j k a b h =
      rw
        (
          slot-set_other meta i j (record (slot meta i) { offset = pos }) a,
          slot-set_other meta i k (record (slot meta i) { offset = pos }) b,
        )
        h

  pub Spread-after :
      (is : List ℕ) → All (λ j. i ≢ j) is → Spread meta is → Spread (moved_to meta i pos) is
  Spread-after [] a s = tt
  Spread-after (j ∷ js) a s = (
    All-zip (λ k. i ≢ k) (λ k. (j ≢ k) × Before (slot meta j) (slot meta k)) _ js
        (λ k b h. (h.0, Before-after j k a.0 b h.1)) a.1 s.0,
    Spread-after js a.1 s.1,
  )
