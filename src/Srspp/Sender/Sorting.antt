-- ===== src/Srspp/Sender/Sorting.antt =====
-- The live slots in the order of their places, as `compact` takes them.
use native.Mathlib.Nat.{zero-add}
use leo_dos.Prelude.{
  ℕ, suc, ◌+◌, ◌≤◌, ◌<◌, ◌≡◌, refl, sym, ap, ◌∙◌, ◌≢◌, ◌⊎◌, inl, inr, true, false, List, [], ◌∷◌,
  arith, ltb, ◌==◌, tests, Bool-cases, length, All, All-map, All-zip,
}
use leo_dos.Srspp.Sender.State.{is_live, PacketMeta}
use leo_dos.Srspp.Sender.Queue.{slot, insert_index, live_indices}
use leo_dos.Srspp.Sender.Layout.{In, Before, Spread, All-In, All-of_In}

-- Two slots share no byte.
abbrev pub Disjoint : PacketMeta → PacketMeta → Type 0
Disjoint s t = Before s t ⊎ (t.offset + t.len ≤ s.offset)

swap : (i k : ℕ) → suc i + k ≡ i + suc k
swap i k = omega arith

before : (s t : PacketMeta) → s.offset ≤ t.offset → Disjoint s t → Before s t
before s t h d = ground arith

module _ (meta : List PacketMeta) where
  abbrev pub IsLive : ℕ → Type 0
  IsLive j = (j < length meta) × (is_live (slot meta j).state ≡ true)

  abbrev pub Sorted : List ℕ → Type 0
  Sorted [] = Unit
  Sorted (i ∷ is) =
      All (λ j. (i ≢ j) × ((slot meta i).offset ≤ (slot meta j).offset)) is × Sorted is

  All-insert {ℓ} :
      (P : ℕ → Type ℓ) (i : ℕ) (is : List ℕ) → P i → All P is → All P (insert_index meta i is)
  unfolding insert_index
  All-insert P i [] p a = (p, tt)
  All-insert P i (j ∷ js) p a = elim (Bool-cases (ltb (slot meta i).offset (slot meta j).offset)) [
    | inl e ↦ rw e (p, (a.0, a.1))
    | inr e ↦ rw e (a.0, All-insert P i js p a.1)
  ]

  insert_has : (i : ℕ) (is : List ℕ) (j : ℕ) → (j ≡ i) ⊎ In j is → In j (insert_index meta i is)
  unfolding insert_index
  insert_has i [] j h = ground arith
  insert_has i (k ∷ ks) j h = elim (Bool-cases (ltb (slot meta i).offset (slot meta k).offset)) [
    | inl e ↦ rw e h
    | inr e ↦ rw e (elim h [
      | inl same ↦ inr (insert_has i ks j (inl same))
      | inr (inl here) ↦ inl here
      | inr (inr there) ↦ inr (insert_has i ks j (inr there))
    ])
  ]

  Sorted-insert :
      (i : ℕ) (is : List ℕ) → All (λ j. i ≢ j) is → Sorted is → Sorted (insert_index meta i is)
  unfolding insert_index
  Sorted-insert i [] a s = (tt, tt)
  Sorted-insert i (j ∷ js) a s = elim (Bool-cases (ltb (slot meta i).offset (slot meta j).offset)) [
    | inl e ↦ rw e (
      (
        (a.0, omega (tests, e)),
        All-zip (λ k. i ≢ k) (λ k. (j ≢ k) × ((slot meta j).offset ≤ (slot meta k).offset)) _ js
            (λ k n h. (n, omega (tests, e, h.1))) a.1 s.0,
      ),
      s,
    )
    | inr e ↦ rw e (
      All-insert (λ k. (j ≢ k) × ((slot meta j).offset ≤ (slot meta k).offset)) i js
          ((λ h. a.0 (sym h)), ground arith) s.0,
      Sorted-insert i js a.1 s.1,
    )
  ]

  pub record Indices (i : ℕ) (is : List ℕ) : Type 0 where
    pub below : All (λ j. (j < i) × IsLive j) is
    pub sorted : Sorted is
    pub complete : (j : ℕ) → j < i → IsLive j → In j is

  Indices-insert :
      (i : ℕ) (is : List ℕ) → IsLive i → Indices i is → Indices (suc i) (insert_index meta i is)
  Indices-insert i is l v = record {
    below =
        All-insert _ i is (omega arith, l)
          (All-map (λ j. (j < i) × IsLive j) _ is (λ j h. (omega (arith, h.0), h.1)) v.below);
    sorted =
        Sorted-insert i is
          (All-map (λ j. (j < i) × IsLive j) (λ j. i ≢ j) is (λ j h e. omega (arith, h.0, e))
            v.below)
          v.sorted;
    complete = λ j h k. elim (Bool-cases (j == i)) [
      | inl e ↦ insert_has i is j (inl (ground arith))
      | inr e ↦ insert_has i is j (inr (v.complete j (ground arith) k))
    ];
  }

  Indices-skip :
      (i : ℕ) (is : List ℕ)
      → is_live (slot meta i).state ≡ false
      → Indices i is
      → Indices (suc i) is
  Indices-skip i is l v = record {
    below = All-map (λ j. (j < i) × IsLive j) _ is (λ j h. (omega (arith, h.0), h.1)) v.below;
    sorted = v.sorted;
    complete = λ j h k. elim (Bool-cases (j == i)) [
      | inl e ↦ absurd (dead j (ground arith) k.1)
      | inr e ↦ v.complete j (ground arith) k
    ];
  }
    where
      dead : (j : ℕ) → j ≡ i → is_live (slot meta j).state ≡ true → ⊥
      dead j e h = ground arith

  -- `rest` is what is left of the slots from `i` on.
  live_indices-Indices :
      (i : ℕ) (rest : List PacketMeta) (is : List ℕ)
      → ((k : ℕ) → slot meta (i + k) ≡ slot rest k)
      → i + length rest ≡ length meta
      → Indices i is
      → Indices (length meta) (live_indices meta i rest is)
  unfolding live_indices slot
  live_indices-Indices i [] is f e v = let end : length meta ≡ i = omega (arith, e) in rw end v
  live_indices-Indices i (s ∷ rest) is f e v =
      let at_here : i ≡ i + 0 = omega arith in
      let here : slot meta i ≡ s = ap (slot meta) at_here ∙ f 0 in
      elim (Bool-cases (is_live s.state)) [
        | inl l ↦ rw l (
            live_indices-Indices (suc i) rest (insert_index meta i is) (later f) (omega (arith, e))
              (Indices-insert i is (omega (arith, e), rw here l) v))
        | inr l ↦ rw l (
            live_indices-Indices (suc i) rest is (later f) (omega (arith, e))
              (Indices-skip i is (rw here l) v))
      ]
    where
      later :
          ((k : ℕ) → slot meta (i + k) ≡ slot (s ∷ rest) k)
          → (k : ℕ) → slot meta (suc i + k) ≡ slot rest k
      later g k = ap (slot meta) (swap i k) ∙ g (suc k)

  -- So `compact` takes each live slot once, by ascending place.
  pub all_live : Indices (length meta) (live_indices meta 0 meta [])
  all_live =
      live_indices-Indices 0 meta [] (λ k. ap (slot meta) (zero-add k)) (omega arith)
        (record { below = tt; sorted = tt; complete = λ j h k. absurd (omega arith) })

  pub Sorted-Spread :
      (is : List ℕ)
      → Sorted is
      → ((i j : ℕ) → In i is → In j is → i ≢ j → Disjoint (slot meta i) (slot meta j))
      → Spread meta is
  Sorted-Spread [] s d = tt
  Sorted-Spread (i ∷ is) s d = (
    All-of_In _ is (λ j h.
        let (apart, le) =
          All-In (λ k. (i ≢ k) × ((slot meta i).offset ≤ (slot meta k).offset)) is j s.0 h in
        (apart, before (slot meta i) (slot meta j) le (d i j (inl refl) (inr h) apart))),
    Sorted-Spread is s.1 (λ j k h l. d j k (inr h) (inr l)),
  )
