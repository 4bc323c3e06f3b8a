-- ===== src/Srspp/Sender/Moving.antt =====
-- What the loop of `compact` that moves payloads does
-- (crates/leodos-protocols/src/transport/srspp/machine/sender.rs, compact).
use leo_dos.Prelude.{
  ℕ, ◌+◌, ◌≤◌, ◌≡◌, refl, sym, ap, ◌∙◌, ◌≢◌, ◌⊎◌, inl, inr, List, [], ◌∷◌, arith, length, All,
  length-set, All-map, All-zip, slice,
}
use leo_dos.Srspp.Sender.State.{PacketMeta}
use leo_dos.Srspp.Sender.Queue.{slot, shift_all}
use leo_dos.Srspp.Sender.Layout.{
  All-In, All-of_In, Before, Held, In, Moved, Spread, Spread-after, held-after, held-end,
  length-shifted, moved_to, not-In, payload, shifted, shifted-after, shifted-before, shifted-here,
  slot-set_other, slot-set_same,
}

-- What one slot and one place of the buffer are after the loop.
module _ (end : ℕ) where
  pub shift_all-other :
      (is : List ℕ) (pos : ℕ) (meta : List PacketMeta) (data_buf : List ℕ) (j : ℕ)
      → ¬ In j is
      → slot (shift_all is pos meta data_buf).0 j ≡ slot meta j
  unfolding shift_all
  shift_all-other [] pos meta data_buf j n = refl
  shift_all-other (i ∷ is) pos meta data_buf j n =
      shift_all-other is (pos + (slot meta i).len) (moved_to meta i pos)
        (shifted data_buf pos (slot meta i)) j (λ h. n (inr h))
      ∙ slot-set_other meta i j (record (slot meta i) { offset = pos }) (λ e. n (inl (sym e)))

  -- What the loop needs.
  pub record Ready (is : List ℕ) (pos : ℕ) (meta : List PacketMeta) (data_buf : List ℕ)
      : Type 0 where
    pub held : All (Held meta pos end) is
    pub spread : Spread meta is
    pub behind : pos ≤ end
    pub room : end ≤ length data_buf

  -- The room for one turn, and what holds for the next.
  turn :
      (i : ℕ) (is : List ℕ) (pos : ℕ) (meta : List PacketMeta) (data_buf : List ℕ)
      → Ready (i ∷ is) pos meta data_buf
      → ((slot meta i).offset + (slot meta i).len ≤ length data_buf)
        × (pos + (slot meta i).len ≤ length data_buf)
        × Ready is
            (pos + (slot meta i).len)
            (moved_to meta i pos)
            (shifted data_buf pos (slot meta i))
  turn i is pos meta data_buf r =
      let ends : (slot meta i).offset + (slot meta i).len ≤ length data_buf =
        omega (arith, r.held.0.1, r.room) in
      let next : pos + (slot meta i).len ≤ end = held-end meta pos end i r.held.0 r.behind in
      (
        ends,
        omega (arith, next, r.room),
        record {
          held =
              All-zip (λ j. (i ≢ j) × Before (slot meta i) (slot meta j)) (Held meta pos end) _ is
                (held-after meta pos end i r.held.0) r.spread.0 r.held.1;
          spread =
              Spread-after meta pos end i r.held.0 is
                (All-map (λ j. (i ≢ j) × Before (slot meta i) (slot meta j)) (λ j. i ≢ j) is
                  (λ j h. h.0) r.spread.0)
                r.spread.1;
          behind = next;
          room =
              rw (length-shifted data_buf pos (slot meta i) ends (omega (arith, next, r.room)))
                r.room;
        },
      )

  shift_all-before :
      (is : List ℕ) (pos : ℕ) (meta : List PacketMeta) (data_buf : List ℕ) (o n : ℕ)
      → Ready is pos meta data_buf
      → o + n ≤ pos
      → slice (shift_all is pos meta data_buf).1 o n ≡ slice data_buf o n
  unfolding shift_all
  shift_all-before [] pos meta data_buf o n r h = refl
  shift_all-before (i ∷ is) pos meta data_buf o n r h =
      let (ends, room, next) = turn i is pos meta data_buf r in
      shift_all-before is (pos + (slot meta i).len) (moved_to meta i pos)
        (shifted data_buf pos (slot meta i)) o n next (omega arith)
      ∙ shifted-before data_buf pos (slot meta i) ends room o n h

  -- A slot that the loop takes: its place is new, its bytes are not.
  pub record Arrived (s t : PacketMeta) (before after : List ℕ) (pos bound : ℕ) : Type 0 where
    pub moved : Moved s t
    pub bytes : payload after t ≡ payload before s
    pub from_pos : pos ≤ t.offset
    pub to_bound : t.offset + t.len ≤ bound

  pub shift_all-end :
      (is : List ℕ) (pos : ℕ) (meta : List PacketMeta) (data_buf : List ℕ)
      → Ready is pos meta data_buf
      → (pos ≤ (shift_all is pos meta data_buf).2)
        × ((shift_all is pos meta data_buf).2 ≤ end)
        × (length (shift_all is pos meta data_buf).1 ≡ length data_buf)
        × (length (shift_all is pos meta data_buf).0 ≡ length meta)
  unfolding shift_all
  shift_all-end [] pos meta data_buf r = (omega arith, r.behind, refl, refl)
  shift_all-end (i ∷ is) pos meta data_buf r =
      let (ends, room, next) = turn i is pos meta data_buf r in
      let rest =
        shift_all-end is (pos + (slot meta i).len) (moved_to meta i pos)
          (shifted data_buf pos (slot meta i)) next in
      (
        omega (arith, rest.0),
        rest.1,
        rest.2 ∙ length-shifted data_buf pos (slot meta i) ends room,
        rest.3 ∙ length-set meta i (record (slot meta i) { offset = pos }),
      )

  turn-bytes :
      (i j : ℕ) (pos : ℕ) (meta : List PacketMeta) (data_buf : List ℕ)
      → (slot meta i).offset + (slot meta i).len ≤ length data_buf
      → pos + (slot meta i).len ≤ length data_buf
      → i ≢ j
      → Held (moved_to meta i pos) (pos + (slot meta i).len) end j
      → (slot (moved_to meta i pos) j ≡ slot meta j)
        × (payload (shifted data_buf pos (slot meta i)) (slot meta j)
            ≡ payload data_buf (slot meta j))
  turn-bytes i j pos meta data_buf ends room n h =
      let same = slot-set_other meta i j (record (slot meta i) { offset = pos }) n in
      let apart : ((slot meta j).len ≡ 0) ⊎ (pos + (slot meta i).len ≤ (slot meta j).offset) =
        rw same at h.2 in
      (
        same,
        elim apart [
          | inl zero_len ↦ rw zero_len refl
          | inr after ↦ shifted-after data_buf pos (slot meta i) ends room _ _ after
        ],
      )

  Arrived-first :
      (i : ℕ) (is : List ℕ) (pos : ℕ) (meta : List PacketMeta) (data_buf : List ℕ)
      → Ready (i ∷ is) pos meta data_buf
      → Arrived
          (slot meta i)
          (slot (shift_all (i ∷ is) pos meta data_buf).0 i)
          data_buf
          (shift_all (i ∷ is) pos meta data_buf).1
          pos
          (pos + (slot meta i).len)
  unfolding shift_all
  Arrived-first i is pos meta data_buf r =
      let (ends, room, next) = turn i is pos meta data_buf r in
      let s = slot meta i in
      let absent = not-In i is (
        All-map (λ j. (i ≢ j) × Before (slot meta i) (slot meta j)) (λ j. i ≢ j) is (λ j h. h.0)
          r.spread.0) in
      let same =
        shift_all-other is (pos + s.len) (moved_to meta i pos) (shifted data_buf pos s) i absent
        ∙ slot-set_same meta i (record s { offset = pos }) r.held.0.0 in
      rw same (record {
        moved = refl;
        bytes =
            shift_all-before is (pos + s.len) (moved_to meta i pos) (shifted data_buf pos s) pos
              s.len next (omega arith)
            ∙ shifted-here data_buf pos s ends room;
        from_pos = omega arith;
        to_bound = omega arith;
      })

  -- Every slot of the loop arrives with its bytes.
  pub shift_all-Arrived :
      (is : List ℕ) (pos : ℕ) (meta : List PacketMeta) (data_buf : List ℕ) (j : ℕ)
      → Ready is pos meta data_buf
      → In j is
      → Arrived
          (slot meta j)
          (slot (shift_all is pos meta data_buf).0 j)
          data_buf
          (shift_all is pos meta data_buf).1
          pos
          (shift_all is pos meta data_buf).2
  unfolding shift_all
  shift_all-Arrived [] pos meta data_buf j r h = elim h [ ]
  shift_all-Arrived (i ∷ is) pos meta data_buf j r (inl e) =
      let here = Arrived-first i is pos meta data_buf r in
      let (ends, room, next) = turn i is pos meta data_buf r in
      let rest =
        shift_all-end is (pos + (slot meta i).len) (moved_to meta i pos)
          (shifted data_buf pos (slot meta i)) next in
      rw e (record {
        moved = here.moved;
        bytes = here.bytes;
        from_pos = here.from_pos;
        to_bound = omega (arith, here.to_bound, rest.0);
      })
  shift_all-Arrived (i ∷ is) pos meta data_buf j r (inr h) =
      let (ends, room, next) = turn i is pos meta data_buf r in
      let a = All-In (λ k. (i ≢ k) × Before (slot meta i) (slot meta k)) is j r.spread.0 h in
      let (same, bytes) =
        turn-bytes i j pos meta data_buf ends room a.0
          (All-In (Held (moved_to meta i pos) (pos + (slot meta i).len) end) is j next.held h) in
      let there =
        shift_all-Arrived is (pos + (slot meta i).len) (moved_to meta i pos)
          (shifted data_buf pos (slot meta i)) j next h in
      record {
        moved = rw same at there.moved;
        bytes = there.bytes ∙ ap (payload (shifted data_buf pos (slot meta i))) same ∙ bytes;
        from_pos = omega (arith, there.from_pos);
        to_bound = there.to_bound;
      }

  -- And the slots are spread out as before.
  pub shift_all-Spread :
      (is : List ℕ) (pos : ℕ) (meta : List PacketMeta) (data_buf : List ℕ)
      → Ready is pos meta data_buf
      → Spread (shift_all is pos meta data_buf).0 is
  unfolding shift_all
  shift_all-Spread [] pos meta data_buf r = tt
  shift_all-Spread (i ∷ is) pos meta data_buf r =
      let (ends, room, next) = turn i is pos meta data_buf r in
      let here = Arrived-first i is pos meta data_buf r in
      let meta' = moved_to meta i pos in
      let data' = shifted data_buf pos (slot meta i) in
      (
        All-of_In _ is (λ j h.
            let there = shift_all-Arrived is (pos + (slot meta i).len) meta' data' j next h in
            (
              (All-In (λ k. (i ≢ k) × Before (slot meta i) (slot meta k)) is j r.spread.0 h).0,
              inr (inr (omega (arith, here.to_bound, there.from_pos, ap (λ s. s.len) here.moved))),
            )),
        shift_all-Spread is (pos + (slot meta i).len) meta' data' next,
      )
