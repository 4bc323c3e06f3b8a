-- ===== src/Srspp/Sender/Compact.antt =====
-- The invariant of the send buffer, and the payloads over `compact`.
use leo_dos.Prelude.{
  ℕ, suc, ◌+◌, ◌≤◌, ◌<◌, ◌≡◌, refl, sym, ap, ◌∙◌, ◌≢◌, inl, inr, true, ◌&&◌, Option, none, some,
  List, [], ◌∷◌, arith, ◌==◌, Bool-cases, length,
}
use leo_dos.Isl.Address.{parse}
use leo_dos.Srspp.Sender.State.{is_live, PacketMeta, SenderMachine, PayloadInfo}
use leo_dos.Srspp.Sender.Queue.{
  slot, find_meta, payload_info, get_payload, live_indices, shift_all, compact_with, compact,
}
use leo_dos.Srspp.Sender.Layout.{payload, In, In-or_not, Spread, Before, Moved, All-In, All-of_In}
use leo_dos.Srspp.Sender.Moving.{
  Ready, shift_all-other, shift_all-end, shift_all-Arrived, shift_all-Spread,
}
use leo_dos.Srspp.Sender.Sorting.{Disjoint, IsLive, Indices, all_live, Sorted-Spread}

-- The payloads of the live slots stand below the write position, which stands in the buffer, and
-- share no byte.
pub record IsValid (m : SenderMachine) : Type 0 where
  pub within :
      (j : ℕ) → IsLive m.meta j → (slot m.meta j).offset + (slot m.meta j).len ≤ m.write_pos
  pub room : m.write_pos ≤ length m.data_buf
  pub apart :
      (i j : ℕ)
      → IsLive m.meta i
      → IsLive m.meta j
      → i ≢ j
      → Disjoint (slot m.meta i) (slot m.meta j)

-- A slot before and after: at most its place changed, and if it is live, its bytes did not.
abbrev pub Same : List ℕ → List ℕ → PacketMeta → PacketMeta → Type 0
Same before after s t = Moved s t × ((is_live s.state ≡ true) → payload after t ≡ payload before s)

payload_info-Same :
    (before after : List ℕ) (s t : PacketMeta)
    → Same before after s t
    → is_live s.state ≡ true
    → payload_info after t ≡ payload_info before s
unfolding payload_info
payload_info-Same before after s t h l =
    let bytes = h.1 l in
    let moved = h.0 in
    λ i. record {
      seq = (moved i).seq;
      flags = (moved i).flags;
      target = parse (moved i).target;
      payload = bytes i;
      is_eos = (moved i).is_eos;
    }

-- What `get_payload` makes of the slots.
abbrev pub info_of : List ℕ → Option PacketMeta → Option PayloadInfo
info_of data_buf none = none
info_of data_buf (some s) = some (payload_info data_buf s)

pub info_of-find :
    (m : SenderMachine) (seq : ℕ) → get_payload m seq ≡ info_of m.data_buf (find_meta seq m.meta)
unfolding get_payload
info_of-find m seq = ground arith

pub find_meta-Same :
    (before after : List ℕ) (seq : ℕ) (ss ts : List PacketMeta)
    → length ts ≡ length ss
    → ((j : ℕ) → j < length ss → Same before after (slot ss j) (slot ts j))
    → info_of after (find_meta seq ts) ≡ info_of before (find_meta seq ss)
unfolding find_meta slot
find_meta-Same before after seq [] [] e f = refl
find_meta-Same before after seq [] (t ∷ ts) e f = absurd (omega (arith, e))
find_meta-Same before after seq (s ∷ ss) [] e f = absurd (omega (arith, e))
find_meta-Same before after seq (s ∷ ss) (t ∷ ts) e f =
    let head = f 0 (omega arith) in
    let matches : (is_live t.state && t.seq == seq) ≡ (is_live s.state && s.seq == seq) =
      ap (λ x. is_live x.state && x.seq == seq) head.0 in
    elim (Bool-cases (is_live s.state && s.seq == seq)) [
      | inl here ↦
          rw (matches ∙ here, here)
            (ap some (payload_info-Same before after s t head (ground arith)))
      | inr there ↦
          rw (matches ∙ there, there)
            (find_meta-Same before after seq ss ts (omega (arith, e))
              (λ j h. f (suc j) (omega (arith, h))))
    ]

compact_with-eq :
    (m : SenderMachine) (is : List ℕ)
    → compact_with m is ≡ record m {
      meta = (shift_all is 0 m.meta m.data_buf).0;
      data_buf = (shift_all is 0 m.meta m.data_buf).1;
      write_pos = (shift_all is 0 m.meta m.data_buf).2;
    }
unfolding compact_with shift_all
compact_with-eq m [] = refl
compact_with-eq m (i ∷ is) = refl

reversed : (s t : PacketMeta) → Before s t → Disjoint t s
reversed s t (inl h) = inl (inr (inl h))
reversed s t (inr (inl h)) = inl (inl h)
reversed s t (inr (inr h)) = inr h

Spread-Disjoint :
    (meta : List PacketMeta) (is : List ℕ) (i j : ℕ)
    → In i is
    → In j is
    → i ≢ j
    → Spread meta is
    → Disjoint (slot meta i) (slot meta j)
Spread-Disjoint meta [] i j h k n s = elim h [ ]
Spread-Disjoint meta (x ∷ is) i j (inl e) (inl f) n s = absurd (n (e ∙ sym f))
Spread-Disjoint meta (x ∷ is) i j (inl e) (inr k) n s =
    rw e (inl (All-In (λ y. (x ≢ y) × Before (slot meta x) (slot meta y)) is j s.0 k).1)
Spread-Disjoint meta (x ∷ is) i j (inr h) (inl f) n s =
    let b = (All-In (λ y. (x ≢ y) × Before (slot meta x) (slot meta y)) is i s.0 h).1 in
    rw f (reversed (slot meta x) (slot meta i) b)
Spread-Disjoint meta (x ∷ is) i j (inr h) (inr k) n s = Spread-Disjoint meta is i j h k n s.1

-- `compact` over its sorted indices.
pub record Compacted (m m' : SenderMachine) : Type 0 where
  pub valid : IsValid m'
  pub same :
      (j : ℕ) → j < length m.meta → Same m.data_buf m'.data_buf (slot m.meta j) (slot m'.meta j)
  pub count : length m'.meta ≡ length m.meta
  pub size : length m'.data_buf ≡ length m.data_buf
  pub next : m'.next_seq ≡ m.next_seq
  pub settings : m'.config ≡ m.config

module _ (m : SenderMachine) (v : IsValid m) (is : List ℕ)
    (all : Indices m.meta (length m.meta) is) where
  live_at : (j : ℕ) → In j is → IsLive m.meta j
  live_at j h = (All-In (λ k. (k < length m.meta) × IsLive m.meta k) is j all.below h).1

  ready : Ready m.write_pos is 0 m.meta m.data_buf
  ready = record {
    held = All-of_In _ is (λ j h. ((live_at j h).0, v.within j (live_at j h), inr (omega arith)));
    spread =
        Sorted-Spread m.meta is all.sorted (λ i j h k n. v.apart i j (live_at i h) (live_at j k) n);
    behind = omega arith;
    room = v.room;
  }

  shifted-Same :
      (j : ℕ)
      → j < length m.meta
      → Same m.data_buf
          (shift_all is 0 m.meta m.data_buf).1
          (slot m.meta j)
          (slot (shift_all is 0 m.meta m.data_buf).0 j)
  shifted-Same j h = elim (In-or_not j is) [
    | inl k ↦
        let a = shift_all-Arrived m.write_pos is 0 m.meta m.data_buf j ready k in
        (a.moved, λ l. a.bytes)
    | inr k ↦
        let same = shift_all-other m.write_pos is 0 m.meta m.data_buf j k in
        (rw same refl, λ l. absurd (k (all.complete j h (h, l))))
  ]

  Same-live :
      (j : ℕ)
      → j < length m.meta
      → is_live (slot (shift_all is 0 m.meta m.data_buf).0 j).state ≡ true
      → In j is
  Same-live j h l =
      let same = ap (λ s. is_live s.state) (shifted-Same j h).0 in
      all.complete j h (h, sym same ∙ l)

  shifted-Compacted : Compacted m (record m {
    meta = (shift_all is 0 m.meta m.data_buf).0;
    data_buf = (shift_all is 0 m.meta m.data_buf).1;
    write_pos = (shift_all is 0 m.meta m.data_buf).2;
  })
  shifted-Compacted =
      let end = shift_all-end m.write_pos is 0 m.meta m.data_buf ready in
      let spread = shift_all-Spread m.write_pos is 0 m.meta m.data_buf ready in
      record {
        valid = record {
          within = λ j h.
              (shift_all-Arrived m.write_pos is 0 m.meta m.data_buf j ready
                (Same-live j (omega (arith, h.0, end.3)) h.1)).to_bound;
          room = omega (arith, end.1, end.2, v.room);
          apart = λ i j h k n.
              Spread-Disjoint _ is i j (Same-live i (omega (arith, h.0, end.3)) h.1)
                (Same-live j (omega (arith, k.0, end.3)) k.1) n spread;
        };
        same = shifted-Same;
        count = end.3;
        size = end.2;
        next = refl;
        settings = refl;
      }

-- `compact` keeps the layout valid and, but for the places, every slot.
pub compact-Compacted : (m : SenderMachine) → IsValid m → Compacted m (compact m)
unfolding compact
compact-Compacted m v =
    rw (compact_with-eq m (live_indices m.meta 0 m.meta []))
      (shifted-Compacted m v (live_indices m.meta 0 m.meta []) (all_live m.meta))

-- On a valid machine, `compact` changes no payload: `get_payload` returns for every sequence number
-- what it returned.
pub get_payload-compact :
    (m : SenderMachine) (seq : ℕ) → IsValid m → get_payload (compact m) seq ≡ get_payload m seq
unfolding get_payload
get_payload-compact m seq v =
    let c = compact-Compacted m v in
    info_of-find (compact m) seq
    ∙ find_meta-Same m.data_buf (compact m).data_buf seq m.meta (compact m).meta c.count c.same
    ∙ sym (info_of-find m seq)
