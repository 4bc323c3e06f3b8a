-- ===== src/Srspp/Sender/Store.antt =====
-- What `queue_packet` and `queue_eos` do to the payloads that are held.
use leo_dos.Prelude.{
  ℕ, zero, suc, ◌+◌, ◌≤◌, ◌<◌, ◌≡◌, refl, sym, ap, ◌∙◌, ◌≢◌, inl, inr, Bool, true, false, ◌&&◌,
  Option, none, some, List, [], ◌∷◌, arith, ltb, ◌==◌, if◌then◌else◌, ==_iff, ==_ne, Bool-cases,
  length, set, length-set, copy_at,
}
use leo_dos.Prelude.Slices.{slice-copy_at_self, slice-copy_at_before, length-copy_at}
use leo_dos.Isl.Address.{Address, parse, from}
use leo_dos.Srspp.Sequence.{SequenceFlag}
use leo_dos.Srspp.Sender.State.{
  SenderAction, is_live, pending_transmit, PacketMeta, SenderMachine, PayloadInfo,
}
use leo_dos.Srspp.Sender.Queue.{
  available_bytes, slot, find_meta, find_empty, payload_info, get_payload,
}
use leo_dos.Srspp.Sender.Machine.{fill_slot, make_room}
use leo_dos.Srspp.Sender.Layout.{slot-set_same, slot-set_other}
use leo_dos.Srspp.Sender.Sorting.{IsLive}
use leo_dos.Srspp.Sender.Compact.{
  IsValid, Compacted, compact-Compacted, info_of, info_of-find, find_meta-Same,
}

pub find_empty_dead :
    (meta : List PacketMeta) (i : ℕ)
    → find_empty meta ≡ some i
    → (i < length meta) × (is_live (slot meta i).state ≡ false)
unfolding find_empty slot
find_empty_dead [] i h = ground arith
find_empty_dead (s ∷ ss) zero h = ground arith
find_empty_dead (s ∷ ss) (suc i) h =
    let later : find_empty ss ≡ some i = ground arith in
    let dead = find_empty_dead ss i later in (omega (arith, dead.0), dead.1)

-- A dead slot takes a live packet of a fresh number.
find_meta-set :
    (meta : List PacketMeta) (i seq : ℕ) (s : PacketMeta)
    → is_live (slot meta i).state ≡ false
    → i < length meta
    → is_live s.state ≡ true
    → find_meta s.seq meta ≡ none
    → find_meta seq (set meta i s) ≡ (if seq == s.seq then some s else find_meta seq meta)
unfolding find_meta slot
find_meta-set [] i seq s d h l n = absurd (omega arith)
find_meta-set (x ∷ meta) zero seq s d h l n = ground arith
find_meta-set (x ∷ meta) (suc i) seq s d h l n =
    let other : find_meta s.seq meta ≡ none = ground arith in
    let rest = find_meta-set meta i seq s d (omega arith) l other in
    elim (Bool-cases (is_live x.state && x.seq == seq)) [
      | inl e ↦ rw (e, ==_ne seq s.seq (differs e)) refl
      | inr e ↦ rw e rest
    ]
  where
    differs : (is_live x.state && x.seq == seq) ≡ true → seq ≢ s.seq
    differs e f = ground arith

-- The slot that `fill_slot` writes.
abbrev filled : SenderMachine → Address → List ℕ → SequenceFlag → Bool → Bool → PacketMeta
filled m target bytes flags is_segmented is_eos = record {
  state = pending_transmit;
  seq = m.next_seq;
  flags = flags;
  target = from target;
  retransmit_count = 0;
  offset = m.write_pos;
  len = length bytes;
  is_segmented = is_segmented;
  is_eos = is_eos;
}

-- What the receiver of a packet is sent.
abbrev pub sent_info : ℕ → Address → List ℕ → SequenceFlag → Bool → PayloadInfo
sent_info seq target bytes flags is_eos = record {
  seq = seq;
  flags = flags;
  target = parse (from target);
  payload = bytes;
  is_eos = is_eos;
}

-- Room for a packet in a dead slot of a valid machine.
pub record Fits (m : SenderMachine) (i : ℕ) (bytes : List ℕ) : Type 0 where
  pub valid : IsValid m
  pub exists : i < length m.meta
  pub dead : is_live (slot m.meta i).state ≡ false
  pub room : m.write_pos + length bytes ≤ length m.data_buf

find_live :
    (meta : List PacketMeta) (seq : ℕ) (s : PacketMeta)
    → find_meta seq meta ≡ some s
    → (j : ℕ) × IsLive meta j × (slot meta j ≡ s)
unfolding find_meta slot
find_live [] seq s h = ground arith
find_live (x ∷ meta) seq s h = elim (Bool-cases (is_live x.state && x.seq == seq)) [
  | inl e ↦ let same : some x ≡ some s = rw e at h in (0, (omega arith, ground arith), ground arith)
  | inr e ↦
      let later : find_meta seq meta ≡ some s = rw e at h in
      let there = find_live meta seq s later in
      (suc there.0, (omega (arith, there.1.0), there.1.1), there.2)
]

-- Writing behind the live bytes changes no held payload.
info-written :
    (m : SenderMachine) (bytes : List ℕ) (seq : ℕ)
    → IsValid m
    → info_of (copy_at m.data_buf m.write_pos bytes) (find_meta seq m.meta) ≡ get_payload m seq
info-written m bytes seq v =
    find_meta-Same m.data_buf (copy_at m.data_buf m.write_pos bytes) seq m.meta m.meta refl (λ j h.
      (
        refl,
        λ l.
            slice-copy_at_before m.data_buf m.write_pos bytes (slot m.meta j).offset
              (slot m.meta j).len (v.within j (h, l)) v.room,
      ))
    ∙ sym (info_of-find m seq)

module _ (m : SenderMachine) (i : ℕ) (target : Address) (bytes : List ℕ) (flags : SequenceFlag)
    (is_segmented is_eos : Bool) (actions : List SenderAction) (f : Fits m i bytes) where
  abbrev new_slot : PacketMeta
  new_slot = filled m target bytes flags is_segmented is_eos

  -- The next number is not in use.
  pub fill_slot-get :
      (seq : ℕ)
      → find_meta m.next_seq m.meta ≡ none
      → get_payload (fill_slot m i target bytes flags is_segmented is_eos actions).0 seq ≡ (
          if seq == m.next_seq
          then some (sent_info seq target bytes flags is_eos)
          else get_payload m seq)
  unfolding fill_slot payload_info
  fill_slot-get seq fresh =
      info_of-find (fill_slot m i target bytes flags is_segmented is_eos actions).0 seq
      ∙ ap (info_of (copy_at m.data_buf m.write_pos bytes))
          (find_meta-set m.meta i seq new_slot f.dead f.exists refl fresh)
      ∙ elim (Bool-cases (seq == m.next_seq)) [
        | inl e ↦ rw e (
            let number = sym ((==_iff seq m.next_seq).0 e) in
            ap some (λ k. record {
              seq = number k;
              flags = flags;
              target = parse (from target);
              payload = slice-copy_at_self m.data_buf m.write_pos bytes f.room k;
              is_eos = is_eos;
            }))
        | inr e ↦ rw e (info-written m bytes seq f.valid)
      ]

  live_elsewhere :
      (j : ℕ)
      → IsLive (set m.meta i new_slot) j
      → i ≢ j
      → IsLive m.meta j × (slot (set m.meta i new_slot) j ≡ slot m.meta j)
  live_elsewhere j l n =
      let same = slot-set_other m.meta i j new_slot n in
      ((omega (arith, l.0, length-set m.meta i new_slot), rw same at l.1), same)

  here : (j : ℕ) → (i == j) ≡ true → slot (set m.meta i new_slot) j ≡ new_slot
  here j e = rw (sym ((==_iff i j).0 e)) (slot-set_same m.meta i new_slot f.exists)

  pub fill_slot-IsValid : IsValid (fill_slot m i target bytes flags is_segmented is_eos actions).0
  unfolding fill_slot
  fill_slot-IsValid = record {
    within = λ j l. elim (Bool-cases (i == j)) [
      | inl e ↦ rw (here j e) (omega arith)
      | inr e ↦
          let (old, same) = live_elsewhere j l (ground arith) in
          rw same (omega (arith, f.valid.within j old))
    ];
    room = rw (length-copy_at m.data_buf m.write_pos bytes) f.room;
    apart = λ a b la lb n. elim (Bool-cases (i == a)) [
      | inl e ↦
          let (old, same) = live_elsewhere b lb (ground arith) in
          rw (here a e, same) (inr (f.valid.within b old))
      | inr e ↦
          let (old, same) = live_elsewhere a la (ground arith) in
          elim (Bool-cases (i == b)) [
            | inl g ↦ rw (same, here b g) (inl (inr (inr (f.valid.within a old))))
            | inr g ↦
                let (old', same') = live_elsewhere b lb (ground arith) in
                rw (same, same') (f.valid.apart a b old old' n)
          ]
    ];
  }

pub Compacted-refl : (m : SenderMachine) → IsValid m → Compacted m m
Compacted-refl m v = record {
  valid = v;
  same = λ j h. (refl, λ l. refl);
  count = refl;
  size = refl;
  next = refl;
  settings = refl;
}

pub make_room-Compacted :
    (m : SenderMachine) (bytes : List ℕ) → IsValid m → Compacted m (make_room m bytes)
unfolding make_room
make_room-Compacted m bytes v = elim (Bool-cases (ltb (available_bytes m) (length bytes))) [
  | inl e ↦ rw e (compact-Compacted m v)
  | inr e ↦ rw e (Compacted-refl m v)
]

-- Compaction changes no payload.
pub get-Compacted :
    (m m' : SenderMachine) (seq : ℕ) → Compacted m m' → get_payload m' seq ≡ get_payload m seq
get-Compacted m m' seq c =
    info_of-find m' seq
    ∙ find_meta-Same m.data_buf m'.data_buf seq m.meta m'.meta c.count c.same
    ∙ sym (info_of-find m seq)

info-none : (data_buf : List ℕ) (o : Option PacketMeta) → info_of data_buf o ≡ none → o ≡ none
info-none data_buf o h = ground arith

-- What `make_room` gives is ready for the packet, if the packet fits.
pub make_room-Fits :
    (m : SenderMachine) (i : ℕ) (bytes : List ℕ)
    → IsValid m
    → find_empty m.meta ≡ some i
    → ltb (available_bytes (make_room m bytes)) (length bytes) ≡ false
    → Fits (make_room m bytes) i bytes
make_room-Fits m i bytes v e b =
    let m' = make_room m bytes in
    let c = make_room-Compacted m bytes v in
    let (exists, dead) = find_empty_dead m.meta i e in
    record {
      valid = c.valid;
      exists = omega (arith, exists, c.count);
      dead = ap (λ s. is_live s.state) (c.same i exists).0 ∙ dead;
      room =
          let le : length bytes ≤ available_bytes m' = ground arith in
          omega (arith, le, c.valid.room);
    }

pub fresh-Compacted :
    (m m' : SenderMachine)
    → Compacted m m'
    → get_payload m m.next_seq ≡ none
    → find_meta m'.next_seq m'.meta ≡ none
fresh-Compacted m m' c g = info-none m'.data_buf (find_meta m'.next_seq m'.meta) (
    sym (info_of-find m' m'.next_seq)
    ∙ get-Compacted m m' m'.next_seq c
    ∙ ap (get_payload m) c.next
    ∙ g)
