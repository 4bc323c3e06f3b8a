-- ===== src/Srspp/Sender/Preserve.antt =====
-- Changes that vacate or mark slots, and the layout of the send buffer.
use leo_dos.Prelude.{
  ℕ, zero, suc, ◌+◌, ◌/◌, ◌%◌, ◌^◌, bit_and, ◌≡◌, refl, ◌∙◌, inl, inr, true, ◌&&◌, not, List, [],
  ◌∷◌, arith, ltb, leb, ◌==◌, Bool-cases,
}
use leo_dos.Srspp.Sequence.{ahead, max_count}
use leo_dos.Srspp.Sender.State.{
  SenderAction, is_live, is_awaiting, is_pending, PacketMeta, SenderMachine,
}
use leo_dos.Srspp.Sender.Queue.{slot}
use leo_dos.Srspp.Sender.Machine.{vacate, ack_cumulative, ack_one, ack_selective, time_out, mark_in}
use leo_dos.Srspp.Sender.Sorting.{IsLive}
use leo_dos.Srspp.Sender.Compact.{IsValid}

-- A slot that keeps its bytes or is given up.
abbrev Less : PacketMeta → PacketMeta → Type 0
Less s t =
    ((is_live t.state ≡ true) → is_live s.state ≡ true) × (t.offset ≡ s.offset) × (t.len ≡ s.len)

abbrev pub Shrunk : List PacketMeta → List PacketMeta → Type 0
Shrunk [] [] = Unit
Shrunk [] (_ ∷ _) = ⊥
Shrunk (_ ∷ _) [] = ⊥
Shrunk (s ∷ ss) (t ∷ ts) = Less s t × Shrunk ss ts

Shrunk-refl : (ss : List PacketMeta) → Shrunk ss ss
Shrunk-refl [] = tt
Shrunk-refl (s ∷ ss) = ((λ h. h, refl, refl), Shrunk-refl ss)

pub Shrunk-trans : (ss ts us : List PacketMeta) → Shrunk ss ts → Shrunk ts us → Shrunk ss us
Shrunk-trans [] [] [] h k = tt
Shrunk-trans [] [] (u ∷ us) h k = k
Shrunk-trans [] (t ∷ ts) us h k = elim h [ ]
Shrunk-trans (s ∷ ss) [] us h k = elim h [ ]
Shrunk-trans (s ∷ ss) (t ∷ ts) [] h k = k
Shrunk-trans (s ∷ ss) (t ∷ ts) (u ∷ us) h k =
    ((λ l. h.0.0 (k.0.0 l), k.0.1 ∙ h.0.1, k.0.2 ∙ h.0.2), Shrunk-trans ss ts us h.1 k.1)

Shrunk-slot :
    (ss ts : List PacketMeta) (j : ℕ)
    → Shrunk ss ts
    → IsLive ts j
    → IsLive ss j × ((slot ts j).offset ≡ (slot ss j).offset) × ((slot ts j).len ≡ (slot ss j).len)
unfolding slot
Shrunk-slot [] [] j h l = absurd (omega (arith, l.0))
Shrunk-slot [] (t ∷ ts) j h l = elim h [ ]
Shrunk-slot (s ∷ ss) [] j h l = elim h [ ]
Shrunk-slot (s ∷ ss) (t ∷ ts) zero h l = ((omega arith, h.0.0 l.1), h.0.1, h.0.2)
Shrunk-slot (s ∷ ss) (t ∷ ts) (suc j) h l =
    let (live, place, size) = Shrunk-slot ss ts j h.1 (omega (arith, l.0), l.1) in
    ((omega (arith, live.0), live.1), place, size)

pub Shrunk-IsValid :
    (m : SenderMachine) (ts : List PacketMeta) (base : ℕ)
    → IsValid m
    → Shrunk m.meta ts
    → IsValid (record m { meta = ts; send_base = base })
Shrunk-IsValid m ts base v h = record {
  within = λ j l.
      let (live, place, size) = Shrunk-slot m.meta ts j h l in rw (place, size) (v.within j live);
  room = v.room;
  apart = λ i j k l n.
      let (live, place, size) = Shrunk-slot m.meta ts i h k in
      let (live', place', size') = Shrunk-slot m.meta ts j h l in
      rw (place, size, place', size') (v.apart i j live live' n);
}

Less-same : (s : PacketMeta) → Less s s
Less-same s = ((λ h. h), refl, refl)

Less-vacate : (s : PacketMeta) → Less s (vacate s)
Less-vacate s = (ground arith, refl, refl)

pub ack_cumulative-Shrunk :
    (ack : ℕ) (ss : List PacketMeta) (actions : List SenderAction) (freed : ℕ)
    → Shrunk ss (ack_cumulative ack ss actions freed).0
unfolding ack_cumulative
ack_cumulative-Shrunk ack [] actions freed = tt
ack_cumulative-Shrunk ack (s ∷ ss) actions freed = (
  elim (Bool-cases (is_live s.state && ltb (ahead ack s.seq) (max_count / 2))) [
    | inl e ↦ rw e (Less-vacate s)
    | inr e ↦ rw e (Less-same s)
  ],
  ack_cumulative-Shrunk ack ss _ _,
)

ack_one-Shrunk :
    (seq : ℕ) (ss : List PacketMeta) (actions : List SenderAction) (freed : ℕ)
    → Shrunk ss (ack_one seq ss actions freed).0
unfolding ack_one
ack_one-Shrunk seq [] actions freed = tt
ack_one-Shrunk seq (s ∷ ss) actions freed = elim (Bool-cases (is_live s.state && s.seq == seq)) [
  | inl e ↦ rw e (Less-vacate s, Shrunk-refl ss)
  | inr e ↦ rw e (Less-same s, ack_one-Shrunk seq ss actions freed)
]

pub ack_selective-Shrunk :
    (ack bitmap bit_pos count : ℕ) (ss : List PacketMeta) (actions : List SenderAction) (freed : ℕ)
    → Shrunk ss (ack_selective ack bitmap bit_pos count ss actions freed).0
unfolding ack_selective
ack_selective-Shrunk ack bitmap bit_pos zero ss actions freed = Shrunk-refl ss
ack_selective-Shrunk ack bitmap bit_pos (suc count) ss actions freed =
    elim (Bool-cases (not (bit_and bitmap (2 ^ bit_pos) == 0))) [
      | inl e ↦
          rw (e, ack_selective)
            (Shrunk-trans ss _ _ (ack_one-Shrunk ((ack + 1 + bit_pos) % 2 ^ 14) ss actions freed)
              (ack_selective-Shrunk ack bitmap (suc bit_pos) count _ _ _))
      | inr e ↦
          rw (e, ack_selective)
            (ack_selective-Shrunk ack bitmap (suc bit_pos) count ss actions freed)
    ]

pub time_out-Shrunk :
    (m : SenderMachine) (seq : ℕ) (ss : List PacketMeta) (actions : List SenderAction)
    → Shrunk ss (time_out m seq ss actions).0
unfolding time_out
time_out-Shrunk m seq [] actions = tt
time_out-Shrunk m seq (s ∷ ss) actions = elim (Bool-cases (is_awaiting s.state && s.seq == seq)) [
  | inl e ↦ elim (Bool-cases (leb m.config.max_retransmits s.retransmit_count)) [
    | inl g ↦ rw (e, g) (Less-vacate s, Shrunk-refl ss)
    | inr g ↦ rw (e, g) ((ground arith, refl, refl), Shrunk-refl ss)
  ]
  | inr e ↦ rw e (Less-same s, time_out-Shrunk m seq ss actions)
]

pub mark_in-Shrunk : (seq : ℕ) (ss : List PacketMeta) → Shrunk ss (mark_in seq ss)
unfolding mark_in
mark_in-Shrunk seq [] = tt
mark_in-Shrunk seq (s ∷ ss) = elim (Bool-cases (is_pending s.state && s.seq == seq)) [
  | inl e ↦ rw e ((ground arith, refl, refl), Shrunk-refl ss)
  | inr e ↦ rw e (Less-same s, mark_in-Shrunk seq ss)
]
