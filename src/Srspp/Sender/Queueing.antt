-- ===== src/Srspp/Sender/Queueing.antt =====
-- What is held after a packet is queued or refused
-- (crates/leodos-protocols/src/transport/srspp/machine/sender.rs, queue_packet and queue_eos).
use leo_dos.Prelude.{
  ℕ, ◌%◌, ◌^◌, ◌≡◌, refl, ap, ap₂, ◌∙◌, inl, inr, Bool, true, false, Option, none, some, List, [],
  arith, ltb, ◌==◌, if◌then◌else◌, Bool-cases, length,
}
use leo_dos.Isl.Address.{Address}
use leo_dos.Srspp.Sequence.{SequenceFlag, unsegmented, increment}
use leo_dos.Srspp.Sender.State.{SenderAction, transmit, SenderMachine, push}
use leo_dos.Srspp.Sender.Queue.{available_bytes, find_empty, get_payload}
use leo_dos.Srspp.Sender.Machine.{
  Outcome, fill_slot, make_room, queue_at, queue_packet, queue_eos_at, queue_eos,
}
use leo_dos.Srspp.Sender.Compact.{IsValid}
use leo_dos.Srspp.Sender.Store.{
  Compacted-refl, Fits, fill_slot-IsValid, fill_slot-get, find_empty_dead, fresh-Compacted,
  get-Compacted, make_room-Compacted, make_room-Fits, sent_info,
}

-- What a refused packet leaves, and what an accepted one leaves.
abbrev pub Queued :
    SenderMachine → Address → List ℕ → SequenceFlag → Bool → List SenderAction → Outcome → Type 0
Queued m target bytes flags is_eos actions (m', actions', some e) =
    IsValid m'
    × ((seq : ℕ) → get_payload m' seq ≡ get_payload m seq)
    × (m'.next_seq ≡ m.next_seq)
    × (actions' ≡ actions)
Queued m target bytes flags is_eos actions (m', actions', none) =
    IsValid m'
    × ((seq : ℕ)
        → get_payload m' seq ≡ (
            if seq == m.next_seq
            then some (sent_info seq target bytes flags is_eos)
            else get_payload m seq))
    × (m'.next_seq ≡ increment m.next_seq)
    × (actions' ≡ push actions (transmit (m.next_seq % 2 ^ 14) m.config.rto_ticks))

queue_at-Queued :
    (o : Option ℕ) (m : SenderMachine) (target : Address) (bytes : List ℕ) (flags : SequenceFlag)
    (is_segmented : Bool) (actions : List SenderAction)
    → IsValid m
    → get_payload m m.next_seq ≡ none
    → find_empty m.meta ≡ o
    → Queued m target bytes flags false actions
        (queue_at o m target bytes flags is_segmented actions)
unfolding queue_at
queue_at-Queued none m target bytes flags is_segmented actions v g e = (v, λ seq. refl, refl, refl)
queue_at-Queued (some i) m target bytes flags is_segmented actions v g e =
    let m' = make_room m bytes in
    let c = make_room-Compacted m bytes v in
    elim (Bool-cases (ltb (available_bytes m') (length bytes))) [
      | inl full ↦ rw full (c.valid, λ seq. get-Compacted m m' seq c, c.next, refl)
      | inr fits ↦
          let f = make_room-Fits m i bytes v e fits in
          rw fits (
            fill_slot-IsValid m' i target bytes flags is_segmented false actions f,
            λ seq.
                fill_slot-get m' i target bytes flags is_segmented false actions f seq
                  (fresh-Compacted m m' c g)
                ∙ ap₂ (λ n g. if seq == n then some (sent_info seq target bytes flags false) else g)
                    c.next (get-Compacted m m' seq c),
            ap increment c.next,
            ap₂ (λ n k. push actions (transmit (n % 2 ^ 14) k.rto_ticks)) c.next c.settings,
          )
    ]

-- On a valid machine with no held packet under the next number: an accepted packet is held under
-- that number with its bytes, flags and target, and all other numbers hold what they held, though the
-- buffer may have been compacted; the number is used and a Transmit emitted. A refused one leaves
-- every held packet, the number and the actions. The machine stays valid.
pub queue_packet-Queued :
    (m : SenderMachine) (target : Address) (bytes : List ℕ) (flags : SequenceFlag)
    (is_segmented : Bool) (actions : List SenderAction)
    → IsValid m
    → get_payload m m.next_seq ≡ none
    → Queued m target bytes flags false actions
        (queue_packet m target bytes flags is_segmented actions)
unfolding queue_packet
queue_packet-Queued m target bytes flags is_segmented actions v g =
    queue_at-Queued (find_empty m.meta) m target bytes flags is_segmented actions v g refl

pub eos-Fits : (m : SenderMachine) (i : ℕ) → IsValid m → find_empty m.meta ≡ some i → Fits m i []
eos-Fits m i v e = record {
  valid = v;
  exists = (find_empty_dead m.meta i e).0;
  dead = (find_empty_dead m.meta i e).1;
  room = omega (arith, v.room);
}

queue_eos_at-Queued :
    (o : Option ℕ) (m : SenderMachine) (target : Address) (actions : List SenderAction)
    → IsValid m
    → get_payload m m.next_seq ≡ none
    → find_empty m.meta ≡ o
    → Queued m target [] unsegmented true actions (queue_eos_at o m target actions)
unfolding queue_eos_at fill_slot
queue_eos_at-Queued none m target actions v g e = (v, λ seq. refl, refl, refl)
queue_eos_at-Queued (some i) m target actions v g e =
    let f = eos-Fits m i v e in
    (
      fill_slot-IsValid m i target [] unsegmented false true actions f,
      λ seq.
          fill_slot-get m i target [] unsegmented false true actions f seq
            (fresh-Compacted m m (Compacted-refl m v) g),
      refl,
      refl,
    )

-- The same of an end-of-stream packet, which has no bytes and no segmentation.
pub queue_eos-Queued :
    (m : SenderMachine) (target : Address) (actions : List SenderAction)
    → IsValid m
    → get_payload m m.next_seq ≡ none
    → Queued m target [] unsegmented true actions (queue_eos m target actions)
unfolding queue_eos
queue_eos-Queued m target actions v g =
    queue_eos_at-Queued (find_empty m.meta) m target actions v g refl
