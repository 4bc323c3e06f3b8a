-- ===== src/Srspp/Sender/Events.antt =====
-- The events of a valid machine, up to the return of their handlers
-- (crates/leodos-protocols/src/transport/srspp/machine/sender.rs).
use leo_dos.Prelude.{
  ℕ, zero, suc, ◌+◌, ◌-◌, ◌≤◌, ◌<◌, min, ◌≡◌, refl, ap, ◌∙◌, inl, inr, Bool, true, false, Option,
  none, some, List, [], ◌∷◌, arith, ltb, leb, Bool-cases, length, set, replicate, length-set, slice,
}
use leo_dos.Isl.Address.{Address}
use leo_dos.Srspp.Sequence.{SequenceFlag, unsegmented}
use leo_dos.Srspp.Sender.State.{
  SenderEvent, send_request, ack_received, retransmit_timeout, send_eos, SenderAction, SenderConfig,
  is_live, PacketMeta, SenderMachine, default_meta, new, reset,
}
use leo_dos.Srspp.Sender.Queue.{
  update_send_base, available_bytes, slot, live_count, find_empty, max_payload_per_packet,
}
use leo_dos.Srspp.Sender.Machine.{
  Outcome, fill_slot, make_room, queue_at, queue_packet, queue_eos_at, queue_eos, segment_flag,
  send_segments, handle_send_request, handle_ack, handle_timeout, mark_transmitted, handle,
}
use leo_dos.Srspp.Sender.Sorting.{IsLive}
use leo_dos.Srspp.Sender.Compact.{IsValid}
use leo_dos.Srspp.Sender.Store.{Fits, make_room-Compacted, make_room-Fits, fill_slot-IsValid}
use leo_dos.Srspp.Sender.Queueing.{eos-Fits}
use leo_dos.Srspp.Sender.Preserve.{
  Shrunk-trans, Shrunk-IsValid, ack_cumulative-Shrunk, ack_selective-Shrunk, time_out-Shrunk,
  mark_in-Shrunk,
}

live_count-le : (ss : List PacketMeta) → live_count ss ≤ length ss
unfolding live_count
live_count-le [] = omega arith
live_count-le (s ∷ ss) =
    let rest = live_count-le ss in
    elim (Bool-cases (is_live s.state)) [
      | inl e ↦ rw e (omega (arith, rest))
      | inr e ↦ rw e (omega (arith, rest))
    ]

live_count-set :
    (ss : List PacketMeta) (i : ℕ) (s : PacketMeta)
    → i < length ss
    → is_live (slot ss i).state ≡ false
    → is_live s.state ≡ true
    → live_count (set ss i s) ≡ suc (live_count ss)
unfolding live_count slot
live_count-set [] i s h d l = absurd (omega (arith, h))
live_count-set (x ∷ ss) zero s h d l = rw (d, l) refl
live_count-set (x ∷ ss) (suc i) s h d l =
    let rest = live_count-set ss i s (omega arith) d l in
    elim (Bool-cases (is_live x.state)) [ inl e ↦ rw (e, rest) refl | inr e ↦ rw (e, rest) refl ]

live_count-Same :
    (ss ts : List PacketMeta)
    → length ts ≡ length ss
    → ((j : ℕ) → j < length ss → is_live (slot ts j).state ≡ is_live (slot ss j).state)
    → live_count ts ≡ live_count ss
unfolding live_count slot
live_count-Same [] [] h f = refl
live_count-Same [] (t ∷ ts) h f = absurd (omega arith)
live_count-Same (s ∷ ss) [] h f = absurd (omega arith)
live_count-Same (s ∷ ss) (t ∷ ts) h f =
    let here : is_live t.state ≡ is_live s.state = f 0 (omega arith) in
    let rest : live_count ts ≡ live_count ss =
      live_count-Same ss ts (omega arith) (λ j k. f (suc j) (omega arith)) in
    rw (here, rest) refl

-- What an accepted packet does to the window, and what is left in any case.
abbrev Taken : SenderMachine → Outcome → Type 0
Taken m (m', actions, some e) = IsValid m'
Taken m (m', actions, none) =
    IsValid m' × (live_count m'.meta ≡ suc (live_count m.meta)) × (length m'.meta ≡ length m.meta)

fill_slot-Taken :
    (m m' : SenderMachine) (i : ℕ) (target : Address) (bytes : List ℕ) (flags : SequenceFlag)
    (is_segmented is_eos : Bool) (actions : List SenderAction)
    → Fits m' i bytes
    → live_count m'.meta ≡ live_count m.meta
    → length m'.meta ≡ length m.meta
    → Taken m (fill_slot m' i target bytes flags is_segmented is_eos actions)
unfolding fill_slot
fill_slot-Taken m m' i target bytes flags is_segmented is_eos actions f lives slots = (
  fill_slot-IsValid m' i target bytes flags is_segmented is_eos actions f,
  live_count-set m'.meta i _ f.exists f.dead refl ∙ ap suc lives,
  length-set m'.meta i _ ∙ slots,
)

queue_at-Taken :
    (o : Option ℕ) (m : SenderMachine) (target : Address) (bytes : List ℕ) (flags : SequenceFlag)
    (is_segmented : Bool) (actions : List SenderAction)
    → IsValid m
    → find_empty m.meta ≡ o
    → Taken m (queue_at o m target bytes flags is_segmented actions)
unfolding queue_at
queue_at-Taken none m target bytes flags is_segmented actions v e = v
queue_at-Taken (some i) m target bytes flags is_segmented actions v e =
    let m' = make_room m bytes in
    let c = make_room-Compacted m bytes v in
    elim (Bool-cases (ltb (available_bytes m') (length bytes))) [
      | inl full ↦ rw full c.valid
      | inr fits ↦ rw fits (
          fill_slot-Taken m m' i target bytes flags is_segmented false actions
            (make_room-Fits m i bytes v e fits)
            (live_count-Same m.meta m'.meta c.count
              (λ j h. ap (λ s. is_live s.state) (c.same j h).0))
            c.count)
    ]

queue_packet-Taken :
    (m : SenderMachine) (target : Address) (bytes : List ℕ) (flags : SequenceFlag)
    (is_segmented : Bool) (actions : List SenderAction)
    → IsValid m
    → Taken m (queue_packet m target bytes flags is_segmented actions)
unfolding queue_packet
queue_packet-Taken m target bytes flags is_segmented actions v =
    queue_at-Taken (find_empty m.meta) m target bytes flags is_segmented actions v refl

queue_eos_at-IsValid :
    (o : Option ℕ) (m : SenderMachine) (target : Address) (actions : List SenderAction)
    → IsValid m
    → find_empty m.meta ≡ o
    → IsValid (queue_eos_at o m target actions).0
unfolding queue_eos_at
queue_eos_at-IsValid none m target actions v e = v
queue_eos_at-IsValid (some i) m target actions v e =
    fill_slot-IsValid m i target [] unsegmented false true actions (eos-Fits m i v e)

Taken-IsValid : (m : SenderMachine) (o : Outcome) → Taken m o → IsValid o.0
Taken-IsValid m (m', actions, some e) h = h
Taken-IsValid m (m', actions, none) h = h.0

-- The call returns, and what it returns is valid.
abbrev pub Returns : Option Outcome → Type 0
Returns o = (r : Outcome) × (o ≡ some r) × IsValid r.0

-- The turn of the loop after its packet.
Returns-after :
    (m : SenderMachine) (o : Outcome) (next : SenderMachine → List SenderAction → Option Outcome)
    → Taken m o
    → ((m' : SenderMachine) (actions : List SenderAction)
        → Taken m (m', actions, none)
        → Returns (next m' actions))
    → Returns (elim o.2 [ some e ↦ some (o.0, o.1, some e) | none ↦ next o.0 o.1 ])
Returns-after m (m', actions, some e) next t f = ((m', actions, some e), refl, t)
Returns-after m (m', actions, none) next t f = f m' actions t

send_segments-Returns :
    (n max_payload : ℕ) (m : SenderMachine) (target : Address) (data_bytes : List ℕ) (offset : ℕ)
    (is_first : Bool) (actions : List SenderAction)
    → IsValid m
    → length m.meta < n + live_count m.meta
    → Returns (send_segments n max_payload m target data_bytes offset is_first actions)
unfolding send_segments
send_segments-Returns zero max_payload m target data_bytes offset is_first actions v h =
    absurd (omega (arith, live_count-le m.meta))
send_segments-Returns (suc n) max_payload m target data_bytes offset is_first actions v h =
    let chunk_size = min (length data_bytes - offset) max_payload in
    let flags = segment_flag is_first (leb (length data_bytes) (offset + chunk_size)) in
    elim (Bool-cases (ltb offset (length data_bytes))) [
      | inl e ↦ rw e (
          Returns-after m
            (queue_packet m target (slice data_bytes offset chunk_size) flags true actions)
            (λ m' actions'.
              send_segments n max_payload m' target data_bytes (offset + chunk_size) false actions')
            (queue_packet-Taken m target (slice data_bytes offset chunk_size) flags true actions v)
            (λ m' actions' t.
              send_segments-Returns n max_payload m' target data_bytes (offset + chunk_size) false
                actions' t.0 (omega (arith, h, t.1))))
      | inr e ↦ rw e ((m, actions, none), refl, v)
    ]

handle_send_request-Returns :
    (mtu : ℕ) (m : SenderMachine) (target : Address) (data_bytes : List ℕ)
    (actions : List SenderAction)
    → IsValid m
    → Returns (handle_send_request mtu m target data_bytes actions)
unfolding handle_send_request
handle_send_request-Returns mtu m target data_bytes actions v =
    elim (Bool-cases (leb (length data_bytes) (max_payload_per_packet mtu m))) [
      | inl e ↦
          let o = queue_packet m target data_bytes unsegmented false actions in
          rw e (
            o,
            refl,
            Taken-IsValid m o (queue_packet-Taken m target data_bytes unsegmented false actions v),
          )
      | inr e ↦ rw e (
          send_segments-Returns (suc (length m.meta)) (max_payload_per_packet mtu m) m target
            data_bytes 0 true actions v (omega arith))
    ]

handle_ack-IsValid :
    (m : SenderMachine) (ack bitmap : ℕ) (actions : List SenderAction)
    → IsValid m
    → IsValid (handle_ack m ack bitmap actions).0
unfolding handle_ack update_send_base
handle_ack-IsValid m ack bitmap actions v = Shrunk-IsValid m _ _ v (
    Shrunk-trans m.meta _ _ (ack_cumulative-Shrunk ack m.meta actions 0)
      (ack_selective-Shrunk ack bitmap 0 16 _ _ _))

handle_timeout-IsValid :
    (m : SenderMachine) (seq : ℕ) (actions : List SenderAction)
    → IsValid m
    → IsValid (handle_timeout m seq actions).0
unfolding handle_timeout update_send_base
handle_timeout-IsValid m seq actions v =
    Shrunk-IsValid m _ _ v (time_out-Shrunk m seq m.meta actions)

-- On a valid machine every event is handled to its end, with a valid machine, and also where a packet
-- has no room for any payload.
pub handle-Returns :
    (mtu : ℕ) (m : SenderMachine) (event : SenderEvent) (actions : List SenderAction)
    → IsValid m
    → Returns (handle mtu m event actions)
unfolding handle queue_eos
handle-Returns mtu m (send_request target data_bytes) actions v =
    handle_send_request-Returns mtu m target data_bytes actions v
handle-Returns mtu m (ack_received ack bitmap) actions v =
    (_, refl, handle_ack-IsValid m ack bitmap actions v)
handle-Returns mtu m (retransmit_timeout seq) actions v =
    (_, refl, handle_timeout-IsValid m seq actions v)
handle-Returns mtu m (send_eos target) actions v =
    (_, refl, queue_eos_at-IsValid (find_empty m.meta) m target actions v refl)

slot-dead : (n i : ℕ) → is_live (slot (replicate n default_meta) i).state ≡ false
unfolding slot default_meta
slot-dead zero i = refl
slot-dead (suc n) zero = refl
slot-dead (suc n) (suc i) = slot-dead n i

-- A machine none of whose slots is live, with nothing written.
fresh-IsValid :
    (config : SenderConfig) (n : ℕ) (buf : List ℕ)
    → IsValid (record {
      config = config;
      meta = replicate n default_meta;
      data_buf = buf;
      write_pos = 0;
      next_seq = 0;
      send_base = 0;
    })
fresh-IsValid config n buf =
    let not_live : (j : ℕ) → ¬ IsLive (replicate n default_meta) j =
      λ j h. (let dead = slot-dead n j in ground (arith, dead, h)) in
    record {
      within = λ j h. absurd (not_live j h);
      room = omega arith;
      apart = λ i j h k d. absurd (not_live i h);
    }

-- A new machine and one that is reset are valid, and the transition to `AwaitingAck` keeps validity.
pub new-IsValid : (win buf_size : ℕ) (config : SenderConfig) → IsValid (new win config buf_size)
unfolding new
new-IsValid win buf_size config = fresh-IsValid config win (replicate buf_size 0)

pub reset-IsValid : (m : SenderMachine) → IsValid (reset m)
unfolding reset
reset-IsValid m = fresh-IsValid m.config (length m.meta) m.data_buf

pub mark_transmitted-IsValid :
    (m : SenderMachine) (seq : ℕ) → IsValid m → IsValid (mark_transmitted m seq)
unfolding mark_transmitted
mark_transmitted-IsValid m seq v = Shrunk-IsValid m _ _ v (mark_in-Shrunk seq m.meta)
