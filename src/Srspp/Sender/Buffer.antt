-- ===== src/Srspp/Sender/Buffer.antt =====
-- The length of the send buffer, an array, over the events
-- (crates/leodos-protocols/src/transport/srspp/machine/sender.rs).
use leo_dos.Prelude.{
  ℕ, zero, suc, ◌+◌, ◌-◌, min, ◌≡◌, refl, ◌∙◌, inl, inr, Bool, true, false, Option, none, some,
  List, [], ◌∷◌, ◌==◌, ltb, leb, if◌then◌else◌, Bool-cases, length, slice, copy_at,
}
use leo_dos.Prelude.Slices.{length-copy_at}
use leo_dos.Isl.Address.{Address}
use leo_dos.Srspp.Sequence.{SequenceFlag, unsegmented}
use leo_dos.Srspp.Sender.State.{
  SenderEvent, send_request, ack_received, retransmit_timeout, send_eos, SenderAction, PacketMeta,
  SenderMachine,
}
use leo_dos.Srspp.Sender.Queue.{
  available_bytes, slot, find_empty, max_payload_per_packet, live_indices, shift_all, compact_with,
  compact, update_send_base,
}
use leo_dos.Srspp.Sender.Machine.{
  Outcome, fill_slot, make_room, queue_at, queue_packet, queue_eos_at, queue_eos, segment_flag,
  send_segments, handle_send_request, handle_ack, handle_timeout, handle,
}
use leo_dos.Srspp.Sender.Layout.{shifted, moved_to}

shifted-length :
    (b : Bool) (data_buf : List ℕ) (pos : ℕ) (bytes : List ℕ)
    → length (if b then data_buf else copy_at data_buf pos bytes) ≡ length data_buf
shifted-length true data_buf pos bytes = refl
shifted-length false data_buf pos bytes = length-copy_at data_buf pos bytes

shift_all-length :
    (is : List ℕ) (pos : ℕ) (meta : List PacketMeta) (data_buf : List ℕ)
    → length (shift_all is pos meta data_buf).1 ≡ length data_buf
unfolding shift_all
shift_all-length [] pos meta data_buf = refl
shift_all-length (i ∷ is) pos meta data_buf =
    let s = slot meta i in
    shift_all-length is (pos + s.len) (moved_to meta i pos) (shifted data_buf pos s)
    ∙ shifted-length (pos == s.offset) data_buf pos (slice data_buf s.offset s.len)

compact_with-length :
    (m : SenderMachine) (is : List ℕ) → length (compact_with m is).data_buf ≡ length m.data_buf
unfolding compact_with
compact_with-length m [] = refl
compact_with-length m (i ∷ is) = shift_all-length (i ∷ is) 0 m.meta m.data_buf

make_room-length :
    (m : SenderMachine) (bytes : List ℕ) → length (make_room m bytes).data_buf ≡ length m.data_buf
unfolding make_room compact
make_room-length m bytes = elim (Bool-cases (ltb (available_bytes m) (length bytes))) [
  | inl e ↦ rw e (compact_with-length m (live_indices m.meta 0 m.meta []))
  | inr e ↦ rw e refl
]

abbrev SameLength : SenderMachine → SenderMachine → Type 0
SameLength m m' = length m'.data_buf ≡ length m.data_buf

queue_at-length :
    (o : Option ℕ) (m : SenderMachine) (target : Address) (bytes : List ℕ) (flags : SequenceFlag)
    (is_segmented : Bool) (actions : List SenderAction)
    → SameLength m (queue_at o m target bytes flags is_segmented actions).0
unfolding queue_at fill_slot
queue_at-length none m target bytes flags is_segmented actions = refl
queue_at-length (some i) m target bytes flags is_segmented actions =
    let m' = make_room m bytes in
    elim (Bool-cases (ltb (available_bytes m') (length bytes))) [
      | inl full ↦ rw full (make_room-length m bytes)
      | inr fits ↦
          rw fits (length-copy_at m'.data_buf m'.write_pos bytes ∙ make_room-length m bytes)
    ]

queue_packet-length :
    (m : SenderMachine) (target : Address) (bytes : List ℕ) (flags : SequenceFlag)
    (is_segmented : Bool) (actions : List SenderAction)
    → SameLength m (queue_packet m target bytes flags is_segmented actions).0
unfolding queue_packet
queue_packet-length m target bytes flags is_segmented actions =
    queue_at-length (find_empty m.meta) m target bytes flags is_segmented actions

queue_eos_at-length :
    (o : Option ℕ) (m : SenderMachine) (target : Address) (actions : List SenderAction)
    → SameLength m (queue_eos_at o m target actions).0
unfolding queue_eos_at fill_slot
queue_eos_at-length none m target actions = refl
queue_eos_at-length (some i) m target actions = length-copy_at m.data_buf m.write_pos []

-- Of a call that returns.
abbrev pub Keeps : SenderMachine → Option Outcome → Type 0
Keeps m none = Unit
Keeps m (some o) = SameLength m o.0

-- The turn of the loop after its packet.
Keeps-after :
    (m : SenderMachine) (o : Outcome) (next : SenderMachine → List SenderAction → Option Outcome)
    → SameLength m o.0
    → Keeps m (next o.0 o.1)
    → Keeps m (elim o.2 [ some e ↦ some (o.0, o.1, some e) | none ↦ next o.0 o.1 ])
Keeps-after m (m', actions, some e) next h k = h
Keeps-after m (m', actions, none) next h k = k

Keeps-trans : (m m' : SenderMachine) (o : Option Outcome) → SameLength m m' → Keeps m' o → Keeps m o
Keeps-trans m m' none h k = tt
Keeps-trans m m' (some o) h k = k ∙ h

send_segments-Keeps :
    (n max_payload : ℕ) (m : SenderMachine) (target : Address) (data_bytes : List ℕ) (offset : ℕ)
    (is_first : Bool) (actions : List SenderAction)
    → Keeps m (send_segments n max_payload m target data_bytes offset is_first actions)
unfolding send_segments
send_segments-Keeps zero max_payload m target data_bytes offset is_first actions = tt
send_segments-Keeps (suc n) max_payload m target data_bytes offset is_first actions =
    let chunk_size = min (length data_bytes - offset) max_payload in
    let flags = segment_flag is_first (leb (length data_bytes) (offset + chunk_size)) in
    let o = queue_packet m target (slice data_bytes offset chunk_size) flags true actions in
    let same =
      queue_packet-length m target (slice data_bytes offset chunk_size) flags true actions in
    elim (Bool-cases (ltb offset (length data_bytes))) [
      | inl e ↦ rw e (
          Keeps-after m o
            (λ m' actions'.
              send_segments n max_payload m' target data_bytes (offset + chunk_size) false actions')
            same
            (Keeps-trans m o.0 _ same (
              send_segments-Keeps n max_payload o.0 target data_bytes (offset + chunk_size) false
                o.1)))
      | inr e ↦ rw e refl
    ]

handle_send_request-Keeps :
    (mtu : ℕ) (m : SenderMachine) (target : Address) (data_bytes : List ℕ)
    (actions : List SenderAction)
    → Keeps m (handle_send_request mtu m target data_bytes actions)
unfolding handle_send_request
handle_send_request-Keeps mtu m target data_bytes actions =
    elim (Bool-cases (leb (length data_bytes) (max_payload_per_packet mtu m))) [
      | inl e ↦ rw e (queue_packet-length m target data_bytes unsegmented false actions)
      | inr e ↦ rw e (
          send_segments-Keeps (suc (length m.meta)) (max_payload_per_packet mtu m) m target
            data_bytes 0 true actions)
    ]

pub handle-Keeps :
    (mtu : ℕ) (m : SenderMachine) (event : SenderEvent) (actions : List SenderAction)
    → Keeps m (handle mtu m event actions)
unfolding handle queue_eos handle_ack handle_timeout update_send_base
handle-Keeps mtu m (send_request target data_bytes) actions =
    handle_send_request-Keeps mtu m target data_bytes actions
handle-Keeps mtu m (ack_received ack bitmap) actions = refl
handle-Keeps mtu m (retransmit_timeout seq) actions = refl
handle-Keeps mtu m (send_eos target) actions =
    queue_eos_at-length (find_empty m.meta) m target actions
