-- ===== src/Srspp/Sender/Machine.antt =====
-- The handlers of the sender
-- (crates/leodos-protocols/src/transport/srspp/machine/sender.rs). A handler returns the machine,
-- the actions and the error, if any: what it did before an error stays done.
use leo_dos.Prelude.{
  ℕ, zero, suc, ◌+◌, ◌-◌, ◌/◌, ◌%◌, ◌^◌, min, bit_and, Bool, true, false, ◌&&◌, not, Option, none,
  some, List, [], ◌∷◌, ltb, leb, ◌==◌, if◌then◌else◌, length, set, slice, copy_at,
}
use leo_dos.Isl.Address.{Address, from}
use leo_dos.Srspp.Sequence.{
  SequenceFlag, first, last, continuation, unsegmented, max_count, increment, ahead,
}
use leo_dos.Srspp.Sender.State.{
  SenderEvent, send_request, ack_received, retransmit_timeout, send_eos, SenderAction, transmit,
  stop_timer, packet_lost, message_lost, space_available, push, SenderError, buffer_full,
  window_full, empty, pending_transmit, awaiting_ack, is_live, is_pending, is_awaiting, PacketMeta,
  SenderMachine,
}
use leo_dos.Srspp.Sender.Queue.{
  max_payload_per_packet, available_bytes, find_empty, compact, update_send_base,
}

abbrev pub Outcome : Type 0
Outcome = SenderMachine × List SenderAction × Option SenderError

-- `queue_packet` and `queue_eos` once there is a slot and room: the payload is written, the slot is
-- taken and the sequence number used.
unfoldable pub fill_slot :
    SenderMachine → ℕ → Address → List ℕ → SequenceFlag → Bool → Bool → List SenderAction → Outcome
unfolding from push
fill_slot m slot_idx target payload flags is_segmented is_eos actions = (
  record m {
    data_buf = copy_at m.data_buf m.write_pos payload;
    write_pos = m.write_pos + length payload;
    meta = set m.meta slot_idx (record {
      state = pending_transmit;
      seq = m.next_seq;
      flags = flags;
      target = from target;
      retransmit_count = 0;
      offset = m.write_pos;
      len = length payload;
      is_segmented = is_segmented;
      is_eos = is_eos;
    });
    next_seq = increment m.next_seq;
  },
  push actions (transmit (m.next_seq % 2 ^ 14) m.config.rto_ticks),
  none,
)

-- The buffer is compacted if the payload does not fit.
unfoldable pub make_room : SenderMachine → List ℕ → SenderMachine
unfolding compact
make_room m payload = if ltb (available_bytes m) (length payload) then compact m else m

-- `queue_packet` with what `position` returned.
unfoldable pub queue_at :
    Option ℕ → SenderMachine → Address → List ℕ → SequenceFlag → Bool → List SenderAction → Outcome
unfolding make_room fill_slot
queue_at none m target payload flags is_segmented actions = (m, actions, some window_full)
queue_at (some slot_idx) m target payload flags is_segmented actions =
    let m' = make_room m payload in
    if ltb (available_bytes m') (length payload)
    then (m', actions, some buffer_full)
    else fill_slot m' slot_idx target payload flags is_segmented false actions

unfoldable pub queue_packet :
    SenderMachine → Address → List ℕ → SequenceFlag → Bool → List SenderAction → Outcome
unfolding queue_at find_empty
queue_packet m target payload flags is_segmented actions =
    queue_at (find_empty m.meta) m target payload flags is_segmented actions

-- `queue_eos` with what `position` returned.
unfoldable pub queue_eos_at : Option ℕ → SenderMachine → Address → List SenderAction → Outcome
unfolding fill_slot
queue_eos_at none m target actions = (m, actions, some window_full)
queue_eos_at (some slot_idx) m target actions =
    fill_slot m slot_idx target [] unsegmented false true actions

unfoldable pub queue_eos : SenderMachine → Address → List SenderAction → Outcome
unfolding queue_eos_at find_empty
queue_eos m target actions = queue_eos_at (find_empty m.meta) m target actions

abbrev pub segment_flag : Bool → Bool → SequenceFlag
segment_flag true is_last = first
segment_flag false true = last
segment_flag false false = continuation

-- The `while` of `handle_send_request`, on fuel.
unfoldable pub send_segments :
    ℕ → ℕ → SenderMachine → Address → List ℕ → ℕ → Bool → List SenderAction → Option Outcome
unfolding queue_packet
send_segments zero max_payload m target data_bytes offset is_first actions = none
send_segments (suc n) max_payload m target data_bytes offset is_first actions =
    if ltb offset (length data_bytes)
    then (let chunk_size = min (length data_bytes - offset) max_payload in
        let is_last = leb (length data_bytes) (offset + chunk_size) in
        let (m', actions', error) =
          queue_packet m target (slice data_bytes offset chunk_size) (segment_flag is_first is_last)
            true actions in
        elim error [
          | some e ↦ some (m', actions', some e)
          | none ↦
              send_segments n max_payload m' target data_bytes (offset + chunk_size) false actions'
        ])
    else some (m, actions, none)

-- Each turn of the loop takes a slot, so that one turn more than there are slots is enough fuel.
unfoldable pub handle_send_request :
    ℕ → SenderMachine → Address → List ℕ → List SenderAction → Option Outcome
unfolding queue_packet send_segments
handle_send_request mtu m target data_bytes actions =
    let max_payload = max_payload_per_packet mtu m in
    if leb (length data_bytes) max_payload
    then some (queue_packet m target data_bytes unsegmented false actions)
    else send_segments (suc (length m.meta)) max_payload m target data_bytes 0 true actions

-- `meta.state = Empty`
abbrev pub vacate : PacketMeta → PacketMeta
vacate s = record s { state = empty }

-- The loop of the cumulative acknowledgement: the slots, the actions and the bytes freed.
unfoldable pub ack_cumulative :
    ℕ → List PacketMeta → List SenderAction → ℕ → List PacketMeta × List SenderAction × ℕ
unfolding push
ack_cumulative ack [] actions freed = ([], actions, freed)
ack_cumulative ack (s ∷ ss) actions freed =
    let acked = is_live s.state && ltb (ahead ack s.seq) (max_count / 2) in
    let (ss', actions', freed') =
      ack_cumulative ack ss (if acked then push actions (stop_timer (s.seq % 2 ^ 14)) else actions)
        (if acked then freed + s.len else freed) in
    ((if acked then vacate s else s) ∷ ss', actions', freed')

-- The inner loop of the selective one, which stops at the first slot of the number.
unfoldable pub ack_one :
    ℕ → List PacketMeta → List SenderAction → ℕ → List PacketMeta × List SenderAction × ℕ
unfolding push
ack_one seq [] actions freed = ([], actions, freed)
ack_one seq (s ∷ ss) actions freed =
    if is_live s.state && s.seq == seq
    then (vacate s ∷ ss, push actions (stop_timer (s.seq % 2 ^ 14)), freed + s.len)
    else (let (ss', actions', freed') = ack_one seq ss actions freed in (s ∷ ss', actions', freed'))

-- The bits of the selective acknowledgement, `count` of them from `bit_pos` on.
unfoldable pub ack_selective :
    ℕ
    → ℕ
    → ℕ
    → ℕ
    → List PacketMeta
    → List SenderAction
    → ℕ
    → List PacketMeta × List SenderAction × ℕ
unfolding ack_one
ack_selective ack bitmap bit_pos zero meta actions freed = (meta, actions, freed)
ack_selective ack bitmap bit_pos (suc count) meta actions freed =
    let (meta', actions', freed') =
      if not (bit_and bitmap (2 ^ bit_pos) == 0)
      then ack_one ((ack + 1 + bit_pos) % 2 ^ 14) meta actions freed
      else (meta, actions, freed) in
    ack_selective ack bitmap (suc bit_pos) count meta' actions' freed'

unfoldable pub handle_ack :
    SenderMachine → ℕ → ℕ → List SenderAction → SenderMachine × List SenderAction
unfolding ack_cumulative ack_selective update_send_base push
handle_ack m ack bitmap actions =
    let (meta, actions', freed) = ack_cumulative ack m.meta actions 0 in
    let (meta', actions'', freed') = ack_selective ack bitmap 0 16 meta actions' freed in
    let m' = update_send_base (record m { meta = meta' }) in
    (m', if ltb 0 freed' then push actions'' (space_available (available_bytes m')) else actions'')

-- The loop of `handle_timeout`: the slots, the actions and whether a segmented packet was lost.
unfoldable pub time_out :
    SenderMachine
    → ℕ
    → List PacketMeta
    → List SenderAction
    → List PacketMeta × List SenderAction × Bool
unfolding push
time_out m seq [] actions = ([], actions, false)
time_out m seq (s ∷ ss) actions =
    if is_awaiting s.state && s.seq == seq
    then (if leb m.config.max_retransmits s.retransmit_count
        then (vacate s ∷ ss, push actions (packet_lost seq), s.is_segmented)
        else (
          record s { state = pending_transmit; retransmit_count = s.retransmit_count + 1 } ∷ ss,
          push actions (transmit seq m.config.rto_ticks),
          false,
        ))
    else (let (ss', actions', lost) = time_out m seq ss actions in (s ∷ ss', actions', lost))

unfoldable pub handle_timeout :
    SenderMachine → ℕ → List SenderAction → SenderMachine × List SenderAction
unfolding time_out update_send_base push
handle_timeout m seq actions =
    let (meta, actions', lost_segmented) = time_out m seq m.meta actions in
    (
      update_send_base (record m { meta = meta }),
      if lost_segmented then push actions' message_lost else actions',
    )

unfoldable pub mark_in : ℕ → List PacketMeta → List PacketMeta
mark_in seq [] = []
mark_in seq (s ∷ ss) =
    if is_pending s.state && s.seq == seq
    then record s { state = awaiting_ack } ∷ ss
    else s ∷ mark_in seq ss

unfoldable pub mark_transmitted : SenderMachine → ℕ → SenderMachine
unfolding mark_in
mark_transmitted m seq = record m { meta = mark_in seq m.meta }

abbrev without_error : SenderMachine × List SenderAction → Option Outcome
without_error r = some (r.0, r.1, none)

unfoldable pub handle : ℕ → SenderMachine → SenderEvent → List SenderAction → Option Outcome
unfolding handle_send_request handle_ack handle_timeout queue_eos
handle mtu m (send_request target data_bytes) actions =
    handle_send_request mtu m target data_bytes actions
handle mtu m (ack_received cumulative_ack selective_bitmap) actions =
    without_error (handle_ack m cumulative_ack selective_bitmap actions)
handle mtu m (retransmit_timeout seq) actions = without_error (handle_timeout m seq actions)
handle mtu m (send_eos target) actions = some (queue_eos m target actions)
