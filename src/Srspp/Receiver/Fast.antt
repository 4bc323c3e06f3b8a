-- ===== src/Srspp/Receiver/Fast.antt =====
-- The receiver with a slot for each number of its window
-- (crates/leodos-protocols/src/transport/srspp/machine/receiver/reassembly/fast.rs). WIN is the
-- length of `flags`, and MTU an argument. An access beyond an array, at which the code stops, reads
-- or writes nothing here.
use leo_dos.Prelude.{
  ℕ, zero, suc, ◌%◌, ◌⊎◌, inl, inr, Bool, false, ◌&&◌, not, Option, none, some, List, ltb, ◌==◌,
  if◌then◌else◌, length, set, replicate,
}
use leo_dos.Prelude.Arrays.{item}
use leo_dos.Srspp.Sequence.{SequenceFlag, unsegmented}
use leo_dos.Srspp.Receiver.Base
use leo_dos.Srspp.Receiver.Base.{ReceiverBase, distance, is_ooo_duplicate, record_ooo, advance}
use leo_dos.Srspp.Receiver.Bitset
use leo_dos.Srspp.Receiver.Bitset.{is_set, any}
use leo_dos.Srspp.Receiver.SlotMap
use leo_dos.Srspp.Receiver.SlotMap.{SlotMap}
use leo_dos.Srspp.Receiver.Reassembly.{ReceiverError, Reassembly, deliver, abandon}

pub record FastReceiver : Type 0 where
  pub base : ReceiverBase
  pub occupied : ℕ
  pub slots : SlotMap
  pub flags : List SequenceFlag
  pub reasm : Reassembly  -- The four fields of the reassembly.

unfoldable pub new : ℕ → ℕ → ℕ → FastReceiver
unfolding SlotMap.new
new win reasm total = record {
  base = Base.new;
  occupied = 0;
  slots = SlotMap.new total win;
  flags = replicate win unsegmented;
  reasm = record {
    reassembly = replicate reasm 0;
    reassembly_len = 0;
    reassembly_in_progress = false;
    complete_message_len = none;
  };
}

pub record DataOutcome : Type 0 where
  pub progressed : Bool
  pub has_gap : Bool

pub record GapOutcome : Type 0 where
  pub has_gap : Bool

abbrev pub slot_idx : FastReceiver → ℕ → ℕ
slot_idx f seq = seq % length f.flags

unfoldable pub store_ooo : ℕ → FastReceiver → ℕ → SequenceFlag → List ℕ → FastReceiver
unfolding is_set Bitset.set SlotMap.write
store_ooo mtu f seq flags payload =
    let idx = slot_idx f seq in
    if is_set f.occupied idx then f else record f {
      slots = SlotMap.write mtu f.slots idx payload;
      flags = set f.flags idx flags;
      occupied = Bitset.set f.occupied idx;
    }

abbrev pub Outcome : Type 0
Outcome = Option (FastReceiver × Option ReceiverError)

-- What follows a delivery: an error is passed on, and else the sequence advances.
abbrev pub after_delivery :
    (FastReceiver → Outcome) → FastReceiver → Reassembly × Option ReceiverError → Outcome
after_delivery next f (r, some e) = some (record f { reasm = r }, some e)
after_delivery next f (r, none) = next (record f { reasm = r; base = advance f.base })

-- A turn of the loop of `deliver_buffered`, with the slot of the number that is expected.
unfoldable pub turn : (FastReceiver → Outcome) → ℕ → FastReceiver → ℕ → Outcome
unfolding is_set Bitset.clear SlotMap.read item deliver
turn next mtu f idx =
    if is_set f.occupied idx
    then after_delivery next (record f { occupied = Bitset.clear f.occupied idx })
        (deliver f.reasm (item unsegmented f.flags idx) (SlotMap.read mtu f.slots idx))
    else some (f, none)

-- The loop, on fuel.
unfoldable pub deliver_buffered : ℕ → ℕ → FastReceiver → Outcome
unfolding turn
deliver_buffered zero mtu f = none
deliver_buffered (suc n) mtu f =
    turn (deliver_buffered n mtu) mtu f (slot_idx f f.base.expected_seq)

-- `deliver_packet` of the packet that is expected and `deliver_buffered` after it. Each turn of that
-- loop frees a slot, so that one turn more than there are slots is enough fuel.
unfoldable pub deliver_next : ℕ → FastReceiver → SequenceFlag → List ℕ → Outcome
unfolding deliver deliver_buffered
deliver_next mtu f flags payload =
    after_delivery (deliver_buffered (suc (length f.flags)) mtu) f (deliver f.reasm flags payload)

-- The state and the error of `handle_data`, for a packet as far ahead as that.
unfoldable pub accept_at : ℕ → FastReceiver → ℕ → ℕ → SequenceFlag → List ℕ → Outcome
unfolding deliver_next store_ooo
accept_at mtu f seq ahead_by flags payload =
    if ahead_by == 0
    then deliver_next mtu f flags payload
    else if ltb ahead_by (length f.flags) && not (is_ooo_duplicate f.base ahead_by)
    then some
        (record (store_ooo mtu f seq flags payload) { base = record_ooo f.base ahead_by }, none)
    else some (f, none)

unfoldable pub accept_data : ℕ → FastReceiver → ℕ → SequenceFlag → List ℕ → Outcome
unfolding accept_at
accept_data mtu f seq flags payload = accept_at mtu f seq (distance f.base seq) flags payload

-- And its outcome, where `seq_before` was expected.
unfoldable pub data_answer : ℕ → Outcome → Option (FastReceiver × (ReceiverError ⊎ DataOutcome))
unfolding any
data_answer seq_before none = none
data_answer seq_before (some (f, some e)) = some (f, inl e)
data_answer seq_before (some (f, none)) = some (
  f,
  inr (record {
    progressed = not (f.base.expected_seq == seq_before);
    has_gap = any (length f.flags) f.occupied;
  }),
)

unfoldable pub handle_data :
    ℕ
    → FastReceiver
    → ℕ
    → SequenceFlag
    → List ℕ
    → Option (FastReceiver × (ReceiverError ⊎ DataOutcome))
unfolding accept_data data_answer
handle_data mtu f seq flags payload =
    data_answer f.base.expected_seq (accept_data mtu f seq flags payload)

-- The state and the error of `skip_gap`.
unfoldable pub skip_over : ℕ → FastReceiver → Outcome
unfolding deliver_buffered
skip_over mtu f =
    deliver_buffered (suc (length f.flags)) mtu
      (record f { reasm = abandon f.reasm; base = advance f.base })

unfoldable pub gap_answer : Outcome → Option (FastReceiver × (ReceiverError ⊎ GapOutcome))
unfolding any
gap_answer none = none
gap_answer (some (f, some e)) = some (f, inl e)
gap_answer (some (f, none)) = some (f, inr (record { has_gap = any (length f.flags) f.occupied }))

unfoldable pub skip_gap : ℕ → FastReceiver → Option (FastReceiver × (ReceiverError ⊎ GapOutcome))
unfolding skip_over gap_answer
skip_gap mtu f = gap_answer (skip_over mtu f)
