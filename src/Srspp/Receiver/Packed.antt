-- ===== src/Srspp/Receiver/Packed.antt =====
-- The receiver with a bump allocator
-- (crates/leodos-protocols/src/transport/srspp/machine/receiver/reassembly/packed.rs). WIN is the
-- length of `slot_meta`.
use leo_dos.Prelude.{
  ℕ, zero, suc, ◌%◌, min, false, ◌&&◌, not, Option, none, some, List, ltb, ◌==◌, if◌then◌else◌,
  length, set, take, replicate,
}
use leo_dos.Prelude.Arrays.{item}
use leo_dos.Srspp.Sequence.{SequenceFlag, unsegmented}
use leo_dos.Srspp.Receiver.Base
use leo_dos.Srspp.Receiver.Base.{ReceiverBase, distance, is_ooo_duplicate, record_ooo, advance}
use leo_dos.Srspp.Receiver.Bitset
use leo_dos.Srspp.Receiver.Bitset.{is_set}
use leo_dos.Srspp.Receiver.Slab
use leo_dos.Srspp.Receiver.Slab.{BumpSlab}
use leo_dos.Srspp.Receiver.Reassembly.{ReceiverError, buffer_full, Reassembly, deliver, abandon}

pub record SlotMeta : Type 0 where
  pub offset : ℕ
  pub len : ℕ
  pub flags : SequenceFlag

-- `SlotMeta::default`
abbrev pub no_meta : SlotMeta
no_meta = record { offset = 0; len = 0; flags = unsegmented }

pub record PackedReceiver : Type 0 where
  pub base : ReceiverBase
  pub occupied : ℕ
  pub slot_meta : List SlotMeta
  pub slab : BumpSlab
  pub reasm : Reassembly  -- The four fields of the reassembly.

unfoldable pub new : ℕ → ℕ → ℕ → PackedReceiver
new win buf reasm = record {
  base = Base.new;
  occupied = 0;
  slot_meta = replicate win no_meta;
  slab = Slab.new buf;
  reasm = record {
    reassembly = replicate reasm 0;
    reassembly_len = 0;
    reassembly_in_progress = false;
    complete_message_len = none;
  };
}

abbrev pub slot_idx : PackedReceiver → ℕ → ℕ
slot_idx f seq = seq % length f.slot_meta

abbrev pub Outcome : Type 0
Outcome = Option (PackedReceiver × Option ReceiverError)

-- `store_ooo` with what `alloc` returned.
abbrev pub place_at :
    PackedReceiver
    → ℕ
    → SequenceFlag
    → Option (BumpSlab × ℕ × ℕ)
    → PackedReceiver × Option ReceiverError
place_at f idx flags none = (f, some buffer_full)
place_at f idx flags (some (slab, offset, len)) = (
  record f {
    slab = slab;
    slot_meta = set f.slot_meta idx (record { offset = offset; len = len; flags = flags });
    occupied = Bitset.set f.occupied idx;
  },
  none,
)

unfoldable pub store_ooo :
    PackedReceiver → ℕ → SequenceFlag → List ℕ → PackedReceiver × Option ReceiverError
unfolding is_set Bitset.set Slab.alloc
store_ooo f seq flags payload =
    let idx = slot_idx f seq in
    if is_set f.occupied idx then (f, none) else place_at f idx flags (Slab.alloc f.slab payload)

abbrev pub after_delivery :
    (PackedReceiver → Outcome) → PackedReceiver → Reassembly × Option ReceiverError → Outcome
after_delivery next f (r, some e) = some (record f { reasm = r }, some e)
after_delivery next f (r, none) = next (record f { reasm = r; base = advance f.base })

-- A turn of the loop of `deliver_buffered`. A payload of more than
-- REASM bytes, at which the code stops, is cut here.
unfoldable pub turn : (PackedReceiver → Outcome) → PackedReceiver → ℕ → Outcome
unfolding is_set Bitset.clear item deliver
turn next f idx =
    let meta = item no_meta f.slot_meta idx in
    if is_set f.occupied idx
    then after_delivery next (record f { occupied = Bitset.clear f.occupied idx })
        (deliver f.reasm meta.flags
          (take (min meta.len (length f.reasm.reassembly)) (Slab.get f.slab meta.offset meta.len)))
    else some (record f { slab = Slab.clear f.slab }, none)

-- The loop, on fuel.
unfoldable pub deliver_buffered : ℕ → PackedReceiver → Outcome
unfolding turn
deliver_buffered zero f = none
deliver_buffered (suc n) f = turn (deliver_buffered n) f (slot_idx f f.base.expected_seq)

unfoldable pub deliver_next : PackedReceiver → SequenceFlag → List ℕ → Outcome
unfolding deliver deliver_buffered
deliver_next f flags payload =
    after_delivery (deliver_buffered (suc (length f.slot_meta))) f (deliver f.reasm flags payload)

-- What follows `store_ooo`.
abbrev pub recorded : ℕ → PackedReceiver × Option ReceiverError → Outcome
recorded ahead_by (f, some e) = some (f, some e)
recorded ahead_by (f, none) = some (record f { base = record_ooo f.base ahead_by }, none)

-- The state and the error of `handle_data`.
unfoldable pub accept_data : PackedReceiver → ℕ → SequenceFlag → List ℕ → Outcome
unfolding deliver_next store_ooo
accept_data f seq flags payload =
    let ahead_by = distance f.base seq in
    if ahead_by == 0
    then deliver_next f flags payload
    else if ltb ahead_by (length f.slot_meta) && not (is_ooo_duplicate f.base ahead_by)
    then recorded ahead_by (store_ooo f seq flags payload)
    else some (f, none)

-- The state and the error of `skip_gap`.
unfoldable pub skip_gap : PackedReceiver → Outcome
unfolding deliver_buffered
skip_gap f =
    deliver_buffered (suc (length f.slot_meta))
      (record f { reasm = abandon f.reasm; base = advance f.base })
