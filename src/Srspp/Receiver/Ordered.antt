-- ===== src/Srspp/Receiver/Ordered.antt =====
-- What the receivers promise: packets with numbers that never wrap, kept in a map until their turn,
-- and delivered in the order of their numbers.
use leo_dos.Prelude.{
  ℕ, zero, suc, ◌+◌, Bool, true, false, ◌&&◌, not, Option, none, some, List, ltb, ◌==◌,
  if◌then◌else◌,
}
use leo_dos.Srspp.Sequence.{SequenceFlag}
use leo_dos.Srspp.Receiver.Reassembly.{ReceiverError, Reassembly, deliver, abandon}

pub record Packet : Type 0 where
  pub flags : SequenceFlag
  pub payload : List ℕ

pub record Ordered : Type 0 where
  pub count : ℕ  -- The next number to deliver.
  pub held : ℕ → Option Packet
  pub reasm : Reassembly

-- A number is given a packet, or none.
abbrev pub assign : (ℕ → Option Packet) → ℕ → Option Packet → ℕ → Option Packet
assign held k o = λ j. if j == k then o else held j

abbrev pub is_held : Option Packet → Bool
is_held none = false
is_held (some p) = true

abbrev pub Response : Type 0
Response = Option (Ordered × Option ReceiverError)

-- What follows a delivery: an error is passed on, and else the next number is waited for.
abbrev pub then_next : (Ordered → Response) → Ordered → Reassembly × Option ReceiverError → Response
then_next next o (r, some e) = some (record o { reasm = r }, some e)
then_next next o (r, none) = next (record o { reasm = r; count = suc o.count })

-- The next packet, if it is held, is delivered; a delivery that fails drops it.
unfoldable pub take_held : (Ordered → Response) → Ordered → Option Packet → Response
unfolding deliver
take_held next o none = some (o, none)
take_held next o (some p) =
    then_next next (record o { held = assign o.held o.count none })
      (deliver o.reasm p.flags p.payload)

-- As long as the next is held, on fuel.
unfoldable pub drain : ℕ → Ordered → Response
unfolding take_held
drain zero o = none
drain (suc n) o = take_held (drain n) o (o.held o.count)

unfoldable pub next_data : ℕ → Ordered → Packet → Response
unfolding deliver drain
next_data window o p = then_next (drain (suc window)) o (deliver o.reasm p.flags p.payload)

-- Packet `k` comes: it is delivered, kept, or, where it is old, too new or kept already, ignored.
unfoldable pub data_comes : ℕ → Ordered → ℕ → Packet → Response
unfolding next_data
data_comes window o k p =
    if k == o.count
    then next_data window o p
    else if ltb o.count k && ltb k (o.count + window) && not (is_held (o.held k))
    then some (record o { held = assign o.held k (some p) }, none)
    else some (o, none)

-- The next packet is given up, and with it a message begun.
unfoldable pub gap_skipped : ℕ → Ordered → Response
unfolding drain
gap_skipped window o =
    drain (suc window) (record o { reasm = abandon o.reasm; count = suc o.count })
