-- ===== src/Srspp/Receiver/Tests.antt =====
-- Runs of the receivers.
use leo_dos.Prelude.{ℕ, ◌≡◌, refl, true, false, Option, none, some, List, [], ◌∷◌, arith}
use leo_dos.Isl.Address.{Address, satellite}
use leo_dos.Srspp.Sequence.{SequenceFlag, first, continuation, last}
use leo_dos.Srspp.Receiver.Reassembly.{Reassembly, take_message}
use leo_dos.Srspp.Receiver.Fast
use leo_dos.Srspp.Receiver.Fast.{FastReceiver, DataOutcome}
use leo_dos.Srspp.Receiver.Packed
use leo_dos.Srspp.Receiver.Packed.{PackedReceiver}
use leo_dos.Srspp.Receiver.Slab.{BumpSlab, alloc, Allocated, alloc-Allocated}
use leo_dos.Srspp.Receiver.Ack.{
  Timed, IsTimed, Answered, ReceiverConfig, packet, expires, on_data-Answered,
}
use leo_dos.Srspp.Receiver.Delayed.{
  Calls, run, answers, ack_before, promised, start, answers-promised,
}
use leo_dos.Srspp.Receiver.Ordered.{Packet}
use leo_dos.Srspp.Receiver.Segments.{Received, deliver_all, message_packets, message-Received}

-- The third of four segments comes first, then the first, the last and the second.
abbrev shuffled : List (ℕ × SequenceFlag × List ℕ)
shuffled =
    (2, continuation, 20 ∷ [])
    ∷ (0, first, 0 ∷ [])
    ∷ (3, last, 30 ∷ [])
    ∷ (1, continuation, 10 ∷ [])
    ∷ []

abbrev fast_all : Fast.Outcome → List (ℕ × SequenceFlag × List ℕ) → Fast.Outcome
fast_all none ps = none
fast_all (some (f, e)) [] = some (f, e)
fast_all (some (f, e)) ((seq, flags, payload) ∷ ps) =
    fast_all (Fast.accept_data 4 f seq flags payload) ps

abbrev fast_message : Fast.Outcome → Option (List ℕ)
fast_message none = none
fast_message (some (f, e)) = (take_message f.reasm).1

in_order :
    fast_message (fast_all (some (Fast.new 8 8 32, none)) shuffled) ≡ some (0 ∷ 10 ∷ 20 ∷ 30 ∷ [])
unfolding Fast.new Fast.accept_data take_message
in_order = refl

abbrev packed_all : Packed.Outcome → List (ℕ × SequenceFlag × List ℕ) → Packed.Outcome
packed_all none ps = none
packed_all (some (f, e)) [] = some (f, e)
packed_all (some (f, e)) ((seq, flags, payload) ∷ ps) =
    packed_all (Packed.accept_data f seq flags payload) ps

abbrev packed_message : Packed.Outcome → Option (List ℕ)
packed_message none = none
packed_message (some (f, e)) = (take_message f.reasm).1

-- The slab is cleared by the delivery of the first, though the third is in it: the last one's byte
-- takes the place of the third one's.
overwritten :
    packed_message (packed_all (some (Packed.new 8 8 32, none)) shuffled)
    ≡ some (0 ∷ 10 ∷ 30 ∷ 30 ∷ [])
unfolding Packed.new Packed.accept_data take_message
overwritten = refl

abbrev third : Packet
third = record { flags = continuation; payload = 20 ∷ [] }

abbrev used : Reassembly
used = record {
  reassembly = 9 ∷ 9 ∷ 9 ∷ 9 ∷ 9 ∷ [];
  reassembly_len = 2;
  reassembly_in_progress = false;
  complete_message_len = some 2;
}

message-Received_example :
    Received
      (deliver_all used (message_packets (1 ∷ 2 ∷ []) ((3 ∷ []) ∷ []) (4 ∷ [])))
      (1 ∷ 2 ∷ 3 ∷ 4 ∷ [])
message-Received_example = message-Received used (1 ∷ 2 ∷ []) ((3 ∷ []) ∷ []) (4 ∷ []) (omega arith)

-- Delayed acknowledgements.
abbrev delayed : Timed
delayed = record {
  state = record {
    remote_address = satellite (record { orb = 1; sat = 2 });
    immediate_ack = false;
    ack_delay_ticks = 20;
    progress_timeout_ticks = none;
    ack_pending = false;
    ack_timer_running = false;
  };
  timer = false;
}

delayed-IsTimed : IsTimed delayed
delayed-IsTimed = record { known = refl; waits = refl }

abbrev in_turn : DataOutcome
in_turn = record { progressed = true; has_gap = false }

on_data-Answered_example : Answered delayed in_turn 1 0
on_data-Answered_example = on_data-Answered delayed in_turn 1 0 delayed-IsTimed

abbrev peer : Address
peer = satellite (record { orb = 1; sat = 2 })

abbrev delaying : ReceiverConfig
delaying = record {
  local_address = satellite (record { orb = 0; sat = 0 });
  apid = 9;
  function_code = 1;
  immediate_ack = false;
  ack_delay_ticks = 20;
  progress_timeout_ticks = none;
}

-- A packet starts the timer, which expires before the next one.
abbrev two_packets : Calls
two_packets = (packet in_turn, 1, 0) ∷ (expires, 1, 0) ∷ (packet in_turn, 2, 0) ∷ []

answered : promised false peer false two_packets ≡ none ∷ some (ack_before peer 1 0) ∷ none ∷ []
unfolding promised
answered = refl

answers-promised_example :
    (answers two_packets (start delaying peer) ≡ promised false peer false two_packets)
    × IsTimed (run two_packets (start delaying peer))
answers-promised_example = answers-promised delaying peer two_packets

abbrev slab : BumpSlab
slab = record { data_buf = 7 ∷ 8 ∷ 0 ∷ 0 ∷ []; len = 2 }

alloc-Allocated_example : Allocated slab (9 ∷ []) (alloc slab (9 ∷ []))
alloc-Allocated_example = alloc-Allocated slab (9 ∷ []) (omega arith)
