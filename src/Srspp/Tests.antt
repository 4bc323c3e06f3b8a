-- ===== src/Srspp/Tests.antt =====
-- Runs of the sender.
use leo_dos.Prelude.{
  ℕ, ◌≡◌, refl, true, false, Option, none, some, List, [], ◌∷◌, map, arith, length,
}
use leo_dos.Isl.Address.{Address, satellite}
use leo_dos.Srspp.Sequence.{unsegmented}
use leo_dos.Srspp.Sender.State.{
  send_request, ack_received, SenderConfig, SenderMachine, SenderError, buffer_full, new,
}
use leo_dos.Srspp.Sender.Queue.{get_payload, compact}
use leo_dos.Srspp.Receiver.Reassembly.{Reassembly}
use leo_dos.Srspp.EndToEnd.{Arrives, request-Arrives, new-Free}
use leo_dos.Srspp.Sender.Machine.{
  handle_send_request, mark_transmitted, Outcome, handle, queue_packet, queue_eos,
}
use leo_dos.Srspp.Sender.Compact.{IsValid, get_payload-compact}
use leo_dos.Srspp.Sender.Queueing.{Queued, queue_packet-Queued, queue_eos-Queued}
use leo_dos.Srspp.Sender.Events.{Returns, handle-Returns, new-IsValid}
use leo_dos.Srspp.Sender.Runs.{Call, event, transmitted, machine_of, run, new-run}

abbrev peer : Address
peer = satellite (record { orb = 1; sat = 2 })

abbrev config : SenderConfig
config = record {
  source_address = satellite (record { orb = 1; sat = 1 });
  apid = 66;
  function_code = 0;
  rto_ticks = 100;
  max_retransmits = 3;
  header_overhead = 4;
}

-- Four slots, a buffer of eight bytes and packets of at most three.
abbrev idle : SenderMachine
idle = new 4 config 8

idle-IsValid : IsValid idle
idle-IsValid = new-IsValid 4 8 config

abbrev message : List ℕ
message = 10 ∷ 11 ∷ 12 ∷ 13 ∷ 14 ∷ []

-- A message of five bytes in two segments, the first of which is acknowledged, and then one of four
-- bytes whose last segment has no room; the first stays.
abbrev calls : List Call
calls =
    event (send_request peer message) []
    ∷ transmitted 0
    ∷ event (ack_received 0 0) []
    ∷ event (send_request peer (20 ∷ 21 ∷ [])) []
    ∷ []

-- What is held under each of the numbers 0 to 3.
abbrev held : Option SenderMachine → List (Option (List ℕ))
held none = []
held (some m) =
    map (λ seq. elim (get_payload m seq) [ none ↦ none | some p ↦ some p.payload ])
      (0 ∷ 1 ∷ 2 ∷ 3 ∷ [])

after_calls : held (run 7 calls idle) ≡ none ∷ some (13 ∷ 14 ∷ []) ∷ some (20 ∷ 21 ∷ []) ∷ none ∷ []
unfolding run handle get_payload new mark_transmitted
after_calls = refl

abbrev error_of : Option Outcome → Option SenderError
error_of none = none
error_of (some o) = o.2

-- The message does not fit: the error comes after two segments are queued, and they stay.
abbrev too_long : List ℕ
too_long = 1 ∷ 2 ∷ 3 ∷ 4 ∷ 5 ∷ 6 ∷ 7 ∷ 8 ∷ 9 ∷ []

half_sent :
    (error_of (handle 7 idle (send_request peer too_long) []) ≡ some buffer_full)
    × (held (machine_of (handle 7 idle (send_request peer too_long) []))
        ≡ some (1 ∷ 2 ∷ 3 ∷ []) ∷ some (4 ∷ 5 ∷ 6 ∷ []) ∷ none ∷ none ∷ [])
unfolding handle get_payload new
half_sent = (refl, refl)

-- The bytes of the acknowledged segment stand before those of the other packets.
abbrev gapped : SenderMachine
gapped = (new-run 7 4 8 config calls).0

get_payload-compact_example : get_payload (compact gapped) 1 ≡ get_payload gapped 1
get_payload-compact_example = get_payload-compact gapped 1 (new-run 7 4 8 config calls).2.0

nothing_held : get_payload idle 0 ≡ none
unfolding get_payload new
nothing_held = refl

queue_packet-Queued_example :
    Queued idle peer message unsegmented false []
      (queue_packet idle peer message unsegmented false [])
unfolding new
queue_packet-Queued_example =
    queue_packet-Queued idle peer message unsegmented false [] idle-IsValid nothing_held

queue_eos-Queued_example : Queued idle peer [] unsegmented true [] (queue_eos idle peer [])
unfolding new
queue_eos-Queued_example = queue_eos-Queued idle peer [] idle-IsValid nothing_held

handle-Returns_example : Returns (handle 7 idle (send_request peer message) [])
handle-Returns_example = handle-Returns 7 idle (send_request peer message) [] idle-IsValid

new-run_example :
    (m : SenderMachine) × (run 7 calls (new 4 config 8) ≡ some m)
    × (IsValid m × (length m.data_buf ≡ 8))
new-run_example = new-run 7 4 8 config calls

abbrev outcome_of : Option Outcome → Outcome
outcome_of none = (idle, [], none)
outcome_of (some o) = o

abbrev requested : Outcome
requested = outcome_of (handle_send_request 7 idle peer message [])

accepted : handle_send_request 7 idle peer message [] ≡ some (requested.0, requested.1, none)
unfolding handle_send_request new
accepted = refl

abbrev buffer : Reassembly
buffer = record {
  reassembly = 0 ∷ 0 ∷ 0 ∷ 0 ∷ 0 ∷ 0 ∷ [];
  reassembly_len = 0;
  reassembly_in_progress = false;
  complete_message_len = none;
}

request-Arrives_example : Arrives requested.0 peer 0 buffer message
unfolding new
request-Arrives_example =
    request-Arrives 7 idle requested.0 peer message [] requested.1 buffer idle-IsValid (omega arith)
      (omega arith) (new-Free 4 8 config 5) (omega arith) (omega arith) accepted
