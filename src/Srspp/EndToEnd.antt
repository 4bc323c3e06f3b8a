-- ===== src/Srspp/EndToEnd.antt =====
-- A message, from the request to the receiver's buffer
-- (crates/leodos-protocols/src/transport/srspp/machine: sender.rs and receiver/reassembly/fast.rs).
use leo_dos.Prelude.{
  ℕ, zero, suc, ◌+◌, ◌%◌, ◌^◌, ◌≤◌, ◌<◌, ◌≡◌, refl, ap, inl, inr, false, none, some, List, [], ◌∷◌,
  arith, ltb, leb, ◌==◌, Bool-cases, length, replicate, length-append,
}
use mathlib.Core.Path.{subst}
use leo_dos.Prelude.Slices.{slice-copy_at_self}
use leo_dos.Isl.Address.{Address}
use leo_dos.Srspp.Sequence.{unsegmented}
use leo_dos.Srspp.Sender.State.{SenderConfig, new, default_meta, SenderAction, SenderMachine}
use leo_dos.Srspp.Sender.Queue.{find_meta, get_payload, max_payload_per_packet}
use leo_dos.Srspp.Sender.Machine.{queue_packet, handle_send_request}
use leo_dos.Srspp.Sender.Compact.{IsValid}
use leo_dos.Srspp.Sender.Queueing.{Queued, queue_packet-Queued}
use leo_dos.Srspp.Receiver.Reassembly.{Reassembly, deliver, deliver_packet, take_message}
use leo_dos.Srspp.Receiver.Ordered.{Packet}
use leo_dos.Srspp.Receiver.Segments.{
  deliver_all, message_packets, rest_bytes, Received, message-Received,
}
use leo_dos.Srspp.Packets.{Free, Sent, Free-now, Queued-Step}
use leo_dos.Srspp.Segmentation.{outcome_or, send_all}

-- What `Arrives` says of a message: the sender holds packets for it under the numbers from `seq` on,
-- which, delivered in turn, give it back.
abbrev pub Arrives : SenderMachine → Address → ℕ → Reassembly → List ℕ → Type 0
Arrives m target seq r data_bytes =
    (ps : List Packet) × Sent m target seq ps × Received (deliver_all r ps) data_bytes

unsegmented-Received :
    (r : Reassembly) (p : List ℕ)
    → 0 < length p
    → length p ≤ length r.reassembly
    → Received (deliver_all r (record { flags = unsegmented; payload = p } ∷ [])) p
unfolding deliver_all deliver deliver_packet take_message
unsegmented-Received r p h l =
    let some_bytes : (length p == 0) ≡ false = ground (arith, h) in
    let fits : ltb (length r.reassembly) (length p) ≡ false = ground (arith, l) in
    rw (some_bytes, fits) (refl, ap some (slice-copy_at_self r.reassembly 0 p (omega (arith, l))))

-- On a valid machine with a 14-bit next number and fewer than 2 ^ 14 slots, where the next numbers, one
-- more than there are slots, hold nothing: when the request of a message of one byte or more returns
-- without an error, the machine holds packets for it under the next numbers, one packet or segments,
-- that, delivered in turn to a reassembly buffer that is long enough, give the message back.
pub request-Arrives :
    (mtu : ℕ) (m m' : SenderMachine) (target : Address) (data_bytes : List ℕ)
    (actions actions' : List SenderAction) (r : Reassembly)
    → IsValid m
    → m.next_seq < 2 ^ 14
    → length m.meta < 2 ^ 14
    → Free m m.next_seq (suc (length m.meta))
    → 0 < length data_bytes
    → length data_bytes ≤ length r.reassembly
    → handle_send_request mtu m target data_bytes actions ≡ some (m', actions', none)
    → Arrives m' target m.next_seq r data_bytes
unfolding handle_send_request
request-Arrives mtu m m' target data_bytes actions actions' r v low slots free h l s =
    elim (Bool-cases (leb (length data_bytes) (max_payload_per_packet mtu m))) [
      | inl e ↦
          let o = queue_packet m target data_bytes unsegmented false actions in
          let single : some o ≡ some (m', actions', none) = rw e at s in
          let queued =
            queue_packet-Queued m target data_bytes unsegmented false actions v
              (Free-now m (length m.meta) low free) in
          let t =
            Queued-Step m m' target data_bytes unsegmented actions actions' (length m.meta) slots
              low free
              (subst (Queued m target data_bytes unsegmented false actions)
                (ap (outcome_or o) single) queued) in
          (
            record { flags = unsegmented; payload = data_bytes } ∷ [],
            (t.here, tt),
            unsegmented-Received r data_bytes h l,
          )
      | inr e ↦
          let loop = rw e at s in
          let (start, qs, end, sent, whole) =
            send_all (max_payload_per_packet mtu m) target data_bytes (length m.meta) m actions m'
              slots v low free (ground (arith, e)) (actions', loop) in
          (
            message_packets start qs end,
            sent,
            subst (Received (deliver_all r (message_packets start qs end))) whole (
                message-Received r start qs end
                  (omega (arith, l, length-append start (rest_bytes qs end), ap length whole))),
          )
    ]

none_found : (seq n : ℕ) → find_meta seq (replicate n default_meta) ≡ none
unfolding find_meta default_meta
none_found seq zero = refl
none_found seq (suc n) = none_found seq n

-- A new sender holds nothing.
pub new-Free :
    (win buf_size : ℕ) (config : SenderConfig) (n : ℕ) → Free (new win config buf_size) 0 n
unfolding new get_payload
new-Free win buf_size config n = λ k h. rw (none_found ((0 + k) % 2 ^ 14) win, get_payload) refl
