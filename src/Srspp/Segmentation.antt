-- ===== src/Srspp/Segmentation.antt =====
-- The loop of a request over the segments of its message
-- (crates/leodos-protocols/src/transport/srspp/machine/sender.rs, handle_send_request).
use leo_dos.Prelude.{
  ℕ, zero, suc, ◌+◌, ◌-◌, ◌^◌, ◌≤◌, ◌<◌, min, ◌≡◌, refl, sym, ap, ◌∙◌, inl, inr, Bool, true, false,
  Option, none, some, List, [], ◌∷◌, ◌++◌, arith, ltb, leb, Bool-cases, length, take, drop, slice,
}
use mathlib.Core.Path.{subst}
use leo_dos.Prelude.Slices.{drop-drop, length-drop}
use leo_dos.Isl.Address.{Address}
use leo_dos.Srspp.Sequence.{SequenceFlag, first, last, continuation}
use leo_dos.Srspp.Sender.State.{SenderAction, SenderMachine}
use leo_dos.Srspp.Sender.Queue.{get_payload}
use leo_dos.Srspp.Sender.Machine.{Outcome, queue_packet, segment_flag, send_segments}
use leo_dos.Srspp.Sender.Compact.{IsValid}
use leo_dos.Srspp.Sender.Store.{sent_info}
use leo_dos.Srspp.Sender.Queueing.{Queued, queue_packet-Queued}
use leo_dos.Srspp.Receiver.Segments.{rest_of_message, message_packets, rest_bytes}
use leo_dos.Srspp.Packets.{
  Free, Keeps, Rest, Sent, Step, after_packet, Free-now, Queued-Step, Succeeded,
}

take-drop : (n : ℕ) (xs : List ℕ) → take n xs ++ drop n xs ≡ xs
take-drop zero xs = refl
take-drop (suc n) [] = refl
take-drop (suc n) (x ∷ xs) = ap (λ ys. x ∷ ys) (take-drop n xs)

take-all : (n : ℕ) (xs : List ℕ) → length xs ≤ n → take n xs ≡ xs
take-all zero [] h = refl
take-all zero (x ∷ xs) h = absurd (omega arith)
take-all (suc n) [] h = refl
take-all (suc n) (x ∷ xs) h = ap (λ ys. x ∷ ys) (take-all n xs (omega arith))

abbrev machine_or : SenderMachine → Option Outcome → SenderMachine
machine_or m none = m
machine_or m (some o) = o.0

abbrev pub outcome_or : Outcome → Option Outcome → Outcome
outcome_or o none = o
outcome_or o (some o') = o'

abbrev returned : Option Outcome → Bool
returned none = false
returned (some o) = true

no_return : (o : Outcome) → none ≡ some o → ⊥
no_return o h = (let never = ap returned h in ground (arith, never))

module _ (max_payload : ℕ) (target : Address) (data_bytes : List ℕ) where
  finished :
      (n : ℕ) (m m' : SenderMachine) (offset : ℕ) (actions : List SenderAction)
      → length data_bytes ≤ offset
      → Succeeded (send_segments n max_payload m target data_bytes offset false actions) m'
      → m ≡ m'
  unfolding send_segments
  finished zero m m' offset actions h s = absurd (no_return _ s.1)
  finished (suc n) m m' offset actions h s =
      let outside : ltb offset (length data_bytes) ≡ false = ground (arith, h) in
      let same : some (m, actions, none) ≡ some (m', s.0, none) = rw outside at s.1 in
      ap (machine_or m) same

  out_of_fuel :
      (m : SenderMachine) (offset : ℕ) (actions : List SenderAction) (m' : SenderMachine)
      → Succeeded (send_segments zero max_payload m target data_bytes offset false actions) m'
      → ⊥
  unfolding send_segments
  out_of_fuel m offset actions m' s = no_return _ s.1

  -- One packet of the loop.
  packet_sent :
      (n : ℕ) (m : SenderMachine) (offset : ℕ) (is_first : Bool) (actions : List SenderAction)
      (m' : SenderMachine)
      → n < 2 ^ 14
      → IsValid m
      → m.next_seq < 2 ^ 14
      → Free m m.next_seq (suc n)
      → offset < length data_bytes
      → Succeeded (send_segments (suc n) max_payload m target data_bytes offset is_first actions) m'
      → (m'' : SenderMachine) × (actions' : List SenderAction) × Step m m'' target
          (slice data_bytes offset (min (length data_bytes - offset) max_payload))
          (segment_flag is_first
            (leb (length data_bytes) (offset + min (length data_bytes - offset) max_payload)))
          n
        × Succeeded
            (send_segments n max_payload m'' target data_bytes
              (offset + min (length data_bytes - offset) max_payload)
              false
              actions')
            m'
  unfolding send_segments
  packet_sent n m offset is_first actions m' small v low free h s =
      let chunk_size = min (length data_bytes - offset) max_payload in
      let flags = segment_flag is_first (leb (length data_bytes) (offset + chunk_size)) in
      let bytes = slice data_bytes offset chunk_size in
      let inside : ltb offset (length data_bytes) ≡ true = ground (arith, h) in
      let (m'', actions', e, rest) =
        after_packet m (queue_packet m target bytes flags true actions)
          (λ m'' actions'.
            send_segments n max_payload m'' target data_bytes (offset + chunk_size) false actions')
          m' (rw inside at s) in
      let queued =
        queue_packet-Queued m target bytes flags true actions v (Free-now m n low free) in
      (
        m'',
        actions',
        Queued-Step m m'' target bytes flags actions actions' n small low free
            (subst (Queued m target bytes flags false actions) e queued),
        rest,
      )

  -- What the last segment and one before it are of the message.
  last_bytes :
      (offset : ℕ)
      → length data_bytes ≤ offset + min (length data_bytes - offset) max_payload
      → slice data_bytes offset (min (length data_bytes - offset) max_payload)
        ≡ drop offset data_bytes
  last_bytes offset h =
      take-all (min (length data_bytes - offset) max_payload) (drop offset data_bytes)
        (omega (arith, h, length-drop offset data_bytes))

  next_bytes :
      (offset n : ℕ)
      → slice data_bytes offset n ++ drop (offset + n) data_bytes ≡ drop offset data_bytes
  next_bytes offset n =
      ap (λ ys. slice data_bytes offset n ++ ys) (sym (drop-drop n offset data_bytes))
      ∙ take-drop n (drop offset data_bytes)

  Step-low :
      (m m'' : SenderMachine) (bytes : List ℕ) (flags : SequenceFlag) (n : ℕ)
      → Step m m'' target bytes flags n
      → m''.next_seq < 2 ^ 14
  Step-low m m'' bytes flags n t = omega (arith, t.next)

  -- The packet with the flag that it has.
  flag_here :
      (m m'' : SenderMachine) (offset : ℕ) (is_first : Bool) (flags : SequenceFlag)
      → segment_flag is_first
          (leb (length data_bytes) (offset + min (length data_bytes - offset) max_payload))
        ≡ flags
      → (n : ℕ)
      → Step m m'' target
          (slice data_bytes offset (min (length data_bytes - offset) max_payload))
          (segment_flag is_first
            (leb (length data_bytes) (offset + min (length data_bytes - offset) max_payload)))
          n
      → get_payload m'' m.next_seq
        ≡ some (
            sent_info m.next_seq target
              (slice data_bytes offset (min (length data_bytes - offset) max_payload))
              flags
              false)
  flag_here m m'' offset is_first flags e n t =
      t.here
      ∙ ap
          (λ g. some (
            sent_info m.next_seq target
              (slice data_bytes offset (min (length data_bytes - offset) max_payload)) g false))
          e

  send-Rest :
      (n : ℕ) (m : SenderMachine) (offset : ℕ) (actions : List SenderAction) (m' : SenderMachine)
      → n ≤ 2 ^ 14
      → IsValid m
      → m.next_seq < 2 ^ 14
      → Free m m.next_seq n
      → offset < length data_bytes
      → Succeeded (send_segments n max_payload m target data_bytes offset false actions) m'
      → Rest m m' target data_bytes offset
  send-Rest zero m offset actions m' small v low free h s =
      absurd (out_of_fuel m offset actions m' s)
  send-Rest (suc n) m offset actions m' small v low free h s =
      let chunk_size = min (length data_bytes - offset) max_payload in
      let (m'', actions', t, rest) =
        packet_sent n m offset false actions m' (omega (arith, small)) v low free h s in
      elim (Bool-cases (leb (length data_bytes) (offset + chunk_size))) [
        | inl e ↦
            let same = finished n m'' m' (offset + chunk_size) actions' (ground (arith, e)) rest in
            let flag : segment_flag false (leb (length data_bytes) (offset + chunk_size)) ≡ last =
              ap (segment_flag false) e in
            record {
              qs = [];
              end = slice data_bytes offset chunk_size;
              sent = (
                subst
                    (λ x.
                      get_payload x m.next_seq
                      ≡ some (
                          sent_info m.next_seq target (slice data_bytes offset chunk_size) last
                            false))
                    same (flag_here m m'' offset false last flag n t),
                tt,
              );
              whole = last_bytes offset (ground (arith, e));
              keeps = subst (Keeps m) same t.keeps;
            }
        | inr e ↦
            let r =
              send-Rest n m'' (offset + chunk_size) actions' m' (omega (arith, small)) t.valid
                (Step-low m m'' _ _ n t) t.free (ground (arith, e)) rest in
            record {
              qs = slice data_bytes offset chunk_size ∷ r.qs;
              end = r.end;
              sent = (
                r.keeps m.next_seq _
                    (flag_here m m'' offset false continuation (ap (segment_flag false) e) n t),
                subst (λ seq. Sent m' target seq (rest_of_message r.qs r.end)) t.next r.sent,
              );
              whole =
                  ap (λ ys. slice data_bytes offset chunk_size ++ ys) r.whole
                  ∙ next_bytes offset chunk_size;
              keeps = λ seq p k. r.keeps seq p (t.keeps seq p k);
            }
      ]

  -- The whole loop, on a message that is longer than a packet.
  pub send_all :
      (n : ℕ) (m : SenderMachine) (actions : List SenderAction) (m' : SenderMachine)
      → n < 2 ^ 14
      → IsValid m
      → m.next_seq < 2 ^ 14
      → Free m m.next_seq (suc n)
      → max_payload < length data_bytes
      → Succeeded (send_segments (suc n) max_payload m target data_bytes 0 true actions) m'
      → (start : List ℕ) × (qs : List (List ℕ)) × (end : List ℕ) × Sent m' target m.next_seq
          (message_packets start qs end)
        × (start ++ rest_bytes qs end ≡ data_bytes)
  send_all n m actions m' small v low free h s =
      let (m'', actions', t, rest) =
        packet_sent n m 0 true actions m' small v low free (omega (arith, h)) s in
      let r =
        send-Rest n m'' _ actions' m' (omega (arith, small)) t.valid (Step-low m m'' _ _ n t) t.free
          (omega (arith, h)) rest in
      (
        slice data_bytes 0 (min (length data_bytes - 0) max_payload),
        r.qs,
        r.end,
        (
          r.keeps m.next_seq _ (flag_here m m'' 0 true first refl n t),
          subst (λ seq. Sent m' target seq (rest_of_message r.qs r.end)) t.next r.sent,
        ),
        ap (λ ys. slice data_bytes 0 (min (length data_bytes - 0) max_payload) ++ ys) r.whole
            ∙ next_bytes 0 (min (length data_bytes - 0) max_payload),
      )
