-- ===== src/Srspp/Packets.antt =====
-- Packets that a request puts under consecutive numbers
-- (crates/leodos-protocols/src/transport/srspp/machine/sender.rs).
use leo_dos.Prelude.{
  ℕ, suc, ◌+◌, ◌%◌, ◌^◌, ◌<◌, ◌≡◌, refl, sym, ap, ◌∙◌, ◌≢◌, inl, inr, true, false, Option, none,
  some, List, [], ◌∷◌, arith, ◌==◌, ==_iff, ==_ne, Bool-cases, drop,
}
use leo_dos.Isl.Address.{Address}
use leo_dos.Srspp.Sequence.{SequenceFlag, increment}
use leo_dos.Srspp.Sender.State.{SenderAction, SenderError, SenderMachine, PayloadInfo}
use leo_dos.Srspp.Sender.Queue.{get_payload}
use leo_dos.Srspp.Sender.Machine.{Outcome}
use leo_dos.Srspp.Sender.Compact.{IsValid}
use leo_dos.Srspp.Sender.Store.{sent_info}
use leo_dos.Srspp.Sender.Queueing.{Queued}
use leo_dos.Srspp.Receiver.Ordered.{Packet}
use leo_dos.Srspp.Receiver.Segments.{rest_of_message, rest_bytes}

-- The packets are held under the numbers from `seq` on.
abbrev pub Sent : SenderMachine → Address → ℕ → List Packet → Type 0
Sent m target seq [] = Unit
Sent m target seq (p ∷ ps) =
    (get_payload m seq ≡ some (sent_info seq target p.payload p.flags false))
    × Sent m target (increment seq) ps

-- The next `n` numbers hold nothing.
abbrev pub Free : SenderMachine → ℕ → ℕ → Type 0
Free m seq n = (k : ℕ) → k < n → get_payload m ((seq + k) % 2 ^ 14) ≡ none

-- All that is held stays.
abbrev pub Keeps : SenderMachine → SenderMachine → Type 0
Keeps m m' = (seq : ℕ) (p : PayloadInfo) → get_payload m seq ≡ some p → get_payload m' seq ≡ some p

Sent-Keeps :
    (m m' : SenderMachine) (target : Address) (seq : ℕ) (ps : List Packet)
    → Keeps m m'
    → Sent m target seq ps
    → Sent m' target seq ps
Sent-Keeps m m' target seq [] k s = tt
Sent-Keeps m m' target seq (p ∷ ps) k s =
    (k seq _ s.0, Sent-Keeps m m' target (increment seq) ps k s.1)

-- What a queued packet does, in the terms of the loop.
pub record Step (m m' : SenderMachine) (target : Address) (bytes : List ℕ) (flags : SequenceFlag)
    (n : ℕ) : Type 0 where
  pub valid : IsValid m'
  pub keeps : Keeps m m'
  pub here : get_payload m' m.next_seq ≡ some (sent_info m.next_seq target bytes flags false)
  pub next : m'.next_seq ≡ increment m.next_seq
  pub free : Free m' m'.next_seq n

pub Free-now :
    (m : SenderMachine) (n : ℕ)
    → m.next_seq < 2 ^ 14
    → Free m m.next_seq (suc n)
    → get_payload m m.next_seq ≡ none
Free-now m n low free =
    let same : (m.next_seq + 0) % 2 ^ 14 ≡ m.next_seq = omega (arith, low) in
    sym (ap (get_payload m) same) ∙ free 0 (omega arith)

none-some : (o : Option PayloadInfo) (p : PayloadInfo) → o ≡ none → o ≡ some p → ⊥
none-some o p h k = ground arith

pub Queued-Step :
    (m m' : SenderMachine) (target : Address) (bytes : List ℕ) (flags : SequenceFlag)
    (actions actions' : List SenderAction) (n : ℕ)
    → n < 2 ^ 14
    → m.next_seq < 2 ^ 14
    → Free m m.next_seq (suc n)
    → Queued m target bytes flags false actions (m', actions', none)
    → Step m m' target bytes flags n
Queued-Step m m' target bytes flags actions actions' n small low free q = record {
  valid = q.0;
  keeps = λ seq p h. elim (Bool-cases (seq == m.next_seq)) [
    | inl e ↦ absurd (
        none-some (get_payload m seq) p
          (ap (get_payload m) ((==_iff seq m.next_seq).0 e) ∙ Free-now m n low free) h)
    | inr e ↦ q.1 seq ∙ rw e h
  ];
  here = q.1 m.next_seq ∙ rw (==_refl m.next_seq) refl;
  next = q.2;
  free = λ k h.
      let number : (m'.next_seq + k) % 2 ^ 14 ≡ (m.next_seq + suc k) % 2 ^ 14 =
        omega (arith, q.2) in
      let other : (m.next_seq + suc k) % 2 ^ 14 ≢ m.next_seq =
        λ e. omega (arith, e, small, low, h) in
      ap (get_payload m') number
      ∙ q.1 ((m.next_seq + suc k) % 2 ^ 14)
      ∙ rw (==_ne ((m.next_seq + suc k) % 2 ^ 14) m.next_seq other) (free (suc k) (omega arith));
}
  where
    ==_refl : (k : ℕ) → (k == k) ≡ true
    ==_refl k = ground arith

-- What the loop leaves when it succeeds from `offset` on, after the first segment.
pub record Rest (m m' : SenderMachine) (target : Address) (data_bytes : List ℕ) (offset : ℕ)
    : Type 0 where
  pub qs : List (List ℕ)
  pub end : List ℕ
  pub sent : Sent m' target m.next_seq (rest_of_message qs end)
  pub whole : rest_bytes qs end ≡ drop offset data_bytes
  pub keeps : Keeps m m'

-- A packet and then the loop.
abbrev pub Succeeded : Option Outcome → SenderMachine → Type 0
Succeeded o m' = (actions : List SenderAction) × (o ≡ some (m', actions, none))

abbrev error_of : Option Outcome → Option SenderError
error_of none = none
error_of (some o) = o.2

failed : (e : SenderError) → some e ≡ none → ⊥
failed e h = ground arith

pub after_packet :
    (m : SenderMachine) (o : Outcome) (next : SenderMachine → List SenderAction → Option Outcome)
    (m' : SenderMachine)
    → Succeeded (elim o.2 [ some e ↦ some (o.0, o.1, some e) | none ↦ next o.0 o.1 ]) m'
    → (m'' : SenderMachine) × (actions : List SenderAction) × (o ≡ (m'', actions, none))
      × Succeeded (next m'' actions) m'
after_packet m (m'', actions, some e) next m' h = absurd (failed e (ap error_of h.1))
after_packet m (m'', actions, none) next m' h = (m'', actions, refl, h)
