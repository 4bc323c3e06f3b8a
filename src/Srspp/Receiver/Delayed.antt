-- ===== src/Srspp/Receiver/Delayed.antt =====
-- The acknowledgements of a sequence of packets and expiries, against what they are to be
-- (crates/leodos-protocols/src/transport/srspp/machine/receiver/mod.rs, AckState).
use leo_dos.Prelude.{
  ℕ, ◌+◌, ◌-◌, ◌%◌, ◌^◌, ◌≡◌, refl, sym, ap, ap₂, ◌∙◌, inl, inr, Bool, true, false, Option, none,
  some, List, [], ◌∷◌, arith, if◌then◌else◌, Bool-cases,
}
use leo_dos.Isl.Address.{Address}
use leo_dos.Srspp.Receiver.Fast.{DataOutcome}
use leo_dos.Srspp.Receiver.Ack.{
  AckInfo, ReceiverConfig, new, emit_ack, on_ack_timeout, on_data, AckCall, packet, expires, Timed,
  call, IsTimed, on_data-Answered, stopped,
}

-- A call, with the expected number and the bitmap that the receiver has then.
abbrev pub Calls : Type 0
Calls = List (AckCall × ℕ × ℕ)

-- The acknowledgement that the state asks for at a call.
abbrev answer : Timed → AckCall → ℕ → ℕ → Option AckInfo
answer t (packet outcome) seq bitmap = (on_data t.state outcome seq bitmap).1.ack
answer t expires seq bitmap = if t.timer then (on_ack_timeout t.state seq bitmap).1.ack else none

pub run : Calls → Timed → Timed
run [] t = t
run ((c, seq, bitmap) ∷ cs) t = run cs (call t c seq bitmap)

pub answers : Calls → Timed → List (Option AckInfo)
answers [] t = []
answers ((c, seq, bitmap) ∷ cs) t = answer t c seq bitmap ∷ answers cs (call t c seq bitmap)

-- The acknowledgement of the number before `seq`, round 2 ^ 14.
abbrev pub ack_before : Address → ℕ → ℕ → AckInfo
ack_before address seq bitmap = record {
  destination = address;
  cumulative_ack = (seq + 16383) % 16384;
  selective_bitmap = bitmap;
}

-- Whether a packet waits after a call, and the acknowledgement that is due at it: at once, or when
-- the timer expires while a packet waits.
abbrev due : Bool → Bool → AckCall → Bool
due immediate waits (packet outcome) = if immediate then false else true
due immediate waits expires = false

abbrev acknowledgement : Bool → Address → Bool → AckCall → ℕ → ℕ → Option AckInfo
acknowledgement immediate address waits (packet outcome) seq bitmap =
    if immediate then some (ack_before address seq bitmap) else none
acknowledgement immediate address waits expires seq bitmap =
    if waits then some (ack_before address seq bitmap) else none

unfoldable pub promised : Bool → Address → Bool → Calls → List (Option AckInfo)
promised immediate address waits [] = []
promised immediate address waits ((c, seq, bitmap) ∷ cs) =
    acknowledgement immediate address waits c seq bitmap
    ∷ promised immediate address (due immediate waits c) cs

call-IsTimed :
    (t : Timed) (c : AckCall) (seq bitmap : ℕ) → IsTimed t → IsTimed (call t c seq bitmap)
unfolding call on_ack_timeout emit_ack
call-IsTimed t (packet outcome) seq bitmap v = (on_data-Answered t outcome seq bitmap v).0
call-IsTimed t expires seq bitmap v = elim (Bool-cases t.timer) [
  | inl e ↦ rw (e, v.waits ∙ e) (record { known = refl; waits = refl })
  | inr e ↦ rw e (record { known = v.known ∙ e; waits = v.waits ∙ e })
]

number_before : (seq : ℕ) → (seq + 2 ^ 16 - 1) % 2 ^ 16 % 2 ^ 14 ≡ (seq + 16383) % 16384
number_before seq = omega arith

-- One call: its acknowledgement, the timer behind it, and what no call changes.
record Step (t : Timed) (c : AckCall) (seq bitmap : ℕ) : Type 0 where
  acks :
      answer t c seq bitmap
      ≡ acknowledgement t.state.immediate_ack t.state.remote_address t.timer c seq bitmap
  waits : (call t c seq bitmap).timer ≡ due t.state.immediate_ack t.timer c
  mode : (call t c seq bitmap).state.immediate_ack ≡ t.state.immediate_ack
  address : (call t c seq bitmap).state.remote_address ≡ t.state.remote_address

exact :
    (a : Address) (seq bitmap : ℕ)
    → some (record {
      destination = a;
      cumulative_ack = (seq + 2 ^ 16 - 1) % 2 ^ 16 % 2 ^ 14;
      selective_bitmap = bitmap;
    })
      ≡ some (ack_before a seq bitmap)
exact a seq bitmap =
    ap (λ n. some (record (ack_before a seq bitmap) { cumulative_ack = n })) (number_before seq)

packet-Step :
    (t : Timed) (outcome : DataOutcome) (seq bitmap : ℕ)
    → IsTimed t
    → Step t (packet outcome) seq bitmap
unfolding call on_data emit_ack
packet-Step t outcome seq bitmap v = elim (Bool-cases t.state.immediate_ack) [
  | inl e ↦ rw e (record {
    acks = exact t.state.remote_address seq bitmap;
    waits = stopped t.state.ack_timer_running t.timer v.known;
    mode = refl;
    address = refl;
  })
  | inr e ↦ elim (Bool-cases t.state.ack_timer_running) [
    | inl g ↦
        rw (e, g) (record { acks = refl; waits = sym v.known ∙ g; mode = refl; address = refl })
    | inr g ↦ rw (e, g) (record { acks = refl; waits = refl; mode = refl; address = refl })
  ]
]

expires-Step : (t : Timed) (seq bitmap : ℕ) → IsTimed t → Step t expires seq bitmap
unfolding call on_ack_timeout emit_ack
expires-Step t seq bitmap v = elim (Bool-cases t.timer) [
  | inl e ↦
      rw (e, v.waits ∙ e)
        (record {
          acks = exact t.state.remote_address seq bitmap;
          waits = refl;
          mode = refl;
          address = refl;
        })
  | inr e ↦ rw e (record { acks = refl; waits = refl; mode = refl; address = refl })
]

call-Step : (t : Timed) (c : AckCall) (seq bitmap : ℕ) → IsTimed t → Step t c seq bitmap
call-Step t (packet outcome) seq bitmap v = packet-Step t outcome seq bitmap v
call-Step t expires seq bitmap v = expires-Step t seq bitmap v

run-from : (cs : Calls) (t : Timed) → IsTimed t → IsTimed (run cs t)
unfolding run
run-from [] t v = v
run-from ((c, seq, bitmap) ∷ cs) t v =
    run-from cs (call t c seq bitmap) (call-IsTimed t c seq bitmap v)

answers-from :
    (cs : Calls) (t : Timed)
    → IsTimed t
    → answers cs t ≡ promised t.state.immediate_ack t.state.remote_address t.timer cs
unfolding answers promised
answers-from [] t v = refl
answers-from ((c, seq, bitmap) ∷ cs) t v =
    let s = call-Step t c seq bitmap v in
    let rest = answers-from cs (call t c seq bitmap) (call-IsTimed t c seq bitmap v) in
    ap₂ (λ a rest_acks. a ∷ rest_acks) s.acks
      (rest ∙ (λ i. promised (s.mode i) (s.address i) (s.waits i) cs))

abbrev pub start : ReceiverConfig → Address → Timed
start config remote_address = record { state = new config remote_address; timer = false }

-- From a new state with no timer, over any packets and expiries, whatever the expected numbers and
-- bitmaps are, the acknowledgements are those that are due: where the configuration asks for
-- immediate ones, one at each packet; else one at each expiry before which a packet waits. Each names
-- the number before the expected one and has the bitmap of its call. Afterwards the state knows
-- whether the driver's timer runs, and packets wait just while it does.
pub answers-promised :
    (config : ReceiverConfig) (remote_address : Address) (cs : Calls)
    → (answers cs (start config remote_address)
        ≡ promised config.immediate_ack remote_address false cs)
      × IsTimed (run cs (start config remote_address))
unfolding new
answers-promised config remote_address cs =
    let v : IsTimed (start config remote_address) = record { known = refl; waits = refl } in
    (answers-from cs (start config remote_address) v, run-from cs (start config remote_address) v)
