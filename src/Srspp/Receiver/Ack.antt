-- ===== src/Srspp/Receiver/Ack.antt =====
-- The acknowledgements and timers of the receiver
-- (crates/leodos-protocols/src/transport/srspp/machine/receiver/mod.rs).
use leo_dos.Prelude.{
  ℕ, ◌+◌, ◌-◌, ◌%◌, ◌^◌, ◌≡◌, refl, sym, ◌∙◌, ◌⊎◌, inl, inr, Bool, true, false, not, Option, none,
  some, if◌then◌else◌, Bool-cases,
}
use leo_dos.Isl.Address.{Address}
use leo_dos.Srspp.Receiver.Fast.{DataOutcome, GapOutcome}

pub record AckInfo : Type 0 where
  pub destination : Address
  pub cumulative_ack : ℕ
  pub selective_bitmap : ℕ

pub data TimerAction : Type 0 where
  start : (ticks : ℕ) → TimerAction
  stop : TimerAction

pub record HandleResult : Type 0 where
  pub ack : Option AckInfo
  pub ack_timer : Option TimerAction
  pub progress_timer : Option TimerAction

pub record ReceiverConfig : Type 0 where
  pub local_address : Address
  pub apid : ℕ
  pub function_code : ℕ
  pub immediate_ack : Bool
  pub ack_delay_ticks : ℕ
  pub progress_timeout_ticks : Option ℕ

pub record AckState : Type 0 where
  pub remote_address : Address
  pub immediate_ack : Bool
  pub ack_delay_ticks : ℕ
  pub progress_timeout_ticks : Option ℕ
  pub ack_pending : Bool
  pub ack_timer_running : Bool

unfoldable pub new : ReceiverConfig → Address → AckState
new config remote_address = record {
  remote_address = remote_address;
  immediate_ack = config.immediate_ack;
  ack_delay_ticks = config.ack_delay_ticks;
  progress_timeout_ticks = config.progress_timeout_ticks;
  ack_pending = false;
  ack_timer_running = false;
}

-- `HandleResult::default`
abbrev pub no_result : HandleResult
no_result = record { ack = none; ack_timer = none; progress_timer = none }

unfoldable pub emit_ack : AckState → ℕ → ℕ → AckState × HandleResult
emit_ack a seq bitmap = (
  record a { ack_timer_running = false; ack_pending = false },
  record {
    ack = some (record {
      destination = a.remote_address;
      cumulative_ack = (seq + 2 ^ 16 - 1) % 2 ^ 16 % 2 ^ 14;
      selective_bitmap = bitmap;
    });
    ack_timer = if a.ack_timer_running then some stop else none;
    progress_timer = none;
  },
)

unfoldable pub on_ack_timeout : AckState → ℕ → ℕ → AckState × HandleResult
unfolding emit_ack
on_ack_timeout a seq bitmap =
    let a' = record a { ack_timer_running = false } in
    if a.ack_pending then emit_ack a' seq bitmap else (a', no_result)

-- The progress timer after a packet.
abbrev pub data_timer : Option ℕ → DataOutcome → Option TimerAction
data_timer none outcome = none
data_timer (some ticks) outcome =
    if outcome.has_gap then some (start ticks) else if outcome.progressed then some stop else none

unfoldable pub on_data : AckState → DataOutcome → ℕ → ℕ → AckState × HandleResult
unfolding emit_ack
on_data a outcome seq bitmap =
    let progress_timer = data_timer a.progress_timeout_ticks outcome in
    let a' = record a { ack_pending = true } in
    if a.immediate_ack
    then (let (a'', r) = emit_ack a' seq bitmap in
        (a'', record r { progress_timer = progress_timer }))
    else if not a.ack_timer_running
    then (
      record a' { ack_timer_running = true },
      record {
        ack = none;
        ack_timer = some (start a.ack_delay_ticks);
        progress_timer = progress_timer;
      },
    )
    else (a', record { ack = none; ack_timer = none; progress_timer = progress_timer })

abbrev pub restart : Option ℕ → Option TimerAction
restart none = none
restart (some ticks) = some (start ticks)

unfoldable pub on_gap_skip : AckState → GapOutcome → HandleResult
on_gap_skip a outcome = record {
  ack = none;
  ack_timer = none;
  progress_timer = if outcome.has_gap then restart a.progress_timeout_ticks else some stop;
}

-- What the driver does with the state.
pub data AckCall : Type 0 where
  packet : (outcome : DataOutcome) → AckCall
  expires : AckCall

pub record Timed : Type 0 where
  pub state : AckState
  pub timer : Bool  -- Whether the driver's timer runs.

-- The driver's timer after what the state asks for.
abbrev pub set_timer : Bool → Option TimerAction → Bool
set_timer running none = running
set_timer running (some (start ticks)) = true
set_timer running (some stop) = false

abbrev after : Bool → AckState × HandleResult → Timed
after running (a, r) = record { state = a; timer = set_timer running r.ack_timer }

-- An expiry is of a timer that runs, and ends it.
unfoldable pub call : Timed → AckCall → ℕ → ℕ → Timed
unfolding on_data on_ack_timeout
call t (packet outcome) seq bitmap = after t.timer (on_data t.state outcome seq bitmap)
call t expires seq bitmap = if t.timer then after false (on_ack_timeout t.state seq bitmap) else t

-- The state knows whether the driver's timer runs, and a packet waits for its acknowledgement only
-- while it does.
pub record IsTimed (t : Timed) : Type 0 where
  pub known : t.state.ack_timer_running ≡ t.timer
  pub waits : t.state.ack_pending ≡ t.timer

-- The acknowledgement of what came before `seq`.
abbrev pub ack_of : AckState → ℕ → ℕ → AckInfo
ack_of a seq bitmap = record {
  destination = a.remote_address;
  cumulative_ack = (seq + 2 ^ 16 - 1) % 2 ^ 16 % 2 ^ 14;
  selective_bitmap = bitmap;
}

abbrev pub Answered : Timed → DataOutcome → ℕ → ℕ → Type 0
Answered t outcome seq bitmap =
    IsTimed (call t (packet outcome) seq bitmap)
    × (((on_data t.state outcome seq bitmap).1.ack ≡ some (ack_of t.state seq bitmap))
        ⊎ ((call t (packet outcome) seq bitmap).timer ≡ true))

pub stopped : (a : Bool) (b : Bool) → a ≡ b → set_timer b (if a then some stop else none) ≡ false
stopped true b e = refl
stopped false b e = sym e

-- A packet is acknowledged at once or the timer of the delayed acknowledgement runs; the state knows
-- of the driver's timer and waits for it just while it runs.
pub on_data-Answered :
    (t : Timed) (outcome : DataOutcome) (seq bitmap : ℕ) → IsTimed t → Answered t outcome seq bitmap
unfolding call on_data emit_ack
on_data-Answered t outcome seq bitmap v = elim (Bool-cases t.state.immediate_ack) [
  | inl e ↦ rw e (
    record {
      known = sym (stopped t.state.ack_timer_running t.timer v.known);
      waits = sym (stopped t.state.ack_timer_running t.timer v.known);
    },
    inl refl,
  )
  | inr e ↦ elim (Bool-cases t.state.ack_timer_running) [
    | inl g ↦
        rw (e, g)
          (record { known = sym g ∙ v.known; waits = sym g ∙ v.known }, inr (sym v.known ∙ g))
    | inr g ↦ rw (e, g) (record { known = refl; waits = refl }, inr refl)
  ]
]
