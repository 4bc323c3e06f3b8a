-- ===== src/Cop1/Farm/Invariant.antt =====
-- What holds of FARM-1 between two events.
use leo_dos.Prelude.{◌+◌, ◌<◌, ◌≡◌, true, false, List, [], ◌∷◌, All, arith}
use leo_dos.Prelude.Bits.{bit_and_three}
use leo_dos.Cop1.Farm.{
  FarmState, opened, wait, FarmConfig, FarmMachine, FarmEvent, ad_frame, bc_frame, set_vr, new,
  handle,
}

-- The bytes that an event carries are below 256.
abbrev pub IsByteEvent : FarmEvent → Type 0
IsByteEvent (ad_frame seq _ _) = seq < 256
IsByteEvent (bc_frame (set_vr vr)) = vr < 256
IsByteEvent _ = Unit

-- The lockout flag is the lockout state; the wait flag is up in the wait state and down in the
-- open one (a lockout may keep it).
pub record IsValid (m : FarmMachine) : Type 0 where
  pub vr_byte : m.vr < 256
  pub counter_bits : m.farm_b_counter < 4
  pub lockout_up : m.state ≡ FarmState.lockout → m.lockout_flag ≡ true
  pub lockout_down : m.lockout_flag ≡ true → m.state ≡ FarmState.lockout
  pub wait_up : m.state ≡ wait → m.wait_flag ≡ true
  pub wait_down : m.state ≡ opened → m.wait_flag ≡ false
  pub positive_half : m.pw < 128
  pub negative_half : m.nw < 128

-- A new machine is valid, if its window width is a byte.
pub new-IsValid : (c : FarmConfig) → c.window_width < 256 → IsValid (new c)
unfolding new
new-IsValid c h = ground arith

-- Every event, in every state, keeps the invariant.
pub handle-IsValid :
    (m : FarmMachine) (e : FarmEvent) → IsValid m → IsByteEvent e → IsValid (handle m e).0
unfolding handle
handle-IsValid m e v b = ground (arith, bit_and_three (m.farm_b_counter + 1))

-- The machine after a list of events.
unfoldable pub run : FarmMachine → List FarmEvent → FarmMachine
run m [] = m
run m (e ∷ es) = run (handle m e).0 es

-- Any events whose numbers are bytes keep the invariant of a valid machine.
pub run-IsValid :
    (m : FarmMachine) (es : List FarmEvent) → IsValid m → All IsByteEvent es → IsValid (run m es)
unfolding run
run-IsValid m [] v b = v
run-IsValid m (e ∷ es) v b = run-IsValid (handle m e).0 es (handle-IsValid m e v b.0) b.1
