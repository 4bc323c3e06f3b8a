-- ===== src/Cop1/Farm.antt =====
-- FARM-1, the receiver of COP-1
-- (crates/leodos-protocols/src/datalink/reliability/cop1/farm.rs).
-- A `u8` is a number below 256, a frame data unit is the list of its bytes. A method that takes
-- `&mut self` returns the new machine; the actions that `handle` leaves in its `FarmActions` are
-- returned beside it.
pub mod Invariant
pub mod Sequence
pub mod Report
mod Tests
use leo_dos.Prelude.{
  ℕ, suc, ◌+◌, ◌-◌, ◌/◌, ◌%◌, ◌≡◌, Bool, true, false, ◌&&◌, ltb, leb, ◌==◌, if◌then◌else◌, List, [],
  ◌∷◌, ◌++◌, length, bit_and,
}
use leo_dos.Cop1.Clcw
use leo_dos.Cop1.Clcw.{Clcw}

abbrev pub max_actions : ℕ
max_actions = 4

-- `FarmState`: `Open` is a reserved word here.
pub data FarmState : Type 0 where
  opened wait lockout : FarmState

pub data ControlCommand : Type 0 where
  unlock : ControlCommand
  set_vr : ℕ → ControlCommand

pub data FarmEvent : Type 0 where
  ad_frame : ℕ → Bool → List ℕ → FarmEvent  -- seq, buffer_available, fdu
  bd_frame : List ℕ → FarmEvent
  bc_frame : ControlCommand → FarmEvent
  invalid_frame buffer_release clcw_report : FarmEvent

pub data FarmAction : Type 0 where
  accept : List ℕ → FarmAction
  discard clcw_ready : FarmAction

pub record FarmConfig : Type 0 where
  pub vcid : ℕ
  pub window_width : ℕ

pub record FarmMachine : Type 0 where
  pub state : FarmState
  pub vr : ℕ
  pub lockout_flag : Bool
  pub wait_flag : Bool
  pub retransmit_flag : Bool
  pub farm_b_counter : ℕ
  pub pw : ℕ
  pub nw : ℕ
  pub vcid : ℕ

pub data SeqZone : Type 0 where
  expected positive_window negative_window lockout : SeqZone

-- `FarmActions::push`: a `heapless::Vec` drops what does not fit.
unfoldable pub push : List FarmAction → FarmAction → List FarmAction
push actions a = if ltb (length actions) max_actions then actions ++ (a ∷ []) else actions

unfoldable pub new : FarmConfig → FarmMachine
new config = record {
  state = opened;
  vr = 0;
  lockout_flag = false;
  wait_flag = false;
  retransmit_flag = false;
  farm_b_counter = 0;
  pw = config.window_width / 2;
  nw = config.window_width / 2;
  vcid = config.vcid;
}

unfoldable pub clcw : FarmMachine → Clcw
clcw m =
    let c = Clcw.set_cop_in_effect Clcw.new 1 in
    let c = Clcw.set_vcid c m.vcid in
    let c = Clcw.set_lockout c m.lockout_flag in
    let c = Clcw.set_wait c m.wait_flag in
    let c = Clcw.set_retransmit c m.retransmit_flag in
    let c = Clcw.set_farm_b_counter c m.farm_b_counter in Clcw.set_report_value c m.vr

-- `u8::wrapping_add` and `u8::wrapping_sub`
abbrev pub wrapping_add : ℕ → ℕ → ℕ
wrapping_add a b = (a + b) % 256

abbrev pub wrapping_sub : ℕ → ℕ → ℕ
wrapping_sub a b = (a + 256 - b) % 256

unfoldable pub classify_seq : FarmMachine → ℕ → SeqZone
classify_seq m seq =
    if seq == m.vr
    then expected
    else let pos_dist = wrapping_sub seq m.vr in
      let neg_dist = wrapping_sub m.vr seq in
      if ltb 0 pos_dist && ltb pos_dist m.pw
      then positive_window
      else if ltb 0 neg_dist && leb neg_dist m.nw
      then negative_window
      else SeqZone.lockout

-- The `match` of `handle_ad_frame` on the state and the zone.
unfoldable pub ad_frame_in :
    FarmState
    → SeqZone
    → FarmMachine
    → Bool
    → List ℕ
    → List FarmAction
    → FarmMachine × List FarmAction
unfolding push
ad_frame_in opened expected m true fdu actions =
    (record m { vr = wrapping_add m.vr 1; retransmit_flag = false }, push actions (accept fdu))
ad_frame_in opened expected m false fdu actions =
    (record m { retransmit_flag = true; wait_flag = true; state = wait }, push actions discard)
ad_frame_in opened positive_window m _ fdu actions =
    (record m { retransmit_flag = true }, push actions discard)
ad_frame_in opened negative_window m _ fdu actions = (m, push actions discard)
ad_frame_in opened SeqZone.lockout m _ fdu actions =
    (record m { lockout_flag = true; state = FarmState.lockout }, push actions discard)
ad_frame_in wait expected m _ fdu actions = (m, push actions discard)
ad_frame_in wait positive_window m _ fdu actions = (m, push actions discard)
ad_frame_in wait negative_window m _ fdu actions = (m, push actions discard)
ad_frame_in wait SeqZone.lockout m _ fdu actions =
    (record m { lockout_flag = true; state = FarmState.lockout }, push actions discard)
ad_frame_in FarmState.lockout _ m _ fdu actions = (m, push actions discard)

unfoldable pub handle_ad_frame :
    FarmMachine → ℕ → Bool → List ℕ → List FarmAction → FarmMachine × List FarmAction
unfolding ad_frame_in classify_seq
handle_ad_frame m seq buffer_available fdu actions =
    ad_frame_in m.state (classify_seq m seq) m buffer_available fdu actions

-- `self.farm_b_counter = (self.farm_b_counter + 1) & 0x03`
abbrev pub count_b : FarmMachine → FarmMachine
count_b m = record m { farm_b_counter = bit_and (m.farm_b_counter + 1) 3 }

unfoldable pub handle_bd_frame :
    FarmMachine → List ℕ → List FarmAction → FarmMachine × List FarmAction
unfolding push
handle_bd_frame m fdu actions = (count_b m, push actions (accept fdu))

unlock_in : FarmState → FarmMachine → FarmMachine
unlock_in opened m = m
unlock_in wait m = record m { wait_flag = false; state = opened }
unlock_in FarmState.lockout m = record m { wait_flag = false; lockout_flag = false; state = opened }

set_vr_in : FarmState → ℕ → FarmMachine → FarmMachine
set_vr_in opened new_vr m = record m { vr = new_vr }
set_vr_in wait new_vr m = record m { vr = new_vr; wait_flag = false; state = opened }
set_vr_in FarmState.lockout new_vr m = m

unfoldable pub handle_bc_frame : FarmMachine → ControlCommand → FarmMachine
unfolding unlock_in set_vr_in
handle_bc_frame m unlock = unlock_in m.state (record (count_b m) { retransmit_flag = false })
handle_bc_frame m (set_vr new_vr) =
    set_vr_in m.state new_vr (record (count_b m) { retransmit_flag = false })

release_in : FarmState → FarmMachine → FarmMachine
release_in opened m = m
release_in wait m = record m { wait_flag = false; state = opened }
release_in FarmState.lockout m = record m { wait_flag = false }

unfoldable pub handle_buffer_release : FarmMachine → FarmMachine
unfolding release_in
handle_buffer_release m = release_in m.state m

-- `handle` clears the actions first, so they start empty.
unfoldable pub handle : FarmMachine → FarmEvent → FarmMachine × List FarmAction
unfolding handle_ad_frame handle_bd_frame handle_bc_frame handle_buffer_release push
handle m (ad_frame seq buffer_available fdu) = handle_ad_frame m seq buffer_available fdu []
handle m (bd_frame fdu) = handle_bd_frame m fdu []
handle m (bc_frame command) = (handle_bc_frame m command, [])
handle m invalid_frame = (m, push [] discard)
handle m buffer_release = (handle_buffer_release m, [])
handle m clcw_report = (m, push [] clcw_ready)
