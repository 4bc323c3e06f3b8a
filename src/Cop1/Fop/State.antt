-- ===== src/Cop1/Fop/State.antt =====
-- The states, events, actions and the record of FOP-1
-- (crates/leodos-protocols/src/datalink/reliability/cop1/fop.rs).
-- A `u8` is a number below 256. WIN is the length of `sent_queue`, BUF the length of `data`.
use leo_dos.Prelude.{
  ℕ, ◌+◌, ◌-◌, ◌%◌, Bool, false, Option, none, List, [], ◌∷◌, ◌++◌, length, replicate, ltb,
  if◌then◌else◌,
}
use leo_dos.Cop1.Clcw.{Clcw}

abbrev pub max_actions : ℕ
max_actions = 16

pub data FopState : Type 0 where
  active retransmitting init_no_bc init_with_set_vr init_with_unlock initial : FopState

pub data FopEvent : Type 0 where
  send_ad : List ℕ → FopEvent
  send_bd : List ℕ → FopEvent
  clcw_received : Clcw → FopEvent
  timer_expired init_ad_no_clcw init_ad_with_clcw : FopEvent
  init_ad_set_vr : ℕ → FopEvent
  init_ad_unlock terminate resume : FopEvent

pub data FopAction : Type 0 where
  transmit_ad : ℕ → FopAction
  transmit_bd transmit_bc_unlock : FopAction
  transmit_bc_set_vr : ℕ → FopAction
  start_timer stop_timer accept reject alert terminated : FopAction
  acknowledged : ℕ → FopAction

pub record FopConfig : Type 0 where
  pub window_width : ℕ
  pub transmission_limit : ℕ
  pub timeout_type : ℕ

pub record FduSlot : Type 0 where
  pub occupied : Bool
  pub seq : ℕ
  pub offset : ℕ
  pub len : ℕ
  pub transmission_count : ℕ

pub record FopMachine : Type 0 where
  pub state : FopState
  pub config : FopConfig
  pub vs : ℕ
  pub nnr : ℕ
  pub sent_queue : List FduSlot
  pub data_buf : List ℕ  -- `data`
  pub write_pos : ℕ
  pub bc_transmission_count : ℕ
  pub set_vr_value : ℕ
  pub pending_bd : Option (ℕ × ℕ)

-- `FopActions::push`: a `heapless::Vec` drops what does not fit.
unfoldable pub push : List FopAction → FopAction → List FopAction
push actions a = if ltb (length actions) max_actions then actions ++ (a ∷ []) else actions

abbrev pub wrapping_add : ℕ → ℕ → ℕ
wrapping_add a b = (a + b) % 256

abbrev pub wrapping_sub : ℕ → ℕ → ℕ
wrapping_sub a b = (a + 256 - b) % 256

-- `FduSlot::default`
abbrev pub default_slot : FduSlot
default_slot = record { occupied = false; seq = 0; offset = 0; len = 0; transmission_count = 0 }

unfoldable pub new : ℕ → ℕ → FopConfig → FopMachine
new win buf config = record {
  state = initial;
  config = config;
  vs = 0;
  nnr = 0;
  sent_queue = replicate win default_slot;
  data_buf = replicate buf 0;
  write_pos = 0;
  bc_transmission_count = 0;
  set_vr_value = 0;
  pending_bd = none;
}
