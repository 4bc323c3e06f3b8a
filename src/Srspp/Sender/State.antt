-- ===== src/Srspp/Sender/State.antt =====
-- The types of the sender, its actions and its construction
-- (crates/leodos-protocols/src/transport/srspp/machine/sender.rs). The buffer that the pool gives
-- is a list of bytes; WIN is the length of `meta`.
use leo_dos.Prelude.{
  ℕ, Bool, true, false, List, [], ◌∷◌, ◌++◌, ltb, if◌then◌else◌, length, replicate,
}
use leo_dos.Isl.Address.{Address, station_on_ground, RawAddress, from}
use leo_dos.Srspp.Sequence.{SequenceFlag, unsegmented}

abbrev pub max_actions : ℕ
max_actions = 32

pub data SenderEvent : Type 0 where
  send_request : (target : Address) → (data_bytes : List ℕ) → SenderEvent
  ack_received : (cumulative_ack : ℕ) → (selective_bitmap : ℕ) → SenderEvent
  retransmit_timeout : (seq : ℕ) → SenderEvent
  send_eos : (target : Address) → SenderEvent

pub data SenderAction : Type 0 where
  transmit : (seq : ℕ) → (rto_ticks : ℕ) → SenderAction
  stop_timer : (seq : ℕ) → SenderAction
  packet_lost : (seq : ℕ) → SenderAction
  message_lost : SenderAction
  space_available : (bytes : ℕ) → SenderAction

-- `SenderActions::push`: a full `heapless::Deque` refuses.
unfoldable pub push : List SenderAction → SenderAction → List SenderAction
push actions a = if ltb (length actions) max_actions then actions ++ (a ∷ []) else actions

pub data SenderError : Type 0 where
  buffer_full : SenderError
  window_full : SenderError

pub record SenderConfig : Type 0 where
  pub source_address : Address
  pub apid : ℕ
  pub function_code : ℕ
  pub rto_ticks : ℕ
  pub max_retransmits : ℕ
  pub header_overhead : ℕ

pub data SlotState : Type 0 where
  empty : SlotState
  pending_transmit : SlotState
  awaiting_ack : SlotState

abbrev pub is_live : SlotState → Bool
is_live empty = false
is_live _ = true

abbrev pub is_pending : SlotState → Bool
is_pending pending_transmit = true
is_pending _ = false

abbrev pub is_awaiting : SlotState → Bool
is_awaiting awaiting_ack = true
is_awaiting _ = false

pub record PacketMeta : Type 0 where
  pub state : SlotState
  pub seq : ℕ
  pub flags : SequenceFlag
  pub target : RawAddress
  pub retransmit_count : ℕ
  pub offset : ℕ
  pub len : ℕ
  pub is_segmented : Bool
  pub is_eos : Bool

-- `PacketMeta::default`
unfoldable pub default_meta : PacketMeta
unfolding from
default_meta = record {
  state = empty;
  seq = 0;
  flags = unsegmented;
  target = from (station_on_ground 0);
  retransmit_count = 0;
  offset = 0;
  len = 0;
  is_segmented = false;
  is_eos = false;
}

pub record SenderMachine : Type 0 where
  pub config : SenderConfig
  pub meta : List PacketMeta
  pub data_buf : List ℕ  -- `data`
  pub write_pos : ℕ
  pub next_seq : ℕ
  pub send_base : ℕ

unfoldable pub new : ℕ → SenderConfig → ℕ → SenderMachine
unfolding default_meta
new win config buf_size = record {
  config = config;
  meta = replicate win default_meta;
  data_buf = replicate buf_size 0;
  write_pos = 0;
  next_seq = 0;
  send_base = 0;
}

-- `reset` keeps the configuration and the buffer.
unfoldable pub reset : SenderMachine → SenderMachine
unfolding default_meta
reset m = record m {
  meta = replicate (length m.meta) default_meta;
  write_pos = 0;
  next_seq = 0;
  send_base = 0;
}

pub record PayloadInfo : Type 0 where
  pub seq : ℕ
  pub flags : SequenceFlag
  pub target : Address
  pub payload : List ℕ
  pub is_eos : Bool
