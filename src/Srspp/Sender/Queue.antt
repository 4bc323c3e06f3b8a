-- ===== src/Srspp/Sender/Queue.antt =====
-- The window of slots and the send buffer
-- (crates/leodos-protocols/src/transport/srspp/machine/sender.rs).
use leo_dos.Prelude.{
  ℕ, zero, suc, ◌+◌, ◌-◌, ◌/◌, Bool, true, false, ◌&&◌, not, Option, none, some, List, [], ◌∷◌, ltb,
  ◌==◌, if◌then◌else◌, length, set, slice, copy_at,
}
use leo_dos.Isl.Address.{parse}
use leo_dos.Srspp.Sequence.{max_count, ahead}
use leo_dos.Srspp.Sender.State.{is_live, PacketMeta, default_meta, SenderMachine, PayloadInfo}

-- `MTU.saturating_sub(header_overhead)`
abbrev pub max_payload_per_packet : ℕ → SenderMachine → ℕ
max_payload_per_packet mtu m = mtu - m.config.header_overhead

abbrev pub available_bytes : SenderMachine → ℕ
available_bytes m = length m.data_buf - m.write_pos

unfoldable pub live_count : List PacketMeta → ℕ
live_count [] = 0
live_count (s ∷ ss) = if is_live s.state then suc (live_count ss) else live_count ss

unfoldable pub unacked_count : SenderMachine → ℕ
unfolding live_count
unacked_count m = live_count m.meta

abbrev pub available_window : SenderMachine → ℕ
available_window m = length m.meta - unacked_count m

unfoldable pub all_empty : List PacketMeta → Bool
all_empty [] = true
all_empty (s ∷ ss) = not (is_live s.state) && all_empty ss

unfoldable pub is_idle : SenderMachine → Bool
unfolding all_empty
is_idle m = all_empty m.meta

-- `meta.iter().find(…)` of `get_payload`
unfoldable pub find_meta : ℕ → List PacketMeta → Option PacketMeta
find_meta seq [] = none
find_meta seq (s ∷ ss) = if is_live s.state && s.seq == seq then some s else find_meta seq ss

unfoldable pub payload_info : List ℕ → PacketMeta → PayloadInfo
unfolding parse
payload_info data_buf s = record {
  seq = s.seq;
  flags = s.flags;
  target = parse s.target;
  payload = slice data_buf s.offset s.len;
  is_eos = s.is_eos;
}

unfoldable pub get_payload : SenderMachine → ℕ → Option PayloadInfo
unfolding find_meta payload_info
get_payload m seq = elim (find_meta seq m.meta) [
  | none ↦ none
  | some s ↦ some (payload_info m.data_buf s)
]

abbrev pub one_further : Option ℕ → Option ℕ
one_further none = none
one_further (some i) = some (suc i)

-- `meta.iter().position(|m| m.state == Empty)`
unfoldable pub find_empty : List PacketMeta → Option ℕ
find_empty [] = none
find_empty (s ∷ ss) = if is_live s.state then one_further (find_empty ss) else some 0

-- `self.meta[i]`
unfoldable pub slot : List PacketMeta → ℕ → PacketMeta
slot [] i = default_meta
slot (s ∷ ss) zero = s
slot (s ∷ ss) (suc i) = slot ss i

-- The insertion of `compact` into the indices so far, before the first slot of a greater offset.
unfoldable pub insert_index : List PacketMeta → ℕ → List ℕ → List ℕ
unfolding slot
insert_index meta i [] = i ∷ []
insert_index meta i (j ∷ js) =
    if ltb (slot meta i).offset (slot meta j).offset then i ∷ j ∷ js else j ∷ insert_index meta i js

-- The loop of `compact` that sorts the live slots: the slots from `i` on, and the indices so far.
unfoldable pub live_indices : List PacketMeta → ℕ → List PacketMeta → List ℕ → List ℕ
unfolding insert_index
live_indices meta i [] indices = indices
live_indices meta i (s ∷ ss) indices =
    live_indices meta (suc i) ss (if is_live s.state then insert_index meta i indices else indices)

-- The loop of `compact` that moves their payloads: the slots, the buffer and the position behind.
unfoldable pub shift_all : List ℕ → ℕ → List PacketMeta → List ℕ → List PacketMeta × List ℕ × ℕ
unfolding slot
shift_all [] new_pos meta data_buf = (meta, data_buf, new_pos)
shift_all (i ∷ is) new_pos meta data_buf =
    let s = slot meta i in
    shift_all is (new_pos + s.len) (set meta i (record s { offset = new_pos })) (
      if new_pos == s.offset
      then data_buf
      else copy_at data_buf new_pos (slice data_buf s.offset s.len))

-- `compact` with the sorted indices.
unfoldable pub compact_with : SenderMachine → List ℕ → SenderMachine
unfolding shift_all
compact_with m [] = record m { write_pos = 0 }
compact_with m (i ∷ is) =
    let (meta, data_buf, new_pos) = shift_all (i ∷ is) 0 m.meta m.data_buf in
    record m { meta = meta; data_buf = data_buf; write_pos = new_pos }

unfoldable pub compact : SenderMachine → SenderMachine
unfolding live_indices compact_with
compact m = compact_with m (live_indices m.meta 0 m.meta [])

-- The loop of `update_send_base`: whether a live slot was found, and the lowest so far.
unfoldable pub lowest : List PacketMeta → Bool → ℕ → Bool × ℕ
lowest [] found min_unacked = (found, min_unacked)
lowest (s ∷ ss) found min_unacked =
    if is_live s.state
    then (let diff = ahead min_unacked s.seq in
        lowest ss true (if ltb diff (max_count / 2) && ltb 0 diff then s.seq else min_unacked))
    else lowest ss found min_unacked

unfoldable pub update_send_base : SenderMachine → SenderMachine
unfolding lowest
update_send_base m =
    let (found, min_unacked) = lowest m.meta false m.next_seq in
    record m { send_base = if found then min_unacked else m.next_seq }
