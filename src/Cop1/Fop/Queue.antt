-- ===== src/Cop1/Fop/Queue.antt =====
-- The sent queue and the buffer of FOP-1: the loops over the slots
-- (crates/leodos-protocols/src/datalink/reliability/cop1/fop.rs).
use leo_dos.Prelude.{
  ℕ, zero, suc, ◌+◌, Bool, true, false, ◌&&◌, Option, none, some, List, [], ◌∷◌, length, slice,
  copy_at, ltb, leb, ◌==◌, if◌then◌else◌,
}
use mathlib.Core.List.{reverse}
use leo_dos.Cop1.Fop.State.{
  FduSlot, FopAction, acknowledged, transmit_ad, start_timer, FopMachine, push, wrapping_add,
  wrapping_sub,
}

-- `sent_count`
unfoldable pub count_occupied : List FduSlot → ℕ
count_occupied [] = 0
count_occupied (s ∷ ss) = if s.occupied then suc (count_occupied ss) else count_occupied ss

abbrev pub is_held : ℕ → FduSlot → Bool
is_held seq s = s.occupied && s.seq == seq

-- The first occupied slot with the number.
unfoldable pub find_slot : ℕ → List FduSlot → Option FduSlot
find_slot seq [] = none
find_slot seq (s ∷ ss) = if is_held seq s then some s else find_slot seq ss

unfoldable pub get_fdu : FopMachine → ℕ → Option (List ℕ)
unfolding find_slot
get_fdu m seq = elim (find_slot seq m.sent_queue) [
  | none ↦ none
  | some s ↦ some (slice m.data_buf s.offset s.len)
]

unfoldable pub get_bd_fdu : FopMachine → Option (List ℕ)
get_bd_fdu m = elim m.pending_bd [
  | none ↦ none
  | some (offset, len) ↦ some (slice m.data_buf offset len)
]

abbrev pub next_index : Option ℕ → Option ℕ
next_index none = none
next_index (some i) = some (suc i)

unfoldable pub find_empty_slot : List FduSlot → Option ℕ
find_empty_slot [] = none
find_empty_slot (s ∷ ss) = if s.occupied then next_index (find_empty_slot ss) else some zero

unfoldable pub buffer_fdu : FopMachine → List ℕ → Option (ℕ × FopMachine)
buffer_fdu m fdu =
    if ltb (length m.data_buf) (m.write_pos + length fdu)
    then none
    else some (
      m.write_pos,
      record m {
        data_buf = copy_at m.data_buf m.write_pos fdu;
        write_pos = m.write_pos + length fdu;
      },
    )

abbrev pub is_acknowledged : ℕ → FduSlot → Bool
is_acknowledged nr s =
    let dist = wrapping_sub nr s.seq in s.occupied && (ltb 0 dist && ltb dist 128)

-- The loop of `remove_acknowledged`: the queue, and the actions.
unfoldable pub acknowledge : ℕ → List FduSlot → List FopAction → List FduSlot × List FopAction
acknowledge nr [] actions = ([], actions)
acknowledge nr (s ∷ ss) actions =
    let acked = is_acknowledged nr s in
    let (ss', actions') =
      acknowledge nr ss (if acked then push actions (acknowledged s.seq) else actions) in
    ((if acked then record s { occupied = false } else s) ∷ ss', actions')

unfoldable pub remove_acknowledged : FopMachine → ℕ → List FopAction → FopMachine × List FopAction
unfolding acknowledge
remove_acknowledged m nr actions =
    let (queue, actions') = acknowledge nr m.sent_queue actions in
    (record m { sent_queue = queue }, actions')

-- `initiate_retransmission` collects the numbers of the occupied slots; there are at most WIN, so
-- the `Vec` of that capacity takes them all.
unfoldable pub occupied_seqs : List FduSlot → List ℕ
occupied_seqs [] = []
occupied_seqs (s ∷ ss) = if s.occupied then s.seq ∷ occupied_seqs ss else occupied_seqs ss

-- The inner loop of the insertion sort, on the sorted prefix read from its end: a number further
-- from N(R) than the key moves up by one.
unfoldable pub insert_back : ℕ → ℕ → List ℕ → List ℕ
insert_back nnr key [] = key ∷ []
insert_back nnr key (prev ∷ rest) =
    if leb (wrapping_sub prev nnr) (wrapping_sub key nnr)
    then key ∷ prev ∷ rest
    else prev ∷ insert_back nnr key rest

-- The outer loop; the first argument is the sorted prefix from its end.
unfoldable pub sort_from : ℕ → List ℕ → List ℕ → List ℕ
unfolding insert_back
sort_from nnr sorted [] = reverse sorted
sort_from nnr sorted (key ∷ keys) = sort_from nnr (insert_back nnr key sorted) keys

-- The first occupied slot with the number counts one more transmission. (A release build wraps at
-- 256, where a debug build would panic.)
unfoldable pub count_transmission : ℕ → List FduSlot → List FduSlot
count_transmission seq [] = []
count_transmission seq (s ∷ ss) =
    if is_held seq s
    then record s { transmission_count = wrapping_add s.transmission_count 1 } ∷ ss
    else s ∷ count_transmission seq ss

unfoldable pub retransmit_all :
    List ℕ → List FduSlot → List FopAction → List FduSlot × List FopAction
unfolding count_transmission
retransmit_all [] queue actions = (queue, actions)
retransmit_all (seq ∷ seqs) queue actions =
    retransmit_all seqs (count_transmission seq queue) (push actions (transmit_ad seq))

abbrev pub is_empty : List ℕ → Bool
is_empty [] = true
is_empty (_ ∷ _) = false

unfoldable pub initiate_retransmission : FopMachine → List FopAction → FopMachine × List FopAction
unfolding occupied_seqs sort_from retransmit_all
initiate_retransmission m actions =
    let seqs = sort_from m.nnr [] (occupied_seqs m.sent_queue) in
    let (queue, actions') = retransmit_all seqs m.sent_queue actions in
    (record m { sent_queue = queue }, if is_empty seqs then actions' else push actions' start_timer)

unfoldable pub vacate : List FduSlot → List FduSlot
vacate [] = []
vacate (s ∷ ss) = record s { occupied = false } ∷ vacate ss

unfoldable pub purge_sent_queue : FopMachine → FopMachine
unfolding vacate
purge_sent_queue m = record m { sent_queue = vacate m.sent_queue; write_pos = 0 }
