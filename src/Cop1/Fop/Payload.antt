-- ===== src/Cop1/Fop/Payload.antt =====
-- The frame data units that FOP-1 holds: what `get_fdu` returns after each step.
use leo_dos.Prelude.{
  ℕ, ◌+◌, ◌%◌, ◌≤◌, ◌≡◌, refl, sym, ap, ◌∙◌, ◌≢◌, inl, inr, Bool, true, false, Option, none, some,
  List, [], arith, ◌==◌, if◌then◌else◌, ==_iff, Bool-cases, length, set, set-set, slice,
}
use leo_dos.Prelude.Slices.{slice-copy_at_self, slice-copy_at_before}
use leo_dos.Cop1.Clcw
use leo_dos.Cop1.Clcw.{Clcw}
use leo_dos.Cop1.Fop.State.{
  FopState, active, retransmitting, send_ad, clcw_received, timer_expired, FopAction, FduSlot,
  FopMachine,
}
use leo_dos.Cop1.Fop.Queue.{
  find_slot, find_empty_slot, get_fdu, acknowledge, remove_acknowledged, initiate_retransmission,
  occupied_seqs, sort_from,
}
use leo_dos.Cop1.Fop.Slots.{
  find_slot-set_self, find_slot-set_ne, find_slot-acknowledge, find_slot-Fits, is_before, place,
  place-retransmit_all,
}
use leo_dos.Cop1.Fop.Machine.{
  is_running, is_active, slot_for, enqueue, send_ad_at, handle_send_ad, clcw_active,
  clcw_retransmitting, clcw_in, handle_clcw, limit_exceeded, ad_timeout, timer_expired_in,
  handle_timer_expired, handle,
}
use leo_dos.Cop1.Fop.Invariant.{IsValid, stored, buffer_fdu_cases}

-- `get_fdu` depends on the place of the slot that is found, and on the buffer.
abbrev read : List ℕ → Option (ℕ × ℕ) → Option (List ℕ)
read data_buf none = none
read data_buf (some (offset, len)) = some (slice data_buf offset len)

get_fdu_of_place :
    (m : FopMachine) (seq : ℕ)
    → get_fdu m seq ≡ read m.data_buf (place (find_slot seq m.sent_queue))
unfolding get_fdu
get_fdu_of_place m seq = ground arith

-- An FDU whose slot is found is read from a buffer in which another one was stored.
read-stored :
    (m : FopMachine) (fdu : List ℕ) (seq : ℕ) (o : Option FduSlot)
    → IsValid m
    → find_slot seq m.sent_queue ≡ o
    → read (stored m fdu).data_buf (place o) ≡ read m.data_buf (place o)
read-stored m fdu seq none v e = refl
read-stored m fdu seq (some s) v e = ap some (
    slice-copy_at_before m.data_buf m.write_pos fdu s.offset s.len
      (find_slot-Fits m.write_pos seq m.sent_queue s v.slots e) v.room)

-- The slot that `enqueue` writes, and the machine that it leaves.
abbrev sent_slot : FopMachine → ℕ → ℕ → ℕ → FduSlot
sent_slot m offset len n = record (slot_for m.vs offset len) { transmission_count = n }

abbrev enqueued : FopMachine → ℕ → ℕ → ℕ → ℕ → FopMachine
enqueued m i offset len n = record m {
  sent_queue = set m.sent_queue i (sent_slot m offset len n);
  vs = (m.vs + 1) % 256;
}

enqueue_lem :
    (m : FopMachine) (i offset len : ℕ) (actions : List FopAction)
    → (n : ℕ) × ((enqueue m i offset len actions).0 ≡ enqueued m i offset len n)
unfolding enqueue
enqueue_lem m i offset len actions = elim (Bool-cases (is_active m.state)) [
  | inl on ↦ (
    1,
    rw (on, enqueue)
        (ap (λ q. record (enqueued m i offset len 1) { sent_queue = q })
          (set-set m.sent_queue i (slot_for m.vs offset len) (sent_slot m offset len 1))),
  )
  | inr off ↦ (0, rw (off, enqueue))
]

handle_send_ad_lem :
    (m : FopMachine) (fdu : List ℕ) (i : ℕ)
    → is_running m.state ≡ true
    → find_empty_slot m.sent_queue ≡ some i
    → m.write_pos + length fdu ≤ length m.data_buf
    → (n : ℕ) × ((handle_send_ad m fdu []).0 ≡ enqueued (stored m fdu) i m.write_pos (length fdu) n)
unfolding handle_send_ad
handle_send_ad_lem m fdu i r e h = elim (buffer_fdu_cases m fdu) [
  | inl full ↦ absurd (omega (arith, full.0))
  | inr fits ↦
      let (n, eq) = enqueue_lem (stored m fdu) i m.write_pos (length fdu) [] in
      (n, rw (r, e, fits.1, send_ad_at) eq)
]

send_ad_stored :
    (m : FopMachine) (fdu : List ℕ) (i : ℕ)
    → IsValid m
    → is_running m.state ≡ true
    → find_empty_slot m.sent_queue ≡ some i
    → m.write_pos + length fdu ≤ length m.data_buf
    → find_slot m.vs m.sent_queue ≡ none
    → let m' = (handle m (send_ad fdu)).0 in
      (get_fdu m' m.vs ≡ some fdu)
      × (m'.vs ≡ (m.vs + 1) % 256)
      × ((seq : ℕ) → seq ≢ m.vs → get_fdu m' seq ≡ get_fdu m seq)
unfolding handle
send_ad_stored m fdu i v r e h n =
    let (count, eq) = handle_send_ad_lem m fdu i r e h in
    let slot = sent_slot (stored m fdu) m.write_pos (length fdu) count in
    rw (eq, get_fdu_of_place)
      (
        rw (find_slot-set_self m.sent_queue i slot e refl n)
            (ap some (slice-copy_at_self m.data_buf m.write_pos fdu h)),
        refl,
        λ seq ne.
            rw
              (
                get_fdu_of_place,
                get_fdu_of_place m seq,
                find_slot-set_ne m.sent_queue i seq slot e ne,
              )
              (read-stored m fdu seq (find_slot seq m.sent_queue) v refl),
      )

-- In a running state with a free slot, room in the buffer and no frame held under V(S), SendAd
-- stores the data under V(S), where `get_fdu` finds them; all that is held under another number
-- stays the same; and V(S) goes up by one.
pub send_ad_stores :
    (m : FopMachine) (fdu : List ℕ) (i seq : ℕ)
    → IsValid m
    → is_running m.state ≡ true
    → find_empty_slot m.sent_queue ≡ some i
    → m.write_pos + length fdu ≤ length m.data_buf
    → find_slot m.vs m.sent_queue ≡ none
    → (get_fdu (handle m (send_ad fdu)).0 seq ≡ (if seq == m.vs then some fdu else get_fdu m seq))
      × ((handle m (send_ad fdu)).0.vs ≡ (m.vs + 1) % 256)
send_ad_stores m fdu i seq v r e h n =
    let (here, vs, there) = send_ad_stored m fdu i v r e h n in
    elim (Bool-cases (seq == m.vs)) [
      | inl same ↦ (rw (same, ((==_iff seq m.vs).0 same)) here, vs)
      | inr other ↦ (rw other (there seq (ground arith)), vs)
    ]

read-if :
    (m : FopMachine) (seq : ℕ) (b : Bool)
    → read m.data_buf (place (if b then none else find_slot seq m.sent_queue))
      ≡ (if b then none else get_fdu m seq)
read-if m seq true = refl
read-if m seq false = sym (get_fdu_of_place m seq)

-- What is held after the acknowledgements, wherever the rest of the state goes.
get_fdu-acknowledged :
    (m m' : FopMachine) (nr seq : ℕ)
    → m'.sent_queue ≡ (acknowledge nr m.sent_queue []).0
    → m'.data_buf ≡ m.data_buf
    → get_fdu m' seq ≡ (if is_before nr seq then none else get_fdu m seq)
get_fdu-acknowledged m m' nr seq q d =
    rw (get_fdu_of_place, q, d, find_slot-acknowledge nr seq m.sent_queue [])
      (read-if m seq (is_before nr seq))

get_fdu-initiate :
    (m m' : FopMachine) (seq : ℕ) (actions : List FopAction)
    → m'.sent_queue ≡ (initiate_retransmission m actions).0.sent_queue
    → m'.data_buf ≡ m.data_buf
    → get_fdu m' seq ≡ get_fdu m seq
unfolding initiate_retransmission
get_fdu-initiate m m' seq actions q d =
    rw (get_fdu_of_place, q, d, get_fdu_of_place m seq)
      (ap (read m.data_buf) (
        place-retransmit_all seq (sort_from m.nnr [] (occupied_seqs m.sent_queue)) m.sent_queue
          actions))

clcw_active_lem :
    (m : FopMachine) (c : Clcw) (seq : ℕ)
    → get_fdu (clcw_active m c []).0 seq
      ≡ (if is_before (Clcw.report_value c) seq then none else get_fdu m seq)
unfolding clcw_active remove_acknowledged
clcw_active_lem m c seq = elim (Bool-cases (Clcw.retransmit c)) [
  | inl again ↦ rw (again, clcw_active) (get_fdu-initiate acked _ seq _ refl refl ∙ rest)
  | inr not_again ↦ rw (not_again, clcw_active) rest
]
  where
    acked : FopMachine
    acked = record (remove_acknowledged m (Clcw.report_value c) []).0 { nnr = Clcw.report_value c }

    rest : get_fdu acked seq ≡ (if is_before (Clcw.report_value c) seq then none else get_fdu m seq)
    rest = get_fdu-acknowledged m acked (Clcw.report_value c) seq refl refl

clcw_retransmitting_lem :
    (m : FopMachine) (c : Clcw) (seq : ℕ)
    → get_fdu (clcw_retransmitting m c []).0 seq
      ≡ (if is_before (Clcw.report_value c) seq then none else get_fdu m seq)
unfolding clcw_retransmitting remove_acknowledged
clcw_retransmitting_lem m c seq = elim (Bool-cases (Clcw.retransmit c)) [
  | inl again ↦
      rw (again, clcw_retransmitting) (get_fdu-acknowledged m _ (Clcw.report_value c) seq refl refl)
  | inr not_again ↦
      rw (not_again, clcw_retransmitting)
        (get_fdu-acknowledged m _ (Clcw.report_value c) seq refl refl)
]

clcw_in_lem :
    (s : FopState) (m : FopMachine) (c : Clcw) (seq : ℕ)
    → is_running s ≡ true
    → Clcw.lockout c ≡ false
    → get_fdu (clcw_in s m c []).0 seq
      ≡ (if is_before (Clcw.report_value c) seq then none else get_fdu m seq)
unfolding clcw_in
clcw_in_lem active m c seq r l = rw l (clcw_active_lem m c seq)
clcw_in_lem retransmitting m c seq r l = rw l (clcw_retransmitting_lem m c seq)
clcw_in_lem _ m c seq r l = cc

-- A control word without lockout, in a running state: the frames that N(R) covers are given up, and
-- every other held frame keeps its data, also when the control word starts a retransmission.
pub clcw_keeps_unacknowledged :
    (m : FopMachine) (c : Clcw) (seq : ℕ)
    → is_running m.state ≡ true
    → Clcw.lockout c ≡ false
    → get_fdu (handle m (clcw_received c)).0 seq
      ≡ (if is_before (Clcw.report_value c) seq then none else get_fdu m seq)
unfolding handle handle_clcw
clcw_keeps_unacknowledged m c seq r l = clcw_in_lem m.state m c seq r l

ad_timeout_lem :
    (m : FopMachine) (seq : ℕ)
    → limit_exceeded m.config.transmission_limit m.sent_queue ≡ false
    → get_fdu (ad_timeout m []).0 seq ≡ get_fdu m seq
unfolding ad_timeout
ad_timeout_lem m seq l = rw l (get_fdu-initiate m _ seq [] refl refl)

timer_expired_in_lem :
    (s : FopState) (m : FopMachine) (seq : ℕ)
    → is_running s ≡ true
    → limit_exceeded m.config.transmission_limit m.sent_queue ≡ false
    → get_fdu (timer_expired_in s m []).0 seq ≡ get_fdu m seq
unfolding timer_expired_in
timer_expired_in_lem active m seq r l = ad_timeout_lem m seq l
timer_expired_in_lem retransmitting m seq r l = ad_timeout_lem m seq l
timer_expired_in_lem _ m seq r l = cc

-- In a running state, a timeout that does not pass the transmission limit keeps all data that are held.
pub timeout_keeps :
    (m : FopMachine) (seq : ℕ)
    → is_running m.state ≡ true
    → limit_exceeded m.config.transmission_limit m.sent_queue ≡ false
    → get_fdu (handle m timer_expired).0 seq ≡ get_fdu m seq
unfolding handle handle_timer_expired
timeout_keeps m seq r l = timer_expired_in_lem m.state m seq r l
