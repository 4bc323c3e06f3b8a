-- ===== src/Cop1/Fop/Machine.antt =====
-- The handlers of FOP-1 and `handle`
-- (crates/leodos-protocols/src/datalink/reliability/cop1/fop.rs).
use leo_dos.Prelude.{
  ℕ, Bool, true, false, ◌&&◌, ◌||◌, not, Option, none, some, List, [], ◌∷◌, length, set, leb, ◌==◌,
  if◌then◌else◌,
}
use leo_dos.Cop1.Clcw
use leo_dos.Cop1.Clcw.{Clcw}
use leo_dos.Cop1.Fop.State.{
  FopState, active, retransmitting, init_no_bc, init_with_set_vr, init_with_unlock, initial,
  FopEvent, send_ad, send_bd, clcw_received, timer_expired, init_ad_no_clcw, init_ad_with_clcw,
  init_ad_set_vr, init_ad_unlock, terminate, resume, FopAction, transmit_ad, transmit_bd,
  transmit_bc_unlock, transmit_bc_set_vr, start_timer, stop_timer, accept, reject, alert,
  terminated, FduSlot, FopMachine, push, wrapping_add,
}
use leo_dos.Cop1.Fop.Queue.{
  count_occupied, find_empty_slot, buffer_fdu, remove_acknowledged, initiate_retransmission,
  purge_sent_queue,
}

abbrev pub Outcome : Type 0
Outcome = FopMachine × List FopAction

-- `Active | Retransmitting`
abbrev pub is_running : FopState → Bool
is_running active = true
is_running retransmitting = true
is_running _ = false

abbrev pub is_active : FopState → Bool
is_active active = true
is_active _ = false

abbrev pub is_initial : FopState → Bool
is_initial initial = true
is_initial _ = false

-- The slot that a new frame takes.
abbrev pub slot_for : ℕ → ℕ → ℕ → FduSlot
slot_for seq offset len = record {
  occupied = true;
  seq = seq;
  offset = offset;
  len = len;
  transmission_count = 0;
}

-- `handle_send_ad` with a slot and a place in the buffer.
unfoldable pub enqueue : FopMachine → ℕ → ℕ → ℕ → List FopAction → Outcome
unfolding push
enqueue m slot_idx offset len actions =
    let seq = m.vs in
    let slot = slot_for seq offset len in
    let queued = record m {
      sent_queue = set m.sent_queue slot_idx slot;
      vs = wrapping_add m.vs 1;
    } in
    if is_active m.state
    then (
      record queued {
        sent_queue = set queued.sent_queue slot_idx (record slot { transmission_count = 1 });
      },
      push (push actions (transmit_ad seq)) start_timer,
    )
    else (queued, actions)

-- `handle_send_ad` in a running state, with what `find_empty_slot` returned.
unfoldable pub send_ad_at : Option ℕ → FopMachine → List ℕ → List FopAction → Outcome
unfolding enqueue buffer_fdu push
send_ad_at none m fdu actions = (m, push actions reject)
send_ad_at (some slot_idx) m fdu actions = elim (buffer_fdu m fdu) [
  | none ↦ (m, push actions reject)
  | some (offset, m') ↦ enqueue m' slot_idx offset (length fdu) actions
]

unfoldable pub handle_send_ad : FopMachine → List ℕ → List FopAction → Outcome
unfolding send_ad_at find_empty_slot push
handle_send_ad m fdu actions =
    if is_running m.state
    then send_ad_at (find_empty_slot m.sent_queue) m fdu actions
    else (m, push actions reject)

unfoldable pub handle_send_bd : FopMachine → List ℕ → List FopAction → Outcome
unfolding buffer_fdu push
handle_send_bd m fdu actions = elim (buffer_fdu m fdu) [
  | none ↦ (m, push actions reject)
  | some (offset, m') ↦
      (record m' { pending_bd = some (offset, length fdu) }, push actions transmit_bd)
]

-- The method `alert`.
unfoldable pub raise_alert : FopMachine → List FopAction → Outcome
unfolding purge_sent_queue push
raise_alert m actions =
    (record (purge_sent_queue m) { state = initial }, push (push actions stop_timer) alert)

-- `if self.sent_count() == 0 { StopTimer }`
abbrev pub stop_if_idle : FopMachine → List FopAction → List FopAction
stop_if_idle m actions =
    if count_occupied m.sent_queue == 0 then push actions stop_timer else actions

-- `handle_clcw` in the Active state, past the lockout test.
unfoldable pub clcw_active : FopMachine → Clcw → List FopAction → Outcome
unfolding remove_acknowledged initiate_retransmission count_occupied push Clcw.report_value
    Clcw.retransmit
clcw_active m clcw actions =
    let nr = Clcw.report_value clcw in
    let (acked, actions') = remove_acknowledged m nr actions in
    let m' = record acked { nnr = nr } in
    if Clcw.retransmit clcw
    then (let (resent, actions'') = initiate_retransmission m' actions' in
        (record resent { state = retransmitting }, actions''))
    else (m', stop_if_idle m' actions')

-- `handle_clcw` in the Retransmitting state, past the lockout test.
unfoldable pub clcw_retransmitting : FopMachine → Clcw → List FopAction → Outcome
unfolding remove_acknowledged count_occupied push Clcw.report_value Clcw.retransmit
clcw_retransmitting m clcw actions =
    let nr = Clcw.report_value clcw in
    let (acked, actions') = remove_acknowledged m nr actions in
    let m' = record acked { nnr = nr } in
    if Clcw.retransmit clcw
    then (m', actions')
    else (record m' { state = active }, stop_if_idle m' actions')

-- The end of an initialisation, with V(S).
abbrev pub initialised : FopMachine → ℕ → ℕ → List FopAction → Outcome
initialised m vs nnr actions = (
  record (purge_sent_queue (record m { vs = vs; nnr = nnr })) { state = active },
  push (push actions stop_timer) accept,
)

unfoldable pub clcw_in : FopState → FopMachine → Clcw → List FopAction → Outcome
unfolding clcw_active clcw_retransmitting raise_alert purge_sent_queue push Clcw.report_value
    Clcw.retransmit Clcw.lockout
clcw_in active m clcw actions =
    if Clcw.lockout clcw then raise_alert m actions else clcw_active m clcw actions
clcw_in retransmitting m clcw actions =
    if Clcw.lockout clcw then raise_alert m actions else clcw_retransmitting m clcw actions
clcw_in init_with_set_vr m clcw actions =
    if Clcw.report_value clcw == m.set_vr_value
      && (not (Clcw.lockout clcw) && not (Clcw.retransmit clcw))
    then initialised m m.set_vr_value (Clcw.report_value clcw) actions
    else (m, actions)
clcw_in init_with_unlock m clcw actions =
    if not (Clcw.lockout clcw) && not (Clcw.retransmit clcw)
    then initialised m (Clcw.report_value clcw) (Clcw.report_value clcw) actions
    else (m, actions)
clcw_in init_no_bc m clcw actions = (m, actions)
clcw_in initial m clcw actions = (m, actions)

-- `handle_clcw`
unfoldable pub handle_clcw : FopMachine → Clcw → List FopAction → Outcome
unfolding clcw_in
handle_clcw m clcw actions = clcw_in m.state m clcw actions

-- `limit_exceeded` of `handle_timer_expired`
unfoldable pub limit_exceeded : ℕ → List FduSlot → Bool
limit_exceeded limit [] = false
limit_exceeded limit (s ∷ ss) =
    (s.occupied && leb limit s.transmission_count) || limit_exceeded limit ss

-- A timeout while a BC frame is out: `frame` sends it again.
unfoldable pub bc_timeout : FopMachine → FopAction → List FopAction → Outcome
unfolding raise_alert push
bc_timeout m frame actions =
    let m' = record m { bc_transmission_count = wrapping_add m.bc_transmission_count 1 } in
    if leb m.config.transmission_limit m'.bc_transmission_count
    then raise_alert m' actions
    else (m', push (push actions frame) start_timer)

unfoldable pub ad_timeout : FopMachine → List FopAction → Outcome
unfolding limit_exceeded raise_alert initiate_retransmission
ad_timeout m actions =
    if limit_exceeded m.config.transmission_limit m.sent_queue
    then raise_alert m actions
    else (let (m', actions') = initiate_retransmission m actions in
        (record m' { state = retransmitting }, actions'))

unfoldable pub timer_expired_in : FopState → FopMachine → List FopAction → Outcome
unfolding ad_timeout bc_timeout
timer_expired_in active m actions = ad_timeout m actions
timer_expired_in retransmitting m actions = ad_timeout m actions
timer_expired_in init_with_set_vr m actions =
    bc_timeout m (transmit_bc_set_vr m.set_vr_value) actions
timer_expired_in init_with_unlock m actions = bc_timeout m transmit_bc_unlock actions
timer_expired_in init_no_bc m actions = (m, actions)
timer_expired_in initial m actions = (m, actions)

unfoldable pub handle_timer_expired : FopMachine → List FopAction → Outcome
unfolding timer_expired_in
handle_timer_expired m actions = timer_expired_in m.state m actions

unfoldable pub handle_init_no_clcw : FopMachine → List FopAction → Outcome
unfolding purge_sent_queue push
handle_init_no_clcw m actions =
    if is_initial m.state
    then (record (purge_sent_queue m) { state = active }, push actions accept)
    else (m, push actions reject)

unfoldable pub handle_init_with_clcw : FopMachine → List FopAction → Outcome
unfolding purge_sent_queue push
handle_init_with_clcw m actions =
    if is_initial m.state
    then (record (purge_sent_queue m) { state = init_no_bc }, push actions start_timer)
    else (m, push actions reject)

unfoldable pub handle_init_set_vr : FopMachine → ℕ → List FopAction → Outcome
unfolding purge_sent_queue push
handle_init_set_vr m vr actions =
    if is_initial m.state
    then (
      record (purge_sent_queue (record m { set_vr_value = vr; bc_transmission_count = 1 })) {
        state = init_with_set_vr;
      },
      push (push actions (transmit_bc_set_vr vr)) start_timer,
    )
    else (m, push actions reject)

unfoldable pub handle_init_unlock : FopMachine → List FopAction → Outcome
unfolding purge_sent_queue push
handle_init_unlock m actions =
    if is_initial m.state
    then (
      record (purge_sent_queue (record m { bc_transmission_count = 1 })) {
        state = init_with_unlock;
      },
      push (push actions transmit_bc_unlock) start_timer,
    )
    else (m, push actions reject)

unfoldable pub handle_terminate : FopMachine → List FopAction → Outcome
unfolding purge_sent_queue push
handle_terminate m actions =
    (record (purge_sent_queue m) { state = initial }, push (push actions stop_timer) terminated)

unfoldable pub handle_resume : FopMachine → List FopAction → Outcome
unfolding push
handle_resume m actions =
    if is_initial m.state
    then (record m { state = active }, push actions accept)
    else (m, push actions reject)

-- `handle` clears the actions first, so they start empty.
unfoldable pub handle : FopMachine → FopEvent → Outcome
handle m (send_ad fdu) = handle_send_ad m fdu []
handle m (send_bd fdu) = handle_send_bd m fdu []
handle m (clcw_received clcw) = handle_clcw m clcw []
handle m timer_expired = handle_timer_expired m []
handle m init_ad_no_clcw = handle_init_no_clcw m []
handle m init_ad_with_clcw = handle_init_with_clcw m []
handle m (init_ad_set_vr vr) = handle_init_set_vr m vr []
handle m init_ad_unlock = handle_init_unlock m []
handle m terminate = handle_terminate m []
handle m resume = handle_resume m []
