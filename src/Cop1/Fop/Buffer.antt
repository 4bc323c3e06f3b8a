-- ===== src/Cop1/Fop/Buffer.antt =====
-- The length of the send buffer of FOP-1, an array, over the handlers
-- (crates/leodos-protocols/src/datalink/reliability/cop1/fop.rs).
use leo_dos.Prelude.{
  ℕ, ◌≡◌, refl, inl, inr, Bool, true, false, Option, none, some, List, [], length, if◌then◌else◌,
}
use leo_dos.Prelude.Slices.{length-copy_at}
use leo_dos.Cop1.Clcw
use leo_dos.Cop1.Clcw.{Clcw}
use leo_dos.Cop1.Fop.State.{
  FopState, active, retransmitting, init_no_bc, init_with_set_vr, init_with_unlock, initial,
  FopEvent, send_ad, send_bd, clcw_received, timer_expired, init_ad_no_clcw, init_ad_with_clcw,
  init_ad_set_vr, init_ad_unlock, terminate, resume, FopMachine,
}
use leo_dos.Cop1.Fop.Queue.{
  find_empty_slot, remove_acknowledged, initiate_retransmission, purge_sent_queue,
}
use leo_dos.Cop1.Fop.Machine.{
  Outcome, enqueue, send_ad_at, handle_send_ad, handle_send_bd, raise_alert, clcw_active,
  clcw_retransmitting, clcw_in, handle_clcw, bc_timeout, ad_timeout, timer_expired_in,
  handle_timer_expired, handle_init_no_clcw, handle_init_with_clcw, handle_init_set_vr,
  handle_init_unlock, handle_terminate, handle_resume, handle,
}
use leo_dos.Cop1.Fop.Invariant.{buffer_fdu_cases}

abbrev pub SameLength : FopMachine → FopMachine → Type 0
SameLength m m' = length m'.data_buf ≡ length m.data_buf

-- Both branches of a test.
if-SameLength :
    (m : FopMachine) (b : Bool) (x y : Outcome)
    → SameLength m x.0
    → SameLength m y.0
    → SameLength m (if b then x else y).0
if-SameLength m true x y v w = v
if-SameLength m false x y v w = w

send_ad_at-SameLength :
    (o : Option ℕ) (m : FopMachine) (fdu : List ℕ) → SameLength m (send_ad_at o m fdu []).0
unfolding send_ad_at enqueue
send_ad_at-SameLength none m fdu = refl
send_ad_at-SameLength (some i) m fdu = elim (buffer_fdu_cases m fdu) [
  | inl full ↦ rw (full.1, send_ad_at) refl
  | inr fits ↦
      rw (fits.1, send_ad_at)
        (if-SameLength m _ _ _ (length-copy_at m.data_buf m.write_pos fdu)
          (length-copy_at m.data_buf m.write_pos fdu))
]

send_bd-SameLength : (m : FopMachine) (fdu : List ℕ) → SameLength m (handle_send_bd m fdu []).0
unfolding handle_send_bd
send_bd-SameLength m fdu = elim (buffer_fdu_cases m fdu) [
  | inl full ↦ rw (full.1, handle_send_bd) refl
  | inr fits ↦ rw (fits.1, handle_send_bd) (length-copy_at m.data_buf m.write_pos fdu)
]

clcw_in-SameLength : (s : FopState) (m : FopMachine) (c : Clcw) → SameLength m (clcw_in s m c []).0
unfolding clcw_in clcw_active clcw_retransmitting raise_alert purge_sent_queue remove_acknowledged
    initiate_retransmission
clcw_in-SameLength active m c =
    if-SameLength m (Clcw.lockout c) _ _ refl (if-SameLength m (Clcw.retransmit c) _ _ refl refl)
clcw_in-SameLength retransmitting m c =
    if-SameLength m (Clcw.lockout c) _ _ refl (if-SameLength m (Clcw.retransmit c) _ _ refl refl)
clcw_in-SameLength init_with_set_vr m c = if-SameLength m _ _ _ refl refl
clcw_in-SameLength init_with_unlock m c = if-SameLength m _ _ _ refl refl
clcw_in-SameLength init_no_bc m c = refl
clcw_in-SameLength initial m c = refl

timer_expired_in-SameLength :
    (s : FopState) (m : FopMachine) → SameLength m (timer_expired_in s m []).0
unfolding timer_expired_in ad_timeout bc_timeout raise_alert purge_sent_queue
    initiate_retransmission
timer_expired_in-SameLength active m = if-SameLength m _ _ _ refl refl
timer_expired_in-SameLength retransmitting m = if-SameLength m _ _ _ refl refl
timer_expired_in-SameLength init_with_set_vr m = if-SameLength m _ _ _ refl refl
timer_expired_in-SameLength init_with_unlock m = if-SameLength m _ _ _ refl refl
timer_expired_in-SameLength init_no_bc m = refl
timer_expired_in-SameLength initial m = refl

pub handle-SameLength : (m : FopMachine) (e : FopEvent) → SameLength m (handle m e).0
unfolding handle handle_send_ad handle_clcw handle_timer_expired handle_init_no_clcw
    handle_init_with_clcw handle_init_set_vr handle_init_unlock handle_terminate handle_resume
    purge_sent_queue
handle-SameLength m (send_ad fdu) =
    if-SameLength m _ _ _ (send_ad_at-SameLength (find_empty_slot m.sent_queue) m fdu) refl
handle-SameLength m (send_bd fdu) = send_bd-SameLength m fdu
handle-SameLength m (clcw_received clcw) = clcw_in-SameLength m.state m clcw
handle-SameLength m timer_expired = timer_expired_in-SameLength m.state m
handle-SameLength m init_ad_no_clcw = if-SameLength m _ _ _ refl refl
handle-SameLength m init_ad_with_clcw = if-SameLength m _ _ _ refl refl
handle-SameLength m (init_ad_set_vr vr) = if-SameLength m _ _ _ refl refl
handle-SameLength m init_ad_unlock = if-SameLength m _ _ _ refl refl
handle-SameLength m terminate = refl
handle-SameLength m resume = if-SameLength m _ _ _ refl refl
