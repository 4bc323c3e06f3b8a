-- ===== src/Cop1/Fop/Preserve.antt =====
-- The invariant of FOP-1 over its handlers.
use leo_dos.Prelude.{
  ℕ, ◌<◌, ◌≡◌, inl, inr, refl, true, Option, none, some, List, [], Bool-cases, ◌&&◌, ◌==◌, not,
  length, arith,
}
use leo_dos.Cop1.Clcw
use leo_dos.Cop1.Clcw.{Clcw}
use leo_dos.Cop1.Fop.State.{
  FopState, active, retransmitting, init_no_bc, init_with_set_vr, init_with_unlock, initial,
  FopEvent, send_ad, send_bd, clcw_received, timer_expired, init_ad_no_clcw, init_ad_with_clcw,
  init_ad_set_vr, init_ad_unlock, terminate, resume, FopAction, FopMachine, wrapping_add,
}
use leo_dos.Cop1.Fop.Queue.{find_empty_slot, remove_acknowledged}
use leo_dos.Cop1.Fop.Machine.{
  is_running, is_initial, send_ad_at, handle_send_ad, handle_send_bd, initialised, clcw_active,
  clcw_retransmitting, clcw_in, handle_clcw, limit_exceeded, bc_timeout, ad_timeout,
  timer_expired_in, handle_timer_expired, handle_init_no_clcw, handle_init_with_clcw,
  handle_init_set_vr, handle_init_unlock, handle_terminate, handle_resume, handle,
}
use leo_dos.Cop1.Fop.Buffer.{handle-SameLength}
use leo_dos.Cop1.Fop.Invariant.{
  IsValid, IsByteEvent, purge-IsValid, relabel-IsValid, if-IsValid, alert-IsValid, stored,
  buffer_fdu_cases, stored-IsValid, enqueue-IsValid, remove_acknowledged-IsValid,
  initiate_retransmission-IsValid,
}

send_ad_at-IsValid :
    (o : Option ℕ) (m : FopMachine) (fdu : List ℕ)
    → IsValid m
    → is_running m.state ≡ true
    → IsValid (send_ad_at o m fdu []).0
unfolding send_ad_at
send_ad_at-IsValid none m fdu v r = v
send_ad_at-IsValid (some i) m fdu v r = elim (buffer_fdu_cases m fdu) [
  | inl full ↦ rw (full.1, send_ad_at) v
  | inr fits ↦
      rw (fits.1, send_ad_at)
        (enqueue-IsValid (stored m fdu) i m.write_pos (length fdu) []
          (stored-IsValid m fdu v fits.0) (omega arith) r)
]

send_ad-IsValid : (m : FopMachine) (fdu : List ℕ) → IsValid m → IsValid (handle_send_ad m fdu []).0
unfolding handle_send_ad
send_ad-IsValid m fdu v = elim (Bool-cases (is_running m.state)) [
  | inl on ↦ rw on (send_ad_at-IsValid (find_empty_slot m.sent_queue) m fdu v on)
  | inr off ↦ rw off v
]

send_bd-IsValid : (m : FopMachine) (fdu : List ℕ) → IsValid m → IsValid (handle_send_bd m fdu []).0
unfolding handle_send_bd
send_bd-IsValid m fdu v = elim (buffer_fdu_cases m fdu) [
  | inl full ↦ rw (full.1, handle_send_bd) v
  | inr fits ↦
      rw (fits.1, handle_send_bd)
        (let w = stored-IsValid m fdu v fits.0 in
          relabel-IsValid (stored m fdu) m.vs m.nnr m.set_vr_value m.bc_transmission_count _ w
            w.vs_byte w.nnr_byte w.set_vr_byte)
]

report_value-lt : (c : Clcw) → Clcw.report_value c < 256
unfolding Clcw.report_value
report_value-lt c = omega arith

clcw_active-IsValid :
    (m : FopMachine) (c : Clcw)
    → IsValid m
    → is_running m.state ≡ true
    → IsValid (clcw_active m c []).0
unfolding clcw_active remove_acknowledged
clcw_active-IsValid m c v r =
    if-IsValid (Clcw.retransmit c) _ _
      (initiate_retransmission-IsValid _ _ retransmitting acked refl) acked
  where
    acked :
        IsValid
          (record (remove_acknowledged m (Clcw.report_value c) []).0 { nnr = Clcw.report_value c })
    acked = remove_acknowledged-IsValid m (Clcw.report_value c) [] m.state v (report_value-lt c) r

clcw_retransmitting-IsValid :
    (m : FopMachine) (c : Clcw)
    → IsValid m
    → is_running m.state ≡ true
    → IsValid (clcw_retransmitting m c []).0
unfolding clcw_retransmitting remove_acknowledged
clcw_retransmitting-IsValid m c v r =
    if-IsValid (Clcw.retransmit c) _ _
      (remove_acknowledged-IsValid m (Clcw.report_value c) [] m.state v (report_value-lt c) r)
      (remove_acknowledged-IsValid m (Clcw.report_value c) [] active v (report_value-lt c) refl)

initialised-IsValid :
    (m : FopMachine) (vs nnr : ℕ)
    → IsValid m
    → vs < 256
    → nnr < 256
    → IsValid (initialised m vs nnr []).0
initialised-IsValid m vs nnr v h k = purge-IsValid _ active (
    relabel-IsValid m vs nnr m.set_vr_value m.bc_transmission_count m.pending_bd v h k
      v.set_vr_byte)

clcw_in-IsValid :
    (s : FopState) (m : FopMachine) (c : Clcw)
    → m.state ≡ s
    → IsValid m
    → IsValid (clcw_in s m c []).0
unfolding clcw_in
clcw_in-IsValid active m c e v =
    if-IsValid (Clcw.lockout c) _ _ (alert-IsValid m [] v) (clcw_active-IsValid m c v (rw e))
clcw_in-IsValid retransmitting m c e v =
    if-IsValid (Clcw.lockout c) _ _ (alert-IsValid m [] v)
      (clcw_retransmitting-IsValid m c v (rw e))
clcw_in-IsValid init_with_set_vr m c e v =
    if-IsValid
      (Clcw.report_value c == m.set_vr_value && (not (Clcw.lockout c) && not (Clcw.retransmit c)))
      (initialised m m.set_vr_value (Clcw.report_value c) []) (m, [])
      (initialised-IsValid m m.set_vr_value (Clcw.report_value c) v v.set_vr_byte
        (report_value-lt c))
      v
clcw_in-IsValid init_with_unlock m c e v =
    if-IsValid (not (Clcw.lockout c) && not (Clcw.retransmit c))
      (initialised m (Clcw.report_value c) (Clcw.report_value c) []) (m, [])
      (initialised-IsValid m (Clcw.report_value c) (Clcw.report_value c) v (report_value-lt c)
        (report_value-lt c))
      v
clcw_in-IsValid init_no_bc m c e v = v
clcw_in-IsValid initial m c e v = v

bc_timeout-IsValid :
    (m : FopMachine) (frame : FopAction) → IsValid m → IsValid (bc_timeout m frame []).0
unfolding bc_timeout
bc_timeout-IsValid m frame v = if-IsValid _ _ _ (alert-IsValid _ [] counted) counted
  where
    counted : IsValid (record m { bc_transmission_count = wrapping_add m.bc_transmission_count 1 })
    counted =
        relabel-IsValid m m.vs m.nnr m.set_vr_value _ m.pending_bd v v.vs_byte v.nnr_byte
          v.set_vr_byte

ad_timeout-IsValid : (m : FopMachine) → IsValid m → IsValid (ad_timeout m []).0
unfolding ad_timeout
ad_timeout-IsValid m v =
    if-IsValid (limit_exceeded m.config.transmission_limit m.sent_queue) _ _ (alert-IsValid m [] v)
      (initiate_retransmission-IsValid m [] retransmitting v refl)

timer_expired_in-IsValid :
    (s : FopState) (m : FopMachine) → IsValid m → IsValid (timer_expired_in s m []).0
unfolding timer_expired_in
timer_expired_in-IsValid active m v = ad_timeout-IsValid m v
timer_expired_in-IsValid retransmitting m v = ad_timeout-IsValid m v
timer_expired_in-IsValid init_with_set_vr m v = bc_timeout-IsValid m _ v
timer_expired_in-IsValid init_with_unlock m v = bc_timeout-IsValid m _ v
timer_expired_in-IsValid init_no_bc m v = v
timer_expired_in-IsValid initial m v = v

event-IsValid : (m : FopMachine) (e : FopEvent) → IsValid m → IsByteEvent e → IsValid (handle m e).0
unfolding handle handle_clcw handle_timer_expired handle_init_no_clcw handle_init_with_clcw
    handle_init_set_vr handle_init_unlock handle_terminate handle_resume
event-IsValid m (send_ad fdu) v b = send_ad-IsValid m fdu v
event-IsValid m (send_bd fdu) v b = send_bd-IsValid m fdu v
event-IsValid m (clcw_received clcw) v b = clcw_in-IsValid m.state m clcw refl v
event-IsValid m timer_expired v b = timer_expired_in-IsValid m.state m v
event-IsValid m init_ad_no_clcw v b =
    if-IsValid (is_initial m.state) _ _ (purge-IsValid m active v) v
event-IsValid m init_ad_with_clcw v b =
    if-IsValid (is_initial m.state) _ _ (purge-IsValid m init_no_bc v) v
event-IsValid m (init_ad_set_vr vr) v b =
    if-IsValid (is_initial m.state) _ _
      (purge-IsValid _ init_with_set_vr
        (relabel-IsValid m m.vs m.nnr vr 1 m.pending_bd v v.vs_byte v.nnr_byte b))
      v
event-IsValid m init_ad_unlock v b =
    if-IsValid (is_initial m.state) _ _
      (purge-IsValid _ init_with_unlock (
        relabel-IsValid m m.vs m.nnr m.set_vr_value 1 m.pending_bd v v.vs_byte v.nnr_byte
          v.set_vr_byte))
      v
event-IsValid m terminate v b = purge-IsValid m initial v
event-IsValid m resume v b =
    if-IsValid (is_initial m.state) _ _
      (record {
        vs_byte = v.vs_byte;
        nnr_byte = v.nnr_byte;
        set_vr_byte = v.set_vr_byte;
        slots = v.slots;
        room = v.room;
        idle = λ n. cc;
      })
      v

-- Every event whose numbers are bytes keeps the invariant of a valid machine and the length of its
-- buffer.
pub handle-IsValid :
    (m : FopMachine) (e : FopEvent)
    → IsValid m
    → IsByteEvent e
    → IsValid (handle m e).0 × (length (handle m e).0.data_buf ≡ length m.data_buf)
handle-IsValid m e v b = (event-IsValid m e v b, handle-SameLength m e)
