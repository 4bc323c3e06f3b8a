-- ===== src/Cop1/Fop/Limits.antt =====
-- The initialisation without a BC frame, and the buffer space of acknowledged frames
-- (crates/leodos-protocols/src/datalink/reliability/cop1/fop.rs).
use leo_dos.Prelude.{
  ℕ, ◌+◌, ◌<◌, ◌≡◌, refl, ◌∙◌, inl, inr, true, false, Option, none, some, List, [], ◌∷◌, All,
  length, Bool-cases, arith,
}
use leo_dos.Cop1.Clcw
use leo_dos.Cop1.Clcw.{Clcw}
use leo_dos.Cop1.Fop.State.{
  FopState, active, retransmitting, init_no_bc, FopEvent, send_ad, send_bd, clcw_received,
  timer_expired, init_ad_no_clcw, init_ad_with_clcw, init_ad_set_vr, init_ad_unlock, terminate,
  resume, reject, FopMachine,
}
use leo_dos.Cop1.Fop.Queue.{
  find_empty_slot, buffer_fdu, remove_acknowledged, initiate_retransmission,
}
use leo_dos.Cop1.Fop.Machine.{
  is_running, send_ad_at, handle_send_ad, handle_send_bd, clcw_active, clcw_retransmitting, clcw_in,
  handle_clcw, timer_expired_in, handle_timer_expired, handle_init_no_clcw, handle_init_with_clcw,
  handle_init_set_vr, handle_init_unlock, handle_resume, handle,
}
use leo_dos.Cop1.Fop.Invariant.{buffer_fdu_cases}

abbrev pub IsTerminate : FopEvent → Type 0
IsTerminate terminate = Unit
IsTerminate _ = ⊥

pub run : FopMachine → List FopEvent → FopMachine
run m [] = m
run m (e ∷ es) = run (handle m e).0 es

bd_state : (m : FopMachine) (fdu : List ℕ) → (handle_send_bd m fdu []).0.state ≡ m.state
unfolding handle_send_bd buffer_fdu
bd_state m fdu = ground arith

no_bc_stays :
    (m : FopMachine) (e : FopEvent)
    → m.state ≡ init_no_bc
    → ¬ IsTerminate e
    → (handle m e).0.state ≡ init_no_bc
unfolding handle handle_send_ad handle_clcw clcw_in handle_timer_expired timer_expired_in
    handle_init_no_clcw handle_init_with_clcw handle_init_set_vr handle_init_unlock handle_resume
no_bc_stays m (send_ad fdu) h n = ground arith
no_bc_stays m (send_bd fdu) h n = bd_state m fdu ∙ h
no_bc_stays m (clcw_received clcw) h n = ground arith
no_bc_stays m timer_expired h n = ground arith
no_bc_stays m init_ad_no_clcw h n = ground arith
no_bc_stays m init_ad_with_clcw h n = ground arith
no_bc_stays m (init_ad_set_vr vr) h n = ground arith
no_bc_stays m init_ad_unlock h n = ground arith
no_bc_stays m terminate h n = absurd (n tt)
no_bc_stays m resume h n = ground arith

send_ad_idle :
    (m : FopMachine) (fdu : List ℕ)
    → is_running m.state ≡ false
    → (handle m (send_ad fdu)).1 ≡ reject ∷ []
unfolding handle handle_send_ad
send_ad_idle m fdu h = rw (h, handle_send_ad)

-- Once the service is initiated with a CLCW (InitNoBC), events without a Terminate do not
-- leave that state: no control word and no timeout completes the initialisation; and a SendAd is
-- rejected in it.
pub init_no_bc_stuck :
    (m : FopMachine) (es : List FopEvent) (fdu : List ℕ)
    → m.state ≡ init_no_bc
    → All (λ e. ¬ IsTerminate e) es
    → ((run m es).state ≡ init_no_bc) × ((handle (run m es) (send_ad fdu)).1 ≡ reject ∷ [])
unfolding run
init_no_bc_stuck m [] fdu h n = (h, send_ad_idle m fdu (rw h))
init_no_bc_stuck m (e ∷ es) fdu h n =
    init_no_bc_stuck (handle m e).0 es fdu (no_bc_stays m e h n.0) n.1

-- Control words of a running service without lockout.
pub receive_all : FopMachine → List Clcw → FopMachine
receive_all m [] = m
receive_all m (c ∷ cs) = receive_all (handle m (clcw_received c)).0 cs

record SameBuffer (m m' : FopMachine) : Type 0 where
  runs : is_running m'.state ≡ true
  pos : m'.write_pos ≡ m.write_pos
  bytes : m'.data_buf ≡ m.data_buf

clcw-SameBuffer :
    (s : FopState) (m : FopMachine) (c : Clcw)
    → m.state ≡ s
    → is_running s ≡ true
    → Clcw.lockout c ≡ false
    → SameBuffer m (clcw_in s m c []).0
unfolding clcw_in clcw_active clcw_retransmitting remove_acknowledged initiate_retransmission
clcw-SameBuffer active m c e r l = rw l (elim (Bool-cases (Clcw.retransmit c)) [
  | inl again ↦ rw (again, clcw_active) (record { runs = refl; pos = refl; bytes = refl })
  | inr not_again ↦ rw (not_again, clcw_active) (record { runs = rw e; pos = refl; bytes = refl })
])
clcw-SameBuffer retransmitting m c e r l = rw l (elim (Bool-cases (Clcw.retransmit c)) [
  | inl again ↦ rw (again, clcw_retransmitting) (record { runs = rw e; pos = refl; bytes = refl })
  | inr not_again ↦
      rw (not_again, clcw_retransmitting) (record { runs = refl; pos = refl; bytes = refl })
])
clcw-SameBuffer _ m c e r l = absurd (cc)

handle_clcw-SameBuffer :
    (m : FopMachine) (c : Clcw)
    → is_running m.state ≡ true
    → Clcw.lockout c ≡ false
    → SameBuffer m (handle m (clcw_received c)).0
unfolding handle handle_clcw
handle_clcw-SameBuffer m c r l = clcw-SameBuffer m.state m c refl r l

send_ad_at_full :
    (o : Option ℕ) (m : FopMachine) (fdu : List ℕ)
    → length m.data_buf < m.write_pos + length fdu
    → send_ad_at o m fdu [] ≡ (m, reject ∷ [])
unfolding send_ad_at
send_ad_at_full none m fdu h = refl
send_ad_at_full (some i) m fdu h = elim (buffer_fdu_cases m fdu) [
  | inl full ↦ rw (full.1, send_ad_at)
  | inr fits ↦ absurd (omega (arith, fits.0))
]

send_ad_full :
    (m : FopMachine) (fdu : List ℕ)
    → is_running m.state ≡ true
    → length m.data_buf < m.write_pos + length fdu
    → handle m (send_ad fdu) ≡ (m, reject ∷ [])
unfolding handle handle_send_ad
send_ad_full m fdu r h =
    rw (r, handle_send_ad) (send_ad_at_full (find_empty_slot m.sent_queue) m fdu h)

-- Control words without lockout, in a running state, give no buffer space back: an FDU that does not fit before them is rejected after
-- them, though they may have acknowledged every frame.
pub acknowledged_space_stays_used :
    (m : FopMachine) (cs : List Clcw) (fdu : List ℕ)
    → is_running m.state ≡ true
    → All (λ c. Clcw.lockout c ≡ false) cs
    → length m.data_buf < m.write_pos + length fdu
    → handle (receive_all m cs) (send_ad fdu) ≡ (receive_all m cs, reject ∷ [])
unfolding receive_all
acknowledged_space_stays_used m [] fdu r l h = send_ad_full m fdu r h
acknowledged_space_stays_used m (c ∷ cs) fdu r l h =
    let same = handle_clcw-SameBuffer m c r l.0 in
    acknowledged_space_stays_used (handle m (clcw_received c)).0 cs fdu same.runs l.1
      (rw (same.pos, same.bytes) h)
