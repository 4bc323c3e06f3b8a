-- ===== src/Cop1/Farm/Tests.antt =====
-- Runs of FARM-1.
use leo_dos.Prelude.{◌≡◌, refl, ◌↔◌, true, false, List, [], ◌∷◌, arith, length}
use leo_dos.Cop1.Clcw.View.{view}
use leo_dos.Cop1.Farm.{
  FarmState, opened, FarmConfig, FarmMachine, FarmEvent, ad_frame, bd_frame, accept, new, clcw,
  classify_seq, handle,
}
use leo_dos.Cop1.Farm.Invariant.{IsValid, new-IsValid, run, run-IsValid}
use leo_dos.Cop1.Farm.Sequence.{
  InZone, classify_seq-InZone, handle-ad_iff, accepted, count_up, accepted_in_order, lockout_holds,
}
use leo_dos.Cop1.Farm.Report.{report, view-clcw}

abbrev config : FarmConfig
config = record { window_width = 10; vcid = 5 }

-- Frame 1 is missing at first.
abbrev frames : List FarmEvent
frames =
    ad_frame 0 true (7 ∷ [])
    ∷ ad_frame 2 true (9 ∷ [])
    ∷ bd_frame (4 ∷ [])
    ∷ ad_frame 1 true (8 ∷ [])
    ∷ ad_frame 2 true (9 ∷ [])
    ∷ []

config-IsValid : IsValid (new config)
config-IsValid = new-IsValid config (omega arith)

accepted-frames : accepted (new config) frames ≡ 0 ∷ 1 ∷ 2 ∷ []
unfolding accepted new handle
accepted-frames = refl

accepted_in_order_example :
    accepted (new config) frames ≡ count_up (new config).vr (length (accepted (new config) frames))
accepted_in_order_example = accepted_in_order (new config) frames (omega arith)

run-IsValid_example : IsValid (run (new config) frames)
run-IsValid_example = run-IsValid (new config) frames config-IsValid (omega arith)

classify_seq-InZone_example : InZone (new config) 3 (classify_seq (new config) 3)
classify_seq-InZone_example = classify_seq-InZone (new config) 3 config-IsValid (omega arith)

handle-ad_iff_example :
    ((handle (new config) (ad_frame 0 true (7 ∷ []))).1 ≡ accept (7 ∷ []) ∷ [])
    ↔ (((new config).state ≡ opened) × (0 ≡ (new config).vr) × (true ≡ true))
handle-ad_iff_example = handle-ad_iff (new config) 0 true (7 ∷ [])

-- Number 100 is in no window, and locks the machine.
abbrev locked : FarmMachine
locked = record {
  state = FarmState.lockout;
  vr = 3;
  lockout_flag = true;
  wait_flag = false;
  retransmit_flag = false;
  farm_b_counter = 1;
  pw = 5;
  nw = 5;
  vcid = 5;
}

locks :
    (handle (record locked { state = opened; lockout_flag = false }) (ad_frame 100 true [])).0
    ≡ locked
unfolding handle classify_seq
locks = refl

lockout_holds_example :
    (accepted locked frames ≡ [])
    × ((run locked frames).state ≡ FarmState.lockout)
    × ((run locked frames).vr ≡ locked.vr)
lockout_holds_example = lockout_holds locked frames refl (omega arith)

locked-IsValid : IsValid locked
locked-IsValid = ground arith

view-clcw_example : view (clcw locked) ≡ report locked
view-clcw_example = view-clcw locked locked-IsValid (omega arith)
