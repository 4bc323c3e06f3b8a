-- ===== src/Cop1/Fop/Tests.antt =====
-- Runs of FOP-1.
use mathlib.Core.List.{Perm}
use leo_dos.Prelude.{
  ℕ, ◌+◌, ◌%◌, ◌≡◌, refl, true, none, some, List, [], ◌∷◌, arith, ◌==◌, if◌then◌else◌, take, length,
  ◌++◌,
}
use leo_dos.Cop1.Clcw
use leo_dos.Cop1.Clcw.{Clcw}
use leo_dos.Cop1.Fop.State.{
  active, init_no_bc, FopMachine, send_ad, clcw_received, timer_expired, acknowledged, reject,
  max_actions, default_slot,
}
use leo_dos.Cop1.Fop.Queue.{
  get_fdu, find_slot, find_empty_slot, occupied_seqs, initiate_retransmission,
}
use leo_dos.Cop1.Fop.Machine.{limit_exceeded, handle}
use leo_dos.Cop1.Fop.Invariant.{IsValid}
use leo_dos.Cop1.Fop.Preserve.{handle-IsValid}
use leo_dos.Cop1.Fop.Slots.{is_before}
use leo_dos.Cop1.Fop.Payload.{send_ad_stores, clcw_keeps_unacknowledged, timeout_keeps}
use leo_dos.Cop1.Fop.Order.{Ascending, retransmission, go_back_n}
use leo_dos.Cop1.Fop.Limits.{run, init_no_bc_stuck, receive_all, acknowledged_space_stays_used}

-- Frame 4 is held, of two bytes, in a window of two slots and a buffer of five bytes.
abbrev holding : FopMachine
holding = record {
  state = active;
  config = record { window_width = 2; transmission_limit = 3; timeout_type = 0 };
  vs = 5;
  nnr = 4;
  sent_queue =
      record { occupied = true; seq = 4; offset = 0; len = 2; transmission_count = 1 }
      ∷ default_slot
      ∷ [];
  data_buf = 1 ∷ 2 ∷ 0 ∷ 0 ∷ 0 ∷ [];
  write_pos = 2;
  bc_transmission_count = 0;
  set_vr_value = 0;
  pending_bd = none;
}

holding-IsValid : IsValid holding
holding-IsValid = ground arith

handle-IsValid_example :
    IsValid (handle holding (send_ad (8 ∷ 9 ∷ []))).0
    × (length (handle holding (send_ad (8 ∷ 9 ∷ []))).0.data_buf ≡ length holding.data_buf)
handle-IsValid_example = handle-IsValid holding (send_ad (8 ∷ 9 ∷ [])) holding-IsValid tt

send_ad_stores_example :
    (get_fdu (handle holding (send_ad (8 ∷ 9 ∷ []))).0 5
      ≡ (if 5 == 5 then some (8 ∷ 9 ∷ []) else get_fdu holding 5))
    × ((handle holding (send_ad (8 ∷ 9 ∷ []))).0.vs ≡ (5 + 1) % 256)
unfolding find_empty_slot find_slot
send_ad_stores_example =
    send_ad_stores holding (8 ∷ 9 ∷ []) 1 5 holding-IsValid refl refl (omega arith) refl

-- A control word that reports 4 as the next number, and one that reports 5.
abbrev nothing_new : Clcw
nothing_new = record { word = 4 }

clcw_keeps_unacknowledged_example :
    get_fdu (handle holding (clcw_received nothing_new)).0 4
    ≡ (if is_before (Clcw.report_value nothing_new) 4 then none else get_fdu holding 4)
unfolding Clcw.lockout Clcw.get Clcw.trailing_zeros
clcw_keeps_unacknowledged_example = clcw_keeps_unacknowledged holding nothing_new 4 refl refl

timeout_keeps_example : get_fdu (handle holding timer_expired).0 4 ≡ get_fdu holding 4
unfolding limit_exceeded
timeout_keeps_example = timeout_keeps holding 4 refl refl

go_back_n_example :
    (order : List ℕ) × Perm order (occupied_seqs holding.sent_queue)
    × Ascending holding.nnr order
    × ((initiate_retransmission holding (take max_actions (acknowledged 3 ∷ []))).1
        ≡ take max_actions ((acknowledged 3 ∷ []) ++ retransmission order))
go_back_n_example = go_back_n holding (acknowledged 3 ∷ [])

abbrev initialising : FopMachine
initialising = record holding { state = init_no_bc; sent_queue = default_slot ∷ [] }

init_no_bc_stuck_example :
    ((run initialising (clcw_received nothing_new ∷ timer_expired ∷ [])).state ≡ init_no_bc)
    × ((handle (run initialising (clcw_received nothing_new ∷ timer_expired ∷ [])) (send_ad [])).1
        ≡ reject ∷ [])
init_no_bc_stuck_example =
    init_no_bc_stuck initialising (clcw_received nothing_new ∷ timer_expired ∷ []) [] refl
      (omega arith)

-- The control word acknowledges frame 4.
abbrev acknowledging : Clcw
acknowledging = record { word = 5 }

acknowledged_space_stays_used_example :
    handle (receive_all holding (acknowledging ∷ [])) (send_ad (6 ∷ 7 ∷ 8 ∷ 9 ∷ []))
    ≡ (receive_all holding (acknowledging ∷ []), reject ∷ [])
unfolding Clcw.lockout Clcw.get Clcw.trailing_zeros
acknowledged_space_stays_used_example =
    acknowledged_space_stays_used holding (acknowledging ∷ []) (6 ∷ 7 ∷ 8 ∷ 9 ∷ []) refl (refl, tt)
      (omega arith)
