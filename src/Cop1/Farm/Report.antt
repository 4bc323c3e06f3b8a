-- ===== src/Cop1/Farm/Report.antt =====
-- The control word that FARM-1 sends, as FOP-1 reads it.
use native.Mathlib.Nat.{mod-eq_of_lt}
use leo_dos.Prelude.{◌<◌, ◌≡◌, refl, ◌∙◌, ap, false, List, [], ◌∷◌, arith}
use leo_dos.Cop1.Clcw
use leo_dos.Cop1.Clcw.View.{View, Write, view, view-eq-decode, write, writes, view-writes}
use leo_dos.Cop1.Farm.{FarmMachine, clcw}
use leo_dos.Cop1.Farm.Invariant.{IsValid}

-- What a machine has to report.
abbrev pub report : FarmMachine → View
report m = record {
  control_word_type = 0;
  version = 0;
  status = 0;
  cop_in_effect = 1;
  vcid = m.vcid;
  no_rf_available = false;
  no_bit_lock = false;
  lockout = m.lockout_flag;
  wait = m.wait_flag;
  retransmit = m.retransmit_flag;
  farm_b_counter = m.farm_b_counter;
  report_value = m.vr;
}

zeroed : View
zeroed = record {
  control_word_type = 0;
  version = 0;
  status = 0;
  cop_in_effect = 0;
  vcid = 0;
  no_rf_available = false;
  no_bit_lock = false;
  lockout = false;
  wait = false;
  retransmit = false;
  farm_b_counter = 0;
  report_value = 0;
}

view-new : view Clcw.new ≡ zeroed
unfolding zeroed Clcw.new
view-new = view-eq-decode Clcw.new

-- The writes that `clcw` makes.
written : FarmMachine → List Write
written m =
    Write.cop_in_effect 1
    ∷ Write.vcid m.vcid
    ∷ Write.lockout m.lockout_flag
    ∷ Write.wait m.wait_flag
    ∷ Write.retransmit m.retransmit_flag
    ∷ Write.farm_b_counter m.farm_b_counter
    ∷ Write.report_value m.vr
    ∷ []

clcw-eq-writes : (m : FarmMachine) → clcw m ≡ writes (written m) Clcw.new
unfolding clcw written write
clcw-eq-writes m = refl

-- A valid machine on a virtual channel of 6 bits sends a control word whose reading methods return
-- the machine's channel, flags, FARM-B counter and next expected sequence number, with COP-1 in
-- effect and zero in all other fields.
pub view-clcw : (m : FarmMachine) → IsValid m → m.vcid < 64 → view (clcw m) ≡ report m
unfolding written zeroed Clcw.new
view-clcw m v h =
    ap view (clcw-eq-writes m)
    ∙ view-writes (written m) Clcw.new (omega arith) (omega arith)
    ∙ rw (view-new, mod-eq_of_lt v.counter_bits)
