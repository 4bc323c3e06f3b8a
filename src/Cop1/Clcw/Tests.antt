-- ===== src/Cop1/Clcw/Tests.antt =====
-- Runs of the control word's methods.
use leo_dos.Prelude.{◌*◌, ◌≡◌, refl, arith}
use leo_dos.Cop1.Clcw
use leo_dos.Cop1.Clcw.{Clcw}
use leo_dos.Cop1.Clcw.View.{view, write, update, view-write, Write}

abbrev locked : Clcw
locked = record { word = 32 * 256 }

view-write_example : view (write (Write.vcid 5) locked) ≡ update (Write.vcid 5) (view locked)
view-write_example = view-write (Write.vcid 5) locked (omega arith) (omega arith)

vcid_read : Clcw.vcid (Clcw.set_vcid locked 5) ≡ 5
unfolding Clcw.vcid Clcw.set_vcid Clcw.get Clcw.set Clcw.trailing_zeros
vcid_read = refl

-- A channel of more than six bits reaches the field before it.
vcid_overflows : Clcw.cop_in_effect (Clcw.set_vcid Clcw.new 64) ≡ 1
unfolding Clcw.cop_in_effect Clcw.set_vcid Clcw.new Clcw.get Clcw.set Clcw.trailing_zeros
vcid_overflows = refl
