-- ===== src/Sdls/Tests.antt =====
-- Runs of the table of security associations.
use leo_dos.Prelude.{some, [], ◌∷◌, arith}
use leo_dos.Sdls.Keys.{active, KeyRing, find_key}
use leo_dos.Sdls.KeyContract.{destroys, contract, Does, run, run-Does}
use leo_dos.Sdls.Association.{encryption, keyed, ManagedSa}
use leo_dos.Sdls.Table.{SaTable}
use leo_dos.Sdls.Table.Command.{start, apply, outcome}
use leo_dos.Sdls.Table.Invariant.{IsValid, apply-IsValid}
use leo_dos.Sdls.Table.Refine.{Implements, apply-Implements}

abbrev ready : ManagedSa
ready = record {
  sa = record {
    spi = 7;
    service_type = encryption;
    iv_len = 0;
    sn_len = 0;
    pl_len = 0;
    mac_len = 0;
    sequence_number = 0;
    sequence_window = 0;
    auth_mask = [];
  };
  state = keyed;
  key_id = some 3;
}

abbrev one_ready : SaTable
one_ready = ready ∷ []

one_ready-IsValid : IsValid one_ready
one_ready-IsValid = ground arith

apply-IsValid_example : IsValid (outcome one_ready (apply (start 7) one_ready))
apply-IsValid_example = apply-IsValid (start 7) one_ready (omega arith) one_ready-IsValid

apply-Implements_example : Implements (start 7) one_ready (apply (start 7) one_ready)
apply-Implements_example = apply-Implements (start 7) one_ready (tt, tt)

abbrev ring : KeyRing
ring = record { key_id = 3; state = active; material = 1 ∷ 2 ∷ []; key_len = 2 } ∷ []

run-Does_example : Does 3 ring (contract (destroys 3) (find_key 3 ring)) (run (destroys 3) ring)
run-Does_example = run-Does (destroys 3) ring
