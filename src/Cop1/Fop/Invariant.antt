-- ===== src/Cop1/Fop/Invariant.antt =====
-- What holds of FOP-1 between two events.
use leo_dos.Prelude.{
  ℕ, ◌+◌, ◌≤◌, ◌<◌, ◌≡◌, ◌⊎◌, Bool, true, false, Option, none, some, List, [], All, All-set,
  if◌then◌else◌, length, copy_at, set, arith,
}
use leo_dos.Prelude.Slices.{length-copy_at}
use leo_dos.Cop1.Fop.State.{
  FopState, initial, FopEvent, init_ad_set_vr, FopAction, FduSlot, FopMachine,
}
use leo_dos.Cop1.Fop.Queue.{
  count_occupied, occupied_seqs, sort_from, buffer_fdu, remove_acknowledged,
  initiate_retransmission, purge_sent_queue,
}
use leo_dos.Cop1.Fop.Slots.{
  Fits, All-Fits-le, vacate-Fits, count_occupied-vacate, acknowledge-Fits, retransmit_all-Fits,
}
use leo_dos.Cop1.Fop.Machine.{Outcome, is_running, is_active, slot_for, enqueue, raise_alert}

-- The numbers are bytes, the live data stand below the write position, which stands in the buffer,
-- and no frame is held outside the Active and Retransmitting states.
pub record IsValid (m : FopMachine) : Type 0 where
  pub vs_byte : m.vs < 256
  pub nnr_byte : m.nnr < 256
  pub set_vr_byte : m.set_vr_value < 256
  pub slots : All (Fits m.write_pos) m.sent_queue
  pub room : m.write_pos ≤ length m.data_buf
  pub idle : is_running m.state ≡ false → count_occupied m.sent_queue ≡ 0

abbrev pub IsByteEvent : FopEvent → Type 0
IsByteEvent (init_ad_set_vr vr) = vr < 256
IsByteEvent _ = Unit

pub purge-IsValid :
    (m : FopMachine) (s : FopState)
    → IsValid m
    → IsValid (record (purge_sent_queue m) { state = s })
unfolding purge_sent_queue
purge-IsValid m s v = record {
  vs_byte = v.vs_byte;
  nnr_byte = v.nnr_byte;
  set_vr_byte = v.set_vr_byte;
  slots = vacate-Fits m.write_pos 0 m.sent_queue v.slots;
  room = omega arith;
  idle = λ _. count_occupied-vacate m.sent_queue;
}

-- What a change of the numbers, of the mark of the BD frame and to a running state needs.
pub relabel-IsValid :
    (m : FopMachine) (vs nnr set_vr bc : ℕ) (bd : Option (ℕ × ℕ))
    → IsValid m
    → vs < 256
    → nnr < 256
    → set_vr < 256
    → IsValid (record m {
      vs = vs;
      nnr = nnr;
      set_vr_value = set_vr;
      bc_transmission_count = bc;
      pending_bd = bd;
    })
relabel-IsValid m vs nnr set_vr bc bd v h k l = record {
  vs_byte = h;
  nnr_byte = k;
  set_vr_byte = l;
  slots = v.slots;
  room = v.room;
  idle = v.idle;
}

-- Both branches of a test.
pub if-IsValid :
    (b : Bool) (x y : Outcome) → IsValid x.0 → IsValid y.0 → IsValid (if b then x else y).0
if-IsValid true x y v w = v
if-IsValid false x y v w = w

pub alert-IsValid :
    (m : FopMachine) (actions : List FopAction) → IsValid m → IsValid (raise_alert m actions).0
unfolding raise_alert
alert-IsValid m actions v = purge-IsValid m initial v

-- The machine with a frame data unit in its buffer.
abbrev pub stored : FopMachine → List ℕ → FopMachine
stored m fdu = record m {
  data_buf = copy_at m.data_buf m.write_pos fdu;
  write_pos = m.write_pos + length fdu;
}

pub buffer_fdu_cases :
    (m : FopMachine) (fdu : List ℕ)
    → (length m.data_buf < m.write_pos + length fdu) × (buffer_fdu m fdu ≡ none)
      ⊎ (m.write_pos + length fdu ≤ length m.data_buf)
        × (buffer_fdu m fdu ≡ some (m.write_pos, stored m fdu))
unfolding buffer_fdu
buffer_fdu_cases m fdu = ground arith

pub stored-IsValid :
    (m : FopMachine) (fdu : List ℕ)
    → IsValid m
    → m.write_pos + length fdu ≤ length m.data_buf
    → IsValid (stored m fdu)
stored-IsValid m fdu v h = record {
  vs_byte = v.vs_byte;
  nnr_byte = v.nnr_byte;
  set_vr_byte = v.set_vr_byte;
  slots = All-Fits-le m.write_pos (m.write_pos + length fdu) m.sent_queue (omega arith) v.slots;
  room = omega (arith, length-copy_at m.data_buf m.write_pos fdu);
  idle = v.idle;
}

pub enqueue-IsValid :
    (m : FopMachine) (i offset len : ℕ) (actions : List FopAction)
    → IsValid m
    → offset + len ≤ m.write_pos
    → is_running m.state ≡ true
    → IsValid (enqueue m i offset len actions).0
unfolding enqueue
enqueue-IsValid m i offset len actions v h r =
    if-IsValid (is_active m.state) _ _
      (record {
        vs_byte = omega arith;
        nnr_byte = v.nnr_byte;
        set_vr_byte = v.set_vr_byte;
        slots =
            All-set (Fits m.write_pos) (set m.sent_queue i slot) i sent
              (All-set (Fits m.write_pos) m.sent_queue i slot v.slots
                (λ _. h, v.vs_byte, omega arith))
              (λ _. h, v.vs_byte, omega arith);
        room = v.room;
        idle = λ n. cc;
      })
      (record {
        vs_byte = omega arith;
        nnr_byte = v.nnr_byte;
        set_vr_byte = v.set_vr_byte;
        slots =
            All-set (Fits m.write_pos) m.sent_queue i slot v.slots (λ _. h, v.vs_byte, omega arith);
        room = v.room;
        idle = λ n. cc;
      })
  where
    slot : FduSlot
    slot = slot_for m.vs offset len

    sent : FduSlot
    sent = record slot { transmission_count = 1 }

pub remove_acknowledged-IsValid :
    (m : FopMachine) (nr : ℕ) (actions : List FopAction) (s : FopState)
    → IsValid m
    → nr < 256
    → is_running s ≡ true
    → IsValid (record ((remove_acknowledged m nr actions).0) { nnr = nr; state = s })
unfolding remove_acknowledged
remove_acknowledged-IsValid m nr actions s v h r = record {
  vs_byte = v.vs_byte;
  nnr_byte = h;
  set_vr_byte = v.set_vr_byte;
  slots = acknowledge-Fits m.write_pos nr m.sent_queue actions v.slots;
  room = v.room;
  idle = λ n. cc;
}

pub initiate_retransmission-IsValid :
    (m : FopMachine) (actions : List FopAction) (s : FopState)
    → IsValid m
    → is_running s ≡ true
    → IsValid (record ((initiate_retransmission m actions).0) { state = s })
unfolding initiate_retransmission
initiate_retransmission-IsValid m actions s v r = record {
  vs_byte = v.vs_byte;
  nnr_byte = v.nnr_byte;
  set_vr_byte = v.set_vr_byte;
  slots =
      retransmit_all-Fits m.write_pos (sort_from m.nnr [] (occupied_seqs m.sent_queue)) m.sent_queue
        actions v.slots;
  room = v.room;
  idle = λ n. cc;
}
