-- ===== src/Srspp/Receiver/Calls.antt =====
-- The calls of the receiver and what it promises of them
-- (crates/leodos-protocols/src/transport/srspp/machine/receiver/reassembly/fast.rs).
use leo_dos.Prelude.{
  ℕ, zero, suc, ◌*◌, ◌%◌, ◌^◌, ◌<◌, ◌≡◌, refl, ap, ◌∙◌, ◌⊎◌, inl, inr, false, Option, none, some,
  arith, ◌==◌, replicate, length-replicate,
}
use leo_dos.Prelude.Arrays.{item}
use leo_dos.Prelude.Digits.{digit-zero, masked_eq}
use leo_dos.Srspp.Sequence.{unsegmented}
use leo_dos.Srspp.Receiver.Bitset.{is_set}
use leo_dos.Srspp.Receiver.SlotMap
use leo_dos.Srspp.Receiver.SlotMap.{Sized}
use leo_dos.Srspp.Receiver.Reassembly.{ReceiverError}
use leo_dos.Srspp.Receiver.Fast
use leo_dos.Srspp.Receiver.Fast.{FastReceiver, Outcome}
use leo_dos.Srspp.Receiver.Ordered.{Ordered}
use leo_dos.Srspp.Receiver.Refine.{Models}

-- An answer without its outcome.
abbrev pub without_outcome : {A : Type 0} → Option (FastReceiver × (ReceiverError ⊎ A)) → Outcome
without_outcome none = none
without_outcome (some (f, inl e)) = some (f, some e)
without_outcome (some (f, inr a)) = some (f, none)

-- The map of a new receiver.
abbrev pub nothing_yet : ℕ → Ordered
nothing_yet reasm = record {
  count = 0;
  held = λ k. none;
  reasm = record {
    reassembly = replicate reasm 0;
    reassembly_len = 0;
    reassembly_in_progress = false;
    complete_message_len = none;
  };
}

item-replicate : (n i : ℕ) → ◌≡◌ {A = ℕ} (item 0 (replicate n 0) i) 0
unfolding item
item-replicate zero i = refl
item-replicate (suc n) zero = refl
item-replicate (suc n) (suc i) = item-replicate n i

none_set : (i : ℕ) → is_set 0 i ≡ false
unfolding is_set
none_set i = masked_eq i 0 ∙ ap (λ d. d == 1) (digit-zero i)

pub new-Models :
    (w mtu reasm : ℕ) → mtu < 2 ^ 16 → Models w mtu (Fast.new w reasm (w * mtu)) (nothing_yet reasm)
unfolding Fast.new SlotMap.new
new-Models w mtu reasm h = record {
  stands = record {
    number = refl;
    bitmap = λ d. digit-zero d;
    beyond = λ k l. refl;
    in_slots = λ k a b. none_set (k % w);
    sized = record {
      bytes = length-replicate (w * mtu) 0;
      count = length-replicate w 0;
      small = h;
      fit = λ i l. rw (item-replicate w i) (omega arith);
    };
    width = length-replicate w unsegmented;
    same = refl;
  };
  waits = refl;
}
