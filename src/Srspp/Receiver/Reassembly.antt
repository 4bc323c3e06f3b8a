-- ===== src/Srspp/Receiver/Reassembly.antt =====
-- The reassembly buffer of the receivers and the delivery of a packet to it
-- (crates/leodos-protocols/src/transport/srspp/machine/receiver/reassembly/fast.rs; packed.rs has
-- the same). REASM is the length of the buffer.
use leo_dos.Prelude.{
  ℕ, ◌+◌, Bool, true, false, ◌&&◌, not, Option, none, some, List, ltb, ◌==◌, if◌then◌else◌, length,
  slice, copy_at,
}
use leo_dos.Srspp.Sequence.{SequenceFlag, continuation, first, last, unsegmented}

pub data ReceiverError : Type 0 where
  buffer_full : ReceiverError
  message_too_large : ReceiverError
  reassembly_error : ReceiverError

-- The fields `reassembly`, `reassembly_len`, `reassembly_in_progress` and `complete_message_len`.
pub record Reassembly : Type 0 where
  pub reassembly : List ℕ
  pub reassembly_len : ℕ
  pub reassembly_in_progress : Bool
  pub complete_message_len : Option ℕ

-- A continuation or a last segment, the latter with `ends`.
unfoldable pub append_segment : Reassembly → Bool → List ℕ → Reassembly × Option ReceiverError
append_segment r ends payload =
    let new_len = r.reassembly_len + length payload in
    if not r.reassembly_in_progress
    then (r, some reassembly_error)
    else if ltb (length r.reassembly) new_len
    then (r, some message_too_large)
    else (
      record {
        reassembly = copy_at r.reassembly r.reassembly_len payload;
        reassembly_len = new_len;
        reassembly_in_progress = not ends;
        complete_message_len = if ends then some new_len else r.complete_message_len;
      },
      none,
    )

unfoldable pub deliver_packet :
    Reassembly → SequenceFlag → List ℕ → Reassembly × Option ReceiverError
unfolding append_segment
deliver_packet r unsegmented payload =
    if ltb (length r.reassembly) (length payload) then (r, some message_too_large) else (
      record r {
        reassembly = copy_at r.reassembly 0 payload;
        complete_message_len = some (length payload);
        reassembly_in_progress = false;
      },
      none,
    )
deliver_packet r first payload =
    if ltb (length r.reassembly) (length payload) then (r, some message_too_large) else (
      record {
        reassembly = copy_at r.reassembly 0 payload;
        reassembly_len = length payload;
        reassembly_in_progress = true;
        complete_message_len = none;
      },
      none,
    )
deliver_packet r continuation payload = append_segment r false payload
deliver_packet r last payload = append_segment r true payload

abbrev pub is_unsegmented : SequenceFlag → Bool
is_unsegmented unsegmented = true
is_unsegmented _ = false

abbrev pub is_some : Option ℕ → Bool
is_some none = false
is_some (some n) = true

-- `if !skip_overwrite { self.deliver_packet(…)?; }`
unfoldable pub deliver : Reassembly → SequenceFlag → List ℕ → Reassembly × Option ReceiverError
unfolding deliver_packet
deliver r flags payload =
    if (length payload == 0) && is_unsegmented flags && is_some r.complete_message_len
    then (r, none)
    else deliver_packet r flags payload

-- The state of `take_message` and the bytes it gives.
unfoldable pub take_message : Reassembly → Reassembly × Option (List ℕ)
take_message r = (
  record r { complete_message_len = none },
  elim r.complete_message_len [ none ↦ none | some len ↦ some (slice r.reassembly 0 len) ],
)

-- What `skip_gap` does to it.
abbrev pub abandon : Reassembly → Reassembly
abandon r =
    if r.reassembly_in_progress
    then record r { reassembly_len = 0; reassembly_in_progress = false }
    else r
