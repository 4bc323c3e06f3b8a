-- ===== src/Srspp/Sender/Runs.antt =====
-- Sequences of calls, from a new sender on
-- (crates/leodos-protocols/src/transport/srspp/machine/sender.rs).
use mathlib.Core.Path.{subst}
use leo_dos.Prelude.{
  ℕ, ◌≡◌, refl, ap, ◌∙◌, Option, none, some, List, [], ◌∷◌, length, length-replicate,
}
use leo_dos.Srspp.Sender.State.{SenderEvent, SenderAction, SenderConfig, SenderMachine, new, reset}
use leo_dos.Srspp.Sender.Machine.{Outcome, mark_transmitted, handle}
use leo_dos.Srspp.Sender.Compact.{IsValid}
use leo_dos.Srspp.Sender.Buffer.{Keeps, handle-Keeps}
use leo_dos.Srspp.Sender.Events.{
  handle-Returns, mark_transmitted-IsValid, new-IsValid, reset-IsValid,
}

-- What the driver calls, with the actions that it has not taken yet.
pub data Call : Type 0 where
  event : (e : SenderEvent) → (actions : List SenderAction) → Call
  transmitted : (seq : ℕ) → Call
  resets : Call

abbrev pub machine_of : Option Outcome → Option SenderMachine
machine_of none = none
machine_of (some o) = some o.0

abbrev pub call : ℕ → SenderMachine → Call → Option SenderMachine
call mtu m (event e actions) = machine_of (handle mtu m e actions)
call mtu m (transmitted seq) = some (mark_transmitted m seq)
call mtu m resets = some (reset m)

abbrev pub then_run :
    Option SenderMachine → (SenderMachine → Option SenderMachine) → Option SenderMachine
then_run none f = none
then_run (some m) f = f m

unfoldable pub run : ℕ → List Call → SenderMachine → Option SenderMachine
run mtu [] m = some m
run mtu (c ∷ cs) m = then_run (call mtu m c) (run mtu cs)

-- A valid machine with a buffer of `size` bytes.
abbrev pub Sound : ℕ → SenderMachine → Type 0
Sound size m = IsValid m × (length m.data_buf ≡ size)

call-Sound :
    (mtu size : ℕ) (m : SenderMachine) (c : Call)
    → Sound size m
    → (m' : SenderMachine) × (call mtu m c ≡ some m') × Sound size m'
unfolding mark_transmitted reset
call-Sound mtu size m (event e actions) v =
    let (o, done, valid) = handle-Returns mtu m e actions v.0 in
    let kept : Keeps m (some o) = subst (Keeps m) done (handle-Keeps mtu m e actions) in
    (o.0, ap machine_of done, (valid, kept ∙ v.1))
call-Sound mtu size m (transmitted seq) v = (_, refl, (mark_transmitted-IsValid m seq v.0, v.1))
call-Sound mtu size m resets v = (_, refl, (reset-IsValid m, v.1))

run-Sound :
    (mtu size : ℕ) (cs : List Call) (m : SenderMachine)
    → Sound size m
    → (m' : SenderMachine) × (run mtu cs m ≡ some m') × Sound size m'
unfolding run
run-Sound mtu size [] m v = (m, refl, v)
run-Sound mtu size (c ∷ cs) m v =
    let (m', done, sound) = call-Sound mtu size m c v in
    let (m'', rest, sound') = run-Sound mtu size cs m' sound in
    (m'', ap (λ o. then_run o (run mtu cs)) done ∙ rest, sound')

-- From a new machine with a buffer of `buf_size` bytes, every sequence of events, transmissions and
-- resets runs to its end, and there the buffer still has `buf_size` bytes, and the payloads of any two
-- packets that are held do not overlap and stand below the write position, which is within the
-- buffer.
pub new-run :
    (mtu win buf_size : ℕ) (config : SenderConfig) (cs : List Call)
    → (m : SenderMachine) × (run mtu cs (new win config buf_size) ≡ some m)
      × (IsValid m × (length m.data_buf ≡ buf_size))
unfolding new
new-run mtu win buf_size config cs =
    run-Sound mtu buf_size cs (new win config buf_size)
      (new-IsValid win buf_size config, length-replicate buf_size 0)
