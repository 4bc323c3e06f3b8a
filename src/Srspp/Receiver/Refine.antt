-- ===== src/Srspp/Receiver/Refine.antt =====
-- The receiver against what it promises.
use leo_dos.Prelude.{
  ℕ, zero, suc, ◌+◌, ◌%◌, ◌≤◌, ◌<◌, ◌≡◌, refl, ap₂, ◌∙◌, ◌≢◌, inl, inr, false, Option, none, some,
  arith, Option-cases,
}
use mathlib.Core.Path.{subst}
use leo_dos.Srspp.Receiver.Base.{advance}
use leo_dos.Srspp.Receiver.Bitset
use leo_dos.Srspp.Receiver.Bitset.{
  is_set, is_set-set_same, is_set-set_other, is_set-clear_same, is_set-clear_other,
}
use leo_dos.Srspp.Receiver.Reassembly.{ReceiverError, Reassembly, deliver}
use leo_dos.Srspp.Receiver.Fast.{
  FastReceiver, Outcome, after_delivery, turn, slot_idx, deliver_buffered,
}
use leo_dos.Srspp.Receiver.Ordered.{Packet, Ordered, assign, Response, then_next, take_held, drain}
use leo_dos.Srspp.Receiver.Represent.{
  Fitting, Kept, Represents, slot_lt, wrapped, assign_same, assign_other, Represents-taken,
  Represents-next,
}

-- Between calls, the next packet is not held.
pub record Models (w mtu : ℕ) (f : FastReceiver) (o : Ordered) : Type 0 where
  pub stands : Represents w mtu f o
  pub waits : o.held o.count ≡ none

-- Both return, with the same error, and the receiver again stands for the map.
abbrev pub Agree :
    ℕ
    → ℕ
    → Option (FastReceiver × Option ReceiverError)
    → Option (Ordered × Option ReceiverError)
    → Type 0
Agree w mtu none b = ⊥
Agree w mtu (some a) none = ⊥
Agree w mtu (some (f, e)) (some (o, e')) = Models w mtu f o × (e ≡ e')

-- A turn of the loop of `deliver_buffered`, with the packet that is in the slot.
turn-none :
    (next : FastReceiver → Outcome) (mtu : ℕ) (f : FastReceiver) (i : ℕ)
    → is_set f.occupied i ≡ false
    → turn next mtu f i ≡ some (f, none)
unfolding turn
turn-none next mtu f i h = rw h refl

turn-some :
    (next : FastReceiver → Outcome) (mtu : ℕ) (f : FastReceiver) (i : ℕ) (p : Packet)
    → Kept mtu f i (some p)
    → turn next mtu f i
      ≡ after_delivery next
          (record f { occupied = Bitset.clear f.occupied i })
          (deliver f.reasm p.flags p.payload)
unfolding turn
turn-some next mtu f i p h = rw h.0 (
    ap₂
      (λ flags payload.
        after_delivery next (record f { occupied = Bitset.clear f.occupied i })
          (deliver f.reasm flags payload))
      h.1 h.2)

-- The same delivery on both sides, and then the same.
module _ (w mtu : ℕ) (next : FastReceiver → Outcome) (next' : Ordered → Response) where
  pub after-Agree :
      (f : FastReceiver) (o : Ordered) (d : Reassembly × Option ReceiverError)
      → ((r : Reassembly) → Models w mtu (record f { reasm = r }) (record o { reasm = r }))
      → ((r : Reassembly)
          → Agree w mtu
              (next (record f { reasm = r; base = advance f.base }))
              (next' (record o { reasm = r; count = suc o.count })))
      → Agree w mtu (after_delivery next f d) (then_next next' o d)
  after-Agree f o (r, some e) h k = (h r, refl)
  after-Agree f o (r, none) h k = k r

module _ (w mtu : ℕ) (fits : Fitting w) where
  expected_slot :
      (f : FastReceiver) (o : Ordered)
      → Represents w mtu f o
      → slot_idx f f.base.expected_seq ≡ o.count % w
  expected_slot f o r = ap₂ (λ s n. s % n) r.number r.width ∙ wrapped w o.count fits

  clear_next :
      (f : FastReceiver) (o : Ordered)
      → is_set (Bitset.clear f.occupied (o.count % w)) (o.count % w) ≡ false
  clear_next f o =
      is_set-clear_same f.occupied (o.count % w)
        (omega (arith, slot_lt w o.count fits.some_slot, fits.in_bitmap))

  clear_others :
      (f : FastReceiver) (o : Ordered) (i : ℕ)
      → i < w
      → o.count % w ≢ i
      → is_set (Bitset.clear f.occupied (o.count % w)) i ≡ is_set f.occupied i
  clear_others f o i h n =
      is_set-clear_other f.occupied (o.count % w) i
        (omega (arith, slot_lt w o.count fits.some_slot, fits.in_bitmap))
        (omega (arith, h, fits.in_bitmap)) n

  pub Kept-next :
      (f : FastReceiver) (o : Ordered) (q : Option Packet)
      → Represents w mtu f o
      → o.held o.count ≡ q
      → Kept mtu f (o.count % w) q
  Kept-next f o q r e =
      subst (Kept mtu f (o.count % w)) e
        (r.in_slots o.count (omega arith) (omega (arith, fits.some_slot)))

  drain_stops :
      (n : ℕ) (f : FastReceiver) (o : Ordered)
      → Represents w mtu f o
      → o.held o.count ≡ none
      → Agree w mtu (deliver_buffered (suc n) mtu f) (drain (suc n) o)
  unfolding deliver_buffered drain take_held
  drain_stops n f o r e =
      rw
        (
          expected_slot f o r,
          turn-none (deliver_buffered n mtu) mtu f (o.count % w) (Kept-next f o none r e),
          e,
        )
        (record { stands = r; waits = e }, refl)

  taken :
      (f : FastReceiver) (o : Ordered) (r : Represents w mtu f o) (reasm : Reassembly)
      → Models w mtu
          (record f { occupied = Bitset.clear f.occupied (o.count % w); reasm = reasm })
          (record o { held = assign o.held o.count none; reasm = reasm })
  taken f o r reasm = record {
    stands =
        Represents-taken w mtu fits f o r (Bitset.clear f.occupied (o.count % w)) (clear_next f o)
          (clear_others f o) reasm;
    waits = assign_same o.held o.count none;
  }

  -- The loop delivers what the map holds, and ends where the map has no more.
  pub drain-Agree :
      (n : ℕ) (f : FastReceiver) (o : Ordered)
      → Represents w mtu f o
      → ((k : ℕ) → o.count + n ≤ k → o.held k ≡ none)
      → Agree w mtu (deliver_buffered (suc n) mtu f) (drain (suc n) o)
  unfolding deliver_buffered drain take_held
  drain-Agree zero f o r over = drain_stops zero f o r (over o.count (omega arith))
  drain-Agree (suc n) f o r over = elim (Option-cases (o.held o.count)) [
    | inl e ↦ drain_stops (suc n) f o r e
    | inr (p, e) ↦
        rw
          (
            expected_slot f o r,
            turn-some (deliver_buffered (suc n) mtu) mtu f (o.count % w) p
                (Kept-next f o (some p) r e),
            e,
            r.same,
          )
          (after-Agree w mtu (deliver_buffered (suc n) mtu) (drain (suc n))
            (record f { occupied = Bitset.clear f.occupied (o.count % w) })
            (record o { held = assign o.held o.count none }) (deliver o.reasm p.flags p.payload)
            (taken f o r)
            (λ reasm.
              drain-Agree n _ _
                (Represents-next w mtu fits f o r (Bitset.clear f.occupied (o.count % w))
                  (clear_next f o) (clear_others f o) reasm)
                (λ k h.
                  assign_other o.held o.count none k (omega (arith, h))
                  ∙ over k (omega (arith, h)))))
  ]
