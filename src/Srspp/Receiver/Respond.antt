-- ===== src/Srspp/Receiver/Respond.antt =====
-- The answers to a packet and to a skip, against those that are promised
-- (crates/leodos-protocols/src/transport/srspp/machine/receiver/reassembly/fast.rs).
use leo_dos.Prelude.{
  ℕ, suc, ◌+◌, ◌-◌, ◌%◌, ◌^◌, ◌≤◌, ◌<◌, ◌≡◌, refl, sym, ap, ap₂, ◌∙◌, inl, inr, true, false, ◌&&◌,
  not, Option, none, some, arith, ltb, ◌==◌, ==_iff, Bool-cases, length,
}
use mathlib.Core.Path.{subst}
use leo_dos.Srspp.Sequence.{ahead}
use leo_dos.Srspp.Receiver.Base.{advance, distance, is_ooo_duplicate}
use leo_dos.Srspp.Receiver.Bitset.{is_set}
use leo_dos.Srspp.Receiver.Reassembly.{Reassembly, deliver, abandon}
use leo_dos.Srspp.Receiver.Fast.{
  FastReceiver, deliver_buffered, deliver_next, accept_at, accept_data, skip_over,
}
use leo_dos.Srspp.Receiver.Ordered.{
  Packet, Ordered, assign, is_held, drain, next_data, data_comes, gap_skipped,
}
use leo_dos.Srspp.Receiver.Keep.{place, store_ooo-free, Represents-kept}
use leo_dos.Prelude.Digits.{digit, masked_eq}
use leo_dos.Srspp.Receiver.Represent.{
  Kept-of, Fitting, Kept, bit_of, Represents, wrapped, ahead_window, ahead_past, assign_other,
  Represents-next,
}
use leo_dos.Srspp.Receiver.Refine.{Agree, Kept-next, Models, after-Agree, drain-Agree}

module _ (w mtu : ℕ) (fits : Fitting w) where
  unheld : (o : Ordered) → o.held o.count ≡ none → assign o.held o.count none ≡ o.held
  unheld o e = λ i k. same k i
    where
      same : (k : ℕ) → assign o.held o.count none k ≡ o.held k
      same k = elim (Bool-cases (k == o.count)) [
        | inl h ↦ rw (h, (==_iff k o.count).0 h) (sym e)
        | inr h ↦ rw h refl
      ]

  -- The next number is over though its packet was never in a slot.
  Represents-passed :
      (f : FastReceiver) (o : Ordered) (m : Models w mtu f o) (reasm : Reassembly)
      → Represents w mtu
          (record f { reasm = reasm; base = advance f.base })
          (record o { reasm = reasm; count = suc o.count })
  Represents-passed f o m reasm =
      subst
        (λ held.
          Represents w mtu (record f { reasm = reasm; base = advance f.base })
            (record o { held = held; reasm = reasm; count = suc o.count }))
        (unheld o m.waits)
        (Represents-next w mtu fits f o m.stands f.occupied
          (Kept-next w mtu fits f o none m.stands m.waits) (λ i h n. refl) reasm)

  advanced-Agree :
      (f : FastReceiver) (o : Ordered)
      → Models w mtu f o
      → (reasm : Reassembly)
      → Agree w mtu
          (deliver_buffered
            (suc (length f.flags))
            mtu
            (record f { reasm = reasm; base = advance f.base }))
          (drain (suc w) (record o { reasm = reasm; count = suc o.count }))
  advanced-Agree f o m reasm = rw m.stands.width (
      drain-Agree w mtu fits w _ _ (Represents-passed f o m reasm)
        (λ k h. m.stands.beyond k (omega (arith, h))))

  redelivered :
      (f : FastReceiver) (o : Ordered)
      → Models w mtu f o
      → (r : Reassembly) → Models w mtu (record f { reasm = r }) (record o { reasm = r })
  redelivered f o m r = record {
    stands = record {
      number = m.stands.number;
      bitmap = m.stands.bitmap;
      beyond = m.stands.beyond;
      in_slots = λ k h l.
          Kept-of mtu f (record f { reasm = r }) (k % w) (o.held k) refl refl refl
            (m.stands.in_slots k h l);
      sized = m.stands.sized;
      width = m.stands.width;
      same = refl;
    };
    waits = m.waits;
  }

  next-Agree :
      (f : FastReceiver) (o : Ordered) (p : Packet)
      → Models w mtu f o
      → Agree w mtu (deliver_next mtu f p.flags p.payload) (next_data w o p)
  unfolding deliver_next next_data
  next-Agree f o p m = rw m.stands.same (
      after-Agree w mtu (deliver_buffered (suc (length f.flags)) mtu) (drain (suc w)) f o
        (deliver o.reasm p.flags p.payload) (redelivered f o m) (advanced-Agree f o m))

  pub skip_over-Agree :
      (f : FastReceiver) (o : Ordered)
      → Models w mtu f o
      → Agree w mtu (skip_over mtu f) (gap_skipped w o)
  unfolding skip_over gap_skipped
  skip_over-Agree f o m = rw m.stands.same (advanced-Agree f o m (abandon o.reasm))

  -- The tests of `handle_data`, on a number that is not too far from the window.
  module _ (f : FastReceiver) (o : Ordered) (m : Models w mtu f o) (k : ℕ)
      (recent : o.count + w ≤ k + 2 ^ 14) (soon : k < o.count + 2 ^ 14) where
    distance_later : o.count ≤ k → distance f.base (k % 2 ^ 14) ≡ k - o.count
    distance_later h = ap (ahead (k % 2 ^ 14)) m.stands.number ∙ ahead_window o.count k h soon

    distance_past : k < o.count → distance f.base (k % 2 ^ 14) ≡ k + 2 ^ 14 - o.count
    distance_past h =
        ap (ahead (k % 2 ^ 14)) m.stands.number
        ∙ ahead_past o.count k h (omega (arith, recent, fits.some_slot))

    duplicate_iff :
        o.count < k → k < o.count + w → is_ooo_duplicate f.base (k - o.count) ≡ is_held (o.held k)
    duplicate_iff h l =
        masked_eq ((k - o.count - 1) % 16) f.base.recv_bitmap
        ∙ ap (λ d. digit d f.base.recv_bitmap == 1) (place w mtu fits f o m.stands k h l)
        ∙ ap (λ d. d == 1) (m.stands.bitmap (k - o.count - 1))
        ∙ ap (λ j. bit_of (o.held j) == 1) (omega (arith, h))
        ∙ held_bit (o.held k)
      where
        held_bit : (q : Option Packet) → (bit_of q == 1) ≡ is_held q
        held_bit none = refl
        held_bit (some p) = refl

    module _ (p : Packet) (small : length p.payload ≤ mtu) where
      ignored :
          (d : ℕ)
          → (d == 0) ≡ false
          → (ltb d (length f.flags) && not (is_ooo_duplicate f.base d)) ≡ false
          → accept_at mtu f (k % 2 ^ 14) d p.flags p.payload ≡ some (f, none)
      unfolding accept_at
      ignored d a b = rw (a, b) refl

      taken_next :
          accept_at mtu f (k % 2 ^ 14) 0 p.flags p.payload ≡ deliver_next mtu f p.flags p.payload
      unfolding accept_at
      taken_next = refl

      kept_now :
          (later : o.count < k) (near : k < o.count + w)
          → is_held (o.held k) ≡ false
          → Agree w mtu
              (accept_at mtu f (k % 2 ^ 14) (k - o.count) p.flags p.payload)
              (some (record o { held = assign o.held k (some p) }, none))
      unfolding accept_at
      kept_now later near h =
          let nonzero : (k - o.count == 0) ≡ false = ground arith in
          let inside : ltb (k - o.count) (length f.flags) ≡ true = ground (arith, m.stands.width) in
          let fresh : is_ooo_duplicate f.base (k - o.count) ≡ false =
            duplicate_iff later near ∙ h in
          let free : is_set f.occupied (k % w) ≡ false =
            subst (Kept mtu f (k % w)) (not_held (o.held k) h)
              (m.stands.in_slots k (omega (arith, later)) near) in
          rw
            (
              nonzero,
              ap₂ (λ a b. a && not b) inside fresh,
              store_ooo-free mtu f (k % 2 ^ 14) (k % w) p
                  (ap (λ n. k % 2 ^ 14 % n) m.stands.width ∙ wrapped w k fits) free,
            )
            (
              record {
                stands = Represents-kept w mtu fits f o m.stands k later near p small;
                waits = assign_other o.held k (some p) o.count (omega (arith, later)) ∙ m.waits;
              },
              refl,
            )
        where
          not_held : (q : Option Packet) → is_held q ≡ false → q ≡ none
          not_held none e = refl
          not_held (some p) e = ground arith

      out_of_window :
          (d : ℕ)
          → 0 < d
          → w ≤ d
          → accept_at mtu f (k % 2 ^ 14) d p.flags p.payload ≡ some (f, none)
      out_of_window d h l = ignored d (ground arith) (ground (arith, m.stands.width))

      held_already :
          o.count < k
          → k < o.count + w
          → is_held (o.held k) ≡ true
          → accept_at mtu f (k % 2 ^ 14) (k - o.count) p.flags p.payload ≡ some (f, none)
      held_already h l e = ignored (k - o.count) (ground arith) (
          ap (λ b. ltb (k - o.count) (length f.flags) && not b) (duplicate_iff h l ∙ e)
          ∙ ground arith)

      pub data-Agree :
          Agree w mtu (accept_data mtu f (k % 2 ^ 14) p.flags p.payload) (data_comes w o k p)
      unfolding accept_data data_comes
      data-Agree = elim (Bool-cases (k == o.count)) [
        | inl e ↦
            let here : distance f.base (k % 2 ^ 14) ≡ 0 =
              distance_later (ground arith) ∙ ground arith in
            rw (e, ap (λ d. accept_at mtu f (k % 2 ^ 14) d p.flags p.payload) here ∙ taken_next)
              (next-Agree f o p m)
        | inr e ↦ elim (Bool-cases (ltb o.count k)) [
          | inl up ↦
              let at =
                ap (λ d. accept_at mtu f (k % 2 ^ 14) d p.flags p.payload)
                  (distance_later (ground arith)) in
              elim (Bool-cases (ltb k (o.count + w))) [
                | inl near ↦ elim (Bool-cases (is_held (o.held k))) [
                  | inl again ↦
                      rw (e, up, near, again, at ∙ held_already (ground arith) (ground arith) again)
                        (m, refl)
                  | inr new ↦ rw (e, up, near, new, at) (kept_now (ground arith) (ground arith) new)
                ]
                | inr far ↦
                    rw (e, up, far, at ∙ out_of_window (k - o.count) (ground arith) (ground arith))
                      (m, refl)
              ]
          | inr down ↦
              let at =
                ap (λ d. accept_at mtu f (k % 2 ^ 14) d p.flags p.payload)
                  (distance_past (ground arith)) in
              rw
                (
                  e,
                  down,
                  at
                      ∙ out_of_window (k + 2 ^ 14 - o.count) (omega (arith, recent, fits.some_slot))
                          (omega (arith, recent)),
                )
                (m, refl)
        ]
      ]
