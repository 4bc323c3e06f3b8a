-- ===== src/Srspp/Receiver/Keep.antt =====
-- A packet ahead of its turn, and its slot
-- (crates/leodos-protocols/src/transport/srspp/machine/receiver/reassembly/fast.rs, store_ooo).
use leo_dos.Prelude.{
  ℕ, suc, ◌+◌, ◌-◌, ◌%◌, ◌^◌, ◌≤◌, ◌<◌, max, ◌≡◌, refl, sym, ap, ◌∙◌, ◌≢◌, inl, inr, false, some,
  arith, ltb, ◌==◌, if◌then◌else◌, ==_iff, Bool-cases, length, set, length-set,
}
use leo_dos.Prelude.Arrays.{item-set_same, item-set_other}
use leo_dos.Prelude.Digits.{digit, digit-bit_or, digit-pow, digit-pow_other, digit-lt}
use native.Mathlib.Nat.{mod-eq_of_lt}
use leo_dos.Srspp.Sequence.{unsegmented}
use leo_dos.Srspp.Receiver.Base.{record_ooo}
use leo_dos.Srspp.Receiver.Bitset
use leo_dos.Srspp.Receiver.Bitset.{is_set, is_set-set_same, is_set-set_other}
use leo_dos.Srspp.Receiver.SlotMap
use leo_dos.Srspp.Receiver.SlotMap.{read-write_same, read-write_other, write-Sized}
use leo_dos.Srspp.Receiver.Fast.{FastReceiver, slot_idx, store_ooo}
use leo_dos.Srspp.Receiver.Ordered.{Packet, Ordered, assign}
use leo_dos.Srspp.Receiver.Represent.{
  Fitting, Kept, Kept-of, Represents, apart, slot_lt, assign_other,
}

-- The slot `i` is filled.
abbrev pub filled : ℕ → FastReceiver → ℕ → Packet → FastReceiver
filled mtu f i p = record f {
  slots = SlotMap.write mtu f.slots i p.payload;
  flags = set f.flags i p.flags;
  occupied = Bitset.set f.occupied i;
}

pub store_ooo-free :
    (mtu : ℕ) (f : FastReceiver) (seq i : ℕ) (p : Packet)
    → slot_idx f seq ≡ i
    → is_set f.occupied i ≡ false
    → store_ooo mtu f seq p.flags p.payload ≡ filled mtu f i p
unfolding store_ooo
store_ooo-free mtu f seq i p e h =
    ap (λ j. if is_set f.occupied j then f else filled mtu f j p) e ∙ rw h refl

module _ (w mtu : ℕ) (fits : Fitting w) (f : FastReceiver) (o : Ordered) (r : Represents w mtu f o)
    (k : ℕ) (later : o.count < k) (near : k < o.count + w) where
  -- The bit of the bitmap that stands for the packet.
  pub place : (k - o.count - 1) % 16 ≡ k - o.count - 1
  place = mod-eq_of_lt (omega (arith, later, near, fits.in_bitmap))

  digit-recorded :
      (d : ℕ)
      → digit d (record_ooo f.base (k - o.count)).recv_bitmap
        ≡ (if o.count + suc d == k then 1 else digit d f.base.recv_bitmap)
  digit-recorded d =
      digit-bit_or d f.base.recv_bitmap (2 ^ ((k - o.count - 1) % 16))
      ∙ ap (λ n. max (digit d f.base.recv_bitmap) (digit d (2 ^ n))) place
      ∙ elim (Bool-cases (o.count + suc d == k)) [
        | inl e ↦
            let here : k - o.count - 1 ≡ d = omega (arith, (==_iff (o.count + suc d) k).0 e) in
            rw (e, here, digit-pow d)
              (one (digit d f.base.recv_bitmap) (digit-lt d f.base.recv_bitmap))
        | inr e ↦
            let there : digit d (2 ^ (k - o.count - 1)) ≡ 0 =
              digit-pow_other d (k - o.count - 1) (λ h. ground (arith, h, e, later)) in
            rw (e, there) (omega arith)
      ]
    where
      one : (x : ℕ) → x < 2 → max x 1 ≡ 1
      one x h = omega arith

  module _ (p : Packet) (small : length p.payload ≤ mtu) where
    slots_apart : (j : ℕ) → o.count ≤ j → j < o.count + w → j ≢ k → k % w ≢ j % w
    slots_apart j h l n e = elim (Bool-cases (ltb j k)) [
      | inl b ↦ apart w j k fits.some_slot (ground arith) (omega (arith, h, near)) (sym e)
      | inr b ↦ apart w k j fits.some_slot (ground arith) (omega (arith, l, later)) e
    ]

    Kept-elsewhere :
        (j : ℕ)
        → o.count ≤ j
        → j < o.count + w
        → j ≢ k
        → Kept mtu (filled mtu f (k % w) p) (j % w) (o.held j)
    Kept-elsewhere j h l n =
        let other = slots_apart j h l n in
        Kept-of mtu f (filled mtu f (k % w) p) (j % w) (o.held j)
          (is_set-set_other f.occupied (k % w) (j % w) other)
          (item-set_other unsegmented f.flags (k % w) (j % w) p.flags other)
          (read-write_other mtu w f.slots r.sized (k % w) (slot_lt w k fits.some_slot) p.payload
            small (j % w) (slot_lt w j fits.some_slot) other)
          (r.in_slots j h l)

    pub Represents-kept :
        Represents w mtu
          (record (filled mtu f (k % w) p) { base = record_ooo f.base (k - o.count) })
          (record o { held = assign o.held k (some p) })
    Represents-kept = record {
      number = r.number;
      bitmap = λ d. digit-recorded d ∙ elim (Bool-cases (o.count + suc d == k)) [
        | inl e ↦ rw e refl
        | inr e ↦ rw e (r.bitmap d)
      ];
      beyond = λ j h. assign_other o.held k (some p) j (omega (arith, near, h)) ∙ r.beyond j h;
      in_slots = λ j h l. elim (Bool-cases (j == k)) [
        | inl e ↦
            let same = (==_iff j k).0 e in
            rw (e, same)
              (
                is_set-set_same f.occupied (k % w),
                item-set_same unsegmented f.flags (k % w) p.flags
                    (omega (arith, slot_lt w k fits.some_slot, r.width)),
                read-write_same mtu w f.slots r.sized (k % w) (slot_lt w k fits.some_slot) p.payload
                    small,
              )
        | inr e ↦ rw e (
            Kept-of mtu (filled mtu f (k % w) p)
              (record (filled mtu f (k % w) p) { base = record_ooo f.base (k - o.count) }) (j % w)
              (o.held j) refl refl refl (Kept-elsewhere j h l (ground arith)))
      ];
      sized =
          write-Sized mtu w f.slots r.sized (k % w) (slot_lt w k fits.some_slot) p.payload small;
      width = length-set f.flags (k % w) p.flags ∙ r.width;
      same = r.same;
    }
