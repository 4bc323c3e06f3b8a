-- ===== src/Srspp/Receiver/Represent.antt =====
-- When the slots and the bitmap of a receiver stand for a map from numbers to packets.
use leo_dos.Prelude.{
  ℕ, suc, ◌+◌, ◌-◌, ◌*◌, ◌/◌, ◌%◌, ◌^◌, ◌≤◌, ◌<◌, ◌≡◌, refl, sym, ap, ◌∙◌, ◌≢◌, inl, inr, true,
  false, Option, none, some, arith, ltb, ◌==◌, ==_iff, ==_ne, Bool-cases, length,
}
use leo_dos.Prelude.Arrays.{item}
use leo_dos.Prelude.Digits.{digit}
use Prim.Native.Nat.{◌∣◌}
use native.Mathlib.Nat.{mod-mod_of_dvd, mod-lt, add-mod_right, div-add-mod'}
use leo_dos.Srspp.Sequence.{unsegmented, ahead}
use leo_dos.Srspp.Receiver.Base.{advance}
use leo_dos.Srspp.Receiver.Bitset.{is_set}
use leo_dos.Srspp.Receiver.SlotMap
use leo_dos.Srspp.Receiver.SlotMap.{
  SlotMap, slot_end, Sized, read-write_same, read-write_other, write-Sized,
}
use leo_dos.Srspp.Receiver.Reassembly.{Reassembly}
use leo_dos.Srspp.Receiver.Fast.{FastReceiver}
use leo_dos.Srspp.Receiver.Ordered.{Packet, Ordered, assign}

-- A window that the numbers' wrap, the bit set and the acknowledgement's bitmap allow.
pub record Fitting (w : ℕ) : Type 0 where
  pub some_slot : 0 < w
  pub in_bitmap : w ≤ 16
  pub in_count : w ∣ 2 ^ 14

-- A slot holds what the map has.
abbrev pub Kept : ℕ → FastReceiver → ℕ → Option Packet → Type 0
Kept mtu f i none = is_set f.occupied i ≡ false
Kept mtu f i (some p) =
    (is_set f.occupied i ≡ true)
    × (item unsegmented f.flags i ≡ p.flags)
    × (SlotMap.read mtu f.slots i ≡ p.payload)

abbrev pub bit_of : Option Packet → ℕ
bit_of none = 0
bit_of (some p) = 1

pub record Represents (w mtu : ℕ) (f : FastReceiver) (o : Ordered) : Type 0 where
  pub number : f.base.expected_seq ≡ o.count % 2 ^ 14
  pub bitmap : (d : ℕ) → digit d f.base.recv_bitmap ≡ bit_of (o.held (o.count + suc d))
  pub beyond : (k : ℕ) → o.count + w ≤ k → o.held k ≡ none
  pub in_slots : (k : ℕ) → o.count ≤ k → k < o.count + w → Kept mtu f (k % w) (o.held k)
  pub sized : Sized mtu w f.slots
  pub width : length f.flags ≡ w
  pub same : f.reasm ≡ o.reasm

-- Numbers of one window have different slots.
pub apart : (w a b : ℕ) → 0 < w → a < b → b < a + w → a % w ≢ b % w
apart w a b p h k e =
    let below = div-add-mod' a w in
    let above = div-add-mod' b w in
    elim (Bool-cases (a / w == b / w)) [
      | inl same ↦
          let times : a / w * w ≡ b / w * w = ap (λ q. q * w) ((==_iff (a / w) (b / w)).0 same) in
          omega (arith, below, above, times, e)
      | inr other ↦ elim (Bool-cases (ltb (a / w) (b / w))) [
        | inl up ↦ omega (arith, below, above, slot_end (a / w) (b / w) w (ground arith), e)
        | inr down ↦ omega (arith, below, above, slot_end (b / w) (a / w) w (ground arith), e)
      ]
    ]

pub slot_lt : (w k : ℕ) → 0 < w → k % w < w
slot_lt w k p = mod-lt k p

-- The slot of a wrapped number.
pub wrapped : (w k : ℕ) → Fitting w → k % 2 ^ 14 % w ≡ k % w
wrapped w k f = mod-mod_of_dvd w k f.in_count

-- The distance to a number in the window, or before it.
pub ahead_window : (e k : ℕ) → e ≤ k → k < e + 2 ^ 14 → ahead (k % 2 ^ 14) (e % 2 ^ 14) ≡ k - e
ahead_window e k h l = omega arith

pub ahead_past :
    (e k : ℕ) → k < e → e < k + 2 ^ 14 → ahead (k % 2 ^ 14) (e % 2 ^ 14) ≡ k + 2 ^ 14 - e
ahead_past e k h l = omega arith

pub assign_same : (held : ℕ → Option Packet) (k : ℕ) (o : Option Packet) → assign held k o k ≡ o
assign_same held k o = rw (==_refl k) refl
  where
    ==_refl : (k : ℕ) → (k == k) ≡ true
    ==_refl k = ground arith

pub assign_other :
    (held : ℕ → Option Packet) (k : ℕ) (o : Option Packet) (j : ℕ)
    → j ≢ k
    → assign held k o j ≡ held j
assign_other held k o j n = rw (==_ne j k n) refl

pub Kept-of :
    (mtu : ℕ) (f g : FastReceiver) (i : ℕ) (o : Option Packet)
    → is_set g.occupied i ≡ is_set f.occupied i
    → item unsegmented g.flags i ≡ item unsegmented f.flags i
    → SlotMap.read mtu g.slots i ≡ SlotMap.read mtu f.slots i
    → Kept mtu f i o
    → Kept mtu g i o
Kept-of mtu f g i none a b c h = a ∙ h
Kept-of mtu f g i (some p) a b c h = (a ∙ h.0, b ∙ h.1, c ∙ h.2)

-- What is in the slot of the next number is given up, and the numbers before `from` are over.
module _ (w mtu : ℕ) (fits : Fitting w) (f : FastReceiver) (o : Ordered) (r : Represents w mtu f o)
    (occupied : ℕ) (gone : is_set occupied (o.count % w) ≡ false)
    (others : (i : ℕ) → i < w → o.count % w ≢ i → is_set occupied i ≡ is_set f.occupied i)
    (reasm : Reassembly) where
  Kept-others :
      (k : ℕ)
      → o.count < k
      → k < o.count + w
      → Kept mtu (record f { occupied = occupied; reasm = reasm }) (k % w) (o.held k)
  Kept-others k h l =
      Kept-of mtu f (record f { occupied = occupied; reasm = reasm }) (k % w) (o.held k)
        (others (k % w) (slot_lt w k fits.some_slot) (apart w o.count k fits.some_slot h l)) refl
        refl (r.in_slots k (omega arith) l)

  pub Represents-taken :
      Represents w mtu
        (record f { occupied = occupied; reasm = reasm })
        (record o { held = assign o.held o.count none; reasm = reasm })
  Represents-taken = record {
    number = r.number;
    bitmap = λ d.
        r.bitmap d
        ∙ ap bit_of (sym (assign_other o.held o.count none (o.count + suc d) (omega arith)));
    beyond =
        λ k h. assign_other o.held o.count none k (omega (arith, fits.some_slot, h)) ∙ r.beyond k h;
    in_slots = λ k h l. elim (Bool-cases (k == o.count)) [
      | inl e ↦ rw (e, (==_iff k o.count).0 e) gone
      | inr e ↦ rw e (Kept-others k (ground arith) l)
    ];
    sized = r.sized;
    width = r.width;
    same = refl;
  }

  pub Represents-next :
      Represents w mtu
        (record f { occupied = occupied; reasm = reasm; base = advance f.base })
        (record o { held = assign o.held o.count none; reasm = reasm; count = suc o.count })
  unfolding digit
  Represents-next = record {
    number = omega (arith, r.number);
    bitmap = λ d.
        r.bitmap (suc d)
        ∙ ap (λ k. bit_of (o.held k)) (shift d)
        ∙ ap bit_of (sym (assign_other o.held o.count none (suc o.count + suc d) (omega arith)));
    beyond = λ k h.
        assign_other o.held o.count none k (omega (arith, h)) ∙ r.beyond k (omega (arith, h));
    in_slots = λ k h l. elim (Bool-cases (k == o.count + w)) [
      | inl e ↦
          let number = (==_iff k (o.count + w)).0 e in
          let empty : assign o.held o.count none k ≡ none =
            assign_other o.held o.count none k (omega (arith, h))
            ∙ r.beyond k (omega (arith, number)) in
          rw (empty, number, add-mod_right o.count w) gone
      | inr e ↦ rw (assign_other o.held o.count none k (omega (arith, h))) (
          Kept-of mtu (record f { occupied = occupied; reasm = reasm })
            (record f { occupied = occupied; reasm = reasm; base = advance f.base }) (k % w)
            (o.held k) refl refl refl (Kept-others k (omega arith) (ground arith)))
    ];
    sized = r.sized;
    width = r.width;
    same = refl;
  }
    where
      shift : (d : ℕ) → o.count + suc (suc d) ≡ suc o.count + suc d
      shift d = omega arith
