-- ===== src/Cop1/Fop/Slots.antt =====
-- What the loops over the sent queue keep.
use leo_dos.Prelude.{
  ℕ, zero, suc, ◌+◌, ◌≤◌, ◌<◌, ◌≡◌, refl, ◌∙◌, ◌≢◌, Bool, true, Option, none, some, List, [], ◌∷◌,
  All, All-map, ◌&&◌, set, ltb, if◌then◌else◌, arith,
}
use leo_dos.Cop1.Fop.State.{FduSlot, FopAction, acknowledged, push, wrapping_sub}
use leo_dos.Cop1.Fop.Queue.{
  count_occupied, find_slot, find_empty_slot, is_acknowledged, acknowledge, count_transmission,
  retransmit_all, vacate,
}

-- A slot's numbers are bytes, and its bytes, if it is occupied, end below `pos`.
abbrev pub Fits : ℕ → FduSlot → Type 0
Fits pos s =
    (s.occupied ≡ true → s.offset + s.len ≤ pos) × (s.seq < 256) × (s.transmission_count < 256)

pub All-Fits-le : (p q : ℕ) (ss : List FduSlot) → p ≤ q → All (Fits p) ss → All (Fits q) ss
All-Fits-le p q ss h all = All-map (Fits p) (Fits q) ss (λ s f. omega (arith, f)) all

pub vacate-Fits : (p q : ℕ) (ss : List FduSlot) → All (Fits p) ss → All (Fits q) (vacate ss)
unfolding vacate
vacate-Fits p q [] all = tt
vacate-Fits p q (s ∷ ss) all = ((λ h. cc, all.0.1, all.0.2), vacate-Fits p q ss all.1)

pub count_occupied-vacate : (ss : List FduSlot) → count_occupied (vacate ss) ≡ 0
unfolding vacate count_occupied
count_occupied-vacate [] = refl
count_occupied-vacate (s ∷ ss) = count_occupied-vacate ss

pub acknowledge-Fits :
    (p nr : ℕ) (ss : List FduSlot) (actions : List FopAction)
    → All (Fits p) ss
    → All (Fits p) (acknowledge nr ss actions).0
unfolding acknowledge
acknowledge-Fits p nr [] actions all = tt
acknowledge-Fits p nr (s ∷ ss) actions all = (ground arith, acknowledge-Fits p nr ss _ all.1)

pub count_transmission-Fits :
    (p seq : ℕ) (ss : List FduSlot) → All (Fits p) ss → All (Fits p) (count_transmission seq ss)
unfolding count_transmission
count_transmission-Fits p seq [] all = tt
count_transmission-Fits p seq (s ∷ ss) all = ground (arith, count_transmission-Fits p seq ss all.1)

pub retransmit_all-Fits :
    (p : ℕ) (seqs : List ℕ) (ss : List FduSlot) (actions : List FopAction)
    → All (Fits p) ss
    → All (Fits p) (retransmit_all seqs ss actions).0
unfolding retransmit_all
retransmit_all-Fits p [] ss actions all = all
retransmit_all-Fits p (seq ∷ seqs) ss actions all =
    retransmit_all-Fits p seqs _ _ (count_transmission-Fits p seq ss all)

-- Slots found by number.
pub find_slot-set_self :
    (ss : List FduSlot) (i : ℕ) (slot : FduSlot)
    → find_empty_slot ss ≡ some i
    → slot.occupied ≡ true
    → find_slot slot.seq ss ≡ none
    → find_slot slot.seq (set ss i slot) ≡ some slot
unfolding find_slot find_empty_slot
find_slot-set_self [] i slot e h n = cc
find_slot-set_self (s ∷ ss) zero slot e h n = ground arith
find_slot-set_self (s ∷ ss) (suc i) slot e h n = ground (arith, find_slot-set_self ss i slot)

pub find_slot-set_ne :
    (ss : List FduSlot) (i seq : ℕ) (slot : FduSlot)
    → find_empty_slot ss ≡ some i
    → seq ≢ slot.seq
    → find_slot seq (set ss i slot) ≡ find_slot seq ss
unfolding find_slot find_empty_slot
find_slot-set_ne [] i seq slot e n = refl
find_slot-set_ne (s ∷ ss) zero seq slot e n = ground arith
find_slot-set_ne (s ∷ ss) (suc i) seq slot e n = ground (arith, find_slot-set_ne ss i seq slot)

-- `true` if the frame with the number is acknowledged by N(R).
abbrev pub is_before : ℕ → ℕ → Bool
is_before nr seq = let dist = wrapping_sub nr seq in ltb 0 dist && ltb dist 128

-- An acknowledgement removes the slots whose numbers it covers, and leaves every other.
pub find_slot-acknowledge :
    (nr seq : ℕ) (ss : List FduSlot) (actions : List FopAction)
    → find_slot seq (acknowledge nr ss actions).0
      ≡ (if is_before nr seq then none else find_slot seq ss)
unfolding find_slot acknowledge
find_slot-acknowledge nr seq [] actions = ground arith
find_slot-acknowledge nr seq (s ∷ ss) actions =
    let rest = if is_acknowledged nr s then push actions (acknowledged s.seq) else actions in
    ground (arith, find_slot-acknowledge nr seq ss rest)

-- The place of a slot's bytes.
abbrev pub place : Option FduSlot → Option (ℕ × ℕ)
place none = none
place (some s) = some (s.offset, s.len)

-- A transmission is counted, and no slot moves.
pub place-count_transmission :
    (seq key : ℕ) (ss : List FduSlot)
    → place (find_slot seq (count_transmission key ss)) ≡ place (find_slot seq ss)
unfolding find_slot count_transmission
place-count_transmission seq key [] = refl
place-count_transmission seq key (s ∷ ss) = ground (arith, place-count_transmission seq key ss)

pub place-retransmit_all :
    (seq : ℕ) (keys : List ℕ) (ss : List FduSlot) (actions : List FopAction)
    → place (find_slot seq (retransmit_all keys ss actions).0) ≡ place (find_slot seq ss)
unfolding retransmit_all
place-retransmit_all seq [] ss actions = refl
place-retransmit_all seq (key ∷ keys) ss actions =
    place-retransmit_all seq keys _ _ ∙ place-count_transmission seq key ss

-- A slot that is found is one of the queue.
pub find_slot-Fits :
    (p seq : ℕ) (ss : List FduSlot) (t : FduSlot)
    → All (Fits p) ss
    → find_slot seq ss ≡ some t
    → t.offset + t.len ≤ p
unfolding find_slot
find_slot-Fits p seq [] t all e = cc
find_slot-Fits p seq (s ∷ ss) t all e = ground (arith, find_slot-Fits p seq ss t all.1, all.0.0)
