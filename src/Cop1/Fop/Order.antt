-- ===== src/Cop1/Fop/Order.antt =====
-- Go-back-N: which frames a retransmission sends, in which order.
use mathlib.Core.List.{
  reverse, reverse-cons, reverse_perm, append-nil, append_assoc, Perm, perm_middle,
}
use mathlib.Core.List.Perm
use native.Mathlib.Nat.{le_trans}
use leo_dos.Prelude.{
  ℕ, zero, suc, ◌≤◌, ◌≡◌, refl, ap, ◌∙◌, inl, inr, false, List, [], ◌∷◌, ◌++◌, map, All, All-append,
  All-map, length, take, ltb, leb, leb→le, if◌then◌else◌, Bool-cases, arith,
}
use leo_dos.Cop1.Fop.State.{
  FopAction, transmit_ad, start_timer, FduSlot, FopMachine, max_actions, push, wrapping_sub,
}
use leo_dos.Cop1.Fop.Queue.{
  occupied_seqs, insert_back, sort_from, count_transmission, retransmit_all, is_empty,
  initiate_retransmission,
}

-- The steps from N(R) up to a number.
abbrev pub steps : ℕ → ℕ → ℕ
steps nnr seq = wrapping_sub seq nnr

abbrev pub Ascending : ℕ → List ℕ → Type 0
Ascending nnr [] = Unit
Ascending nnr (x ∷ xs) = All (λ y. steps nnr x ≤ steps nnr y) xs × Ascending nnr xs

leb-false : (a b : ℕ) → leb a b ≡ false → b ≤ a
leb-false a b h = ground arith

module _ (nnr : ℕ) where
  abbrev Descending : List ℕ → Type 0
  Descending [] = Unit
  Descending (x ∷ xs) = All (λ y. steps nnr y ≤ steps nnr x) xs × Descending xs

  insert_back-All :
      (P : ℕ → Type 0) (key : ℕ) (xs : List ℕ) → P key → All P xs → All P (insert_back nnr key xs)
  unfolding insert_back
  insert_back-All P key [] p h = (p, tt)
  insert_back-All P key (x ∷ xs) p h = elim (Bool-cases (leb (steps nnr x) (steps nnr key))) [
    | inl e ↦ rw e (p, h)
    | inr e ↦ rw e (h.0, insert_back-All P key xs p h.1)
  ]

  insert_back-Descending :
      (key : ℕ) (xs : List ℕ) → Descending xs → Descending (insert_back nnr key xs)
  unfolding insert_back
  insert_back-Descending key [] h = (tt, tt)
  insert_back-Descending key (x ∷ xs) h = elim (Bool-cases (leb (steps nnr x) (steps nnr key))) [
    | inl e ↦ rw e (
      (
        leb→le _ _ e,
        All-map (λ y. steps nnr y ≤ steps nnr x) (λ y. steps nnr y ≤ steps nnr key) xs
            (λ y g. le_trans g (leb→le _ _ e)) h.0,
      ),
      h,
    )
    | inr e ↦ rw e (
      insert_back-All (λ y. steps nnr y ≤ steps nnr x) key xs (leb-false _ _ e) h.0,
      insert_back-Descending key xs h.1,
    )
  ]

  insert_back-perm : (key : ℕ) (xs : List ℕ) → Perm (insert_back nnr key xs) (key ∷ xs)
  unfolding insert_back
  insert_back-perm key [] = Perm.refl (key ∷ [])
  insert_back-perm key (x ∷ xs) = elim (Bool-cases (leb (steps nnr x) (steps nnr key))) [
    | inl e ↦ rw e (Perm.refl (key ∷ x ∷ xs))
    | inr e ↦ rw e (Perm.trans (Perm.cons x (insert_back-perm key xs)) (Perm.swap key x xs))
  ]

  Ascending-snoc :
      (xs : List ℕ) (x : ℕ)
      → Ascending nnr xs
      → All (λ y. steps nnr y ≤ steps nnr x) xs
      → Ascending nnr (xs ++ (x ∷ []))
  Ascending-snoc [] x a h = (tt, tt)
  Ascending-snoc (y ∷ ys) x a h = (
    All-append (λ z. steps nnr y ≤ steps nnr z) ys (x ∷ []) a.0 (h.0, tt),
    Ascending-snoc ys x a.1 h.1,
  )

  reverse-All : (P : ℕ → Type 0) (xs : List ℕ) → All P xs → All P (reverse xs)
  reverse-All P [] h = tt
  reverse-All P (x ∷ xs) h =
      rw reverse-cons (All-append P (reverse xs) (x ∷ []) (reverse-All P xs h.1) (h.0, tt))

  reverse-Ascending : (xs : List ℕ) → Descending xs → Ascending nnr (reverse xs)
  reverse-Ascending [] h = tt
  reverse-Ascending (x ∷ xs) h = rw reverse-cons (
      Ascending-snoc (reverse xs) x (reverse-Ascending xs h.1)
        (reverse-All (λ y. steps nnr y ≤ steps nnr x) xs h.0))

  sort_from-Ascending :
      (sorted keys : List ℕ) → Descending sorted → Ascending nnr (sort_from nnr sorted keys)
  unfolding sort_from
  sort_from-Ascending sorted [] h = reverse-Ascending sorted h
  sort_from-Ascending sorted (key ∷ keys) h =
      sort_from-Ascending (insert_back nnr key sorted) keys (insert_back-Descending key sorted h)

  sort_from-perm : (sorted keys : List ℕ) → Perm (sort_from nnr sorted keys) (keys ++ sorted)
  unfolding sort_from
  sort_from-perm sorted [] = reverse_perm sorted
  sort_from-perm sorted (key ∷ keys) =
      Perm.trans (sort_from-perm (insert_back nnr key sorted) keys) (
        Perm.trans (Perm.append (Perm.refl keys) (insert_back-perm key sorted))
          (perm_middle keys sorted))

-- `FopActions::push` keeps the first sixteen of what is pushed.
push-take :
    (n : ℕ) (xs : List FopAction) (a : FopAction)
    → (if ltb (length (take n xs)) n then take n xs ++ (a ∷ []) else take n xs)
      ≡ take n (xs ++ (a ∷ []))
push-take zero xs a = refl
push-take (suc zero) [] a = refl
push-take (suc (suc n)) [] a = ground arith
push-take (suc n) (x ∷ xs) a = ground (arith, push-take n xs a)

push_lem :
    (xs : List FopAction) (a : FopAction)
    → push (take max_actions xs) a ≡ take max_actions (xs ++ (a ∷ []))
unfolding push
push_lem xs a = push-take max_actions xs a

retransmit_all-take :
    (seqs : List ℕ) (queue : List FduSlot) (xs : List FopAction)
    → (retransmit_all seqs queue (take max_actions xs)).1
      ≡ take max_actions (xs ++ map transmit_ad seqs)
unfolding retransmit_all
retransmit_all-take [] queue xs = rw append-nil
retransmit_all-take (seq ∷ seqs) queue xs =
    ap (λ t. (retransmit_all seqs (count_transmission seq queue) t).1)
      (push_lem xs (transmit_ad seq))
    ∙ retransmit_all-take seqs (count_transmission seq queue) (xs ++ (transmit_ad seq ∷ []))
    ∙ ap (take max_actions) (append_assoc xs (transmit_ad seq ∷ []) (map transmit_ad seqs))

-- What a retransmission is to emit for the frames in an order.
abbrev pub retransmission : List ℕ → List FopAction
retransmission [] = []
retransmission (seq ∷ seqs) = map transmit_ad (seq ∷ seqs) ++ (start_timer ∷ [])

emitted :
    (order : List ℕ) (queue : List FduSlot) (xs : List FopAction)
    → (if is_empty order
        then (retransmit_all order queue (take max_actions xs)).1
        else push (retransmit_all order queue (take max_actions xs)).1 start_timer)
      ≡ take max_actions (xs ++ retransmission order)
unfolding retransmit_all
emitted [] queue xs = rw append-nil
emitted (seq ∷ seqs) queue xs =
    let sent = map transmit_ad (seq ∷ seqs) in
    ap (λ t. push t start_timer) (retransmit_all-take (seq ∷ seqs) queue xs)
    ∙ push_lem (xs ++ sent) start_timer
    ∙ ap (take max_actions) (append_assoc xs sent (start_timer ∷ []))

-- A retransmission takes all held frames, each as often as it is held, in ascending distance from
-- NN(R). Behind the actions so far, at most sixteen, it emits a TransmitAd for each in that order and,
-- if a frame is held, a StartTimer, the whole cut to sixteen actions.
pub go_back_n :
    (m : FopMachine) (actions : List FopAction)
    → (order : List ℕ) × Perm order (occupied_seqs m.sent_queue)
      × Ascending m.nnr order
      × ((initiate_retransmission m (take max_actions actions)).1
          ≡ take max_actions (actions ++ retransmission order))
unfolding initiate_retransmission
go_back_n m actions =
    let order = sort_from m.nnr [] (occupied_seqs m.sent_queue) in
    (
      order,
      rw append-nil at (sort_from-perm m.nnr [] (occupied_seqs m.sent_queue)),
      sort_from-Ascending m.nnr [] (occupied_seqs m.sent_queue) tt,
      emitted order m.sent_queue actions,
    )
