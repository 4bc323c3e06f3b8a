-- ===== src/Cop1/Farm/Sequence.antt =====
-- Which sequence-controlled (AD) frames FARM-1 accepts, over any events
-- (crates/leodos-protocols/src/datalink/reliability/cop1/farm.rs).
use leo_dos.Prelude.{
  ℕ, zero, suc, ◌+◌, ◌%◌, ◌≤◌, ◌<◌, ◌≡◌, refl, ◌∙◌, ap, ◌≢◌, ◌⊎◌, inl, inr, ◌↔◌, Bool, true, List,
  [], ◌∷◌, ◌++◌, All, length, arith,
}
use leo_dos.Cop1.Farm.{
  FarmState, opened, FarmMachine, FarmEvent, ad_frame, bd_frame, bc_frame, invalid_frame,
  buffer_release, clcw_report, unlock, set_vr, FarmAction, accept, SeqZone, expected,
  positive_window, negative_window, wrapping_add, wrapping_sub, classify_seq, handle,
}
use leo_dos.Cop1.Farm.Invariant.{IsValid, run}

-- The distance from `a` up to `b` round the 256 sequence numbers.
abbrev pub Ahead : ℕ → ℕ → ℕ → Type 0
Ahead a d b = (a + d) % 256 ≡ b

-- The four zones round V(R), by how far a sequence number stands from it: none; fewer than PW steps
-- ahead; at most NW steps behind; and every other.
abbrev pub InZone : FarmMachine → ℕ → SeqZone → Type 0
InZone m seq expected = seq ≡ m.vr
InZone m seq positive_window = (d : ℕ) × (0 < d) × (d < m.pw) × Ahead m.vr d seq
InZone m seq negative_window = (d : ℕ) × (0 < d) × (d ≤ m.nw) × Ahead seq d m.vr
InZone m seq SeqZone.lockout = (d : ℕ) × (0 < d) × (m.pw ≤ d) × (d + m.nw < 256) × Ahead m.vr d seq

zone_cases :
    (m : FarmMachine) (seq : ℕ)
    → (classify_seq m seq ≡ expected) × (seq ≡ m.vr)
      ⊎ (classify_seq m seq ≡ positive_window)
        × (0 < wrapping_sub seq m.vr)
        × (wrapping_sub seq m.vr < m.pw)
      ⊎ (classify_seq m seq ≡ negative_window)
        × (0 < wrapping_sub m.vr seq)
        × (wrapping_sub m.vr seq ≤ m.nw)
      ⊎ (classify_seq m seq ≡ SeqZone.lockout)
        × (seq ≢ m.vr)
        × (¬ ((0 < wrapping_sub seq m.vr) × (wrapping_sub seq m.vr < m.pw)))
        × (¬ ((0 < wrapping_sub m.vr seq) × (wrapping_sub m.vr seq ≤ m.nw)))
unfolding classify_seq
zone_cases m seq = ground arith

-- For a valid machine, `classify_seq` puts every byte into the zone in which it lies.
pub classify_seq-InZone :
    (m : FarmMachine) (seq : ℕ) → IsValid m → seq < 256 → InZone m seq (classify_seq m seq)
classify_seq-InZone m seq v h = elim (zone_cases m seq) [
  | inl z ↦ rw z.0 z.1
  | inr (inl z) ↦ rw z.0 (wrapping_sub seq m.vr, z.1, z.2, omega arith)
  | inr (inr (inl z)) ↦ rw z.0 (wrapping_sub m.vr seq, z.1, z.2, omega arith)
  | inr (inr (inr z)) ↦
      rw z.0 (wrapping_sub seq m.vr, ground arith, ground arith, ground arith, omega arith)
]

-- A frame of sequence-controlled data is delivered exactly when FARM-1 is open, the frame's number
-- is V(R) and a buffer is free.
pub handle-ad_iff :
    (m : FarmMachine) (seq : ℕ) (buffer : Bool) (fdu : List ℕ)
    → ((handle m (ad_frame seq buffer fdu)).1 ≡ accept fdu ∷ [])
      ↔ ((m.state ≡ opened) × (seq ≡ m.vr) × (buffer ≡ true))
unfolding handle
handle-ad_iff m seq buffer fdu = (λ h. ground arith, λ h. ground arith)

-- The numbers of the sequence-controlled frames that were delivered.
abbrev delivered : FarmEvent → List FarmAction → List ℕ
delivered (ad_frame seq _ _) (accept _ ∷ _) = seq ∷ []
delivered _ _ = []

unfoldable pub accepted : FarmMachine → List FarmEvent → List ℕ
accepted m [] = []
accepted m (e ∷ es) = delivered e (handle m e).1 ++ accepted (handle m e).0 es

-- `n` numbers from `v` up, round the 256.
abbrev pub count_up : ℕ → ℕ → List ℕ
count_up v zero = []
count_up v (suc n) = v ∷ count_up (wrapping_add v 1) n

abbrev pub IsSetVr : FarmEvent → Type 0
IsSetVr (bc_frame (set_vr _)) = Unit
IsSetVr _ = ⊥

abbrev pub IsUnlock : FarmEvent → Type 0
IsUnlock (bc_frame unlock) = Unit
IsUnlock _ = ⊥

-- One event: nothing is delivered and V(R) stays, or V(R) is delivered and goes up by one.
handle_advances :
    (m : FarmMachine) (e : FarmEvent)
    → ¬ IsSetVr e
    → (delivered e (handle m e).1 ≡ []) × ((handle m e).0.vr ≡ m.vr)
      ⊎ (delivered e (handle m e).1 ≡ m.vr ∷ []) × ((handle m e).0.vr ≡ wrapping_add m.vr 1)
unfolding handle
handle_advances m (ad_frame seq buffer fdu) n = ground arith
handle_advances m (bd_frame fdu) n = ground arith
handle_advances m (bc_frame unlock) n = ground arith
handle_advances m (bc_frame (set_vr vr)) n = absurd (n tt)
handle_advances m invalid_frame n = ground arith
handle_advances m buffer_release n = ground arith
handle_advances m clcw_report n = ground arith

-- Over any events but a Set V(R) command, from any machine, the numbers of the delivered AD frames
-- are V(R), V(R) + 1, ... round the 256: none of them is delivered twice, skipped or out of order.
pub accepted_in_order :
    (m : FarmMachine) (es : List FarmEvent)
    → All (λ e. ¬ IsSetVr e) es
    → accepted m es ≡ count_up m.vr (length (accepted m es))
unfolding accepted
accepted_in_order m [] h = refl
accepted_in_order m (e ∷ es) h =
    let rest = accepted (handle m e).0 es in
    let ih = accepted_in_order (handle m e).0 es h.1 in
    elim (handle_advances m e h.0) [
      | inl stays ↦ rw stays.0 (ih ∙ ap (λ v. count_up v (length rest)) stays.1)
      | inr goes ↦ rw goes.0 (ap (λ t. m.vr ∷ t) (ih ∙ ap (λ v. count_up v (length rest)) goes.1))
    ]

lockout_stays :
    (m : FarmMachine) (e : FarmEvent)
    → m.state ≡ FarmState.lockout
    → ¬ IsUnlock e
    → (delivered e (handle m e).1 ≡ [])
      × ((handle m e).0.state ≡ FarmState.lockout)
      × ((handle m e).0.vr ≡ m.vr)
unfolding handle
lockout_stays m (ad_frame seq buffer fdu) h n = ground arith
lockout_stays m (bd_frame fdu) h n = ground arith
lockout_stays m (bc_frame unlock) h n = absurd (n tt)
lockout_stays m (bc_frame (set_vr vr)) h n = ground arith
lockout_stays m invalid_frame h n = ground arith
lockout_stays m buffer_release h n = ground arith
lockout_stays m clcw_report h n = ground arith

-- In lockout, events without an Unlock command deliver no sequence-controlled (AD) frame, do not change
-- V(R) and do not end the lockout.
pub lockout_holds :
    (m : FarmMachine) (es : List FarmEvent)
    → m.state ≡ FarmState.lockout
    → All (λ e. ¬ IsUnlock e) es
    → (accepted m es ≡ []) × ((run m es).state ≡ FarmState.lockout) × ((run m es).vr ≡ m.vr)
unfolding accepted run
lockout_holds m [] h n = (refl, h, refl)
lockout_holds m (e ∷ es) h n =
    let (none_yet, locked, same) = lockout_stays m e h n.0 in
    let (none, still, vr) = lockout_holds (handle m e).0 es locked n.1 in
    (rw none_yet none, still, vr ∙ same)
