-- ===== src/Sdls/KeyContract.antt =====
-- The key ring against a map from identifiers to keys
-- (crates/leodos-protocols/src/datalink/security/sdls/key.rs).
use mathlib.Core.Path.{subst}
use leo_dos.Prelude.{
  ℕ, zero, suc, ◌-◌, ◌≤◌, ◌≡◌, refl, sym, ap, ◌∙◌, inl, inr, true, false, ◌||◌, ◌&&◌, Option, none,
  some, List, [], ◌∷◌, ◌++◌, arith, ltb, ◌==◌, if◌then◌else◌, Bool-cases, Option-cases, length,
  replicate, length-replicate, drop,
}
use leo_dos.Prelude.Slices.{copy_at-start}
use leo_dos.Sdls.Association.{
  invalid_key_length, invalid_key_state, unknown_key_id, duplicate_key_id, key_ring_full, Result,
  ok, err, map_ok,
}
use leo_dos.Sdls.Keys.{
  KeyRing, KeyState, preactive, active, deactivated, destroyed, ManagedKey, activate, activate_key,
  change, deactivate, deactivate_key, destroy, destroy_key, find_key, load, load_with, max_key_len,
  max_keys, new_key,
}

pub data KeyCommand : Type 0 where
  loads : (key_id : ℕ) → (material : List ℕ) → KeyCommand
  activates : (key_id : ℕ) → KeyCommand
  deactivates : (key_id : ℕ) → KeyCommand
  destroys : (key_id : ℕ) → KeyCommand

abbrev pub run : KeyCommand → KeyRing → Result KeyRing
run (loads key_id material) ring = load key_id material ring
run (activates key_id) ring = activate key_id ring
run (deactivates key_id) ring = deactivate key_id ring
run (destroys key_id) ring = destroy key_id ring

abbrev pub subject : KeyCommand → ℕ
subject (loads key_id material) = key_id
subject (activates key_id) = key_id
subject (deactivates key_id) = key_id
subject (destroys key_id) = key_id

abbrev pub on_key : ℕ → (ManagedKey → Result ManagedKey) → Option ManagedKey → Result ManagedKey
on_key key_id f none = err (unknown_key_id key_id)
on_key key_id f (some k) = f k

-- The key material with the zero bytes behind it.
abbrev pub padded : List ℕ → List ℕ
padded material = material ++ replicate (32 - length material) 0

-- A key of 1 to 32 bytes is loaded preactive.
abbrev pub loaded : ℕ → List ℕ → Option ManagedKey → Result ManagedKey
loaded key_id material (some k) = err duplicate_key_id
loaded key_id material none =
    if ltb 0 (length material) && ltb (length material) 33
    then ok (record {
      key_id = key_id;
      state = preactive;
      material = padded material;
      key_len = length material;
    })
    else err invalid_key_length

-- The life of a key: preactive, active, deactivated.
abbrev pub activated : KeyState → ManagedKey → Result ManagedKey
activated preactive k = ok (record k { state = active })
activated active k = err invalid_key_state
activated deactivated k = err invalid_key_state
activated destroyed k = err invalid_key_state

abbrev pub retired : KeyState → ManagedKey → Result ManagedKey
retired preactive k = err invalid_key_state
retired active k = ok (record k { state = deactivated })
retired deactivated k = err invalid_key_state
retired destroyed k = err invalid_key_state

-- A destroyed key keeps its identifier only.
abbrev pub wiped : ManagedKey → ManagedKey
wiped k = record { key_id = k.key_id; state = destroyed; material = replicate 32 0; key_len = 0 }

-- What a map from identifiers to keys does to the key of the command.
abbrev pub contract : KeyCommand → Option ManagedKey → Result ManagedKey
contract (loads key_id material) o = loaded key_id material o
contract (activates key_id) o = on_key key_id (λ k. activated k.state k) o
contract (deactivates key_id) o = on_key key_id (λ k. retired k.state k) o
contract (destroys key_id) o = on_key key_id (λ k. ok (wiped k)) o

-- The ring's answer against the map's.
abbrev pub Does : ℕ → KeyRing → Result ManagedKey → Result KeyRing → Type 0
Does key_id ring (ok k) (ok ring') =
    (j : ℕ) → find_key j ring' ≡ (if j == key_id then some k else find_key j ring)
Does key_id ring (ok k) (err e) = (e ≡ key_ring_full) × (max_keys ≤ length ring)
Does key_id ring (err e) (ok ring') = ⊥
Does key_id ring (err e) (err e') = e ≡ e'

abbrev AllOk : (ManagedKey → Type 0) → Result ManagedKey → Type 0
AllOk P (ok k) = P k
AllOk P (err e) = Unit

-- The first key changes.
head-Does :
    (key_id : ℕ) (k : ManagedKey) (ks : KeyRing) (r : Result ManagedKey)
    → (k.key_id == key_id) ≡ true
    → AllOk (λ k'. k'.key_id ≡ k.key_id) r
    → Does key_id (k ∷ ks) r (map_ok (λ k'. k' ∷ ks) r)
unfolding find_key
head-Does key_id k ks (err e') e h = refl
head-Does key_id k ks (ok k') e h = λ j. elim (Bool-cases (j == key_id)) [
  | inl g ↦ ground (arith, e, g, h)
  | inr g ↦ ground (arith, e, g, h)
]

-- A later one does.
tail-Does :
    (key_id : ℕ) (k : ManagedKey) (ks : KeyRing) (r : Result ManagedKey) (a : Result KeyRing)
    → (k.key_id == key_id) ≡ false
    → Does key_id ks r a
    → Does key_id (k ∷ ks) r (map_ok (λ ks'. k ∷ ks') a)
unfolding find_key
tail-Does key_id k ks (ok k') (ok ks') e h =
    λ j. elim (Bool-cases (k.key_id == j)) [ inl g ↦ ground (arith, e, g, h) | inr g ↦ rw g (h j) ]
tail-Does key_id k ks (ok k') (err e') e h = (h.0, omega (arith, h.1))
tail-Does key_id k ks (err e') (ok ks') e h = h
tail-Does key_id k ks (err e') (err e'') e h = h

change-Does :
    (key_id : ℕ) (f : ManagedKey → Result ManagedKey) (ring : KeyRing)
    → ((k : ManagedKey) → AllOk (λ k'. k'.key_id ≡ k.key_id) (f k))
    → Does key_id ring (on_key key_id f (find_key key_id ring)) (change key_id f ring)
unfolding change find_key
change-Does key_id f [] h = refl
change-Does key_id f (k ∷ ks) h = elim (Bool-cases (k.key_id == key_id)) [
  | inl e ↦ rw e (head-Does key_id k ks (f k) e (h k))
  | inr e ↦ rw e (tail-Does key_id k ks _ _ e (change-Does key_id f ks h))
]

find_key-append :
    (j : ℕ) (ring : KeyRing) (k : ManagedKey)
    → find_key k.key_id ring ≡ none
    → find_key j (ring ++ (k ∷ [])) ≡ (if j == k.key_id then some k else find_key j ring)
unfolding find_key
find_key-append j [] k h = ground arith
find_key-append j (x ∷ ring) k h =
    let absent : find_key k.key_id ring ≡ none = ground arith in
    let rest = find_key-append j ring k absent in
    elim (Bool-cases (x.key_id == j)) [ inl e ↦ rw e (ground (arith, e, h)) | inr e ↦ rw e rest ]

load_with-Does :
    (key_id : ℕ) (ring : KeyRing) (r : Result ManagedKey)
    → find_key key_id ring ≡ none
    → AllOk (λ k. k.key_id ≡ key_id) r
    → Does key_id ring r (load_with ring none r)
unfolding load_with
load_with-Does key_id ring (err e) a h = refl
load_with-Does key_id ring (ok k) a h = elim (Bool-cases (ltb (length ring) max_keys)) [
  | inl e ↦ rw e (λ j. rw (sym h) (find_key-append j ring k (rw h a)))
  | inr e ↦ rw e (refl, ground arith)
]

drop-replicate : (n m : ℕ) → drop {A = ℕ} n (replicate m 0) ≡ replicate (m - n) 0
drop-replicate zero m = let all_left : m ≡ m - 0 = omega arith in ap (λ k. replicate k 0) all_left
drop-replicate (suc n) zero =
    let none_left : 0 ≡ 0 - suc n = omega arith in ap (λ k. replicate k 0) none_left
drop-replicate (suc n) (suc m) =
    let less : m - n ≡ suc m - suc n = omega arith in
    drop-replicate n m ∙ ap (λ k. replicate k 0) less

-- Each change of the code is the one of the contract.
new_key_lem :
    (key_id : ℕ) (material : List ℕ) → new_key key_id material ≡ loaded key_id material none
unfolding new_key
new_key_lem key_id material =
    elim (Bool-cases (length material == 0 || ltb max_key_len (length material))) [
      | inl e ↦
          let short : (ltb 0 (length material) && ltb (length material) 33) ≡ false =
            ground (arith, e) in
          rw (e, short) refl
      | inr e ↦
          let fits : (ltb 0 (length material) && ltb (length material) 33) ≡ true =
            ground (arith, e) in
          let room : length material ≤ length {A = ℕ} (replicate 32 0) =
            ground (arith, e, length-replicate {A = ℕ} 32 0) in
          rw (e, fits)
            (ap
              (λ bytes. ok (record {
                key_id = key_id;
                state = preactive;
                material = bytes;
                key_len = length material;
              }))
              (copy_at-start (replicate 32 0) material room
                ∙ ap (λ bytes. material ++ bytes) (drop-replicate (length material) 32)))
    ]

activate_key_in : (s : KeyState) (k : ManagedKey) → k.state ≡ s → activate_key k ≡ activated s k
unfolding activate_key
activate_key_in preactive k e = rw e refl
activate_key_in active k e = rw e refl
activate_key_in deactivated k e = rw e refl
activate_key_in destroyed k e = rw e refl

deactivate_key_in : (s : KeyState) (k : ManagedKey) → k.state ≡ s → deactivate_key k ≡ retired s k
unfolding deactivate_key
deactivate_key_in preactive k e = rw e refl
deactivate_key_in active k e = rw e refl
deactivate_key_in deactivated k e = rw e refl
deactivate_key_in destroyed k e = rw e refl

destroy_key_lem : (k : ManagedKey) → destroy_key k ≡ wiped k
unfolding destroy_key
destroy_key_lem k = refl

loaded-id :
    (key_id : ℕ) (material : List ℕ) → AllOk (λ k. k.key_id ≡ key_id) (loaded key_id material none)
loaded-id key_id material =
    elim (Bool-cases (ltb 0 (length material) && ltb (length material) 33)) [
      | inl e ↦ rw e refl
      | inr e ↦ rw e tt
    ]

activated-id : (s : KeyState) (k : ManagedKey) → AllOk (λ k'. k'.key_id ≡ k.key_id) (activated s k)
activated-id preactive k = refl
activated-id active k = tt
activated-id deactivated k = tt
activated-id destroyed k = tt

retired-id : (s : KeyState) (k : ManagedKey) → AllOk (λ k'. k'.key_id ≡ k.key_id) (retired s k)
retired-id preactive k = tt
retired-id active k = refl
retired-id deactivated k = tt
retired-id destroyed k = tt

taken :
    (ring : KeyRing) (k : ManagedKey) (r : Result ManagedKey)
    → Does k.key_id ring (err duplicate_key_id) (load_with ring (some k) r)
unfolding load_with
taken ring k r = refl

-- A change that is the contract's at every key.
same-Does :
    (key_id : ℕ) (f g : ManagedKey → Result ManagedKey) (ring : KeyRing)
    → ((k : ManagedKey) → f k ≡ g k)
    → ((k : ManagedKey) → AllOk (λ k'. k'.key_id ≡ k.key_id) (g k))
    → Does key_id ring (on_key key_id g (find_key key_id ring)) (change key_id f ring)
same-Does key_id f g ring h a =
    subst (λ x. Does key_id ring (on_key key_id g (find_key key_id ring)) (change key_id x ring))
      (λ i k. sym (h k) i) (change-Does key_id g ring a)

-- The ring does what a map from identifiers to keys does. A key of 1 to 32 bytes is loaded preactive,
-- padded with zero bytes, under a new identifier; a preactive key can be activated and an active one
-- deactivated; a destroyed one is left with no material; every other identifier keeps its key; and an
-- error is that of the map, or that of a ring with 128 keys.
pub run-Does :
    (c : KeyCommand) (ring : KeyRing)
    → Does (subject c) ring (contract c (find_key (subject c) ring)) (run c ring)
unfolding load activate deactivate destroy
run-Does (loads key_id material) ring = elim (Option-cases (find_key key_id ring)) [
  | inl e ↦
      rw (e, new_key_lem key_id material)
        (load_with-Does key_id ring (loaded key_id material none) e (loaded-id key_id material))
  | inr (k, e) ↦ rw e (taken ring k (new_key key_id material))
]
run-Does (activates key_id) ring =
    same-Does key_id activate_key (λ k. activated k.state k) ring
      (λ k. activate_key_in k.state k refl) (λ k. activated-id k.state k)
run-Does (deactivates key_id) ring =
    same-Does key_id deactivate_key (λ k. retired k.state k) ring
      (λ k. deactivate_key_in k.state k refl) (λ k. retired-id k.state k)
run-Does (destroys key_id) ring =
    same-Does key_id (λ k. ok (destroy_key k)) (λ k. ok (wiped k)) ring
      (λ k. ap ok (destroy_key_lem k)) (λ k. refl)
