-- ===== src/Sdls/Keys.antt =====
-- The key ring
-- (crates/leodos-protocols/src/datalink/security/sdls/key.rs).
use leo_dos.Prelude.{
  ℕ, Bool, true, false, ◌||◌, Option, none, some, List, [], ◌∷◌, ◌++◌, ltb, ◌==◌, if◌then◌else◌,
  length, replicate, copy_at,
}
use leo_dos.Sdls.Association.{
  invalid_key_length, invalid_key_state, unknown_key_id, duplicate_key_id, key_ring_full, Result,
  ok, err, map_ok,
}

-- `MAX_KEY_LEN`
abbrev pub max_key_len : ℕ
max_key_len = 32

-- `MAX_KEYS`
abbrev pub max_keys : ℕ
max_keys = 128

pub data KeyState : Type 0 where
  preactive : KeyState
  active : KeyState
  deactivated : KeyState
  destroyed : KeyState

pub record ManagedKey : Type 0 where
  pub key_id : ℕ
  pub state : KeyState
  pub material : List ℕ
  pub key_len : ℕ

-- `ManagedKey::new`
unfoldable pub new_key : ℕ → List ℕ → Result ManagedKey
new_key key_id material =
    if length material == 0 || ltb max_key_len (length material)
    then err invalid_key_length
    else ok (record {
      key_id = key_id;
      state = preactive;
      material = copy_at (replicate max_key_len 0) 0 material;
      key_len = length material;
    })

abbrev pub is_preactive : KeyState → Bool
is_preactive preactive = true
is_preactive _ = false

abbrev pub is_active : KeyState → Bool
is_active active = true
is_active _ = false

unfoldable pub activate_key : ManagedKey → Result ManagedKey
activate_key k =
    if is_preactive k.state then ok (record k { state = active }) else err invalid_key_state

unfoldable pub deactivate_key : ManagedKey → Result ManagedKey
deactivate_key k =
    if is_active k.state then ok (record k { state = deactivated }) else err invalid_key_state

unfoldable pub destroy_key : ManagedKey → ManagedKey
destroy_key k = record k { material = replicate max_key_len 0; key_len = 0; state = destroyed }

abbrev pub KeyRing : Type 0
KeyRing = List ManagedKey

unfoldable pub find_key : ℕ → KeyRing → Option ManagedKey
find_key key_id [] = none
find_key key_id (k ∷ ks) = if k.key_id == key_id then some k else find_key key_id ks

-- `load` with what `find` and `ManagedKey::new` returned.
unfoldable pub load_with : KeyRing → Option ManagedKey → Result ManagedKey → Result KeyRing
load_with ring (some _) key = err duplicate_key_id
load_with ring none (err e) = err e
load_with ring none (ok key) =
    if ltb (length ring) max_keys then ok (ring ++ (key ∷ [])) else err key_ring_full

unfoldable pub load : ℕ → List ℕ → KeyRing → Result KeyRing
unfolding load_with find_key new_key
load key_id material ring = load_with ring (find_key key_id ring) (new_key key_id material)

-- `find_mut` and a change of the key.
unfoldable pub change : ℕ → (ManagedKey → Result ManagedKey) → KeyRing → Result KeyRing
change key_id f [] = err (unknown_key_id key_id)
change key_id f (k ∷ ks) =
    if k.key_id == key_id
    then map_ok (λ k'. k' ∷ ks) (f k)
    else map_ok (λ ks'. k ∷ ks') (change key_id f ks)

unfoldable pub activate : ℕ → KeyRing → Result KeyRing
unfolding change activate_key
activate key_id ring = change key_id activate_key ring

unfoldable pub deactivate : ℕ → KeyRing → Result KeyRing
unfolding change deactivate_key
deactivate key_id ring = change key_id deactivate_key ring

unfoldable pub destroy : ℕ → KeyRing → Result KeyRing
unfolding change destroy_key
destroy key_id ring = change key_id (λ k. ok (destroy_key k)) ring
