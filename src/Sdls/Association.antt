-- ===== src/Sdls/Association.antt =====
-- One managed security association
-- (crates/leodos-protocols/src/datalink/security/sdls/sa_mgmt.rs, and the types it takes from
-- mod.rs there).
use leo_dos.Prelude.{ℕ, Bool, true, false, ◌||◌, Option, none, some, List, [], ◌==◌, if◌then◌else◌}

pub data ServiceType : Type 0 where
  authentication : ServiceType
  encryption : ServiceType
  authenticated_encryption : ServiceType

-- The errors of `Error` that the functions below return.
pub data Error : Type 0 where
  reserved_spi : (spi : ℕ) → Error
  unknown_spi : (spi : ℕ) → Error
  duplicate_spi : (spi : ℕ) → Error
  invalid_sa_state : Error
  sa_table_full : Error
  invalid_key_length : Error
  invalid_key_state : Error
  unknown_key_id : (key_id : ℕ) → Error
  duplicate_key_id : Error
  key_ring_full : Error

pub data Result {ℓ} (A : Type ℓ) : Type ℓ where
  ok : A → Result A
  err : Error → Result A

-- `Result::map`
abbrev pub map_ok {ℓ κ} : {A : Type ℓ} {B : Type κ} → (A → B) → Result A → Result B
map_ok f (ok a) = ok (f a)
map_ok f (err e) = err e

pub record SecurityAssociation : Type 0 where
  pub spi : ℕ
  pub service_type : ServiceType
  pub iv_len : ℕ
  pub sn_len : ℕ
  pub pl_len : ℕ
  pub mac_len : ℕ
  pub sequence_number : ℕ
  pub sequence_window : ℕ
  pub auth_mask : List ℕ

pub data SaState : Type 0 where
  unkeyed : SaState
  keyed : SaState
  operational : SaState

pub record ManagedSa : Type 0 where
  pub sa : SecurityAssociation
  pub state : SaState
  pub key_id : Option ℕ

abbrev pub is_unkeyed : SaState → Bool
is_unkeyed unkeyed = true
is_unkeyed _ = false

-- `ManagedSa::new`
unfoldable pub new : ℕ → ServiceType → Result ManagedSa
new spi service_type =
    if spi == 0 || spi == 65535
    then err (reserved_spi spi)
    else ok (record {
      sa = record {
        spi = spi;
        service_type = service_type;
        iv_len = 0;
        sn_len = 0;
        pl_len = 0;
        mac_len = 0;
        sequence_number = 0;
        sequence_window = 0;
        auth_mask = [];
      };
      state = unkeyed;
      key_id = none;
    })

rekey_in : SaState → ℕ → ManagedSa → Result ManagedSa
rekey_in unkeyed key_id m = ok (record m { key_id = some key_id; state = keyed })
rekey_in _ key_id m = err invalid_sa_state

unfoldable pub rekey : ℕ → ManagedSa → Result ManagedSa
unfolding rekey_in
rekey key_id m = rekey_in m.state key_id m

start_in : SaState → ManagedSa → Result ManagedSa
start_in keyed m = ok (record m { state = operational })
start_in _ m = err invalid_sa_state

unfoldable pub start : ManagedSa → Result ManagedSa
unfolding start_in
start m = start_in m.state m

stop_in : SaState → ManagedSa → Result ManagedSa
stop_in operational m = ok (record m { state = keyed })
stop_in _ m = err invalid_sa_state

unfoldable pub stop : ManagedSa → Result ManagedSa
unfolding stop_in
stop m = stop_in m.state m

expire_in : SaState → ManagedSa → Result ManagedSa
expire_in keyed m = ok (record m { key_id = none; state = unkeyed })
expire_in _ m = err invalid_sa_state

unfoldable pub expire : ManagedSa → Result ManagedSa
unfolding expire_in
expire m = expire_in m.state m

unfoldable pub set_arsn : ℕ → ManagedSa → ManagedSa
set_arsn arsn m = record m { sa = record m.sa { sequence_number = arsn } }

abbrev pub read_arsn : ManagedSa → ℕ
read_arsn m = m.sa.sequence_number
