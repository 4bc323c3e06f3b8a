-- ===== src/Rice/Config.antt =====
-- The parameters, errors and outcomes of the Rice coder
-- (crates/leodos-protocols/src/application/compression/rice.rs).
use leo_dos.Prelude.{ℕ, ◌-◌, ◌^◌, Bool, ◌||◌, not, ltb, leb, ◌==◌, if◌then◌else◌}

-- `MAX_J`
abbrev pub max_j : ℕ
max_j = 64

pub record Config : Type 0 where
  pub bits_per_sample : ℕ
  pub block_size : ℕ
  pub ref_interval : ℕ
  pub preprocessor : Bool

pub data Error : Type 0 where
  invalid_config : Error
  output_full : Error
  truncated : Error

-- What a call gives: a value, one of the errors, or a panic (an index out of range).
pub data Outcome {ℓ} (A : Type ℓ) : Type ℓ where
  done : A → Outcome A
  failed : Error → Outcome A
  panicked : Outcome A

infixl 5 ◌>>=◌
abbrev pub ◌>>=◌ {ℓ κ} : {A : Type ℓ} {B : Type κ} → Outcome A → (A → Outcome B) → Outcome B
done a >>= f = f a
failed e >>= f = failed e
panicked >>= f = panicked

-- `Config::id_len`
unfoldable pub id_len : Config → ℕ
id_len cfg =
    let n = cfg.bits_per_sample in
    if n == 0
    then 0
    else if leb n 2
    then 1
    else if leb n 4
    then 2
    else if leb n 8
    then 3
    else if leb n 16
    then 4
    else if leb n 32
    then 5
    else 0

unfoldable pub validate : Config → Outcome (Unit {0})
validate cfg =
    if cfg.bits_per_sample == 0 || ltb 32 cfg.bits_per_sample
    then failed invalid_config
    else if not (
        cfg.block_size == 8 || cfg.block_size == 16 || cfg.block_size == 32 || cfg.block_size == 64)
    then failed invalid_config
    else if ltb 4096 cfg.ref_interval
    then failed invalid_config
    else done tt

unfoldable pub x_max : Config → ℕ
x_max cfg = 2 ^ cfg.bits_per_sample - 1

-- The call gives a value, and it is so.
abbrev pub Yields {ℓ} : {A : Type ℓ} → Outcome A → (A → Type 0) → Type 0
Yields (done a) P = P a
Yields (failed e) P = ⊥
Yields panicked P = ⊥

pub Yields-bind {ℓ κ} :
    {A : Type ℓ} {B : Type κ} (P : A → Type 0) (Q : B → Type 0) (m : Outcome A) (f : A → Outcome B)
    → Yields m P
    → ((a : A) → P a → Yields (f a) Q)
    → Yields (m >>= f) Q
Yields-bind P Q (done a) f p g = g a p
Yields-bind P Q (failed e) f p g = absurd p
Yields-bind P Q panicked f p g = absurd p
