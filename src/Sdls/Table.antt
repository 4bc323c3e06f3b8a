-- ===== src/Sdls/Table.antt =====
-- The table of managed security associations
-- (crates/leodos-protocols/src/datalink/security/sdls/sa_mgmt.rs).
use leo_dos.Prelude.{
  ℕ, zero, suc, ◌+◌, ◌-◌, ◌*◌, ◌/◌, ◌%◌, ◌^◌, ◌≤◌, ◌<◌, min, max, bit_and, bit_or, ◌≡◌, refl, sym,
  ap, ap₂, ◌∙◌, ◌≢◌, ◌↔◌, ◌⊎◌, inl, inr, Bool, true, false, ◌&&◌, ◌||◌, not, Option, none, some,
  List, [], ◌∷◌, ◌++◌, map, arith, ltb, leb, ◌==◌, if◌then◌else◌, tests, ltb→lt, lt→ltb, leb→le,
  ==_iff, ==_eq, ==_ne, Bool-cases, Option-cases, length, set, take, drop, replicate, All,
  length-append, length-set, All-append, All-set, All-map, All-replicate, length-replicate,
}
use leo_dos.Sdls.Association
use leo_dos.Sdls.Association.{
  ServiceType, Error, reserved_spi, unknown_spi, duplicate_spi, invalid_sa_state, sa_table_full,
  Result, ok, err, map_ok, ManagedSa, is_unkeyed, read_arsn,
}
pub mod Command
pub mod Lookup
pub mod Refine
pub mod Invariant

-- `MAX_SAS`
abbrev pub max_sas : ℕ
max_sas = 64

abbrev pub SaTable : Type 0
SaTable = List ManagedSa

abbrev pub new : SaTable
new = []

-- `SaTable::find`
unfoldable pub find : ℕ → SaTable → Option ManagedSa
find spi [] = none
find spi (e ∷ es) = if e.sa.spi == spi then some e else find spi es

-- `create` with what `find` and `ManagedSa::new` returned; `push` checks the capacity of a
-- `heapless::Vec`.
unfoldable pub create_with : ℕ → SaTable → Option ManagedSa → Result ManagedSa → Result SaTable
create_with spi entries (some _) sa = err (duplicate_spi spi)
create_with spi entries none (err e) = err e
create_with spi entries none (ok sa) =
    if ltb (length entries) max_sas then ok (entries ++ (sa ∷ [])) else err sa_table_full

unfoldable pub create : ℕ → ServiceType → SaTable → Result SaTable
unfolding create_with find Association.new
create spi service_type entries =
    create_with spi entries (find spi entries) (Association.new spi service_type)

abbrev pub one_further : Option (ℕ × ManagedSa) → Option (ℕ × ManagedSa)
one_further none = none
one_further (some (i, e)) = some (suc i, e)

-- `self.entries.iter().position(|e| e.sa.spi == spi)`, with the entry there.
unfoldable pub position : ℕ → SaTable → Option (ℕ × ManagedSa)
position spi [] = none
position spi (e ∷ es) = if e.sa.spi == spi then some (0, e) else one_further (position spi es)

-- All but the last, and the last.
unfoldable pub unsnoc : ManagedSa → SaTable → SaTable × ManagedSa
unsnoc x [] = ([], x)
unsnoc x (y ∷ ys) = (x ∷ (unsnoc y ys).0, (unsnoc y ys).1)

unfoldable pub last_first : SaTable → SaTable
unfolding unsnoc
last_first [] = []
last_first (y ∷ ys) = (unsnoc y ys).1 ∷ (unsnoc y ys).0

-- `Vec::swap_remove`: the last takes the place of the one removed.
unfoldable pub swap_remove : SaTable → ℕ → SaTable
unfolding last_first
swap_remove [] pos = []
swap_remove (x ∷ xs) zero = last_first xs
swap_remove (x ∷ xs) (suc pos) = x ∷ swap_remove xs pos

-- `delete` with what `position` returned.
unfoldable pub delete_at : ℕ → SaTable → Option (ℕ × ManagedSa) → Result SaTable
unfolding swap_remove
delete_at spi entries none = err (unknown_spi spi)
delete_at spi entries (some (pos, e)) =
    if is_unkeyed e.state then ok (swap_remove entries pos) else err invalid_sa_state

unfoldable pub delete : ℕ → SaTable → Result SaTable
unfolding position delete_at
delete spi entries = delete_at spi entries (position spi entries)

-- `find_mut(spi).ok_or(UnknownSpi(spi))?` with what is done to the entry there.
unfoldable pub find_mut : ℕ → (ManagedSa → Result ManagedSa) → SaTable → Result SaTable
find_mut spi f [] = err (unknown_spi spi)
find_mut spi f (e ∷ es) =
    if e.sa.spi == spi
    then map_ok (λ e'. e' ∷ es) (f e)
    else map_ok (λ es'. e ∷ es') (find_mut spi f es)

unfoldable pub rekey : ℕ → ℕ → SaTable → Result SaTable
unfolding find_mut Association.rekey
rekey spi key_id = find_mut spi (Association.rekey key_id)

unfoldable pub start : ℕ → SaTable → Result SaTable
unfolding find_mut Association.start
start spi = find_mut spi Association.start

unfoldable pub stop : ℕ → SaTable → Result SaTable
unfolding find_mut Association.stop
stop spi = find_mut spi Association.stop

unfoldable pub expire : ℕ → SaTable → Result SaTable
unfolding find_mut Association.expire
expire spi = find_mut spi Association.expire

unfoldable pub set_arsn : ℕ → ℕ → SaTable → Result SaTable
unfolding find_mut Association.set_arsn
set_arsn spi arsn = find_mut spi (λ e. ok (Association.set_arsn arsn e))

unfoldable pub arsn_of : ℕ → SaTable → Result ℕ
unfolding find
arsn_of spi entries = elim (find spi entries) [
  | none ↦ err (unknown_spi spi)
  | some e ↦ ok (read_arsn e)
]
