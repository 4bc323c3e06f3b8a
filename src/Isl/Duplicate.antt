-- ===== src/Isl/Duplicate.antt =====
-- The duplicate filter of the flooding between satellites
-- (crates/leodos-protocols/src/network/isl/gossip/bitmap.rs).
use leo_dos.Prelude.{
  ℕ, zero, suc, ◌+◌, ◌-◌, ◌*◌, ◌/◌, ◌%◌, ◌^◌, ◌≤◌, ◌<◌, min, max, bit_and, bit_or, ◌≡◌, refl, sym,
  ap, ap₂, ◌∙◌, ◌≢◌, ◌↔◌, ◌⊎◌, inl, inr, Bool, true, false, ◌&&◌, ◌||◌, not, Option, none, some,
  List, [], ◌∷◌, ◌++◌, map, arith, ltb, leb, ◌==◌, if◌then◌else◌, tests, ltb→lt, lt→ltb, leb→le,
  ==_iff, ==_eq, ==_ne, Bool-cases, Option-cases, length, set, take, drop, replicate, All,
  length-append, length-set, All-append, All-set, All-map, All-replicate, length-replicate, set-set,
  slice, copy_at,
}
pub mod Seen

-- `Bitmap::CAPACITY`
abbrev pub capacity : ℕ
capacity = 128

unfoldable pub shift : ℕ → ℕ → ℕ
shift bits distance = if leb capacity distance then 0 else (bits * 2 ^ distance) % 2 ^ 128

unfoldable pub mark : ℕ → ℕ → ℕ
mark bits index = if leb capacity index then bits else bit_or bits (2 ^ index)

unfoldable pub is_marked : ℕ → ℕ → Bool
is_marked bits index = if leb capacity index then false else not (bit_and bits (2 ^ index) == 0)

pub data ShortestPath : Type 0 where
  coincident : ShortestPath
  forward : (distance : ℕ) → ShortestPath
  backward : (distance : ℕ) → ShortestPath

-- `ShortestPath::compute`, in `u16`
unfoldable pub compute : ℕ → ℕ → ShortestPath
compute from to =
    let fwd_dist = (to + 65536 - from) % 65536 in
    let bwd_dist = (from + 65536 - to) % 65536 in
    if fwd_dist == 0
    then coincident
    else if ltb fwd_dist bwd_dist
    then forward fwd_dist
    else backward bwd_dist

pub record DuplicateFilter : Type 0 where
  pub head : ℕ
  pub history : ℕ
  pub initialized : Bool

unfoldable pub new : DuplicateFilter
new = record { head = 0; history = 0; initialized = false }

-- The `match` of `is_duplicate` on the path from the head.
unfoldable pub duplicate_at : ShortestPath → DuplicateFilter → ℕ → Bool × DuplicateFilter
unfolding shift mark is_marked
duplicate_at coincident f n = (true, f)
duplicate_at (forward distance) f n =
    (false, record f { head = n; history = mark (shift f.history distance) (distance - 1) })
duplicate_at (backward distance) f n =
    if ltb capacity distance
    then (true, f)
    else if is_marked f.history (distance - 1)
    then (true, f)
    else (false, record f { history = mark f.history (distance - 1) })

unfoldable pub is_duplicate : DuplicateFilter → ℕ → Bool × DuplicateFilter
unfolding duplicate_at compute
is_duplicate f n =
    if f.initialized
    then duplicate_at (compute f.head n) f n
    else (false, record f { head = n; initialized = true })
