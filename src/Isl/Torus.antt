-- ===== src/Isl/Torus.antt =====
-- The toroidal grid of satellites
-- (crates/leodos-protocols/src/network/isl/torus.rs). Indices are `u8`; where the source
-- subtracts, the model wraps at 256.
use leo_dos.Prelude.{
  ℕ, zero, suc, ◌+◌, ◌-◌, ◌*◌, ◌/◌, ◌%◌, ◌^◌, ◌≤◌, ◌<◌, min, max, bit_and, bit_or, ◌≡◌, refl, sym,
  ap, ap₂, ◌∙◌, ◌≢◌, ◌↔◌, ◌⊎◌, inl, inr, Bool, true, false, ◌&&◌, ◌||◌, not, Option, none, some,
  List, [], ◌∷◌, ◌++◌, map, arith, ltb, leb, ◌==◌, if◌then◌else◌, ltb→lt, lt→ltb, leb→le, ==_iff,
  Bool-cases, Option-cases, length, set, take, drop, replicate, All, length-append, length-set,
  All-append, All-set, All-map, All-replicate, length-replicate,
}
pub mod Axis

pub record Point : Type 0 where
  pub orb : ℕ
  pub sat : ℕ

unfoldable pub same_point : Point → Point → Bool
same_point p q = p.orb == q.orb && p.sat == q.sat

pub data Direction : Type 0 where
  north : Direction
  south : Direction
  east : Direction
  west : Direction

unfoldable pub opposite : Direction → Direction
opposite north = south
opposite south = north
opposite east = west
opposite west = east

pub data Hop : Type 0 where
  isl : Direction → Hop
  ground : Hop
  local : Hop

pub record Torus : Type 0 where
  pub num_orbs : ℕ
  pub num_sats : ℕ

-- `Torus::next`
unfoldable pub next : ℕ → ℕ → ℕ
next index modulus = if index == (modulus + 255) % 256 then 0 else (index + 1) % 256

-- `Torus::prev`
unfoldable pub prev : ℕ → ℕ → ℕ
prev index modulus = if index == 0 then (modulus + 255) % 256 else (index + 255) % 256

-- `Torus::distance`
unfoldable pub distance : ℕ → ℕ → ℕ → ℕ
distance from to modulus =
    if leb from to then (to + 256 - from) % 256 else (modulus + 256 - from + to) % 256

-- `Torus::neighbor`
unfoldable pub neighbor : Torus → Point → Direction → Point
unfolding next prev
neighbor t p north = record { orb = p.orb; sat = prev p.sat t.num_sats }
neighbor t p south = record { orb = p.orb; sat = next p.sat t.num_sats }
neighbor t p east = record { orb = next p.orb t.num_orbs; sat = p.sat }
neighbor t p west = record { orb = prev p.orb t.num_orbs; sat = p.sat }

unfoldable pub distance_orb : Torus → Point → Point → ℕ
unfolding distance
distance_orb t from to = distance from.orb to.orb t.num_orbs

unfoldable pub distance_sat : Torus → Point → Point → ℕ
unfolding distance
distance_sat t from to = distance from.sat to.sat t.num_sats

unfoldable pub direction_to_sat : Torus → Point → Point → Direction
unfolding distance_sat
direction_to_sat t from to =
    let north_dist = distance_sat t to from in
    let south_dist = distance_sat t from to in if ltb north_dist south_dist then north else south

unfoldable pub direction_to_orb : Torus → Point → Point → Direction
unfolding distance_orb
direction_to_orb t from to =
    let west_dist = distance_orb t to from in
    let east_dist = distance_orb t from to in if ltb west_dist east_dist then west else east
