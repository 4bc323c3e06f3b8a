-- ===== src/Isl/Address.antt =====
-- Addresses on the inter-satellite network, and their two numeric forms
-- (crates/leodos-protocols/src/network/isl/address.rs).
use leo_dos.Prelude.{
  ℕ, zero, suc, ◌+◌, ◌-◌, ◌*◌, ◌/◌, ◌%◌, ◌^◌, ◌≤◌, ◌<◌, min, max, bit_and, bit_or, ◌≡◌, refl, sym,
  ap, ap₂, ◌∙◌, ◌≢◌, ◌↔◌, ◌⊎◌, inl, inr, Bool, true, false, ◌&&◌, ◌||◌, not, Option, none, some,
  List, [], ◌∷◌, ◌++◌, map, arith, ltb, leb, ◌==◌, if◌then◌else◌, tests, ltb→lt, lt→ltb, leb→le,
  ==_iff, ==_eq, ==_ne, Bool-cases, Option-cases, length, set, take, drop, replicate, All,
  length-append, length-set, All-append, All-set, All-map, All-replicate, length-replicate,
}
use leo_dos.Isl.Torus.{Point}
pub mod RoundTrip

pub data Address : Type 0 where
  station_on_ground : (station : ℕ) → Address
  satellite : Point → Address

-- `SpacecraftId::encode`, in `u32`, which holds every product of two bytes and a byte more.
unfoldable pub encode : ℕ → ℕ → ℕ → ℕ
encode orb sat sats_per_plane = (orb * sats_per_plane + sat) % 2 ^ 32

-- `SpacecraftId::to_address`
unfoldable pub to_address : ℕ → ℕ → ℕ → Option Address
to_address id num_planes sats_per_plane =
    if ltb id (num_planes * sats_per_plane)
    then some
        (satellite (record { orb = id / sats_per_plane % 256; sat = id % sats_per_plane % 256 }))
    else none

pub record RawAddress : Type 0 where
  pub ground_or_orb : ℕ
  pub station_or_sat : ℕ

-- `RawAddress::parse`
unfoldable pub parse : RawAddress → Address
parse r =
    if r.ground_or_orb == 0
    then station_on_ground r.station_or_sat
    else satellite (record { orb = r.ground_or_orb - 1; sat = r.station_or_sat })

-- `RawAddress::from`, whose sum is in `u8`.
unfoldable pub from : Address → RawAddress
from (station_on_ground station) = record { ground_or_orb = 0; station_or_sat = station }
from (satellite p) = record { ground_or_orb = (p.orb + 1) % 256; station_or_sat = p.sat }
