-- ===== src/Isl/Tests.antt =====
-- Runs of the grid, its addresses and the routing.
use leo_dos.Prelude.{
  ℕ, suc, ◌≤◌, ◌≡◌, refl, true, false, Option, none, some, List, [], ◌∷◌, arith, ◌==◌,
  if◌then◌else◌, length,
}
use leo_dos.Isl.Torus.{Point, Direction, north, east, south, Hop, Torus, neighbor, opposite}
use leo_dos.Isl.Address.{satellite, station_on_ground, encode, to_address}
use leo_dos.Isl.Address.RoundTrip.{to_address-encode}
use leo_dos.Isl.Duplicate.{DuplicateFilter, is_duplicate}
use leo_dos.Isl.Duplicate.Seen.{is_duplicate_twice}
use leo_dos.Isl.Manhattan.{resolve, route}
use leo_dos.Isl.Manhattan.Shortest.{IsOn, hops, walk, hops-walk, neighbor-opposite}
use leo_dos.Isl.Manhattan.Delivery.{travel, travel_arrives}

abbrev grid : Torus
grid = record { num_orbs = 20; num_sats = 72 }

abbrev corner : Point
corner = record { orb = 0; sat = 0 }

abbrev far : Point
far = record { orb = 18; sat = 2 }

corner-IsOn : IsOn grid corner
corner-IsOn = record {
  orbs_byte = omega arith;
  sats_byte = omega arith;
  orb_lt = omega arith;
  sat_lt = omega arith;
}

far-IsOn : IsOn grid far
far-IsOn = record {
  orbs_byte = omega arith;
  sats_byte = omega arith;
  orb_lt = omega arith;
  sat_lt = omega arith;
}

-- Station 3 is seen by the satellite `far`; no other station is seen.
abbrev gateway_of_three : ℕ → ℕ → Option Point
gateway_of_three station time_s = if station == 3 then some far else none

-- Two planes west round the grid, and two satellites south.
way :
    travel gateway_of_three 5 grid corner (station_on_ground 3) 0
    ≡ some (Direction.west ∷ Direction.west ∷ south ∷ south ∷ [], Hop.ground)
unfolding travel route neighbor
way = refl

travel_arrives_example :
    (ds : List Direction) × (travel gateway_of_three
        (suc (hops grid corner far))
        grid
        corner
        (station_on_ground 3)
        0
      ≡ some (ds, Hop.ground))
    × (length ds ≡ hops grid corner far)
    × (walk grid corner ds ≡ far)
unfolding resolve
travel_arrives_example =
    travel_arrives gateway_of_three grid corner (station_on_ground 3) 0 corner-IsOn far-IsOn

hops-walk_example :
    hops grid corner (walk grid corner (north ∷ east ∷ [])) ≤ length (north ∷ east ∷ [])
hops-walk_example = hops-walk grid corner (north ∷ east ∷ []) corner-IsOn

neighbor-opposite_example : neighbor grid (neighbor grid corner north) (opposite north) ≡ corner
neighbor-opposite_example = neighbor-opposite grid corner north corner-IsOn

to_address-encode_example : to_address (encode far.orb far.sat 72) 20 72 ≡ some (satellite far)
to_address-encode_example =
    to_address-encode far 20 72 (omega arith) (omega arith) (omega arith) (omega arith)

-- Two numbers behind the head 10, of which only the nearer was seen.
abbrev filter : DuplicateFilter
filter = record { head = 10; history = 1; initialized = true }

is_duplicate_twice_example : (is_duplicate (is_duplicate filter 8).1 8).0 ≡ true
is_duplicate_twice_example = is_duplicate_twice filter 8 (omega arith) (omega arith)

filter-first : (is_duplicate filter 8).0 ≡ false
unfolding is_duplicate
filter-first = refl
