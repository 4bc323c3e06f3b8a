-- ===== src/Isl/Manhattan.antt =====
-- Shortest-hop routing
-- (crates/leodos-protocols/src/network/isl/routing/algorithm/manhattan.rs). The gateway that
-- `GatewayTable::gateway` finds by line of sight, in floating point, is the parameter `gateway`:
-- from the station and the time to a satellite, or none.
use leo_dos.Prelude.{
  ℕ, zero, suc, ◌+◌, ◌-◌, ◌*◌, ◌/◌, ◌%◌, ◌^◌, ◌≤◌, ◌<◌, min, max, bit_and, bit_or, ◌≡◌, refl, sym,
  ap, ap₂, ◌∙◌, ◌≢◌, ◌↔◌, ◌⊎◌, inl, inr, Bool, true, false, ◌&&◌, ◌||◌, not, Option, none, some,
  List, [], ◌∷◌, ◌++◌, map, arith, ltb, leb, ◌==◌, if◌then◌else◌, ltb→lt, lt→ltb, leb→le, ==_iff,
  Bool-cases, Option-cases, length, set, take, drop, replicate, All, length-append, length-set,
  All-append, All-set, All-map, All-replicate, length-replicate,
}
use leo_dos.Isl.Torus.{
  Point, Direction, Hop, isl, ground, local, Torus, same_point, direction_to_orb, direction_to_sat,
}
use leo_dos.Isl.Address.{Address, satellite, station_on_ground}
pub mod Shortest
pub mod Delivery

unfoldable pub route_to_point : Torus → Point → Point → Direction
unfolding direction_to_orb direction_to_sat
route_to_point torus current target =
    if not (current.orb == target.orb)
    then direction_to_orb torus current target
    else direction_to_sat torus current target

module _ (gateway : ℕ → ℕ → Option Point) where
  -- The `match` of `route` on the target.
  unfoldable pub resolve : Address → ℕ → Point × Hop
  resolve (satellite p) time_s = (p, local)
  resolve (station_on_ground station) time_s = (
    elim (gateway station time_s) [ none ↦ record { orb = 0; sat = station } | some p ↦ p ],
    ground,
  )

  unfoldable pub route : Torus → Point → Address → ℕ → Hop
  unfolding resolve route_to_point same_point
  route torus current target time_s =
      let r = resolve target time_s in
      if same_point current r.0 then r.1 else isl (route_to_point torus current r.0)
