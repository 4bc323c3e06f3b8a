-- ===== src/Isl/Manhattan/Shortest.antt =====
-- Ways on the grid and their lengths, and the hops that Manhattan routing takes.
use leo_dos.Prelude.{
  ℕ, ◌+◌, ◌≤◌, ◌<◌, ◌≡◌, refl, ◌≢◌, ◌⊎◌, inl, inr, false, List, [], ◌∷◌, arith, ltb, ◌==◌,
  Bool-cases, length,
}
use leo_dos.Isl.Torus.{
  Point, Direction, north, south, east, west, Torus, same_point, distance, direction_to_orb,
  direction_to_sat, distance_orb, distance_sat, neighbor, opposite,
}
use leo_dos.Isl.Torus.Axis.{
  circular, next-<, prev-<, prev-next, next-prev, circular-next, circular-prev,
  circular_closer_prev, circular_closer_next,
}
use leo_dos.Isl.Manhattan.{route_to_point}

-- The grid's sizes are bytes, and the point stands on it.
pub record IsOn (t : Torus) (p : Point) : Type 0 where
  pub orbs_byte : t.num_orbs < 256
  pub sats_byte : t.num_sats < 256
  pub orb_lt : p.orb < t.num_orbs
  pub sat_lt : p.sat < t.num_sats

pub neighbor-IsOn : (t : Torus) (p : Point) (d : Direction) → IsOn t p → IsOn t (neighbor t p d)
unfolding neighbor
neighbor-IsOn t p north v = record {
  orbs_byte = v.orbs_byte;
  sats_byte = v.sats_byte;
  orb_lt = v.orb_lt;
  sat_lt = prev-< t.num_sats v.sats_byte p.sat v.sat_lt;
}
neighbor-IsOn t p south v = record {
  orbs_byte = v.orbs_byte;
  sats_byte = v.sats_byte;
  orb_lt = v.orb_lt;
  sat_lt = next-< t.num_sats v.sats_byte p.sat v.sat_lt;
}
neighbor-IsOn t p east v = record {
  orbs_byte = v.orbs_byte;
  sats_byte = v.sats_byte;
  orb_lt = next-< t.num_orbs v.orbs_byte p.orb v.orb_lt;
  sat_lt = v.sat_lt;
}
neighbor-IsOn t p west v = record {
  orbs_byte = v.orbs_byte;
  sats_byte = v.sats_byte;
  orb_lt = prev-< t.num_orbs v.orbs_byte p.orb v.orb_lt;
  sat_lt = v.sat_lt;
}

-- From a point of the grid, a hop and the hop in the opposite direction lead back.
pub neighbor-opposite :
    (t : Torus) (p : Point) (d : Direction)
    → IsOn t p
    → neighbor t (neighbor t p d) (opposite d) ≡ p
unfolding neighbor opposite
neighbor-opposite t p north v =
    λ i. record { orb = p.orb; sat = next-prev t.num_sats v.sats_byte p.sat v.sat_lt i }
neighbor-opposite t p south v =
    λ i. record { orb = p.orb; sat = prev-next t.num_sats v.sats_byte p.sat v.sat_lt i }
neighbor-opposite t p east v =
    λ i. record { orb = prev-next t.num_orbs v.orbs_byte p.orb v.orb_lt i; sat = p.sat }
neighbor-opposite t p west v =
    λ i. record { orb = next-prev t.num_orbs v.orbs_byte p.orb v.orb_lt i; sat = p.sat }

-- The hops between two satellites, counted along each axis the shorter way.
unfoldable pub hops : Torus → Point → Point → ℕ
unfolding circular
hops t p q = circular t.num_orbs p.orb q.orb + circular t.num_sats p.sat q.sat

-- No neighbour is nearer by more than one.
hops-neighbor :
    (t : Torus) (p q : Point) (d : Direction)
    → IsOn t p
    → IsOn t q
    → hops t p q ≤ hops t (neighbor t p d) q + 1
unfolding neighbor hops
hops-neighbor t p q north v w =
    omega (arith, circular-prev t.num_sats v.sats_byte p.sat q.sat v.sat_lt w.sat_lt)
hops-neighbor t p q south v w =
    omega (arith, circular-next t.num_sats v.sats_byte p.sat q.sat v.sat_lt w.sat_lt)
hops-neighbor t p q east v w =
    omega (arith, circular-next t.num_orbs v.orbs_byte p.orb q.orb v.orb_lt w.orb_lt)
hops-neighbor t p q west v w =
    omega (arith, circular-prev t.num_orbs v.orbs_byte p.orb q.orb v.orb_lt w.orb_lt)

pub hops_self : (t : Torus) (p : Point) → IsOn t p → hops t p p ≡ 0
unfolding hops circular distance
hops_self t p v = ground arith

abbrev pub walk : Torus → Point → List Direction → Point
walk t p [] = p
walk t p (d ∷ ds) = walk t (neighbor t p d) ds

walk-IsOn : (t : Torus) (p : Point) (ds : List Direction) → IsOn t p → IsOn t (walk t p ds)
walk-IsOn t p [] v = v
walk-IsOn t p (d ∷ ds) v = walk-IsOn t (neighbor t p d) ds (neighbor-IsOn t p d v)

-- However a packet travels from a point of the grid, it takes at least `hops` hops.
pub hops-walk :
    (t : Torus) (p : Point) (ds : List Direction) → IsOn t p → hops t p (walk t p ds) ≤ length ds
hops-walk t p [] v = omega (arith, hops_self t p v)
hops-walk t p (d ∷ ds) v = omega (
  arith,
  hops-neighbor t p (walk t p (d ∷ ds)) d v (walk-IsOn t p (d ∷ ds) v),
  hops-walk t (neighbor t p d) ds (neighbor-IsOn t p d v),
)

direction_to_orb_cases :
    (t : Torus) (p q : Point)
    → (direction_to_orb t p q ≡ west)
        × (distance q.orb p.orb t.num_orbs < distance p.orb q.orb t.num_orbs)
      ⊎ (direction_to_orb t p q ≡ east)
        × (distance p.orb q.orb t.num_orbs ≤ distance q.orb p.orb t.num_orbs)
unfolding direction_to_orb distance_orb
direction_to_orb_cases t p q =
    elim (Bool-cases (ltb (distance q.orb p.orb t.num_orbs) (distance p.orb q.orb t.num_orbs))) [
      | inl e ↦ inl (rw (e) refl, ground arith)
      | inr e ↦ inr (rw (e) refl, ground arith)
    ]

orb_closer :
    (t : Torus) (p q : Point)
    → IsOn t p
    → IsOn t q
    → p.orb ≢ q.orb
    → hops t (neighbor t p (direction_to_orb t p q)) q + 1 ≡ hops t p q
unfolding hops neighbor
orb_closer t p q v w h = elim (direction_to_orb_cases t p q) [
  | inl c ↦ rw c.0 (
      omega
        (arith, circular_closer_prev t.num_orbs v.orbs_byte p.orb q.orb v.orb_lt w.orb_lt h c.1))
  | inr c ↦ rw c.0 (
      omega
        (arith, circular_closer_next t.num_orbs v.orbs_byte p.orb q.orb v.orb_lt w.orb_lt h c.1))
]

direction_to_sat_cases :
    (t : Torus) (p q : Point)
    → (direction_to_sat t p q ≡ north)
        × (distance q.sat p.sat t.num_sats < distance p.sat q.sat t.num_sats)
      ⊎ (direction_to_sat t p q ≡ south)
        × (distance p.sat q.sat t.num_sats ≤ distance q.sat p.sat t.num_sats)
unfolding direction_to_sat distance_sat
direction_to_sat_cases t p q =
    elim (Bool-cases (ltb (distance q.sat p.sat t.num_sats) (distance p.sat q.sat t.num_sats))) [
      | inl e ↦ inl (rw (e) refl, ground arith)
      | inr e ↦ inr (rw (e) refl, ground arith)
    ]

sat_closer :
    (t : Torus) (p q : Point)
    → IsOn t p
    → IsOn t q
    → p.sat ≢ q.sat
    → hops t (neighbor t p (direction_to_sat t p q)) q + 1 ≡ hops t p q
unfolding hops neighbor
sat_closer t p q v w h = elim (direction_to_sat_cases t p q) [
  | inl c ↦ rw c.0 (
      omega
        (arith, circular_closer_prev t.num_sats v.sats_byte p.sat q.sat v.sat_lt w.sat_lt h c.1))
  | inr c ↦ rw c.0 (
      omega
        (arith, circular_closer_next t.num_sats v.sats_byte p.sat q.sat v.sat_lt w.sat_lt h c.1))
]

route_to_point_cases :
    (t : Torus) (p q : Point)
    → same_point p q ≡ false
    → (route_to_point t p q ≡ direction_to_orb t p q) × (p.orb ≢ q.orb)
      ⊎ (route_to_point t p q ≡ direction_to_sat t p q) × (p.sat ≢ q.sat)
unfolding route_to_point same_point
route_to_point_cases t p q h = elim (Bool-cases (p.orb == q.orb)) [
  | inl e ↦ inr (rw e refl, ground arith)
  | inr e ↦ inl (rw e refl, ground arith)
]

-- The hop that is routed leads one nearer.
pub route_to_point_closer :
    (t : Torus) (p q : Point)
    → IsOn t p
    → IsOn t q
    → same_point p q ≡ false
    → hops t (neighbor t p (route_to_point t p q)) q + 1 ≡ hops t p q
route_to_point_closer t p q v w h = elim (route_to_point_cases t p q h) [
  | inl c ↦ rw c.0 (orb_closer t p q v w c.1)
  | inr c ↦ rw c.0 (sat_closer t p q v w c.1)
]
