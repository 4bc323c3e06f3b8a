-- ===== src/Isl/Manhattan/Delivery.antt =====
-- A packet that each satellite forwards by Manhattan routing, up to its arrival.
use leo_dos.Prelude.{
  ℕ, zero, suc, ◌≡◌, refl, sym, ap, ◌⊎◌, inl, inr, true, false, Option, none, some, List, [], ◌∷◌,
  arith, Bool-cases, length,
}
use leo_dos.Isl.Torus.{Point, Direction, Hop, isl, local, Torus, same_point, neighbor}
use leo_dos.Isl.Address.{Address, satellite, station_on_ground}
use leo_dos.Isl.Manhattan.{route_to_point, resolve, route}
use leo_dos.Isl.Manhattan.Shortest.{
  IsOn, hops, walk, neighbor-IsOn, hops_self, route_to_point_closer,
}

same_point_refl : (p q : Point) → same_point p q ≡ true → p ≡ q
unfolding same_point
same_point_refl p q h =
    let orbs : p.orb ≡ q.orb = ground arith in
    let sats : p.sat ≡ q.sat = ground arith in λ i. record { orb = orbs i; sat = sats i }

pub forward : Hop → (Direction → Option (List Direction × Hop)) → Option (List Direction × Hop)
forward (isl d) rest = elim (rest d) [ none ↦ none | some (ds, hop) ↦ some (d ∷ ds, hop) ]
forward local rest = some ([], local)
forward Hop.ground rest = some ([], Hop.ground)

module _ (gateway : ℕ → ℕ → Option Point) where
  -- The way of a packet, forwarded as `route` says, to the first hop that is no link.
  unfoldable pub travel : ℕ → Torus → Point → Address → ℕ → Option (List Direction × Hop)
  unfolding forward
  travel zero torus p target time_s = none
  travel (suc n) torus p target time_s =
      forward (route gateway torus p target time_s)
        (λ d. travel n torus (neighbor torus p d) target time_s)

  route_cases :
      (t : Torus) (p : Point) (a : Address) (time_s : ℕ)
      → (route gateway t p a time_s ≡ (resolve gateway a time_s).1)
          × (p ≡ (resolve gateway a time_s).0)
        ⊎ (route gateway t p a time_s ≡ isl (route_to_point t p (resolve gateway a time_s).0))
          × (same_point p (resolve gateway a time_s).0 ≡ false)
  unfolding route
  route_cases t p a time_s = elim (Bool-cases (same_point p (resolve gateway a time_s).0)) [
    | inl e ↦ inl (rw e refl, same_point_refl p _ e)
    | inr e ↦ inr (rw e refl, e)
  ]

  resolve_stops :
      (a : Address) (time_s : ℕ)
      → ((resolve gateway a time_s).1 ≡ local) ⊎ ((resolve gateway a time_s).1 ≡ Hop.ground)
  unfolding resolve
  resolve_stops (satellite p) time_s = inl refl
  resolve_stops (station_on_ground s) time_s = inr refl

  hops-same : (t : Torus) (p q : Point) → IsOn t p → p ≡ q → hops t p q ≡ 0
  hops-same t p q v h = rw (sym h) (hops_self t p v)

  travel_stops :
      (n : ℕ) (t : Torus) (p : Point) (a : Address) (time_s : ℕ)
      → route gateway t p a time_s ≡ (resolve gateway a time_s).1
      → travel (suc n) t p a time_s ≡ some ([], (resolve gateway a time_s).1)
  unfolding travel forward
  travel_stops n t p a time_s h = elim (resolve_stops a time_s) [
    | inl e ↦ rw (h, e) refl
    | inr e ↦ rw (h, e) refl
  ]

  travel_goes_on :
      (n : ℕ) (t : Torus) (p : Point) (a : Address) (time_s : ℕ) (d : Direction)
      (ds : List Direction) (hop : Hop)
      → route gateway t p a time_s ≡ isl d
      → travel n t (neighbor t p d) a time_s ≡ some (ds, hop)
      → travel (suc n) t p a time_s ≡ some (d ∷ ds, hop)
  unfolding travel forward
  travel_goes_on n t p a time_s d ds hop h k = rw (h, k) refl

  arrives :
      (n : ℕ) (t : Torus) (p : Point) (a : Address) (time_s : ℕ)
      → IsOn t p
      → IsOn t (resolve gateway a time_s).0
      → hops t p (resolve gateway a time_s).0 ≡ n
      → (ds : List Direction) × (travel (suc n) t p a time_s
          ≡ some (ds, (resolve gateway a time_s).1))
        × (length ds ≡ n)
        × (walk t p ds ≡ (resolve gateway a time_s).0)
  arrives zero t p a time_s v w h =
      let q = (resolve gateway a time_s).0 in
      elim (route_cases t p a time_s) [
        | inl c ↦ ([], travel_stops 0 t p a time_s c.0, refl, c.1)
        | inr c ↦ absurd (omega (arith, route_to_point_closer t p q v w c.1, h))
      ]
  arrives (suc n) t p a time_s v w h =
      let q = (resolve gateway a time_s).0 in
      elim (route_cases t p a time_s) [
        | inl c ↦ absurd (omega (arith, hops-same t p q v c.1, h))
        | inr c ↦
            let d = route_to_point t p q in
            let rest =
              arrives n t (neighbor t p d) a time_s (neighbor-IsOn t p d v) w
                (omega (arith, route_to_point_closer t p q v w c.1, h)) in
            (
              d ∷ rest.0,
              travel_goes_on (suc n) t p a time_s d rest.0 _ c.0 rest.1,
              ap suc rest.2,
              rest.3,
            )
      ]

  -- From any satellite of the grid, with the target on it, a packet that every satellite forwards by
  -- `route` reaches the target's satellite after exactly `hops` links, gets there the target's last
  -- hop (delivery, or the ground). The gateway is asked
  -- at one time.
  pub travel_arrives :
      (t : Torus) (p : Point) (a : Address) (time_s : ℕ)
      → IsOn t p
      → IsOn t (resolve gateway a time_s).0
      → (ds : List Direction) × (travel (suc (hops t p (resolve gateway a time_s).0)) t p a time_s
          ≡ some (ds, (resolve gateway a time_s).1))
        × (length ds ≡ hops t p (resolve gateway a time_s).0)
        × (walk t p ds ≡ (resolve gateway a time_s).0)
  travel_arrives t p a time_s v w =
      arrives (hops t p (resolve gateway a time_s).0) t p a time_s v w refl
