-- ===== src/Isl/Address/RoundTrip.antt =====
-- Addresses through their numeric forms and back
-- (crates/leodos-protocols/src/network/isl/address.rs).
use leo_dos.Prelude.{ℕ, ◌+◌, ◌*◌, ◌/◌, ◌%◌, ◌^◌, ◌≤◌, ◌<◌, ◌≡◌, ap, ◌∙◌, some, arith, lt→ltb}
use native.Mathlib.Nat.{mul-le-mul_right, add-mul, mod-eq_of_lt, div-eq_of_lt-le, div-add-mod'}
use leo_dos.Isl.Torus.{Point}
use leo_dos.Isl.Address.{Address, satellite, station_on_ground, encode, to_address}

abbrev pub IsByteAddress : Address → Type 0
IsByteAddress (station_on_ground s) = s < 256
IsByteAddress (satellite p) = (p.orb < 256) × (p.sat < 256)

-- The satellites that the wire form can carry: the plane is below 255.
abbrev pub IsCarried : Address → Type 0
IsCarried (station_on_ground s) = Unit
IsCarried (satellite p) = p.orb < 255

module _ (o n m s : ℕ) (o_lt : o < n) (s_lt : s < m) where
  -- Within the grid's sizes a place is below their product, and the division gives it back.
  place-lt : o * m + s < n * m
  place-lt = omega (arith, mul-le-mul_right m o_lt, add-mul o 1 m)

  place-div : (o * m + s) / m ≡ o
  place-div = div-eq_of_lt-le m (omega arith) (omega (arith, add-mul o 1 m))

  place-mod : (o * m + s) % m ≡ s
  place-mod = omega (arith, div-add-mod' (o * m + s) m, ap (λ q. q * m) place-div)

-- The identifier of a satellite of the grid is decoded to its place, where the grid's sizes are bytes.
pub to_address-encode :
    (p : Point) (num_planes sats_per_plane : ℕ)
    → num_planes < 256
    → sats_per_plane < 256
    → p.orb < num_planes
    → p.sat < sats_per_plane
    → to_address (encode p.orb p.sat sats_per_plane) num_planes sats_per_plane ≡ some (satellite p)
unfolding to_address encode
to_address-encode p n m n_byte m_byte orb_lt sat_lt =
    let small : n * m ≤ 255 * m = mul-le-mul_right m (omega arith) in
    let word : (p.orb * m + p.sat) % 2 ^ 32 ≡ p.orb * m + p.sat =
      mod-eq_of_lt (omega (arith, place-lt p.orb n m p.sat orb_lt sat_lt, small)) in
    let orb : (p.orb * m + p.sat) / m % 256 ≡ p.orb =
      ap (λ x. x % 256) (place-div p.orb n m p.sat orb_lt sat_lt) ∙ mod-eq_of_lt (omega arith) in
    let sat : (p.orb * m + p.sat) % m % 256 ≡ p.sat =
      ap (λ x. x % 256) (place-mod p.orb n m p.sat orb_lt sat_lt) ∙ mod-eq_of_lt (omega arith) in
    rw (word, lt→ltb (p.orb * m + p.sat) (n * m) (place-lt p.orb n m p.sat orb_lt sat_lt))
      (ap some (ap satellite (λ i. record { orb = orb i; sat = sat i })))
