-- ===== src/Rice/Reads.antt =====
-- What the calls of a `BitReader` read
-- (crates/leodos-protocols/src/application/compression/rice.rs).
use mathlib.Core.Path.{subst}
use native.Mathlib.Nat.{
  mod-lt, mul-one, div-lt_iff_lt-mul, mul-le-mul_right, div-add-mod', add-zero, le-mul_of_pos_right,
  pow-le-pow_right, zero-div,
}
use leo_dos.Prelude.Bits.{bit_or_field}
use leo_dos.Prelude.{
  ℕ, zero, suc, ◌+◌, ◌-◌, ◌*◌, ◌/◌, ◌%◌, ◌^◌, ◌≤◌, ◌<◌, min, bit_or, ◌≡◌, refl, sym, ap, ap₂, ◌∙◌,
  List, [], ◌∷◌, ◌++◌, arith, length, length-append,
}
use leo_dos.Rice.Config.{Outcome, done, ◌>>=◌}
use leo_dos.Rice.BitReader.{BitReader, new, skip, read_loop, read, fs_loop, read_fs}
use leo_dos.Rice.BitLists.{
  bits, bytes, length-bits, length-bytes, append_assoc, append_nil, pow_pos, pow-add, bits-mod,
  bits-cut,
}
use leo_dos.Rice.Ahead.{Ahead, Front, front, byte_at-front, skip-Ahead, bytes-left, left}
use leo_dos.Rice.Writes.{fs_bits}

-- A call takes `code` from what is ahead, and gives `a`.
abbrev pub Reads {ℓ} : {A : Type ℓ} → (BitReader → Outcome (A × BitReader)) → List ℕ → A → Type ℓ
Reads f code a =
    (limit : ℕ) (r : BitReader) (bs : List ℕ)
    → Ahead limit r (code ++ bs)
    → (r' : BitReader) × (f r ≡ done (a, r')) × Ahead limit r' bs

pub new-Ahead : (input : List ℕ) → Ahead (length input) (new input) (bytes input)
unfolding new
new-Ahead input = record {
  passed = [];
  rest = input;
  buf_eq = refl;
  pos_eq = refl;
  bits_eq = bytes-left input;
  bit_pos = omega arith;
  bit_le = omega arith;
  limit_eq = refl;
}

module _ (result w left x : ℕ) (size : (result + 1) * 2 ^ (w + left) ≤ 2 ^ 64)
    (x_lt : x < 2 ^ (w + left)) where
  -- A turn of `read_loop` takes the high `w` bits of `x`.
  high_lt : x / 2 ^ left < 2 ^ w
  high_lt = (div-lt_iff_lt-mul (pow_pos left)).1 (omega (arith, x_lt, pow-add w left))

  next_result : bit_or (result * 2 ^ w % 2 ^ 64) (x / 2 ^ left) ≡ result * 2 ^ w + x / 2 ^ left
  next_result =
      let fits : result * 2 ^ w % 2 ^ 64 ≡ result * 2 ^ w + 0 =
        omega (arith, smaller (result * 2 ^ w) (2 ^ left) (pow_pos left) bound) in
      ap₂ (λ a b. bit_or a b) (fits ∙ ap (λ a. a + 0) (sym (mul-one (result * 2 ^ w))))
        (sym (mul-one (x / 2 ^ left)))
      ∙ bit_or_field 0 w result 0 (x / 2 ^ left) (omega arith) high_lt
      ∙ plain (result * 2 ^ w + x / 2 ^ left)
    where
      smaller : (a q : ℕ) → 0 < q → (a + 2 ^ w) * q ≤ 2 ^ 64 → a < 2 ^ 64
      smaller a q h l = omega (arith, pow_pos w, le-mul_of_pos_right (a + 2 ^ w) h, l)

      distributed : (r p q : ℕ) → (r + 1) * (p * q) ≡ (r * p + p) * q
      distributed r p q = omega arith

      bound : (result * 2 ^ w + 2 ^ w) * 2 ^ left ≤ 2 ^ 64
      bound =
          subst (λ n. n ≤ 2 ^ 64)
            (ap (λ p. (result + 1) * p) (pow-add w left) ∙ distributed result (2 ^ w) (2 ^ left))
            size

      plain : (a : ℕ) → a * 2 ^ 0 + 0 ≡ a
      plain a = omega arith

  value_eq : (result * 2 ^ w + x / 2 ^ left) * 2 ^ left + x % 2 ^ left ≡ result * 2 ^ (w + left) + x
  value_eq =
      distributed result (2 ^ w) (x / 2 ^ left) (2 ^ left) (x % 2 ^ left)
      ∙ ap₂ (λ p v. result * p + v) (sym (pow-add w left)) (div-add-mod' x (2 ^ left))
    where
      distributed : (r p q l m : ℕ) → (r * p + q) * l + m ≡ r * (p * l) + (q * l + m)
      distributed r p q l m = omega arith

  next_size : (result * 2 ^ w + x / 2 ^ left + 1) * 2 ^ left ≤ 2 ^ 64
  next_size =
      let front : result * 2 ^ w + x / 2 ^ left + 1 ≤ (result + 1) * 2 ^ w =
        omega (arith, high_lt) in
      let scaled : (result * 2 ^ w + x / 2 ^ left + 1) * 2 ^ left
          ≤ (result + 1) * 2 ^ w * 2 ^ left =
        mul-le-mul_right (2 ^ left) front in
      omega (
        arith,
        scaled,
        size,
        ap (λ p. (result + 1) * p) (pow-add w left),
        grouped (result + 1) (2 ^ w) (2 ^ left),
      )
    where
      grouped : (a b c : ℕ) → a * (b * c) ≡ a * b * c
      grouped a b c = omega arith

read_loop-Reads :
    (fuel result n x : ℕ)
    → n ≤ fuel
    → x < 2 ^ n
    → (result + 1) * 2 ^ n ≤ 2 ^ 64
    → Reads (read_loop fuel result n) (bits n x) (result * 2 ^ n + x)
unfolding read_loop bits
read_loop-Reads fuel result zero x l b size limit r bs k =
    (r, ap (λ v. done (v, r)) (omega arith), k)
read_loop-Reads zero result (suc m) x l b size limit r bs k = absurd (omega arith)
read_loop-Reads (suc fuel) result (suc m) x l b size limit r bs k =
    let w : ℕ = min (suc m) r.bit in
    let left : ℕ = suc m - w in
    let one : 1 ≤ w = omega (arith, k.bit_pos) in
    let parts : suc m ≡ w + left = omega arith in
    let high : ℕ = x / 2 ^ left in
    let x_lt : x < 2 ^ (w + left) = subst (λ n. x < 2 ^ n) parts b in
    let size' : (result + 1) * 2 ^ (w + left) ≤ 2 ^ 64 =
      subst (λ n. (result + 1) * 2 ^ n ≤ 2 ^ 64) parts size in
    let high_lt' : high < 2 ^ w = high_lt result w left x size' x_lt in
    let k' : Ahead limit r (bits w high ++ (bits left (x % 2 ^ left) ++ bs)) =
      subst (Ahead limit r) (cut_at (suc m) w left x bs parts) k in
    let f : Front limit r w high (bits left (x % 2 ^ left) ++ bs) k' one (omega arith) high_lt' =
      front limit r w high _ k' one (omega arith) high_lt' in
    let result' : bit_or (result * 2 ^ w % 2 ^ 64) (f.byte / 2 ^ (r.bit - w) % 2 ^ w)
        ≡ result * 2 ^ w + high =
      ap (λ v. bit_or (result * 2 ^ w % 2 ^ 64) v) f.value
      ∙ next_result result w left x size' x_lt in
    let tail =
      read_loop-Reads fuel (result * 2 ^ w + high) left (x % 2 ^ left) (omega (arith, one))
        (mod-lt x (pow_pos left)) (next_size result w left x size' x_lt) limit (skip w r) bs
        (skip-Ahead limit r w high _ k' one (omega arith) high_lt') in
    (
      tail.0,
      ap
            (λ o. o >>= λ c.
              read_loop fuel (bit_or (result * 2 ^ w % 2 ^ 64) (c / 2 ^ (r.bit - w) % 2 ^ w)) left
                (skip w r))
            (byte_at-front limit r w high _ k' one (omega arith) high_lt')
          ∙ ap (λ v. read_loop fuel v left (skip w r)) result'
          ∙ tail.1
          ∙ ap (λ v. done (v, tail.0))
              (value_eq result w left x size' x_lt ∙ ap (λ n. result * 2 ^ n + x) (sym parts)),
      tail.2,
    )
  where
    cut_at :
        (n w left x : ℕ) (bs : List ℕ)
        → n ≡ w + left
        → bits n x ++ bs ≡ bits w (x / 2 ^ left) ++ (bits left (x % 2 ^ left) ++ bs)
    cut_at n w left x bs e =
        ap (λ j. bits j x ++ bs) e
        ∙ ap (λ l. l ++ bs) (bits-cut w left x)
        ∙ append_assoc (bits w (x / 2 ^ left)) (bits left x) bs
        ∙ ap (λ l. bits w (x / 2 ^ left) ++ (l ++ bs)) (sym (bits-mod left x))

pub read-Reads : (n x : ℕ) → x < 2 ^ n → n ≤ 64 → Reads (read n) (bits n x) x
unfolding read
read-Reads n x b l =
    let size : 2 ^ n ≤ 2 ^ 64 = pow-le-pow_right (omega arith) l in
    subst (Reads (read_loop n 0 n) (bits n x)) (none_before (2 ^ n))
      (read_loop-Reads n 0 n x (omega arith) b (omega (arith, size)))
  where
    none_before : (p : ℕ) → 0 * p + x ≡ x
    none_before p = omega arith

-- One call after another.
pub Reads-bind {ℓ κ} :
    {A : Type ℓ} {B : Type κ} (f : BitReader → Outcome (A × BitReader))
    (g : A × BitReader → Outcome (B × BitReader)) (xs ys : List ℕ) (a : A) (b : B)
    → Reads f xs a
    → Reads (λ r. g (a, r)) ys b
    → Reads (λ r. f r >>= g) (xs ++ ys) b
Reads-bind f g xs ys a b p q limit r bs k =
    let first = p limit r (ys ++ bs) (subst (Ahead limit r) (append_assoc xs ys bs) k) in
    let second = q limit first.0 bs first.2 in
    (second.0, ap (λ o. o >>= g) first.1 ∙ second.1, second.2)

pub done-Reads {ℓ} : {A : Type ℓ} (a : A) → Reads (λ r. done (a, r)) [] a
done-Reads a limit r bs k = (r, refl, k)

-- A step behind a call that reads nothing.
pub Reads-then {ℓ κ} :
    {A : Type ℓ} {B : Type κ} (f : BitReader → Outcome (A × BitReader))
    (g : A × BitReader → Outcome (B × BitReader)) (xs : List ℕ) (a : A) (b : B)
    → Reads f xs a
    → Reads (λ r. g (a, r)) [] b
    → Reads (λ r. f r >>= g) xs b
Reads-then f g xs a b p q =
    subst (λ c. Reads (λ r. f r >>= g) c b) (append_nil xs) (Reads-bind f g xs [] a b p q)

-- What is ahead is no longer than the input.
length-Ahead : (limit : ℕ) (r : BitReader) (bs : List ℕ) → Ahead limit r bs → length bs ≤ 8 * limit
unfolding left
length-Ahead limit r bs k = omega (
  arith,
  k.limit_eq,
  ap length k.buf_eq,
  length-append k.passed k.rest,
  length-left r.bit k.rest k.bit_le,
  ap length k.bits_eq,
)
  where
    length-left : (free : ℕ) (cs : List ℕ) → free ≤ 8 → length (left free cs) ≤ 8 * length cs
    length-left free [] h = omega arith
    length-left free (c ∷ cs) h =
        omega (arith, length-append (bits free c) (bytes cs), length-bits free c, length-bytes cs)

fs_loop-Reads : (fuel m n : ℕ) → n < fuel → Reads (fs_loop fuel m) (fs_bits n) (m + n)
unfolding fs_loop bits
fs_loop-Reads zero m n h = absurd (omega arith)
fs_loop-Reads (suc fuel) m zero h =
    subst (Reads (fs_loop (suc fuel) m) (fs_bits 0)) (sym (add-zero m)) (
      Reads-bind (read 1) _ (bits 1 1) [] 1 m (read-Reads 1 1 (omega arith) (omega arith))
        (done-Reads m))
fs_loop-Reads (suc fuel) m (suc n) h =
    subst (λ c. Reads (fs_loop (suc fuel) m) c (m + suc n)) first
      (Reads-bind (read 1) _ (bits 1 0) (fs_bits n) 0 (m + suc n)
        (read-Reads 1 0 (omega arith) (omega arith))
        (subst (Reads (fs_loop fuel (m + 1)) (fs_bits n)) one_more
          (fs_loop-Reads fuel (m + 1) n (omega arith))))
  where
    first : bits 1 0 ++ fs_bits n ≡ fs_bits (suc n)
    first = ap (λ q. q % 2 ∷ fs_bits n) (sym (zero-div (2 ^ n)))

    one_more : m + 1 + n ≡ m + suc n
    one_more = omega arith

pub read_fs-Reads : (n : ℕ) → Reads read_fs (fs_bits n) n
unfolding read_fs
read_fs-Reads n limit r bs k =
    let enough : n < 8 * length r.buf + 1 = omega (
      arith,
      length-Ahead limit r _ k,
      k.limit_eq,
      length-append (fs_bits n) bs,
      length-append (bits n 0) (1 ∷ []),
      length-bits n 0,
    ) in
    let whole : 0 + n ≡ n = omega arith in
    subst (Reads (fs_loop (8 * length r.buf + 1) 0) (fs_bits n)) whole
      (fs_loop-Reads (8 * length r.buf + 1) 0 n enough) limit r bs k
