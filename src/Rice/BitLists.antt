-- ===== src/Rice/BitLists.antt =====
-- Numbers and bytes as lists of bits, the top bit first.
use native.Mathlib.Nat.{
  pow-suc, add-mul-div_right, div-div-eq-div-mul, div-add-mod', mod-lt, div-eq_of_lt,
  div-lt_iff_lt-mul, mul_comm, add_comm,
}
use leo_dos.Prelude.{
  ℕ, zero, suc, ◌+◌, ◌*◌, ◌/◌, ◌%◌, ◌^◌, ◌<◌, ◌≡◌, refl, sym, ap, ap₂, ◌∙◌, List, [], ◌∷◌, ◌++◌,
  arith, length, take, drop, length-append,
}

-- The `n` lowest bits of a number.
unfoldable pub bits : ℕ → ℕ → List ℕ
bits zero v = []
bits (suc n) v = v / 2 ^ n % 2 ∷ bits n v

unfoldable pub bytes : List ℕ → List ℕ
bytes [] = []
bytes (c ∷ cs) = bits 8 c ++ bytes cs

pub length-bits : (n v : ℕ) → length (bits n v) ≡ n
unfolding bits
length-bits zero v = refl
length-bits (suc n) v = ap suc (length-bits n v)

pub length-bytes : (cs : List ℕ) → length (bytes cs) ≡ 8 * length cs
unfolding bytes
length-bytes [] = refl
length-bytes (c ∷ cs) =
    omega (arith, length-append (bits 8 c) (bytes cs), length-bits 8 c, length-bytes cs)

pub append_assoc {ℓ} : {A : Type ℓ} (xs ys zs : List A) → (xs ++ ys) ++ zs ≡ xs ++ (ys ++ zs)
append_assoc [] ys zs = refl
append_assoc (x ∷ xs) ys zs = ap (λ t. x ∷ t) (append_assoc xs ys zs)

pub append_nil {ℓ} : {A : Type ℓ} (xs : List A) → xs ++ [] ≡ xs
append_nil [] = refl
append_nil (x ∷ xs) = ap (λ t. x ∷ t) (append_nil xs)

pub take-append {ℓ} : {A : Type ℓ} (xs ys : List A) → take (length xs) (xs ++ ys) ≡ xs
take-append [] ys = refl
take-append (x ∷ xs) ys = ap (λ t. x ∷ t) (take-append xs ys)

pub drop-append {ℓ} : {A : Type ℓ} (xs ys : List A) → drop (length xs) (xs ++ ys) ≡ ys
drop-append [] ys = refl
drop-append (x ∷ xs) ys = drop-append xs ys

-- Lists of one length are told apart from what follows.
pub append_inj {ℓ} :
    {A : Type ℓ} (xs ys us vs : List A)
    → length xs ≡ length us
    → xs ++ ys ≡ us ++ vs
    → (xs ≡ us) × (ys ≡ vs)
append_inj xs ys us vs l e = (
  sym (take-append xs ys) ∙ ap₂ (λ n t. take n t) l e ∙ take-append us vs,
  sym (drop-append xs ys) ∙ ap₂ (λ n t. drop n t) l e ∙ drop-append us vs,
)

pub bytes-append : (cs ds : List ℕ) → bytes (cs ++ ds) ≡ bytes cs ++ bytes ds
unfolding bytes
bytes-append [] ds = refl
bytes-append (c ∷ cs) ds =
    ap (λ t. bits 8 c ++ t) (bytes-append cs ds)
    ∙ sym (append_assoc (bits 8 c) (bytes cs) (bytes ds))

pub pow_pos : (n : ℕ) → 0 < 2 ^ n
pow_pos zero = omega arith
pow_pos (suc n) = omega (arith, pow-suc 2 n, pow_pos n)

pub pow-add : (m n : ℕ) → 2 ^ (m + n) ≡ 2 ^ m * 2 ^ n
pow-add zero n = ap (λ k. 2 ^ k) index ∙ once (2 ^ n)
  where
    index : 0 + n ≡ n
    index = omega arith

    once : (p : ℕ) → p ≡ 1 * p
    once p = omega arith
pow-add (suc m) n =
    let index : suc m + n ≡ suc (m + n) = omega arith in
    ap (λ k. 2 ^ k) index
    ∙ pow-suc 2 (m + n)
    ∙ ap (λ p. p * 2) (pow-add m n)
    ∙ doubled (2 ^ m) (2 ^ n)
    ∙ ap (λ p. p * 2 ^ n) (sym (pow-suc 2 m))
  where
    doubled : (p q : ℕ) → p * q * 2 ≡ p * 2 * q
    doubled p q = omega arith

-- A multiple of the size above a number does not show.
pub bits-high : (n q x : ℕ) → bits n (q * 2 ^ n + x) ≡ bits n x
unfolding bits
bits-high zero q x = refl
bits-high (suc n) q x =
    let even : q * 2 ^ suc n + x ≡ q * 2 * 2 ^ n + x =
      ap (λ p. q * p + x) (pow-suc 2 n) ∙ doubled q (2 ^ n) x in
    let top : (q * 2 * 2 ^ n + x) / 2 ^ n ≡ x / 2 ^ n + q * 2 =
      ap (λ s. s / 2 ^ n) (omega arith) ∙ add-mul-div_right x (q * 2) (pow_pos n) in
    ap₂ (λ b t. b ∷ t) (ap (λ v. v / 2 ^ n % 2) even ∙ omega (arith, top))
      (ap (bits n) even ∙ bits-high n (q * 2) x)
  where
    doubled : (q p x : ℕ) → q * (p * 2) + x ≡ q * 2 * p + x
    doubled q p x = omega arith

pub bits-mod : (n v : ℕ) → bits n (v % 2 ^ n) ≡ bits n v
bits-mod n v = sym (bits-high n (v / 2 ^ n) (v % 2 ^ n)) ∙ ap (bits n) (div-add-mod' v (2 ^ n))

pub bits-cut : (m n v : ℕ) → bits (m + n) v ≡ bits m (v / 2 ^ n) ++ bits n v
unfolding bits
bits-cut zero n v = ap (λ k. bits k v) (omega arith)
bits-cut (suc m) n v =
    let index : suc m + n ≡ suc (m + n) = omega arith in
    let top : v / 2 ^ (m + n) ≡ v / 2 ^ n / 2 ^ m =
      ap (λ p. v / p) (pow-add m n ∙ mul_comm (2 ^ m) (2 ^ n))
      ∙ sym (div-div-eq-div-mul v (2 ^ n) (2 ^ m)) in
    ap (λ k. bits k v) index ∙ ap₂ (λ b t. b ∷ t) (ap (λ q. q % 2) top) (bits-cut m n v)

pub div-join : (n h x : ℕ) → x < 2 ^ n → (h * 2 ^ n + x) / 2 ^ n ≡ h
div-join n h x b =
    ap (λ s. s / 2 ^ n) (add_comm (h * 2 ^ n) x)
    ∙ add-mul-div_right x h (pow_pos n)
    ∙ ap (λ q. q + h) (div-eq_of_lt b)
    ∙ omega arith

pub bits-join : (m n h x : ℕ) → x < 2 ^ n → bits (m + n) (h * 2 ^ n + x) ≡ bits m h ++ bits n x
bits-join m n h x b =
    bits-cut m n (h * 2 ^ n + x) ∙ ap₂ (λ a b. bits m a ++ b) (div-join n h x b) (bits-high n h x)

-- The bits give the number back.
pub number : List ℕ → ℕ
number [] = 0
number (b ∷ bs) = b * 2 ^ length bs + number bs

pub number-bits : (n v : ℕ) → v < 2 ^ n → number (bits n v) ≡ v
unfolding bits number
number-bits zero v h = omega arith
number-bits (suc n) v h =
    let low : number (bits n v) ≡ v % 2 ^ n =
      ap number (sym (bits-mod n v)) ∙ number-bits n (v % 2 ^ n) (mod-lt v (pow_pos n)) in
    let top : v / 2 ^ n < 2 = (div-lt_iff_lt-mul (pow_pos n)).1 (omega (arith, pow-suc 2 n)) in
    let one : v / 2 ^ n % 2 ≡ v / 2 ^ n = omega (arith, top) in
    ap₂ (λ a b. a + b) (ap₂ (λ d k. d * 2 ^ k) one (length-bits n v)) low ∙ div-add-mod' v (2 ^ n)

pub bits-ext : (n x y : ℕ) → x < 2 ^ n → y < 2 ^ n → bits n x ≡ bits n y → x ≡ y
bits-ext n x y h l e = sym (number-bits n x h) ∙ ap number e ∙ number-bits n y l
