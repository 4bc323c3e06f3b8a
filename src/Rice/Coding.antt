-- ===== src/Rice/Coding.antt =====
-- The coding options and their costs in
-- crates/leodos-protocols/src/application/compression/rice.rs. Sums of `u64` wrap around.
use leo_dos.Prelude.{
  ℕ, zero, suc, ◌+◌, ◌-◌, ◌*◌, ◌/◌, ◌%◌, ◌^◌, Bool, true, false, ◌&&◌, not, Option, none, some,
  List, [], ◌∷◌, ltb, ◌==◌, if◌then◌else◌, length,
}

pub data CodingOption : Type 0 where
  zero_block : CodingOption
  second_extension : CodingOption
  split : (k : ℕ) → CodingOption
  no_compression : CodingOption

-- The number that stands for a pair: `sum * (sum + 1) / 2 + d2`.
unfoldable pub gamma : ℕ → ℕ → ℕ
gamma d1 d2 = (d1 + d2) * (d1 + d2 + 1) % 2 ^ 64 / 2 + d2

unfoldable pub split_total : ℕ → ℕ → List ℕ → ℕ
split_total k total [] = total
split_total k total (d ∷ ds) = split_total k ((total + (d / 2 ^ k + 1)) % 2 ^ 64) ds

unfoldable pub cost_split : List ℕ → ℕ → ℕ
cost_split mapped k = (split_total k 0 mapped + k * length mapped) % 2 ^ 64

unfoldable pub pairs_total : ℕ → List ℕ → ℕ
pairs_total total [] = total
pairs_total total (d ∷ []) = total
pairs_total total (d1 ∷ d2 ∷ ds) = pairs_total ((total + (gamma d1 d2 + 1)) % 2 ^ 64) ds

unfoldable pub cost_second_ext : List ℕ → Option ℕ
cost_second_ext mapped = if not (length mapped % 2 == 0) then none else some (pairs_total 0 mapped)

unfoldable pub cost_no_comp : ℕ → ℕ → ℕ
cost_no_comp data_len n = data_len * n

unfoldable pub all_zero : List ℕ → Bool
all_zero [] = true
all_zero (d ∷ ds) = (d == 0) && all_zero ds

-- The best cost and option so far, and a candidate.
unfoldable pub better : ℕ × CodingOption → ℕ → CodingOption → ℕ × CodingOption
better best total option = if ltb total best.0 then (total, option) else best

unfoldable pub with_second : List ℕ → ℕ → ℕ × CodingOption → Option ℕ → ℕ × CodingOption
with_second mapped id_len best none = best
with_second mapped id_len best (some cost) =
    better best ((cost + (id_len + 1)) % 2 ^ 64) second_extension

-- The loop over `k`, `count` steps from `k` on.
unfoldable pub with_splits : List ℕ → ℕ → ℕ → ℕ → ℕ × CodingOption → ℕ × CodingOption
with_splits mapped id_len zero k best = best
with_splits mapped id_len (suc count) k best =
    with_splits mapped id_len count (k + 1)
      (better best ((cost_split mapped k + id_len) % 2 ^ 64) (split k))

-- The first candidate of `select_option`, no compression, is taken whatever it costs.
unfoldable pub select_option : List ℕ → ℕ → ℕ → ℕ → CodingOption
select_option mapped n id_len max_k =
    if all_zero mapped
    then zero_block
    else let first : ℕ × CodingOption = (cost_no_comp (length mapped) n + id_len, no_compression) in
      (with_splits mapped id_len (max_k + 1) 0
        (with_second mapped id_len first (cost_second_ext mapped))).1

-- The loop of `decode_second_ext_pair`. A turn adds one at least to `threshold`, which stays below
-- `gamma`: `gamma + 1` turns are enough.
unfoldable pub pair_loop : ℕ → ℕ → ℕ → ℕ → ℕ × ℕ
pair_loop zero g beta threshold = (beta - (g - threshold), g - threshold)
pair_loop (suc fuel) g beta threshold = elim (ltb g (threshold + beta + 1)) [
  | true ↦ (beta - (g - threshold), g - threshold)
  | false ↦ pair_loop fuel g (beta + 1) (threshold + beta + 1)
]

unfoldable pub decode_second_ext_pair : ℕ → ℕ × ℕ
decode_second_ext_pair g = pair_loop (g + 1) g 0 0
