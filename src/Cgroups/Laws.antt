-- ===== src/Cgroups/Laws.antt =====
-- Memory limits that are written as a number and a unit.
use kc_docker.Shared.{
  ℕ, zero, suc, ◌*◌, ◌^◌, ◌<◌, [], ◌∷◌, ◌≡◌, refl, arith, ◌==◌, Text, parse_uint, u64, ℤ, pos,
  negsuc, ◌+◌, ◌-◌, ◌/◌, ◌≤◌, ltb, i64_of_bits, Bool-cases, inl, inr,
}
use kc_docker.Shared.Decimal.{
  print_uint, print_uint-IsDigits, parse_uint-print_uint, parse_uint-print_uint_over,
}
use kc_docker.Shared.Result.{Result, ok, err}
use kc_docker.Guardrails.Sizes.{SizeError, invalid_size, not_positive}
use kc_docker.Guardrails.Sizes.Units.{SizeUnit, factor, IsDigits}
use kc_docker.Guardrails.Sizes.Laws.{print_size, split_unit-print_size}
use kc_docker.Shared.Signed.{positive, parse_int}
use kc_docker.Cgroups.{i64_max, parse_i64, limited, parse_memory}

parse_i64-digits : (s : Text) → IsDigits s → parse_i64 s ≡ positive (parse_uint i64_max s)
unfolding parse_i64 parse_int
parse_i64-digits [] h = unfold parse_uint in refl
parse_i64-digits (c ∷ s) h = elim (Bool-cases (c == b'-')) [
  | inl dash ↦ absurd (ground arith)
  | inr other ↦ rw other refl
]

parse_memory-print_size :
    (n : ℕ) (u : SizeUnit)
    → parse_memory (print_size n u)
      ≡ limited (factor u) (positive (parse_uint i64_max (print_uint n)))
unfolding parse_memory
parse_memory-print_size n u =
    rw (split_unit-print_size n u)
      (rw (parse_i64-digits (print_uint n) (print_uint-IsDigits n)) refl)

-- The limit of `n` units of `f` bytes in 64-bit two's complement: `z` is the product less a multiple
-- of 2^64, between -2^63 and 2^63 - 1.
pub data IsWrapped (product : ℕ) : ℤ → Type 0 where
  at_least_zero :
      (m turns : ℕ) → product ≡ m + 2 ^ 64 * turns → m < 2 ^ 63 → IsWrapped product (pos m)
  below_zero :
      (m turns : ℕ) → product + suc m ≡ 2 ^ 64 * turns → m < 2 ^ 63 → IsWrapped product (negsuc m)

pub data IsLimit (n f : ℕ) : Result SizeError ℤ → Type 0 where
  zero_refused : n ≡ 0 → IsLimit n f (err not_positive)
  too_many_digits : 2 ^ 63 ≤ n → IsLimit n f (err invalid_size)
  limit : {z : ℤ} → 0 < n → n < 2 ^ 63 → IsWrapped (n * f) z → IsLimit n f (ok z)

i64_of_bits-IsWrapped : (product : ℕ) → IsWrapped product (i64_of_bits (u64 product))
i64_of_bits-IsWrapped product = elim (Bool-cases (ltb (u64 product) (2 ^ 63))) [
  | inl low ↦ rw low (at_least_zero (u64 product) (product / 2 ^ 64) (omega arith) (ground arith))
  | inr high ↦
      rw high
        (below_zero (2 ^ 64 - 1 - u64 product) (product / 2 ^ 64 + 1) (omega arith) (ground arith))
]

-- For every number `n` with a unit, as in `512m`: zero is refused, 2^63 and more are no number, and
-- otherwise the limit is the product of the number and the unit, wrapped around to 64-bit two's
-- complement.
pub parse_memory-IsLimit :
    (n : ℕ) (u : SizeUnit) → IsLimit n (factor u) (parse_memory (print_size n u))
parse_memory-IsLimit zero u =
    rw (parse_memory-print_size 0 u)
      (rw (parse_uint-print_uint i64_max 0 (omega arith)) (zero_refused refl))
parse_memory-IsLimit (suc n) u = elim (Bool-cases (ltb i64_max (suc n))) [
  | inl over ↦ rw (parse_memory-print_size (suc n) u) (
      rw (parse_uint-print_uint_over i64_max (suc n) (ground arith))
        (too_many_digits (ground arith)))
  | inr fits ↦ rw (parse_memory-print_size (suc n) u) (
      rw (parse_uint-print_uint i64_max (suc n) (ground arith))
        (limit (omega arith) (ground arith) (i64_of_bits-IsWrapped (suc n * factor u))))
]
