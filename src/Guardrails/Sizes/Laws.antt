-- ===== src/Guardrails/Sizes/Laws.antt =====
-- Sizes that are written as a number and a unit, read by `parse_size`.
use kc_docker.Shared.{
  ℕ, ◌*◌, ◌^◌, ◌<◌, [], ◌∷◌, ◌++◌, ◌≡◌, ◌↔◌, refl, ap₂, arith, Text, All, All-append, trim,
  to_lowercase, lower_char, u64,
}
use kc_docker.Shared.Decimal.{print_uint, print_uint-IsDigits, parse_uint-print_uint}
use kc_docker.Shared.Trimming.{IsSolid, trim_solid}
use kc_docker.Shared.Result.{ok}
use kc_docker.Guardrails.Sizes.{split_unit, parse_size, u64_max}
use kc_docker.Guardrails.Sizes.Units.{
  SizeUnit, bare, b, k, kb, m, mb, g, gb, suffix, factor, IsDigits, split_unit-suffix,
}

abbrev IsLower : ℕ → Type 0
IsLower c = lower_char c ≡ c

to_lowercase_lower : (s : Text) → All IsLower s → to_lowercase s ≡ s
to_lowercase_lower [] h = refl
to_lowercase_lower (c ∷ s) h = ap₂ (◌∷◌) h.0 (to_lowercase_lower s h.1)

pub digits-IsSolid : (s : Text) → IsDigits s → All IsSolid s
digits-IsSolid [] h = tt
digits-IsSolid (c ∷ s) h = (ground arith, digits-IsSolid s h.1)

digits-IsLower : (s : Text) → IsDigits s → All IsLower s
digits-IsLower [] h = tt
digits-IsLower (c ∷ s) h = (ground arith, digits-IsLower s h.1)

suffix-IsSolid : (u : SizeUnit) → All IsSolid (suffix u)
unfolding suffix
suffix-IsSolid bare = tt
suffix-IsSolid b = (refl, tt)
suffix-IsSolid k = (refl, tt)
suffix-IsSolid kb = (refl, (refl, tt))
suffix-IsSolid m = (refl, tt)
suffix-IsSolid mb = (refl, (refl, tt))
suffix-IsSolid g = (refl, tt)
suffix-IsSolid gb = (refl, (refl, tt))

suffix-IsLower : (u : SizeUnit) → All IsLower (suffix u)
unfolding suffix
suffix-IsLower bare = tt
suffix-IsLower b = (refl, tt)
suffix-IsLower k = (refl, tt)
suffix-IsLower kb = (refl, (refl, tt))
suffix-IsLower m = (refl, tt)
suffix-IsLower mb = (refl, (refl, tt))
suffix-IsLower g = (refl, tt)
suffix-IsLower gb = (refl, (refl, tt))

abbrev pub print_size : ℕ → SizeUnit → Text
print_size n u = print_uint n ++ suffix u

-- Trimming and lower case leave a printed size, and it splits into its parts.
pub split_unit-print_size :
    (n : ℕ) (u : SizeUnit)
    → split_unit (to_lowercase (trim (print_size n u))) ≡ (print_uint n, factor u)
split_unit-print_size n u =
    let digits = print_uint-IsDigits n in
    let solid =
      All-append IsSolid (print_uint n) (suffix u) (digits-IsSolid (print_uint n) digits)
        (suffix-IsSolid u) in
    let lower =
      All-append IsLower (print_uint n) (suffix u) (digits-IsLower (print_uint n) digits)
        (suffix-IsLower u) in
    rw (trim_solid (print_size n u) solid)
      (rw (to_lowercase_lower (print_size n u) lower) (split_unit-suffix (print_uint n) digits u))

parse_size-print_size :
    (n : ℕ) (u : SizeUnit) → n < 2 ^ 64 → parse_size (print_size n u) ≡ ok (u64 (n * factor u))
unfolding parse_size
parse_size-print_size n u h =
    rw (split_unit-print_size n u) (rw (parse_uint-print_uint u64_max n (omega arith)) refl)

-- A number below 2^64 with a unit, as in `10m`, is read; the size is below 2^64, and it is the
-- number times the unit exactly when that product is below 2^64.
pub parse_size_bounds :
    (n : ℕ) (u : SizeUnit)
    → n < 2 ^ 64
    → (r : ℕ) × (parse_size (print_size n u) ≡ ok r)
      × (r < 2 ^ 64)
      × ((r ≡ n * factor u) ↔ (n * factor u < 2 ^ 64))
parse_size_bounds n u h = (
  u64 (n * factor u),
  parse_size-print_size n u h,
  omega arith,
  (λ e. omega arith, λ l. omega arith),
)
