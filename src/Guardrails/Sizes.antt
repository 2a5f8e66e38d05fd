-- ===== src/Guardrails/Sizes.antt =====
-- `LogRotator::parse_size`. The product is a `u64` that wraps, as in a build without overflow
-- checks, which the release profile of Cargo.toml is.
pub mod Units
pub mod Laws
use kc_docker.Shared.{
  ℕ, ◌*◌, ◌-◌, ◌^◌, Option, none, some, Text, codes, trim, to_lowercase, parse_uint, u64,
}
use kc_docker.Shared.Search.{strip_suffix}
use kc_docker.Shared.Result.{Result, ok_or}

pub data SizeError : Type 0 where
  invalid_size not_positive : SizeError

abbrev pub or_else {ℓ} : {A : Type ℓ} → Option A → A → A
or_else none d = d
or_else (some a) d = a

abbrev pub with_factor : ℕ → Option Text → Option (Text × ℕ)
with_factor n none = none
with_factor n (some s) = some (s, n)

abbrev pub or_try : Option (Text × ℕ) → Option (Text × ℕ) → Option (Text × ℕ)
or_try none other = other
or_try (some r) other = some r

-- The chain of `strip_suffix`, in the source's order.
unfoldable pub split_unit : Text → Text × ℕ
split_unit s =
    or_else
      (or_try (with_factor 1073741824 (strip_suffix s (codes "g"))) (
        or_try (with_factor 1073741824 (strip_suffix s (codes "gb"))) (
          or_try (with_factor 1048576 (strip_suffix s (codes "m"))) (
            or_try (with_factor 1048576 (strip_suffix s (codes "mb"))) (
              or_try (with_factor 1024 (strip_suffix s (codes "k"))) (
                or_try (with_factor 1024 (strip_suffix s (codes "kb")))
                  (with_factor 1 (strip_suffix s (codes "b")))))))))
      (s, 1)

abbrev pub u64_max : ℕ
u64_max = 2 ^ 64 - 1

abbrev pub scaled : ℕ → Option ℕ → Option ℕ
scaled factor none = none
scaled factor (some n) = some (u64 (n * factor))

unfoldable pub parse_size : Text → Result SizeError ℕ
parse_size input =
    let parts = split_unit (to_lowercase (trim input)) in
    ok_or (scaled parts.1 (parse_uint u64_max parts.0)) invalid_size
