-- ===== src/Cgroups.antt =====
-- Memory limits, `ResourceLimits::parse_memory` of src/cgroups/mod.rs. The product is an `i64`
-- that wraps, as in the release profile.
pub mod Laws
mod Tests
use kc_docker.Shared.{
  ℕ, zero, suc, ◌*◌, ◌-◌, ◌^◌, Option, none, some, Text, trim, to_lowercase, u64, ℤ, pos, negsuc,
  i64_of_bits,
}
use kc_docker.Shared.Signed.{parse_int}
use kc_docker.Shared.Result.{Result, ok, err}
use kc_docker.Guardrails.Sizes.{split_unit, SizeError, invalid_size, not_positive}

abbrev pub i64_max : ℕ
i64_max = 2 ^ 63 - 1

-- `str::parse::<i64>`.
unfoldable pub parse_i64 : Text → Option ℤ
unfolding parse_int
parse_i64 s = parse_int i64_max s

abbrev pub limited : ℕ → Option ℤ → Result SizeError ℤ
limited factor none = err invalid_size
limited factor (some (negsuc n)) = err not_positive
limited factor (some (pos zero)) = err not_positive
limited factor (some (pos (suc n))) = ok (i64_of_bits (u64 (suc n * factor)))

unfoldable pub parse_memory : Text → Result SizeError ℤ
parse_memory input =
    let parts = split_unit (to_lowercase (trim input)) in limited parts.1 (parse_i64 parts.0)
