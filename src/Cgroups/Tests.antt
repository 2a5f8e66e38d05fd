-- ===== src/Cgroups/Tests.antt =====
-- Concrete limits, one of them beyond 63 bits.
use kc_docker.Shared.{
  ◌-◌, ◌^◌, ◌≡◌, refl, codes, pos, negsuc, trim, trim_end, trim_start, strip_prefix, parse_digits,
  parse_uint,
}
use kc_docker.Shared.Search.{strip_suffix}
use kc_docker.Shared.Signed.{parse_int}
use kc_docker.Shared.Result.{ok, err}
use kc_docker.Guardrails.Sizes.{split_unit, not_positive}
use kc_docker.Guardrails.Sizes.Units.{g, factor}
use kc_docker.Guardrails.Sizes.Laws.{print_size}
use kc_docker.Cgroups.{parse_i64, parse_memory}
use kc_docker.Cgroups.Laws.{IsLimit, parse_memory-IsLimit}

half_a_gigabyte : parse_memory (codes " 512M ") ≡ ok (pos 536870912)
unfolding parse_memory split_unit strip_suffix strip_prefix parse_i64 parse_int parse_uint
    parse_digits trim trim_end trim_start
half_a_gigabyte = refl

negative_refused : parse_memory (codes "-1k") ≡ err not_positive
unfolding parse_memory split_unit strip_suffix strip_prefix parse_i64 parse_int parse_uint
    parse_digits trim trim_end trim_start
negative_refused = refl

-- The product wraps: a huge limit becomes no limit at all, or one below zero.
huge_is_zero : parse_memory (codes "17179869184g") ≡ ok (pos 0)
unfolding parse_memory split_unit strip_suffix strip_prefix parse_i64 parse_int parse_uint
    parse_digits trim trim_end trim_start
huge_is_zero = refl

huge_is_negative : parse_memory (codes "8589934592g") ≡ ok (negsuc (2 ^ 63 - 1))
unfolding parse_memory split_unit strip_suffix strip_prefix parse_i64 parse_int parse_uint
    parse_digits trim trim_end trim_start
huge_is_negative = refl

parse_memory-IsLimit_example :
    IsLimit 8589934592 (factor g) (parse_memory (print_size 8589934592 g))
parse_memory-IsLimit_example = parse_memory-IsLimit 8589934592 g
