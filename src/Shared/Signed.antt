-- ===== src/Shared/Signed.antt =====
-- `str::parse` into a signed type: an optional sign, then decimal digits in range.
use Prim.Native.Nat.{ℕ, zero, suc}
use mathlib.Core.Option.{Option, none, some}
use mathlib.Core.List.{[], ◌∷◌}
use kc_docker.Shared.Tests.{◌==◌, leb, if◌then◌else◌}
use kc_docker.Shared.Words.{ℤ, pos, negsuc}
use kc_docker.Shared.Strings.{Text, is_empty, parse_digits, parse_uint}

abbrev pub negated : ℕ → Option ℕ → Option ℤ
negated most none = none
negated most (some zero) = some (pos zero)
negated most (some (suc n)) = if leb n most then some (negsuc n) else none

abbrev pub positive : Option ℕ → Option ℤ
positive none = none
positive (some n) = some (pos n)

-- The largest value is `most` and the smallest is -(`most` + 1).
unfoldable pub parse_int : ℕ → Text → Option ℤ
parse_int most [] = none
parse_int most (c ∷ s) =
    if c == b'-'
    then (if is_empty s then none else negated most (parse_digits 0 s))
    else positive (parse_uint most (c ∷ s))
