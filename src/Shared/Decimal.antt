-- ===== src/Shared/Decimal.antt =====
-- Unsigned numbers in decimal, as `to_string` and `format!("{}")` write them, and reading back.
use Prim.Native.Nat.{ℕ, zero, suc, ◌+◌, ◌-◌, ◌*◌, ◌/◌, ◌%◌, ◌≤◌, ◌<◌}
use mathlib.Core.Path.{◌≡◌, refl, ap, ◌∙◌}
use mathlib.Core.Logic.{inl, inr}
use mathlib.Core.Bool.{true, false}
use mathlib.Core.Option.{none, some}
use mathlib.Core.List.{[], ◌∷◌, ◌++◌}
use native.Mathlib.Omega.{arith}
use kc_docker.Shared.Tests.{if◌then◌else◌, Bool-cases, ltb, ltb→le}
use kc_docker.Shared.Lists.{All, All-append}
use kc_docker.Shared.Strings.{Text, is_digit, is_empty, strip_plus, parse_digits, parse_uint}

-- The digits of `n`, with fuel.
print_digits : ℕ → ℕ → Text
print_digits zero n = []
print_digits (suc fuel) n =
    let more = print_digits fuel (n / 10) ++ (b'0' + n % 10) ∷ [] in
    if ltb n 10 then (b'0' + n) ∷ [] else more

unfoldable pub print_uint : ℕ → Text
unfolding print_digits
print_uint n = print_digits (suc n) n

parse_digits-snoc :
    (n m d : ℕ) (s : Text)
    → parse_digits n s ≡ some m
    → d < 10
    → parse_digits n (s ++ (b'0' + d) ∷ []) ≡ some (m * 10 + d)
unfolding parse_digits
parse_digits-snoc n m d [] h lt = ground arith
parse_digits-snoc n m d (c ∷ s) h lt = elim (Bool-cases (is_digit c)) [
  | inl digit ↦ rw digit (parse_digits-snoc (n * 10 + (c - b'0')) m d s (ground arith) lt)
  | inr other ↦ absurd (ground arith)
]

print_digits-IsDigits : (fuel n : ℕ) → All (λ c. is_digit c ≡ true) (print_digits fuel n)
unfolding print_digits
print_digits-IsDigits zero n = tt
print_digits-IsDigits (suc fuel) n = elim (Bool-cases (ltb n 10)) [
  | inl small ↦ rw small (ground arith, tt)
  | inr big ↦ rw big (
      All-append (λ c. is_digit c ≡ true) (print_digits fuel (n / 10)) ((b'0' + n % 10) ∷ [])
        (print_digits-IsDigits fuel (n / 10)) (ground arith, tt))
]

-- What is printed holds digits only.
pub print_uint-IsDigits : (n : ℕ) → All (λ c. is_digit c ≡ true) (print_uint n)
unfolding print_uint
print_uint-IsDigits n = print_digits-IsDigits (suc n) n

parse-print_digits : (fuel n : ℕ) → n < fuel → parse_digits 0 (print_digits fuel n) ≡ some n
unfolding print_digits
parse-print_digits zero n h = absurd (omega arith)
parse-print_digits (suc fuel) n h = elim (Bool-cases (ltb n 10)) [
  | inl small ↦ rw small (unfold parse_digits in ground arith)
  | inr big ↦
      let whole : n / 10 * 10 + n % 10 ≡ n = omega arith in
      let shorter : n / 10 < fuel = omega (arith, ltb→le n 10 big) in
      rw big (
        parse_digits-snoc 0 (n / 10) (n % 10) (print_digits fuel (n / 10))
          (parse-print_digits fuel (n / 10) shorter) (omega arith)
        ∙ ap some whole)
]

is_empty-snoc : (xs : Text) (y : ℕ) → is_empty (xs ++ y ∷ []) ≡ false
is_empty-snoc [] y = refl
is_empty-snoc (x ∷ xs) y = refl

print_digits_nonempty : (fuel n : ℕ) → is_empty (print_digits (suc fuel) n) ≡ false
unfolding print_digits
print_digits_nonempty fuel n = elim (Bool-cases (ltb n 10)) [
  | inl small ↦ rw small refl
  | inr big ↦ rw big (is_empty-snoc (print_digits fuel (n / 10)) (b'0' + n % 10))
]

strip_plus_of_digits : (s : Text) → All (λ c. is_digit c ≡ true) s → strip_plus s ≡ s
strip_plus_of_digits [] h = refl
strip_plus_of_digits (c ∷ s) h = ground arith

-- `to_string` and then `parse` gives the number back.
pub parse_uint-print_uint : (most n : ℕ) → n ≤ most → parse_uint most (print_uint n) ≡ some n
unfolding parse_uint print_uint
parse_uint-print_uint most n h =
    rw (strip_plus_of_digits (print_digits (suc n) n) (print_digits-IsDigits (suc n) n)) (
      rw (print_digits_nonempty n n)
        (rw (parse-print_digits (suc n) n (omega arith)) (ground arith)))

pub parse_uint-print_uint_over : (most n : ℕ) → most < n → parse_uint most (print_uint n) ≡ none
unfolding parse_uint print_uint
parse_uint-print_uint_over most n h =
    rw (strip_plus_of_digits (print_digits (suc n) n) (print_digits-IsDigits (suc n) n)) (
      rw (print_digits_nonempty n n)
        (rw (parse-print_digits (suc n) n (omega arith)) (ground arith)))
