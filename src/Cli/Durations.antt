-- ===== src/Cli/Durations.antt =====
-- `parse_duration_flag` by unit.
use kc_docker.Shared.{
  ℕ, ◌+◌, ◌-◌, ◌*◌, ◌^◌, ◌<◌, false, none, some, [], ◌∷◌, ◌++◌, ◌≡◌, refl, sym, ap, ◌∙◌, arith,
  All-append, ◌==◌, Text, codes, is_digit, is_empty, is_whitespace, strip_prefix, parse_digits,
  parse_uint, trim, trim_start, trim_end, u64, Bool-cases, inl, inr, append_assoc,
}
use mathlib.Core.List.{reverse, reverse-append, reverse-reverse}
use kc_docker.Shared.Search.{strip_suffix, strip_suffix-reversed, strip_suffix-append}
use kc_docker.Shared.Trimming.{IsSolid, trim_solid}
use kc_docker.Shared.Decimal.{print_uint, print_uint-IsDigits, parse_uint-print_uint}
use kc_docker.Shared.Result.{ok, err}
use kc_docker.Guardrails.Sizes.Units.{IsDigits, IsDigits-reverse, strip_prefix-digits}
use kc_docker.Guardrails.Sizes.Laws.{digits-IsSolid}
use kc_docker.Cli.{invalid_value, u64_max, number, parse_duration_flag}

-- A letter behind a text makes it no number.
parse_digits-letter :
    (n : ℕ) (s : Text) (c : ℕ) → is_digit c ≡ false → parse_digits n (s ++ c ∷ []) ≡ none
unfolding parse_digits
parse_digits-letter n [] c h = rw h refl
parse_digits-letter n (d ∷ s) c h =
    rw (parse_digits-letter (n * 10 + (d - b'0')) s c h) (ground arith)

number-letter :
    (s : Text) (c : ℕ)
    → is_digit c ≡ false
    → (c == b'+') ≡ false
    → number (s ++ c ∷ []) ≡ err invalid_value
unfolding parse_uint
number-letter [] c h plus = rw plus (rw (parse_digits-letter 0 [] c h) refl)
number-letter (d ∷ s) c h plus = elim (Bool-cases (d == b'+')) [
  | inl sign ↦ rw sign (rw (parse_digits-letter 0 s c h) (ground arith))
  | inr other ↦ rw other (rw (parse_digits-letter 0 (d ∷ s) c h) refl)
]

trim_start-append :
    (s : Text) (c : ℕ) (t : Text)
    → is_whitespace c ≡ false
    → trim_start (s ++ c ∷ t) ≡ trim_start s ++ c ∷ t
unfolding trim_start
trim_start-append [] c t h = rw h refl
trim_start-append (d ∷ s) c t h = elim (Bool-cases (is_whitespace d)) [
  | inl blank ↦ rw blank (trim_start-append s c t h)
  | inr solid ↦ rw solid refl
]

trim_end-append :
    (s : Text) (c : ℕ) → is_whitespace c ≡ false → trim_end (s ++ c ∷ []) ≡ s ++ c ∷ []
unfolding trim_end trim_start
trim_end-append s c h =
    let solid : trim_start (c ∷ reverse s) ≡ c ∷ reverse s = rw h refl in
    let e : reverse (s ++ c ∷ []) ≡ c ∷ reverse s = reverse-append s (c ∷ []) in
    ap (λ t. reverse (trim_start t)) e
    ∙ ap reverse solid
    ∙ sym (ap reverse e)
    ∙ reverse-reverse (s ++ c ∷ [])

-- Trimming leaves the letters `ms` at the end.
trim-ms : (s : Text) → trim (s ++ codes "ms") ≡ (trim_start s ++ codes "m") ++ codes "s"
unfolding trim
trim-ms s =
    let front : trim_start (s ++ codes "ms") ≡ (trim_start s ++ codes "m") ++ codes "s" =
      trim_start-append s b'm' (codes "s") refl
      ∙ sym (append_assoc (trim_start s) (codes "m") (codes "s")) in
    ap trim_end front ∙ trim_end-append (trim_start s ++ codes "m") b's' refl

nonempty-snoc : (s : Text) (c : ℕ) → is_empty (s ++ c ∷ []) ≡ false
nonempty-snoc [] c = refl
nonempty-snoc (d ∷ s) c = refl

-- Every value that ends in `ms` is refused: the suffix `s` is looked for first, and what is left
-- ends in a letter.
pub parse_duration_flag-ms : (s : Text) → parse_duration_flag (s ++ codes "ms") ≡ err invalid_value
unfolding parse_duration_flag
parse_duration_flag-ms s =
    let t = trim_start s ++ codes "m" in
    rw (trim-ms s) (
      rw (nonempty-snoc t b's')
        (rw (strip_suffix-append t (codes "s")) (number-letter (trim_start s) b'm' refl refl)))

-- Digits have no suffix that ends in a letter; the suffix is given from its end.
no_suffix :
    (s : Text)
    → IsDigits (reverse s)
    → (c : ℕ) (p : Text) → is_digit c ≡ false
    → strip_suffix s (reverse (c ∷ p)) ≡ none
no_suffix s back c p letter =
    strip_suffix-reversed s (reverse s) (reverse (c ∷ p)) refl
    ∙ rw (reverse-reverse (c ∷ p)) (rw (strip_prefix-digits (reverse s) c p back letter) refl)

print_uint_nonempty : (s : Text) (n : ℕ) → parse_uint u64_max s ≡ some n → is_empty s ≡ false
unfolding parse_uint
print_uint_nonempty [] n e = absurd (ground arith)
print_uint_nonempty (c ∷ s) n e = refl

nonempty-append : (s t : Text) → is_empty s ≡ false → is_empty (s ++ t) ≡ false
nonempty-append [] t h = absurd (ground arith)
nonempty-append (c ∷ s) t h = refl

-- `s`, `m` or `h` behind a number below 2^64, or nothing, is read as seconds, minutes or hours;
-- the seconds are counted modulo 2^64.
pub parse_duration_flag-print_uint :
    (n : ℕ)
    → n < 2 ^ 64
    → (parse_duration_flag (print_uint n ++ codes "s") ≡ ok n)
      × (parse_duration_flag (print_uint n ++ codes "m") ≡ ok (u64 (n * 60)))
      × (parse_duration_flag (print_uint n ++ codes "h") ≡ ok (u64 (n * 3600)))
      × (parse_duration_flag (print_uint n) ≡ ok n)
unfolding parse_duration_flag strip_prefix
parse_duration_flag-print_uint n h =
    let s = print_uint n in
    let digits = print_uint-IsDigits n in
    let solid = digits-IsSolid s digits in
    let back = IsDigits-reverse s digits in
    let read : parse_uint u64_max s ≡ some n = parse_uint-print_uint u64_max n (omega arith) in
    let filled = print_uint_nonempty s n read in
    let ends_m = strip_suffix-reversed (s ++ codes "m") (b'm' ∷ reverse s) in
    let ends_h = strip_suffix-reversed (s ++ codes "h") (b'h' ∷ reverse s) in
    let m = reverse-append s (codes "m") in
    let hours = reverse-append s (codes "h") in
    (
      rw (trim_solid (s ++ codes "s") (All-append IsSolid s (codes "s") solid (refl, tt))) (
          rw (nonempty-append s (codes "s") filled)
            (rw (strip_suffix-append s (codes "s")) (rw read refl))),
      rw (trim_solid (s ++ codes "m") (All-append IsSolid s (codes "m") solid (refl, tt))) (
          rw (nonempty-append s (codes "m") filled) (
            rw (ends_m (codes "s") m, ends_m (codes "ms") m, strip_suffix-append s (codes "m"))
              (rw read refl))),
      rw (trim_solid (s ++ codes "h") (All-append IsSolid s (codes "h") solid (refl, tt))) (
          rw (nonempty-append s (codes "h") filled) (
            rw
              (
                ends_h (codes "s") hours,
                ends_h (codes "ms") hours,
                ends_h (codes "m") hours,
                strip_suffix-append s (codes "h"),
              )
              (rw read refl))),
      rw (trim_solid s solid) (
          rw filled (
            rw
              (
                no_suffix s back b's' [] refl,
                no_suffix s back b's' (codes "m") refl,
                no_suffix s back b'm' [] refl,
                no_suffix s back b'h' [] refl,
              )
              (rw read refl))),
    )
