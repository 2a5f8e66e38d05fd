-- ===== src/Cli/Signals.antt =====
-- `parse_signal`.
use kc_docker.Shared.{
  ℕ, ◌≤◌, Option, none, some, ◌≡◌, subst, arith, Text, codes, trim, to_uppercase, strip_prefix, ℤ,
  pos, negsuc, inl, inr, Option-cases,
}
use kc_docker.Shared.Signed.{parse_int}
use kc_docker.Shared.Result.{ok}
use kc_docker.Guardrails.Sizes.{or_else}
use kc_docker.Cli.{find_signal, known_signals, in_signal_range, signal_or, parse_signal, i32_max}

find_signal_bounds : (s : Text) (n : ℕ) → find_signal s known_signals ≡ some n → (1 ≤ n) × (n ≤ 64)
find_signal_bounds s n e = ground arith

in_signal_range_bounds : (z : Option ℤ) (n : ℕ) → in_signal_range z ≡ ok n → (1 ≤ n) × (n ≤ 64)
in_signal_range_bounds none n e = absurd (ground arith)
in_signal_range_bounds (some (negsuc m)) n e = absurd (ground arith)
in_signal_range_bounds (some (pos m)) n e = ground arith

-- Whatever the text, a signal that `parse_signal` returns is a number from 1 to 64.
pub parse_signal_bounds : (s : Text) (n : ℕ) → parse_signal s ≡ ok n → (1 ≤ n) × (n ≤ 64)
unfolding parse_signal
parse_signal_bounds s n e =
    let upper = to_uppercase (trim s) in
    let stripped = or_else (strip_prefix upper (codes "SIG")) upper in
    elim (Option-cases (find_signal stripped known_signals)) [
      | inl missing ↦
          in_signal_range_bounds (parse_int i32_max stripped) n (
            subst (λ o. signal_or (in_signal_range (parse_int i32_max stripped)) o ≡ ok n) missing
              e)
      | inr (m, found) ↦
          let same : ok m ≡ ok n =
            subst (λ o. signal_or (in_signal_range (parse_int i32_max stripped)) o ≡ ok n) found
              e in
          find_signal_bounds stripped n
            (subst (λ k. find_signal stripped known_signals ≡ some k) (cc) found)
    ]
