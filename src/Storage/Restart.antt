-- ===== src/Storage/Restart.antt =====
-- `RestartPolicy` of src/health/mod.rs: `parse_restart_policy` and `Display`.
use kc_docker.Shared.{
  ℕ, ◌<◌, ◌^◌, true, ◌||◌, none, some, [], ◌∷◌, ◌++◌, if◌then◌else◌, Text, codes, text_eq, trim,
  trim_end, trim_start, is_empty, strip_prefix, to_lowercase, lower_char, parse_uint, is_digit, ◌≡◌,
  refl, arith, ap, All, All-append,
}
use kc_docker.Shared.Result.{Result, ok, err, ◌>>=◌, ok_or}
use kc_docker.Shared.Decimal.{print_uint, parse_uint-print_uint, print_uint-IsDigits}
use kc_docker.Shared.Trimming.{IsSolid, trim_solid}
use kc_docker.Storage.{RestartPolicy, no, always, unless_stopped, on_failure}

pub data PolicyError : Type 0 where
  invalid_retries invalid_policy : PolicyError

unfoldable pub parse_restart_policy : Text → Result PolicyError RestartPolicy
parse_restart_policy text =
    let input = to_lowercase (trim text) in
    if text_eq input (codes "no") || is_empty input
    then ok no
    else if text_eq input (codes "always")
    then ok always
    else if text_eq input (codes "unless-stopped")
    then ok unless_stopped
    else if text_eq input (codes "on-failure")
    then ok (on_failure 3)
    else elim (strip_prefix input (codes "on-failure:")) [
      | none ↦ err invalid_policy
      | some retries_str ↦ do
        retries ← ok_or (parse_uint 4294967295 retries_str) invalid_retries
        ok (on_failure retries)
    ]

-- `Display`.
unfoldable pub print_restart_policy : RestartPolicy → Text
print_restart_policy no = codes "no"
print_restart_policy always = codes "always"
print_restart_policy (on_failure max_retries) = codes "on-failure:" ++ print_uint max_retries
print_restart_policy unless_stopped = codes "unless-stopped"

-- The number of retries is a u32.
abbrev pub IsPolicy : RestartPolicy → Type 0
IsPolicy (on_failure max_retries) = max_retries < 2 ^ 32
IsPolicy policy = Unit

digits-IsSolid : (s : Text) → All (λ c. is_digit c ≡ true) s → All IsSolid s
digits-IsSolid [] h = tt
digits-IsSolid (c ∷ s) h = (ground arith, digits-IsSolid s h.1)

lowercase_digits : (s : Text) → All (λ c. is_digit c ≡ true) s → to_lowercase s ≡ s
lowercase_digits [] h = refl
lowercase_digits (c ∷ s) h =
    let same : lower_char c ≡ c = ground arith in rw (lowercase_digits s h.1) (ap (λ d. d ∷ s) same)

retries_lem :
    (digits : Text) (n : ℕ)
    → All (λ c. is_digit c ≡ true) digits
    → parse_uint 4294967295 digits ≡ some n
    → parse_restart_policy (codes "on-failure:" ++ digits) ≡ ok (on_failure n)
unfolding parse_restart_policy text_eq strip_prefix
retries_lem digits n h e =
    let solid : All IsSolid (codes "on-failure:" ++ digits) =
      All-append IsSolid (codes "on-failure:") digits (ground arith) (digits-IsSolid digits h) in
    rw (trim_solid (codes "on-failure:" ++ digits) solid)
      (rw (lowercase_digits digits h) (rw e refl))

fixed_no : parse_restart_policy (codes "no") ≡ ok no
unfolding parse_restart_policy text_eq trim trim_end trim_start
fixed_no = refl

fixed_always : parse_restart_policy (codes "always") ≡ ok always
unfolding parse_restart_policy text_eq trim trim_end trim_start
fixed_always = refl

fixed_unless_stopped : parse_restart_policy (codes "unless-stopped") ≡ ok unless_stopped
unfolding parse_restart_policy text_eq trim trim_end trim_start
fixed_unless_stopped = refl

-- A policy whose retries fit in 32 bits is read back from its printed form.
pub parse-print_restart_policy :
    (policy : RestartPolicy)
    → IsPolicy policy
    → parse_restart_policy (print_restart_policy policy) ≡ ok policy
unfolding print_restart_policy
parse-print_restart_policy no h = fixed_no
parse-print_restart_policy always h = fixed_always
parse-print_restart_policy unless_stopped h = fixed_unless_stopped
parse-print_restart_policy (on_failure n) h =
    retries_lem (print_uint n) n (print_uint-IsDigits n)
      (parse_uint-print_uint 4294967295 n (omega arith))
