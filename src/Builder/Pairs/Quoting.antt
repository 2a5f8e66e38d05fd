-- ===== src/Builder/Pairs/Quoting.antt =====
-- Pairs written as `key="value"`, with a backslash before each quote and backslash.
use kc_docker.Shared.{
  ℕ, zero, suc, ◌≤◌, true, false, ◌||◌, some, List, [], ◌∷◌, ◌++◌, if◌then◌else◌, length, Text,
  ◌==◌, is_whitespace, is_empty, contains_char, trim_start, ◌≡◌, refl, arith, Bool-cases, inl, inr,
  ◌∙◌, All, length-append,
}
use kc_docker.Builder.Pairs.{
  read_key, read_quoted, read_value, read_pair, read_pairs, parse_key_value_pairs,
}
use kc_docker.Builder.Pairs.Laws.{trim_start_solid, read_pairs_step, read_pairs_end, trim_start_nil}

abbrev pub escape : Text → Text
escape [] = []
escape (c ∷ v) = if c == 34 || c == 92 then 92 ∷ c ∷ escape v else c ∷ escape v

abbrev pub print_pair : Text × Text → Text → Text
print_pair (key, value) rest = key ++ b'=' ∷ 34 ∷ (escape value ++ 34 ∷ 32 ∷ rest)

abbrev pub print_pairs : List (Text × Text) → Text
print_pairs [] = []
print_pairs (p ∷ ps) = print_pair p (print_pairs ps)

abbrev pub IsKeyChar : ℕ → Type 0
IsKeyChar c = (c == b'=' || is_whitespace c) ≡ false

-- The keys that the syntax can write: not empty, without whitespace and `=`.
abbrev pub IsPair : Text × Text → Type 0
IsPair (key, value) = (is_empty key ≡ false) × All IsKeyChar key

read_key-append :
    (key rest : Text) → All IsKeyChar key → read_key (key ++ b'=' ∷ rest) ≡ (key, b'=' ∷ rest)
unfolding read_key
read_key-append [] rest h = refl
read_key-append (c ∷ key) rest h = rw h.0 (rw (read_key-append key rest h.1) refl)

read_quoted-escape :
    (value rest : Text) → read_quoted 34 false (escape value ++ 34 ∷ rest) ≡ (value, rest)
unfolding read_quoted
read_quoted-escape [] rest = refl
read_quoted-escape (c ∷ value) rest = elim (Bool-cases (c == 34 || c == 92)) [
  | inl special ↦ rw special (rw (read_quoted-escape value rest) refl)
  | inr plain ↦
      let not_quote : (c == 34) ≡ false = ground arith in
      let not_slash : (c == 92) ≡ false = ground arith in
      rw plain (rw (not_quote, not_slash) (rw (read_quoted-escape value rest) refl))
]

read_value-escape :
    (value rest : Text) → read_value (34 ∷ (escape value ++ 34 ∷ rest)) ≡ (value, rest)
unfolding read_value
read_value-escape value rest = read_quoted-escape value rest

read_pair-print_pair :
    (key value rest : Text)
    → All IsKeyChar key
    → read_pair (print_pair (key, value) rest) ≡ (key, value, 32 ∷ rest)
unfolding read_pair
read_pair-print_pair key value rest h =
    let tail = escape value ++ 34 ∷ 32 ∷ rest in
    rw (read_key-append key (34 ∷ tail) h) (
      rw (trim_start_solid b'=' (34 ∷ tail) refl)
        (rw (trim_start_solid 34 tail refl) (rw (read_value-escape value (32 ∷ rest)) refl)))

print_pair-solid :
    (key value rest : Text)
    → IsPair (key, value)
    → (c : ℕ) × (t : Text) × (trim_start (print_pair (key, value) rest) ≡ c ∷ t)
      × (c ∷ t ≡ print_pair (key, value) rest)
print_pair-solid [] value rest h = absurd (ground arith)
print_pair-solid (c ∷ key) value rest h =
    let t = key ++ b'=' ∷ 34 ∷ (escape value ++ 34 ∷ 32 ∷ rest) in
    (c, t, trim_start_solid c t (ground (arith, h.1.0)), refl)

trim_start_space : (s : Text) → trim_start (32 ∷ s) ≡ trim_start s
unfolding trim_start
trim_start_space s = refl

read_pairs_space : (fuel : ℕ) (s : Text) → read_pairs fuel (32 ∷ s) ≡ read_pairs fuel s
unfolding read_pairs
read_pairs_space zero s = rw (trim_start_space s) refl
read_pairs_space (suc fuel) s = rw (trim_start_space s) refl

read_pairs-print_pairs :
    (fuel : ℕ) (pairs : List (Text × Text))
    → All IsPair pairs
    → length pairs ≤ fuel
    → read_pairs fuel (print_pairs pairs) ≡ some pairs
read_pairs-print_pairs fuel [] h le = read_pairs_end fuel [] trim_start_nil
read_pairs-print_pairs zero (p ∷ pairs) h le = absurd (omega arith)
read_pairs-print_pairs (suc fuel) ((key, value) ∷ pairs) h le =
    let rest = print_pairs pairs in
    let (c, t, trimmed, whole) = print_pair-solid key value rest h.0 in
    let ih = read_pairs-print_pairs fuel pairs h.1 (omega arith) in
    read_pairs_step fuel (print_pair (key, value) rest) c t trimmed
    ∙ (rw whole (
        rw (read_pair-print_pair key value rest h.0.1)
          (rw (read_pairs_space fuel rest) (rw ih (rw h.0.0 refl)))))

length-print_pairs : (pairs : List (Text × Text)) → length pairs ≤ length (print_pairs pairs)
length-print_pairs [] = omega arith
length-print_pairs ((key, value) ∷ pairs) =
    let ih = length-print_pairs pairs in
    let a = length-append key (b'=' ∷ 34 ∷ (escape value ++ 34 ∷ 32 ∷ print_pairs pairs)) in
    let b = length-append (escape value) (34 ∷ 32 ∷ print_pairs pairs) in omega (arith, ih, a, b)

contains_equals : (s t : Text) → contains_char (s ++ b'=' ∷ t) b'=' ≡ true
contains_equals [] t = refl
contains_equals (c ∷ s) t = ground (arith, contains_equals s t)

-- One or more pairs whose keys are not empty and hold neither whitespace nor `=` are read back from
-- the text that has each value in double quotes, whatever the values are.
pub parse_key_value_pairs-print_pairs :
    (p : Text × Text) (pairs : List (Text × Text))
    → All IsPair (p ∷ pairs)
    → parse_key_value_pairs (print_pairs (p ∷ pairs)) ≡ some (p ∷ pairs)
unfolding parse_key_value_pairs
parse_key_value_pairs-print_pairs (key, value) pairs h =
    rw (contains_equals key (34 ∷ (escape value ++ 34 ∷ 32 ∷ print_pairs pairs))) (
      read_pairs-print_pairs (length (print_pairs ((key, value) ∷ pairs))) ((key, value) ∷ pairs) h
        (length-print_pairs ((key, value) ∷ pairs)))
