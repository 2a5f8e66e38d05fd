-- ===== src/Builder/Pairs.antt =====
-- `parse_key_value_pairs`, the `k=v` syntax of ENV and LABEL. The index `i` into the characters is
-- the rest of the text from `i` on.
pub mod Laws
pub mod Quoting
use kc_docker.Shared.{
  ℕ, zero, suc, Bool, false, ◌||◌, ◌&&◌, not, Option, none, some, List, [], ◌∷◌, if◌then◌else◌,
  length, Text, ◌==◌, is_whitespace, is_empty, contains_char, trim, trim_start,
}
use kc_docker.Builder.Texts.{split_once_space, trim_matches}

abbrev pub push : ℕ → Text × Text → Text × Text
push c (word, rest) = (c ∷ word, rest)

-- Up to an `=` or whitespace.
unfoldable pub read_key : Text → Text × Text
read_key [] = ([], [])
read_key (c ∷ s) =
    let rest = read_key s in if c == b'=' || is_whitespace c then ([], c ∷ s) else push c rest

-- Up to whitespace.
unfoldable pub read_plain : Text → Text × Text
read_plain [] = ([], [])
read_plain (c ∷ s) = let rest = read_plain s in if is_whitespace c then ([], c ∷ s) else push c rest

-- Up to the closing quote, which is consumed. A backslash before a further character makes that
-- one plain; `escaped` says that the character before was such a backslash.
unfoldable pub read_quoted : ℕ → Bool → Text → Text × Text
read_quoted quote escaped [] = ([], [])
read_quoted quote escaped (c ∷ s) =
    let starts = not escaped && (c == 92 && not (is_empty s)) in
    let rest = read_quoted quote starts s in
    if not escaped && c == quote then ([], s) else if starts then rest else push c rest

unfoldable pub read_value : Text → Text × Text
read_value [] = ([], [])
read_value (c ∷ s) = if c == 34 || c == 39 then read_quoted c false s else read_plain (c ∷ s)

abbrev pub skip_equals : Text → Text
skip_equals [] = []
skip_equals (c ∷ s) = if c == b'=' then s else c ∷ s

-- What one round of the loop reads from a text without leading whitespace: key, value and rest.
unfoldable pub read_pair : Text → Text × Text × Text
read_pair s =
    let (key, s2) = read_key s in
    let (value, s3) = read_value (trim_start (skip_equals (trim_start s2))) in (key, value, s3)

abbrev pub keep_pair : Text → Text → Option (List (Text × Text)) → Option (List (Text × Text))
keep_pair key value none = none
keep_pair key value (some pairs) = some (if is_empty key then pairs else (key, value) ∷ pairs)

-- The outer loop, on fuel; `none` is a loop that is still running when the rounds are used up.
unfoldable pub read_pairs : ℕ → Text → Option (List (Text × Text))
read_pairs zero s = if is_empty (trim_start s) then some [] else none
read_pairs (suc fuel) s =
    if is_empty (trim_start s)
    then some []
    else let (key, value, rest) = read_pair (trim_start s) in
      keep_pair key value (read_pairs fuel rest)

-- The form `KEY value` without an `=`.
unfoldable pub spaced_pair : Text → List (Text × Text)
spaced_pair rest = elim (split_once_space rest) [
  | none ↦ []
  | some (k, v) ↦ (trim k, trim_matches 39 (trim_matches 34 (trim v))) ∷ []
]

unfoldable pub parse_key_value_pairs : Text → Option (List (Text × Text))
parse_key_value_pairs rest =
    if contains_char rest b'=' then read_pairs (length rest) rest else some (spaced_pair rest)
