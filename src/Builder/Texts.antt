-- ===== src/Builder/Texts.antt =====
-- The `str` methods of the parser: `lines`, splitting at whitespace, `trim_matches`.
use kc_docker.Shared.{
  ℕ, Bool, Option, none, some, List, [], ◌∷◌, if◌then◌else◌, Text, ◌==◌, is_whitespace, is_empty,
  split, push_front, to_lowercase, text_eq,
}
use mathlib.Core.List.{reverse}

-- `split_once(char::is_whitespace)`.
unfoldable pub split_once_space : Text → Option (Text × Text)
split_once_space [] = none
split_once_space (c ∷ s) = elim (split_once_space s) [
  | none ↦ if is_whitespace c then some ([], s) else none
  | some (a, b) ↦ if is_whitespace c then some ([], s) else some (c ∷ a, b)
]

abbrev split_spaces : Text → List Text
split_spaces [] = [] ∷ []
split_spaces (c ∷ s) =
    let parts = split_spaces s in if is_whitespace c then [] ∷ parts else push_front c parts

abbrev filled : List Text → List Text
filled [] = []
filled (part ∷ parts) = if is_empty part then filled parts else part ∷ filled parts

-- `split_whitespace`.
unfoldable pub split_whitespace : Text → List Text
split_whitespace s = filled (split_spaces s)

abbrev drop_char : ℕ → Text → Text
drop_char c [] = []
drop_char c (d ∷ s) = if d == c then drop_char c s else d ∷ s

-- `trim_end_matches(c)` and `trim_matches(c)`.
unfoldable pub trim_end_matches : ℕ → Text → Text
trim_end_matches c s = reverse (drop_char c (reverse s))

unfoldable pub trim_matches : ℕ → Text → Text
unfolding trim_end_matches
trim_matches c s = trim_end_matches c (drop_char c s)

-- `strip_suffix(c)` for one character.
unfoldable pub strip_last : ℕ → Text → Option Text
strip_last c [] = none
strip_last c (d ∷ []) = if d == c then some [] else none
strip_last c (d ∷ e ∷ s) = elim (strip_last c (e ∷ s)) [ none ↦ none | some t ↦ some (d ∷ t) ]

-- `eq_ignore_ascii_case`.
abbrev pub eq_ignore_case : Text → Text → Bool
eq_ignore_case a b = text_eq (to_lowercase a) (to_lowercase b)

abbrev strip_return : Text → Text
strip_return s = elim (strip_last 13 s) [ none ↦ s | some t ↦ t ]

abbrev ended_lines : List Text → List Text
ended_lines [] = []
ended_lines (part ∷ []) = if is_empty part then [] else part ∷ []
ended_lines (part ∷ next ∷ parts) = strip_return part ∷ ended_lines (next ∷ parts)

-- `lines`: the end of a line is `\n` or `\r\n`, and an empty rest is no line.
unfoldable pub lines : Text → List Text
lines s = ended_lines (split s 10)
