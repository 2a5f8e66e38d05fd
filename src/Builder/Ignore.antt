-- ===== src/Builder/Ignore.antt =====
-- `DockerIgnore`, src/builder/dockerignore.rs. The file's content and the path are texts.
pub mod Rules
use kc_docker.Shared.{
  ◌+◌, Bool, true, false, ◌||◌, ◌&&◌, none, some, List, [], ◌∷◌, ◌++◌, if◌then◌else◌, length, leb,
  Text, codes, is_empty, contains_char, trim, text_eq, starts_with, ends_with, strip_prefix, split,
}
use kc_docker.Builder.Texts.{trim_end_matches, lines}

abbrev kept : List Text → List Text
kept [] = []
kept (l ∷ more) =
    let rest = kept more in
    if is_empty (trim l) || starts_with (trim l) (codes "#") then rest else trim l ∷ rest

-- The patterns of a file's content.
unfoldable pub load : Text → List Text
load content = kept (lines content)

abbrev whole_or_below : Text → Text → Bool
whole_or_below p path =
    text_eq path p || (starts_with path (p ++ b'/' ∷ []) || ends_with path (b'/' ∷ p))

-- With one star, the parts around it begin and end the path, without a common character.
abbrev pub match_parts : Text → Text → List Text → Bool
match_parts p path (prefix ∷ suffix ∷ []) =
    starts_with path prefix
    && (ends_with path suffix && leb (length prefix + length suffix) (length path))
match_parts p path _ = whole_or_below p path

unfoldable pub pattern_matches : Text → Text → Bool
pattern_matches pattern' path =
    let p = trim_end_matches b'/' pattern' in
    if contains_char p b'*' then match_parts p path (split p b'*') else whole_or_below p path

-- The loop over the patterns, with `ignored`.
unfoldable pub apply_rules : Text → List Text → Bool → Bool
apply_rules path [] ignored = ignored
apply_rules path (p ∷ patterns) ignored = elim (strip_prefix p (codes "!")) [
  | some exception ↦
      apply_rules path patterns (if pattern_matches exception path then false else ignored)
  | none ↦ apply_rules path patterns (if pattern_matches p path then true else ignored)
]

unfoldable pub is_ignored : List Text → Text → Bool
is_ignored patterns path = apply_rules path patterns false
