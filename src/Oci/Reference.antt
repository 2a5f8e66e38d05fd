-- ===== src/Oci/Reference.antt =====
-- `ImageReference`: `parse`, `canonical` and `display_name`.
pub mod Laws
use kc_docker.Shared.{
  Bool, ◌||◌, ◌&&◌, not, Option, none, some, ◌∷◌, ◌++◌, if◌then◌else◌, length, Text, codes, ltb,
  is_empty, contains_char, trim, text_eq, strip_prefix, split_once, rsplit_once,
}

pub record ImageReference : Type 0 where
  pub registry : Text
  pub repository : Text
  pub tag : Text
  pub digest : Option Text

abbrev pub default_registry : Text
default_registry = codes "registry-1.docker.io"

abbrev pub default_tag : Text
default_tag = codes "latest"

-- The text before the first `@`, and the digest.
unfoldable pub split_digest : Text → Text × Option Text
split_digest input = elim (split_once input b'@') [
  | some (name, digest) ↦ (name, some digest)
  | none ↦ (input, none)
]

-- A last colon before the first slash is a port's, not a tag's.
unfoldable pub split_tag : Text → Text × Text
split_tag remainder = elim (rsplit_once remainder b':') [
  | none ↦ (remainder, default_tag)
  | some (before_colon, after_colon) ↦ elim (split_once remainder b'/') [
    | none ↦ (before_colon, after_colon)
    | some (before_slash, after_slash) ↦
        if ltb (length before_colon) (length before_slash)
        then (remainder, default_tag)
        else (before_colon, after_colon)
  ]
]

abbrev pub is_docker_hub : Text → Bool
is_docker_hub s =
    text_eq s (codes "docker.io")
    || (text_eq s (codes "index.docker.io") || text_eq s (codes "registry-1.docker.io"))

abbrev pub is_registry : Text → Bool
is_registry s = contains_char s b'.' || (contains_char s b':' || text_eq s (codes "localhost"))

abbrev pub library : Text → Text
library name = codes "library/" ++ name

unfoldable pub split_registry : Text → Text × Text
split_registry name_part = elim (split_once name_part b'/') [
  | none ↦ (default_registry, library name_part)
  | some (potential_registry, rest) ↦
      if is_docker_hub potential_registry
      then (default_registry, rest)
      else if is_registry potential_registry
      then (potential_registry, rest)
      else (default_registry, name_part)
]

unfoldable pub qualify : Text → Text → Text
qualify registry repository =
    if text_eq registry default_registry && not (contains_char repository b'/')
    then library repository
    else repository

-- The one error is that of an empty reference.
unfoldable pub parse : Text → Option ImageReference
parse text =
    let input = trim text in
    if is_empty input
    then none
    else let (remainder, digest) = split_digest input in
      let (name_part, tag) = split_tag remainder in
      let (registry, repository) = split_registry name_part in
      some (record {
        registry = registry;
        repository = qualify registry repository;
        tag = tag;
        digest = digest;
      })

unfoldable pub canonical : ImageReference → Text
canonical r = r.registry ++ b'/' ∷ (r.repository ++ b':' ∷ r.tag)

unfoldable pub display_name : ImageReference → Text
display_name r =
    if text_eq r.registry default_registry
    then elim (strip_prefix r.repository (codes "library/")) [
      | some stripped ↦ stripped ++ b':' ∷ r.tag
      | none ↦ r.repository ++ b':' ∷ r.tag
    ]
    else r.registry ++ b'/' ∷ (r.repository ++ b':' ∷ r.tag)
