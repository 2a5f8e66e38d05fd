-- ===== src/Oci/Reference/Laws.antt =====
-- The parts of a parsed reference, and canonical names.
use kc_docker.Shared.{
  ℕ, true, false, Option, none, some, [], ◌∷◌, ◌++◌, length, Text, codes, ltb, ◌==◌, is_empty,
  contains_char, trim, text_eq, split_once, rsplit_once, ◌≡◌, refl, arith, Bool-cases, Option-cases,
  inl, inr, ap, sym, subst, All, All-append, append_assoc, length-append, text_eq_sound,
}
use kc_docker.Shared.Splitting.{Lacks, split_once-append, split_once-none, rsplit_once-append}
use kc_docker.Shared.Trimming.{IsSolid, trim_solid}
use kc_docker.Oci.Reference.{
  ImageReference, default_registry, split_digest, split_tag, is_docker_hub, is_registry,
  split_registry, qualify, parse, canonical,
}

-- What the registry client relies on: no alias of Docker Hub is left, and a name on Docker Hub has
-- its namespace.
pub record IsQualified (r : ImageReference) : Type 0 where
  pub no_alias : is_docker_hub r.registry ≡ true → r.registry ≡ default_registry
  pub namespaced : r.registry ≡ default_registry → contains_char r.repository b'/' ≡ true

contains_slash_append : (s t : Text) → contains_char (s ++ b'/' ∷ t) b'/' ≡ true
contains_slash_append [] t = refl
contains_slash_append (c ∷ s) t = ground (arith, contains_slash_append s t)

qualify_namespaced :
    (repository : Text) → contains_char (qualify default_registry repository) b'/' ≡ true
unfolding qualify text_eq
qualify_namespaced repository = elim (Bool-cases (contains_char repository b'/')) [
  | inl there ↦ rw there there
  | inr absent ↦ rw absent (contains_slash_append (codes "library") repository)
]

split_registry-no_alias :
    (name : Text)
    → is_docker_hub (split_registry name).0 ≡ true
    → (split_registry name).0 ≡ default_registry
unfolding split_registry
split_registry-no_alias name h = elim (Option-cases (split_once name b'/')) [
  | inl none_here ↦ rw (none_here, split_registry) refl
  | inr ((first, rest), there) ↦ elim (Bool-cases (is_docker_hub first)) [
    | inl hub ↦ rw (there, split_registry) (rw hub refl)
    | inr other ↦ elim (Bool-cases (is_registry first)) [
      | inl registry ↦ absurd (ground arith)
      | inr user ↦ rw (there, split_registry) (rw (other, user) refl)
    ]
  ]
]

IsQualified-of :
    (name tag : Text) (digest : Option Text)
    → IsQualified (record {
      registry = (split_registry name).0;
      repository = qualify (split_registry name).0 (split_registry name).1;
      tag = tag;
      digest = digest;
    })
IsQualified-of name tag digest = record {
  no_alias = split_registry-no_alias name;
  namespaced = λ same. rw same (qualify_namespaced (split_registry name).1);
}

-- In a parsed reference the names of Docker Hub are one, and each repository on it has a namespace.
pub parse-IsQualified : (s : Text) (r : ImageReference) → parse s ≡ some r → IsQualified r
unfolding parse
parse-IsQualified s r e = elim (Bool-cases (is_empty (trim s))) [
  | inl blank ↦ absurd (ground arith)
  | inr filled ↦
      let digest = split_digest (trim s) in
      let tag = split_tag digest.0 in
      let same : record {
        registry = (split_registry tag.0).0;
        repository = qualify (split_registry tag.0).0 (split_registry tag.0).1;
        tag = tag.1;
        digest = digest.1;
      }
          ≡ r =
        ground arith in
      subst IsQualified same (IsQualified-of tag.0 tag.1 digest.1)
]

-- The parts that a canonical name tells apart.
pub record IsCanonical (r : ImageReference) : Type 0 where
  pub qualified : IsQualified r
  pub registry : is_registry r.registry ≡ true
  pub registry_solid : All IsSolid r.registry
  pub registry_at : Lacks b'@' r.registry
  pub registry_slash : Lacks b'/' r.registry
  pub repository_solid : All IsSolid r.repository
  pub repository_at : Lacks b'@' r.repository
  pub tag_solid : All IsSolid r.tag
  pub tag_at : Lacks b'@' r.tag
  pub tag_colon : Lacks b':' r.tag

canonical-IsSolid : (r : ImageReference) → IsCanonical r → All IsSolid (canonical r)
unfolding canonical
canonical-IsSolid r h =
    All-append IsSolid r.registry (b'/' ∷ (r.repository ++ b':' ∷ r.tag)) h.registry_solid
      (refl, All-append IsSolid r.repository (b':' ∷ r.tag) h.repository_solid (refl, h.tag_solid))

canonical_at : (r : ImageReference) → IsCanonical r → Lacks b'@' (canonical r)
unfolding canonical
canonical_at r h =
    let P : ℕ → Type 0 = λ d. (d == b'@') ≡ false in
    All-append P r.registry (b'/' ∷ (r.repository ++ b':' ∷ r.tag)) h.registry_at
      (refl, All-append P r.repository (b':' ∷ r.tag) h.repository_at (refl, h.tag_at))

is_empty_append : (s t : Text) (c : ℕ) → is_empty (s ++ c ∷ t) ≡ false
is_empty_append [] t c = refl
is_empty_append (d ∷ s) t c = refl

canonical_filled : (r : ImageReference) → is_empty (canonical r) ≡ false
unfolding canonical
canonical_filled r = is_empty_append r.registry (r.repository ++ b':' ∷ r.tag) b'/'

split_digest-canonical :
    (r : ImageReference) → IsCanonical r → split_digest (canonical r) ≡ (canonical r, none)
unfolding split_digest
split_digest-canonical r h =
    rw (split_once-none b'@' (canonical r) (canonical_at r h), split_digest) refl

abbrev named : ImageReference → Text
named r = r.registry ++ b'/' ∷ r.repository

split_tag-canonical :
    (r : ImageReference) → IsCanonical r → split_tag (canonical r) ≡ (named r, r.tag)
unfolding split_tag canonical
split_tag-canonical r h =
    let rest = r.repository ++ b':' ∷ r.tag in
    let last : rsplit_once (r.registry ++ b'/' ∷ rest) b':' ≡ some (named r, r.tag) =
      subst (λ s. rsplit_once s b':' ≡ some (named r, r.tag))
        (append_assoc r.registry (b'/' ∷ r.repository) (b':' ∷ r.tag))
        (rsplit_once-append b':' (named r) r.tag h.tag_colon) in
    let size = length-append r.registry (b'/' ∷ r.repository) in
    let later : ltb (length (named r)) (length r.registry) ≡ false = ground arith in
    rw (last, split_tag)
      (rw (split_once-append b'/' r.registry rest h.registry_slash) (rw later refl))

split_registry-canonical :
    (r : ImageReference) → IsCanonical r → split_registry (named r) ≡ (r.registry, r.repository)
unfolding split_registry
split_registry-canonical r h =
    rw (split_once-append b'/' r.registry r.repository h.registry_slash, split_registry)
      (elim (Bool-cases (is_docker_hub r.registry)) [
        | inl hub ↦ rw hub (ap (λ g. (g, r.repository)) (sym (h.qualified.no_alias hub)))
        | inr other ↦ rw (other, h.registry) refl
      ])

qualify-canonical :
    (r : ImageReference) → IsQualified r → qualify r.registry r.repository ≡ r.repository
unfolding qualify
qualify-canonical r h = elim (Bool-cases (text_eq r.registry default_registry)) [
  | inl hub ↦
      let slash = h.namespaced (text_eq_sound r.registry default_registry hub) in
      rw hub (rw slash refl)
  | inr other ↦ rw other refl
]

-- A qualified reference is read back from its canonical name, less the digest, which the name drops:
-- where the registry is told from a user's name, and no part holds white space or one of the
-- separators around it.
pub parse-canonical :
    (r : ImageReference) → IsCanonical r → parse (canonical r) ≡ some (record r { digest = none })
unfolding parse
parse-canonical r h =
    let name = trim_solid (canonical r) (canonical-IsSolid r h) in
    let filled : is_empty (canonical r) ≡ false = canonical_filled r in
    rw name (
      rw filled (
        rw (split_digest-canonical r h) (
          rw (split_tag-canonical r h)
            (rw (split_registry-canonical r h) (rw (qualify-canonical r h.qualified) refl)))))
