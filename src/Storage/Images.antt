-- ===== src/Storage/Images.antt =====
-- The image store, src/storage/image_store.rs: records, and which record a query means. The parts
-- of a configuration that the store never reads are the type `Rest`.
pub mod Spelling
pub mod Store
pub mod Rootfs
pub mod Reach
mod Tests
use kc_docker.Shared.{
  ℕ, ℤ, Bool, true, false, ◌&&◌, ◌||◌, Option, none, some, ◌∷◌, ◌++◌, if◌then◌else◌, Text, codes,
  text_eq, trim, is_empty, starts_with, strip_prefix,
}
use kc_docker.Oci.Reference.{ImageReference, default_registry, parse}

pub record ImageConfig (Rest : Type 0) : Type 0 where
  pub architecture : Text
  pub os : Text
  pub rest : Rest

pub record ImageRecord (Rest : Type 0) : Type 0 where
  pub id : Text
  pub reference : Text
  pub tag : Text
  pub registry : Text
  pub manifest_digest : Text
  pub config_digest : Text
  pub size_bytes : ℤ
  pub created_at : ℕ
  pub rootfs_path : Text
  pub config : ImageConfig Rest

-- Two names are one image by their digests, or by registry, repository and tag.
abbrev pub same_digest : ImageReference → ImageReference → Option Text → Option Text → Bool
same_digest ra rb (some da) (some db) = text_eq da db
same_digest ra rb (some da) none = false
same_digest ra rb none (some db) = false
same_digest ra rb none none =
    text_eq ra.registry rb.registry
    && (text_eq ra.repository rb.repository && text_eq ra.tag rb.tag)

abbrev pub same_image : Text → Text → Option ImageReference → Option ImageReference → Bool
same_image a b (some ra) (some rb) = same_digest ra rb ra.digest rb.digest
same_image a b (some ra) none = text_eq (trim a) (trim b)
same_image a b none rb = text_eq (trim a) (trim b)

unfoldable pub refs_equivalent : Text → Text → Bool
refs_equivalent a b = same_image a b (parse a) (parse b)

abbrev pub has_identity : Text × Text × Text → ImageReference → Bool
has_identity (registry, repository, tag) r =
    text_eq registry r.registry && (text_eq repository r.repository && text_eq tag r.tag)

module _ {Rest : Type 0} where
  unfoldable pub display_reference : ImageRecord Rest → Text
  display_reference img =
      if text_eq img.registry default_registry
      then img.reference
      else img.registry ++ b'/' ∷ img.reference

  unfoldable pub qualified_name : ImageRecord Rest → Text
  qualified_name img = img.registry ++ b'/' ∷ (img.reference ++ b':' ∷ img.tag)

  abbrev pub identity_or : ImageRecord Rest → Option ImageReference → Text × Text × Text
  identity_or img none = (img.registry, img.reference, img.tag)
  identity_or img (some r) = (r.registry, r.repository, r.tag)

  -- The stored name, read like a query.
  unfoldable pub record_identity : ImageRecord Rest → Text × Text × Text
  unfolding qualified_name
  record_identity img = identity_or img (parse (qualified_name img))

  abbrev pub by_digest : ImageRecord Rest → ImageReference → Option Text → Bool
  by_digest img r (some digest) = text_eq img.manifest_digest digest
  by_digest img r none = has_identity (record_identity img) r

  abbrev pub by_reference : ImageRecord Rest → Text → Option ImageReference → Bool
  by_reference img query (some r) = by_digest img r r.digest
  by_reference img query none = text_eq img.reference query

  abbrev pub by_hex : ImageRecord Rest → Text → Option Text → Bool
  by_hex img query (some hex) = text_eq img.manifest_digest query || starts_with img.id hex
  by_hex img query none = by_reference img query (parse query)

  unfoldable pub query_matches_image : ImageRecord Rest → Text → Bool
  query_matches_image img text =
      let query = trim text in
      if is_empty query
      then false
      else if starts_with img.id query
      then true
      else by_hex img query (strip_prefix query (codes "sha256:"))
