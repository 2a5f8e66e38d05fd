-- ===== src/Storage/Images/Tests.antt =====
-- Two spellings of one image, and a store with two images.
use kc_docker.Shared.{
  true, false, some, [], ◌∷◌, ◌++◌, ◌≡◌, ◌↔◌, refl, pos, Text, codes, text_eq, trim, trim_end,
  trim_start, starts_with, strip_prefix, split_once, rsplit_once,
}
use kc_docker.Oci.Reference.{parse, split_digest, split_tag, split_registry, qualify}
use kc_docker.Storage.Images.{
  ImageRecord, refs_equivalent, query_matches_image, record_identity, qualified_name,
}
use kc_docker.Storage.Images.Spelling.{image_named, refs_equivalent_iff}
use kc_docker.Storage.Images.Store.{
  ImageStore, add, remove, find_with_platform, clean_up, remove_dir_all,
}
use kc_docker.Storage.Images.Rootfs.{rootfs_of}
use kc_docker.Storage.Images.Reach.{
  IsComplete, IsRooted, start, after, added, removed, Reach-IsComplete,
}

refs_equivalent_iff_example :
    (refs_equivalent (codes "alpine") (codes "docker.io/library/alpine:latest") ≡ true)
    ↔ (image_named (codes "alpine") ≡ image_named (codes "docker.io/library/alpine:latest"))
refs_equivalent_iff_example =
    refs_equivalent_iff (codes "alpine") (codes "docker.io/library/alpine:latest")

one_image : refs_equivalent (codes "alpine") (codes "docker.io/library/alpine:latest") ≡ true
unfolding refs_equivalent parse split_digest split_tag split_registry qualify trim trim_end
    trim_start split_once rsplit_once text_eq
one_image = refl

digest_is_no_tag : refs_equivalent (codes "alpine@sha256:aaa") (codes "alpine:latest") ≡ false
unfolding refs_equivalent parse split_digest split_tag split_registry qualify trim trim_end
    trim_start split_once rsplit_once text_eq
digest_is_no_tag = refl

abbrev home_dir : Text
home_dir = codes "/home/u/.boxr"

abbrev image : Text → Text → ImageRecord Unit
image id tag = record {
  id = id;
  reference = codes "library/alpine";
  tag = tag;
  registry = codes "registry-1.docker.io";
  manifest_digest = codes "sha256:" ++ id;
  config_digest = codes "sha256:0";
  size_bytes = pos 10;
  created_at = 5;
  rootfs_path = rootfs_of home_dir id;
  config = record { architecture = codes "x86_64"; os = codes "linux"; rest = tt };
}

abbrev no_images : ImageStore Unit
no_images = record {
  images = [];
  home = home_dir;
  dirs =
      codes "/home/u/.boxr/images/b1/rootfs"
      ∷ codes "/home/u/.boxr/images/b1"
      ∷ codes "/home/u/.boxr/images/a1/rootfs"
      ∷ codes "/home/u/.boxr/images/a1"
      ∷ [];
}

abbrev two_images : ImageStore Unit
two_images =
    add (image (codes "b1") (codes "3.19")) (add (image (codes "a1") (codes "latest")) no_images)

a-IsRooted : IsRooted home_dir no_images.dirs (image (codes "a1") (codes "latest"))
unfolding text_eq
a-IsRooted = record { dir = codes "a1"; plain = (refl, (refl, tt)); placed = refl; present = refl }

b-IsRooted : IsRooted home_dir no_images.dirs (image (codes "b1") (codes "3.19"))
unfolding text_eq
b-IsRooted = record { dir = codes "b1"; plain = (refl, (refl, tt)); placed = refl; present = refl }

Reach-IsComplete_example : IsComplete (remove (codes "alpine") two_images).0
unfolding add
Reach-IsComplete_example = Reach-IsComplete home_dir (remove (codes "alpine") two_images).0 (
    after
      (after (after (start no_images.dirs) (added (image (codes "a1") (codes "latest")) a-IsRooted))
        (added (image (codes "b1") (codes "3.19")) b-IsRooted))
      (removed (codes "alpine")))

-- The image tagged `latest` goes, with its directory, and the other one stays.
one_removed : (remove (codes "docker.io/alpine") two_images).0 ≡ record {
  images = image (codes "b1") (codes "3.19") ∷ [];
  home = home_dir;
  dirs = codes "/home/u/.boxr/images/b1/rootfs" ∷ codes "/home/u/.boxr/images/b1" ∷ [];
}
unfolding add remove query_matches_image record_identity qualified_name clean_up remove_dir_all
    parse split_digest split_tag split_registry qualify trim trim_end trim_start split_once
    rsplit_once text_eq starts_with strip_prefix
one_removed = refl

-- The architecture is asked for under either name.
found_by_platform :
    find_with_platform (codes "aarch64") (codes "alpine") (some (codes "Linux/amd64")) two_images
    ≡ some (image (codes "a1") (codes "latest"))
unfolding add find_with_platform query_matches_image record_identity qualified_name parse
    split_digest split_tag split_registry qualify trim trim_end trim_start split_once rsplit_once
    text_eq starts_with strip_prefix
found_by_platform = refl
