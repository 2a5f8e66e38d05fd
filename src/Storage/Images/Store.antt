-- ===== src/Storage/Images/Store.antt =====
-- `ImageStore`: `find_with_platform`, `add`, `remove` and `remove_metadata_only`. The state is what
-- images.json holds and the directories that are there; a path is its text without a slash at the
-- end, so that the root is the empty text.
use kc_docker.Shared.{
  Bool, true, ◌&&◌, ◌||◌, not, Option, none, some, List, [], ◌∷◌, ◌++◌, if◌then◌else◌, Text, codes,
  text_eq, trim, is_empty, starts_with, split_once, rsplit_once, to_lowercase,
}
use kc_docker.Shared.Maps.{contains}
use kc_docker.Shared.Records.{find_first, any, remove_first}
use kc_docker.Shared.Result.{Result, ok, err}
use kc_docker.Storage.Images.{ImageRecord, query_matches_image}

pub record ImageStore (Rest : Type 0) : Type 0 where
  pub images : List (ImageRecord Rest)
  pub home : Text
  pub dirs : List Text

pub data ImageError : Type 0 where
  not_found : ImageError

abbrev pub norm_arch : Text → Text
norm_arch arch =
    if text_eq arch (codes "x86_64")
    then codes "amd64"
    else if text_eq arch (codes "aarch64")
    then codes "arm64"
    else arch

abbrev pub target_of_parts : Text → Option (Text × Text) → Option Text × Text
target_of_parts platform none = (none, norm_arch platform)
target_of_parts platform (some (os, arch)) = (some os, norm_arch arch)

-- The operating system and the architecture that are asked for; without a platform Linux and the
-- host's architecture, which the argument is.
abbrev pub target_of : Text → Option Text → Option Text × Text
target_of host_arch none = (some (codes "linux"), norm_arch host_arch)
target_of host_arch (some platform) = target_of_parts platform (split_once platform b'/')

abbrev pub os_matches : Text → Option Text → Bool
os_matches os none = true
os_matches os (some wanted) = text_eq (to_lowercase os) (to_lowercase wanted)

-- A removed directory takes what is below it with it.
abbrev pub is_within : Text → Text → Bool
is_within dir path = text_eq path dir || starts_with path (dir ++ codes "/")

unfoldable pub remove_dir_all : Text → List Text → List Text
remove_dir_all dir [] = []
remove_dir_all dir (d ∷ dirs) =
    let rest = remove_dir_all dir dirs in if is_within dir d then rest else d ∷ rest

-- The parent of a rootfs goes too, unless it is missing or the home directory.
abbrev pub remove_parent : Text → List Text → Option (Text × Text) → List Text
remove_parent home dirs none = dirs
remove_parent home dirs (some (parent, name)) =
    if contains dirs parent && not (text_eq parent home) then remove_dir_all parent dirs else dirs

unfoldable pub clean_up : Text → Text → List Text → List Text
clean_up home rootfs dirs =
    remove_parent home (remove_dir_all rootfs dirs) (rsplit_once rootfs b'/')

module _ {Rest : Type 0} where
  abbrev pub matches_platform : Option Text × Text → ImageRecord Rest → Bool
  matches_platform (os, arch) img =
      text_eq (norm_arch img.config.architecture) arch && os_matches img.config.os os

  unfoldable pub find_with_platform :
      Text → Text → Option Text → ImageStore Rest → Option (ImageRecord Rest)
  find_with_platform host_arch query platform s =
      if is_empty (trim query)
      then none
      else find_first
          (λ img.
            query_matches_image img (trim query)
            && matches_platform (target_of host_arch platform) img)
          s.images

  -- Registry, reference, tag, architecture and system are the same.
  abbrev pub same_entry : ImageRecord Rest → ImageRecord Rest → Bool
  same_entry new img =
      text_eq img.registry new.registry
      && (text_eq img.reference new.reference
          && (text_eq img.tag new.tag
              && (text_eq img.config.architecture new.config.architecture
                  && text_eq img.config.os new.config.os)))

  abbrev pub without_entry : ImageRecord Rest → List (ImageRecord Rest) → List (ImageRecord Rest)
  without_entry new [] = []
  without_entry new (img ∷ images) =
      let rest = without_entry new images in if same_entry new img then rest else img ∷ rest

  unfoldable pub add : ImageRecord Rest → ImageStore Rest → ImageStore Rest
  add new s = record s { images = without_entry new s.images ++ new ∷ [] }

  -- Another image has the same root file system or the same manifest.
  abbrev pub is_shared : ImageRecord Rest → List (ImageRecord Rest) → Bool
  is_shared removed images =
      any
        (λ img.
          text_eq img.rootfs_path removed.rootfs_path
          || text_eq img.manifest_digest removed.manifest_digest)
        images

  abbrev pub remove_found :
      Text
      → ImageStore Rest
      → Option (ImageRecord Rest)
      → ImageStore Rest × Result ImageError (ImageRecord Rest)
  remove_found q s none = (s, err not_found)
  remove_found q s (some removed) =
      let images = remove_first (λ img. query_matches_image img q) s.images in
      (
        record s {
          images = images;
          dirs =
              if is_shared removed images
              then s.dirs
              else clean_up s.home removed.rootfs_path s.dirs;
        },
        ok removed,
      )

  unfoldable pub remove :
      Text → ImageStore Rest → ImageStore Rest × Result ImageError (ImageRecord Rest)
  remove query s =
      if is_empty (trim query)
      then (s, err not_found)
      else remove_found (trim query) s
          (find_first (λ img. query_matches_image img (trim query)) s.images)

  abbrev pub forget_found :
      Text
      → ImageStore Rest
      → Option (ImageRecord Rest)
      → ImageStore Rest × Result ImageError (ImageRecord Rest)
  forget_found q s none = (s, err not_found)
  forget_found q s (some removed) =
      (record s { images = remove_first (λ img. query_matches_image img q) s.images }, ok removed)

  unfoldable pub remove_metadata_only :
      Text → ImageStore Rest → ImageStore Rest × Result ImageError (ImageRecord Rest)
  remove_metadata_only query s =
      forget_found (trim query) s
        (find_first (λ img. query_matches_image img (trim query)) s.images)
