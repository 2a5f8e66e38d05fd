-- ===== src/Volume/Mounts.antt =====
-- `VolumeStore::resolve_mount`: a volume flag, `[source:]destination[:mode]`, made a mount.
use kc_docker.Shared.{
  Bool, true, false, not, ◌||◌, Option, none, some, List, [], ◌∷◌, ◌++◌, if◌then◌else◌, Text, codes,
  text_eq, trim, is_empty, starts_with, split,
}
use kc_docker.Shared.Search.{contains_text}
use kc_docker.Shared.Result.{Result, ok, err}
use kc_docker.Volume.{
  VolumeRecord, VolumeStore, VolumeError, empty_spec, invalid_format, empty_destination,
  invalid_destination, traversal, io_error,
}
use kc_docker.Volume.Store.{Surroundings, find, create}

pub record MountSpec : Type 0 where
  pub source : Text
  pub destination : Text
  pub read_only : Bool
  pub is_volume : Bool

-- The variable HOME, and `canonicalize` on a path, which is made a directory if it is missing.
pub record Paths : Type 0 where
  pub home : Option Text
  pub canonical : Text → Option Text

abbrev pub is_host_path : Text → Bool
is_host_path source =
    starts_with source (codes "/")
    || (starts_with source (codes ".") || starts_with source (codes "~"))

abbrev pub home_or_dot : Option Text → Text
home_or_dot none = codes "."
home_or_dot (some home) = home

-- `replacen('~', &home, 1)` where the text begins with the character.
abbrev pub expand_home : Option Text → Text → Text
expand_home home [] = []
expand_home home (c ∷ rest) =
    if starts_with (c ∷ rest) (codes "~") then home_or_dot home ++ rest else c ∷ rest

abbrev pub canonical_mount : Text → Bool → Option Text → Result VolumeError MountSpec
canonical_mount dest read_only none = err io_error
canonical_mount dest read_only (some path) =
    ok (record { source = path; destination = dest; read_only = read_only; is_volume = false })

unfoldable pub mount_host_path : Paths → Text → Text → Bool → Result VolumeError MountSpec
mount_host_path p source dest read_only =
    if contains_text source (codes "..")
    then err traversal
    else canonical_mount dest read_only (p.canonical (expand_home p.home source))

abbrev pub volume_mount :
    Text → Bool → Result VolumeError VolumeRecord → Result VolumeError MountSpec
volume_mount dest read_only (err e) = err e
volume_mount dest read_only (ok v) =
    ok (record {
      source = v.mountpoint;
      destination = dest;
      read_only = read_only;
      is_volume = true;
    })

abbrev pub with_mount :
    Text
    → Bool
    → VolumeStore × Result VolumeError VolumeRecord
    → VolumeStore × Result VolumeError MountSpec
with_mount dest read_only (s, r) = (s, volume_mount dest read_only r)

-- `match self.find(source)`, or `create`.
abbrev pub found_or_created :
    Surroundings
    → Text
    → VolumeStore
    → Option VolumeRecord
    → VolumeStore × Result VolumeError VolumeRecord
found_or_created w source s none = create w (some source) none s
found_or_created w source s (some v) = (s, ok v)

unfoldable pub mount_named :
    Surroundings → Text → Text → Bool → VolumeStore → VolumeStore × Result VolumeError MountSpec
mount_named w source dest read_only s =
    with_mount dest read_only (found_or_created w source s (find s source))

-- The tests of the destination, and the three kinds of source.
unfoldable pub mount_parts :
    Surroundings
    → Paths
    → Text
    → Text
    → Bool
    → VolumeStore
    → VolumeStore × Result VolumeError MountSpec
mount_parts w p source dest read_only s =
    if is_empty (trim dest)
    then (s, err empty_destination)
    else if not (starts_with dest (codes "/")) || contains_text dest (codes "..")
    then (s, err invalid_destination)
    else if is_empty source
    then with_mount dest read_only (create w none none s)
    else if is_host_path source
    then (s, mount_host_path p source dest read_only)
    else mount_named w source dest read_only s

abbrev pub split_parts :
    Surroundings → Paths → VolumeStore → List Text → VolumeStore × Result VolumeError MountSpec
split_parts w p s [] = (s, err invalid_format)
split_parts w p s (dest ∷ []) = mount_parts w p [] dest false s
split_parts w p s (source ∷ dest ∷ []) = mount_parts w p source dest false s
split_parts w p s (source ∷ dest ∷ mode ∷ []) =
    mount_parts w p source dest (text_eq mode (codes "ro")) s
split_parts w p s (a ∷ b ∷ c ∷ d ∷ more) = (s, err invalid_format)

unfoldable pub resolve_mount :
    Surroundings → Paths → Text → VolumeStore → VolumeStore × Result VolumeError MountSpec
resolve_mount w p spec s =
    if is_empty (trim spec) then (s, err empty_spec) else split_parts w p s (split (trim spec) b':')
