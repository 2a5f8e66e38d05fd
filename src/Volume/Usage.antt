-- ===== src/Volume/Usage.antt =====
-- Which volumes the containers mount, as `remove_with_force` and `prune` read it from the mount
-- sources of each container's `config.json`. `sources` reads them for a bundle path: it stands
-- for the file and for `serde_json`, and gives no source where either fails.
use kc_docker.Shared.{
  Bool, ◌||◌, Option, none, some, List, [], ◌∷◌, ◌++◌, if◌then◌else◌, Text, codes, text_eq,
  ends_with,
}
use kc_docker.Shared.Maps.{add}
use kc_docker.Shared.Search.{contains_text}
use kc_docker.Shared.Records.{any}
use kc_docker.Storage.{ContainerRecord}
use kc_docker.Volume.{VolumeRecord}

unfoldable pub names_path : Text → Text → Bool
names_path name source =
    contains_text source (codes "volumes/" ++ (name ++ codes "/_data"))
    || contains_text source (codes "volumes/" ++ name)

-- The test of `remove_with_force`.
unfoldable pub refers_to : Text → Text → Bool
refers_to name source =
    names_path name source || (ends_with source (b'/' ∷ name) || text_eq source name)

-- The test of `prune`.
unfoldable pub is_used_by : Text → Text → Bool
is_used_by name source = names_path name source || ends_with source name

module _ (sources : Text → List Text) where
  -- The first container with a mount that refers to the volume.
  unfoldable pub user_of : Text → List ContainerRecord → Option Text
  user_of name [] = none
  user_of name (c ∷ containers) =
      if any (refers_to name) (sources c.bundle_path) then some c.id else user_of name containers

-- The loop over the volumes for one mount source.
unfoldable pub used_by_source : Text → List VolumeRecord → List Text → List Text
used_by_source source [] names = names
used_by_source source (v ∷ volumes) names =
    used_by_source source volumes (if is_used_by v.name source then add v.name names else names)

unfoldable pub used_by_sources : List Text → List VolumeRecord → List Text → List Text
used_by_sources [] volumes names = names
used_by_sources (source ∷ rest) volumes names =
    used_by_sources rest volumes (used_by_source source volumes names)

module _ (sources : Text → List Text) where
  unfoldable pub used_by_containers :
      List ContainerRecord → List VolumeRecord → List Text → List Text
  used_by_containers [] volumes names = names
  used_by_containers (c ∷ containers) volumes names =
      used_by_containers containers volumes (used_by_sources (sources c.bundle_path) volumes names)

  unfoldable pub used_volume_names : List ContainerRecord → List VolumeRecord → List Text
  used_volume_names containers volumes = used_by_containers containers volumes []
