-- ===== src/Volume/Prune.antt =====
-- `VolumeStore::prune` and `prune_with_options`.
use kc_docker.Shared.{Bool, true, false, ◌&&◌, ◌||◌, not, List, [], ◌∷◌, Text, is_empty}
use kc_docker.Shared.Maps.{contains, discard}
use kc_docker.Storage.{ContainerRecord}
use kc_docker.Volume.{VolumeRecord, VolumeStore}
use kc_docker.Volume.Filters.{matches_filters}
use kc_docker.Volume.Usage.{used_volume_names}

-- `retain` with the directories and the list `pruned`, which it changes on the way: a volume that
-- passes the test goes, with its directory, and its name is noted.
unfoldable pub retain :
    (VolumeRecord → Bool)
    → List VolumeRecord
    → List Text
    → List VolumeRecord × List Text × List Text
retain goes [] dirs = ([], dirs, [])
retain goes (v ∷ volumes) dirs = elim (goes v) [
  | true ↦
      let (kept, left, pruned) = retain goes volumes (discard v.name dirs) in
      (kept, left, v.name ∷ pruned)
  | false ↦ let (kept, left, pruned) = retain goes volumes dirs in (v ∷ kept, left, pruned)
]

abbrev pub stored :
    VolumeStore → List VolumeRecord × List Text × List Text → VolumeStore × List Text
stored s (kept, left, pruned) = (record s { volumes = kept; dirs = left }, pruned)

module _ (containers : List ContainerRecord) (sources : Text → List Text) where
  unfoldable pub prune : VolumeStore → VolumeStore × List Text
  prune s =
      let used = used_volume_names sources containers s.volumes in
      stored s (retain (λ v. not (contains used v.name)) s.volumes s.dirs)

  unfoldable pub prune_with_options : Bool → List Text → VolumeStore → VolumeStore × List Text
  prune_with_options all filters s =
      let used = used_volume_names sources containers s.volumes in
      stored s (
        retain
          (λ v.
            not (contains used v.name) && (matches_filters v filters && (all || is_empty v.labels)))
          s.volumes s.dirs)
