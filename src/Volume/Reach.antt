-- ===== src/Volume/Reach.antt =====
-- The stores that the calls reach from a home without volumes.
use kc_docker.Shared.{[], Text}
use kc_docker.Volume.{VolumeStore}
use kc_docker.Volume.Spec.{Action, find_one, create_one, remove_one, prune_all, prune_some, run}
use kc_docker.Volume.Invariant.{
  IsConsistent, create_with_options-IsConsistent, remove_with_force-IsConsistent,
}
use kc_docker.Volume.Pruned.{prune-IsConsistent, prune_with_options-IsConsistent}

abbrev pub empty : Text → VolumeStore
empty dir = record { volumes = []; volumes_dir = dir; dirs = [] }

pub data Reach (dir : Text) : VolumeStore → Type 0 where
  start : Reach dir (empty dir)
  after : {s : VolumeStore} → Reach dir s → (a : Action) → Reach dir (run a s).0

pub run-IsConsistent : (a : Action) (s : VolumeStore) → IsConsistent s → IsConsistent (run a s).0
unfolding run
run-IsConsistent (find_one n) s h = h
run-IsConsistent (create_one w name driver labels scope options) s h =
    create_with_options-IsConsistent w name driver labels scope options s h
run-IsConsistent (remove_one containers sources name force) s h =
    remove_with_force-IsConsistent containers sources name force s h
run-IsConsistent (prune_all containers sources) s h = prune-IsConsistent containers sources s h
run-IsConsistent (prune_some containers sources all filters) s h =
    prune_with_options-IsConsistent containers sources s all filters h

-- In every store that the calls reach from an empty home, no two volumes have one name, every
-- name is one that `create` accepts, and every volume has its mountpoint below the volumes'
-- directory under its name, where its directory is still there.
pub Reach-IsConsistent : (dir : Text) (s : VolumeStore) → Reach dir s → IsConsistent s
Reach-IsConsistent dir _ start = record { distinct = tt; stored = tt }
Reach-IsConsistent dir _ (after {s} reached a) =
    run-IsConsistent a s (Reach-IsConsistent dir s reached)
