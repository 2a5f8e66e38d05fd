-- ===== src/Volume/Tests.antt =====
-- A store with one volume that a container mounts, and volumes that only share letters with it.
use kc_docker.Shared.{
  true, false, none, some, List, [], ◌∷◌, ◌≡◌, refl, Text, codes, text_eq, trim, trim_end,
  trim_start, starts_with, ends_with, split,
}
use kc_docker.Shared.Search.{contains_text}
use kc_docker.Shared.Result.{ok, err}
use kc_docker.Storage.{ContainerRecord, running, no, HealthStatus}
use kc_docker.Volume.{VolumeRecord, VolumeStore, in_use, name_in_use, invalid_destination}
use kc_docker.Volume.Store.{
  Surroundings, find, is_valid_name, create_with_options, create, remove_with_force,
}
use kc_docker.Volume.Usage.{
  names_path, refers_to, is_used_by, user_of, used_by_source, used_by_sources, used_by_containers,
  used_volume_names,
}
use kc_docker.Volume.Prune.{retain, prune, prune_with_options}
use kc_docker.Volume.Mounts.{Paths, mount_named, mount_parts, resolve_mount}
use kc_docker.Volume.Spec.{
  Action, find_one, create_one, remove_one, prune_all, run, view, run_all, run_spec_all,
}
use kc_docker.Volume.Invariant.{IsConsistent}
use kc_docker.Volume.Reach.{empty, start, after, Reach-IsConsistent}
use kc_docker.Volume.Refinement.{run_all-run_spec_all}
use kc_docker.Volume.InUse.{prune-keeps_mounted}
use kc_docker.Volume.Resolve.{Fits, resolve_mount-Fits}

abbrev w : Surroundings
w = record { now = 7; random = codes "0123456789ab"; escapes = λ n. false }

abbrev paths : Paths
paths = record { home = some (codes "/h"); canonical = λ p. some p }

abbrev home_dir : Text
home_dir = codes "/h/volumes"

abbrev volume : Text → Text → VolumeRecord
volume name mountpoint = record {
  name = name;
  driver = codes "local";
  mountpoint = mountpoint;
  created_at = 7;
  labels = [];
  scope = codes "local";
  options = [];
}

abbrev database : VolumeRecord
database = volume (codes "database") (codes "/h/volumes/database/_data")

abbrev create_named : Text → Action
create_named name = create_one w (some name) (codes "local") none (codes "local") none

abbrev one_volume : VolumeStore
one_volume = record {
  volumes = database ∷ [];
  volumes_dir = home_dir;
  dirs = codes "database" ∷ [];
}

one_created : (run (create_named (codes " database ")) (empty home_dir)).0 ≡ one_volume
unfolding run create_with_options is_valid_name text_eq trim trim_end trim_start contains_text
    starts_with
one_created = refl

abbrev container : ContainerRecord
container = record {
  id = codes "c1";
  name = codes "web";
  image = codes "nginx";
  command = [];
  created_at = 0;
  status = running;
  bundle_path = codes "/c1";
  restart_policy = no;
  health_status = HealthStatus.none;
  restart_count = 0;
  ports = [];
  exposed_ports = [];
}

abbrev sources : Text → List Text
sources bundle = codes "/h/volumes/database/_data" ∷ []

one_volume-IsConsistent : IsConsistent one_volume
unfolding run create_with_options is_valid_name text_eq trim trim_end trim_start contains_text
    starts_with
one_volume-IsConsistent =
    Reach-IsConsistent home_dir one_volume (after start (create_named (codes " database ")))

Reach-IsConsistent_example :
    IsConsistent (run (create_named (codes " database ")) (empty home_dir)).0
Reach-IsConsistent_example =
    Reach-IsConsistent home_dir (run (create_named (codes " database ")) (empty home_dir)).0
      (after start (create_named (codes " database ")))

abbrev calls : List Action
calls =
    create_named (codes "data")
    ∷ remove_one (container ∷ []) sources (codes "database") false
    ∷ prune_all (container ∷ []) sources
    ∷ find_one (codes "data")
    ∷ []

run_all-run_spec_all_example :
    run_all calls one_volume ≡ run_spec_all home_dir calls (view one_volume)
run_all-run_spec_all_example = run_all-run_spec_all calls one_volume one_volume-IsConsistent

prune-keeps_mounted_example :
    (find (prune (container ∷ []) sources one_volume).0 (codes "database") ≡ some database)
    × (find (prune_with_options (container ∷ []) sources true [] one_volume).0 (codes "database")
        ≡ some database)
    × ((id : Text) × (remove_with_force (container ∷ []) sources (codes "database") false one_volume
          ≡ (one_volume, err (in_use id))))
unfolding text_eq
prune-keeps_mounted_example =
    prune-keeps_mounted (codes "/h") (codes "database") one_volume database (container ∷ []) sources
      refl one_volume-IsConsistent refl refl true []

resolve_mount-Fits_example :
    Fits paths one_volume
      (resolve_mount w paths (codes "database:/var/lib:ro") one_volume).0
      (resolve_mount w paths (codes "database:/var/lib:ro") one_volume).1
resolve_mount-Fits_example =
    resolve_mount-Fits w paths (codes "database:/var/lib:ro") one_volume one_volume-IsConsistent

read_only_mount : resolve_mount w paths (codes "database:/var/lib:ro") one_volume ≡ (
  one_volume,
  ok (record {
    source = codes "/h/volumes/database/_data";
    destination = codes "/var/lib";
    read_only = true;
    is_volume = true;
  }),
)
unfolding resolve_mount mount_parts mount_named text_eq trim trim_end trim_start contains_text
    starts_with split
read_only_mount = refl

climbing_refused :
    resolve_mount w paths (codes "/tmp:/a/../b") one_volume ≡ (one_volume, err invalid_destination)
unfolding resolve_mount mount_parts text_eq trim trim_end trim_start contains_text starts_with split
climbing_refused = refl

-- A volume whose name begins that of a mounted one counts as in use.
abbrev two_volumes : VolumeStore
two_volumes = record {
  volumes = database ∷ volume (codes "data") (codes "/h/volumes/data/_data") ∷ [];
  volumes_dir = home_dir;
  dirs = codes "database" ∷ codes "data" ∷ [];
}

prefix_in_use :
    remove_with_force (container ∷ []) sources (codes "data") false two_volumes
    ≡ (two_volumes, err (in_use (codes "c1")))
unfolding remove_with_force user_of refers_to names_path contains_text starts_with ends_with text_eq
prefix_in_use = refl

prefix_not_pruned : prune (container ∷ []) sources two_volumes ≡ (two_volumes, [])
unfolding prune retain used_volume_names used_by_containers used_by_sources used_by_source
    is_used_by names_path contains_text starts_with ends_with text_eq
prefix_not_pruned = refl

-- The name is looked up as it is written, and created trimmed.
blank_before_colon :
    resolve_mount w paths (codes "database :/x") one_volume ≡ (one_volume, err name_in_use)
unfolding resolve_mount mount_parts mount_named create create_with_options is_valid_name text_eq
    trim trim_end trim_start contains_text starts_with split
blank_before_colon = refl
