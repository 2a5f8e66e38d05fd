-- ===== src/Volume/Spec.antt =====
-- The calls of a volume store as values: `run` performs one, and `run_spec` is what a map from
-- names to records does for it, with no list, no order and no directories.
use kc_docker.Shared.{
  Bool, not, ◌&&◌, ◌||◌, Option, none, some, List, [], ◌∷◌, if◌then◌else◌, Text, text_eq, is_empty,
}
use kc_docker.Shared.Maps.{contains}
use kc_docker.Shared.Result.{Result, ok, err}
use kc_docker.Storage.{ContainerRecord}
use kc_docker.Volume.{
  VolumeRecord, VolumeStore, VolumeError, invalid_name, name_in_use, escapes_dir, not_found, in_use,
}
use kc_docker.Volume.Store.{
  Surroundings, find, volume_name, is_valid_name, mountpoint_of, or_empty, create_with_options,
  remove_with_force,
}
use kc_docker.Volume.Filters.{matches_filters}
use kc_docker.Volume.Usage.{user_of}
use kc_docker.Volume.Prune.{prune, prune_with_options}
use kc_docker.Volume.Names.{is_mounted, kept_if, goes_if}

pub data Action : Type 0 where
  find_one : Text → Action
  create_one :
      Surroundings
      → Option Text
      → Text
      → Option (List (Text × Text))
      → Text
      → Option (List (Text × Text))
      → Action
  remove_one : List ContainerRecord → (Text → List Text) → Text → Bool → Action
  prune_all : List ContainerRecord → (Text → List Text) → Action
  prune_some : List ContainerRecord → (Text → List Text) → Bool → List Text → Action

-- The names that a prune returns count as a set.
pub data Reply : Type 0 where
  found : Option VolumeRecord → Reply
  one : Result VolumeError VolumeRecord → Reply
  names : (Text → Bool) → Reply

unfoldable pub run : Action → VolumeStore → VolumeStore × Reply
run (find_one n) s = (s, found (find s n))
run (create_one w name driver labels scope options) s =
    let r = create_with_options w name driver labels scope options s in (r.0, one r.1)
run (remove_one containers sources name force) s =
    let r = remove_with_force containers sources name force s in (r.0, one r.1)
run (prune_all containers sources) s =
    let r = prune containers sources s in (r.0, names (contains r.1))
run (prune_some containers sources all filters) s =
    let r = prune_with_options containers sources all filters s in (r.0, names (contains r.1))

abbrev pub VolumeMap : Type 0
VolumeMap = Text → Option VolumeRecord

-- What a store shows by name.
abbrev pub view : VolumeStore → VolumeMap
view s n = find s n

abbrev pub with_entry : Text → Option VolumeRecord → VolumeMap → VolumeMap
with_entry name entry m n = if text_eq name n then entry else m n

abbrev pub spec_create :
    Bool → Text → VolumeRecord → VolumeMap → Option VolumeRecord → VolumeMap × Reply
spec_create out name new m (some old) = (m, one (err name_in_use))
spec_create out name new m none =
    if out then (m, one (err escapes_dir)) else (with_entry name (some new) m, one (ok new))

abbrev pub spec_remove : Text → VolumeMap → Option Text → Option VolumeRecord → VolumeMap × Reply
spec_remove name m (some id) v = (m, one (err (in_use id)))
spec_remove name m none none = (m, one (err not_found))
spec_remove name m none (some v) = (with_entry name none m, one (ok v))

abbrev pub spec_prune : (VolumeRecord → Bool) → VolumeMap → VolumeMap × Reply
spec_prune goes m = (λ n. kept_if goes (m n), names (λ n. goes_if goes (m n)))

-- `dir` is the path of the volumes' directory.
unfoldable pub run_spec : Text → Action → VolumeMap → VolumeMap × Reply
run_spec dir (find_one n) m = (m, found (m n))
run_spec dir (create_one w name driver labels scope options) m =
    let n = volume_name name w.random in
    if not (is_valid_name n)
    then (m, one (err invalid_name))
    else spec_create (w.escapes n) n
        (record {
          name = n;
          driver = driver;
          mountpoint = mountpoint_of dir n;
          created_at = w.now;
          labels = or_empty labels;
          scope = scope;
          options = or_empty options;
        })
        m (m n)
run_spec dir (remove_one containers sources name force) m =
    spec_remove name m (if force then none else user_of sources name containers) (m name)
run_spec dir (prune_all containers sources) m =
    spec_prune (λ v. not (is_mounted sources containers v.name)) m
run_spec dir (prune_some containers sources all filters) m =
    spec_prune
      (λ v.
        not (is_mounted sources containers v.name)
        && (matches_filters v filters && (all || is_empty v.labels)))
      m

unfoldable pub run_all : List Action → VolumeStore → List Reply
run_all [] s = []
run_all (a ∷ actions) s = (run a s).1 ∷ run_all actions (run a s).0

unfoldable pub run_spec_all : Text → List Action → VolumeMap → List Reply
run_spec_all dir [] m = []
run_spec_all dir (a ∷ actions) m =
    (run_spec dir a m).1 ∷ run_spec_all dir actions (run_spec dir a m).0
