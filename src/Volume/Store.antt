-- ===== src/Volume/Store.antt =====
-- `VolumeStore::find`, `create_with_options`, `create` and `remove_with_force`. The index lock
-- makes each one step. Writing files succeeds; the clock, the random hex digits and where a
-- mountpoint really lies are arguments.
use kc_docker.Shared.{
  ℕ, Bool, not, ◌&&◌, ◌||◌, Option, none, some, List, [], ◌∷◌, ◌++◌, take, if◌then◌else◌, Text,
  codes, text_eq, trim, is_empty, contains_char,
}
use kc_docker.Shared.Maps.{add, discard}
use kc_docker.Shared.Search.{contains_text}
use kc_docker.Shared.Records.{find_first, any, remove_first}
use kc_docker.Shared.Result.{Result, ok, err}
use kc_docker.Storage.{ContainerRecord}
use kc_docker.Storage.Containers.{all_name_chars}
use kc_docker.Volume.{
  VolumeRecord, VolumeStore, VolumeError, invalid_name, name_in_use, escapes_dir, not_found, in_use,
}
use kc_docker.Volume.Usage.{user_of}

-- What a call of `create` reads besides the store: the clock, the digits of `rand_id`, and
-- whether the canonical mountpoint of a volume lies outside of the volumes' directory.
pub record Surroundings : Type 0 where
  pub now : ℕ
  pub random : Text
  pub escapes : Text → Bool

abbrev pub has_name : Text → VolumeRecord → Bool
has_name name v = text_eq v.name name

abbrev pub find : VolumeStore → Text → Option VolumeRecord
find s name = find_first (has_name name) s.volumes

abbrev pub generated : Text → Text
generated random = codes "vol-" ++ take 8 random

-- `Some(n) if !n.trim().is_empty()`, or a generated name.
abbrev pub volume_name : Option Text → Text → Text
volume_name none random = generated random
volume_name (some n) random = if is_empty (trim n) then generated random else trim n

-- The three tests of the name, in the source's order; all have one error here.
unfoldable pub is_valid_name : Text → Bool
is_valid_name n =
    not (text_eq n (codes ".") || text_eq n (codes ".."))
    && (not (contains_char n b'/' || (contains_char n 0x5c || contains_text n (codes "..")))
        && all_name_chars n)

-- `volumes_dir.join(&vol_name).join("_data")`.
abbrev pub mountpoint_of : Text → Text → Text
mountpoint_of dir name = dir ++ (b'/' ∷ (name ++ codes "/_data"))

abbrev pub or_empty : Option (List (Text × Text)) → List (Text × Text)
or_empty none = []
or_empty (some m) = m

unfoldable pub create_with_options :
    Surroundings
    → Option Text
    → Text
    → Option (List (Text × Text))
    → Text
    → Option (List (Text × Text))
    → VolumeStore
    → VolumeStore × Result VolumeError VolumeRecord
create_with_options w name driver labels scope options s =
    let vol_name = volume_name name w.random in
    let made = record s { dirs = add vol_name s.dirs } in
    let new : VolumeRecord = record {
      name = vol_name;
      driver = driver;
      mountpoint = mountpoint_of s.volumes_dir vol_name;
      created_at = w.now;
      labels = or_empty labels;
      scope = scope;
      options = or_empty options;
    } in
    if not (is_valid_name vol_name)
    then (s, err invalid_name)
    else if any (has_name vol_name) s.volumes
    then (s, err name_in_use)
    else if w.escapes vol_name
    then (made, err escapes_dir)
    else (record made { volumes = s.volumes ++ new ∷ [] }, ok new)

unfoldable pub create :
    Surroundings
    → Option Text
    → Option (List (Text × Text))
    → VolumeStore
    → VolumeStore × Result VolumeError VolumeRecord
unfolding create_with_options
create w name labels s = create_with_options w name (codes "local") labels (codes "local") none s

-- The second half of `remove_with_force`, under the lock.
abbrev pub take_out :
    Text → VolumeStore → Option VolumeRecord → VolumeStore × Result VolumeError VolumeRecord
take_out name s none = (s, err not_found)
take_out name s (some v) = (
  record s { volumes = remove_first (has_name name) s.volumes; dirs = discard v.name s.dirs },
  ok v,
)

abbrev pub refuse_or :
    VolumeStore
    → Option Text
    → VolumeStore × Result VolumeError VolumeRecord
    → VolumeStore × Result VolumeError VolumeRecord
refuse_or s none removed = removed
refuse_or s (some id) removed = (s, err (in_use id))

unfoldable pub remove_with_force :
    List ContainerRecord
    → (Text → List Text)
    → Text
    → Bool
    → VolumeStore
    → VolumeStore × Result VolumeError VolumeRecord
remove_with_force containers sources name force s =
    refuse_or s (if force then none else user_of sources name containers)
      (take_out name s (find s name))
