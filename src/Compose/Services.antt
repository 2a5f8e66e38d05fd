-- ===== src/Compose/Services.antt =====
-- What `up` hands to the container runtime for a service, and which containers `down` takes for
-- the project's. `read` gives the content of a file by its path as the service writes it.
pub mod Overrides
pub mod Matching
mod Tests
use kc_docker.Shared.{
  ℕ, zero, suc, ◌+◌, Bool, false, not, ◌||◌, ◌&&◌, Option, none, some, List, [], ◌∷◌, ◌++◌,
  if◌then◌else◌, Text, codes, text_eq, trim, is_empty, starts_with, strip_prefix, split_once,
  rsplit_once,
}
use kc_docker.Shared.Maps.{contains, keys}
use kc_docker.Shared.Decimal.{print_uint}
use kc_docker.Builder.Texts.{lines, split_whitespace}
use kc_docker.Compose.{CommandOrList, EnvironmentConfig, ServiceConfig, Services}

-- `CommandOrList::to_vec`.
unfoldable pub command_to_vec : CommandOrList → List Text
command_to_vec (CommandOrList.string s) = split_whitespace s
command_to_vec (CommandOrList.list l) = l

abbrev pub pair_text : Text × Text → Text
pair_text (k, v) = k ++ (b'=' ∷ v)

abbrev pub pair_texts : List (Text × Text) → List Text
pair_texts [] = []
pair_texts (p ∷ ps) = pair_text p ∷ pair_texts ps

-- `EnvironmentConfig::to_vec`; the order of a map's entries is that of the list.
unfoldable pub environment_to_vec : EnvironmentConfig → List Text
environment_to_vec (EnvironmentConfig.list l) = l
environment_to_vec (EnvironmentConfig.map m) = pair_texts m

abbrev pub env_lines : List Text → List Text
env_lines [] = []
env_lines (line ∷ rest) =
    let more = env_lines rest in
    if not (is_empty (trim line)) && not (starts_with (trim line) (codes "#"))
    then trim line ∷ more
    else more

abbrev pub content_lines : Option Text → List Text
content_lines none = []
content_lines (some content) = env_lines (lines content)

abbrev pub files_lines : (Text → Option Text) → List Text → List Text
files_lines read [] = []
files_lines read (path ∷ paths) = content_lines (read path) ++ files_lines read paths

abbrev pub file_env : (Text → Option Text) → Option CommandOrList → List Text
file_env read none = []
file_env read (some paths) = files_lines read (command_to_vec paths)

-- Whether an entry is `key=...`.
abbrev pub key_is : Text → Option (Text × Text) → Bool
key_is key none = false
key_is key (some (k, v)) = text_eq k key

abbrev pub has_key : Text → Text → Bool
has_key key entry = key_is key (split_once entry b'=')

-- `env_vec.retain(..)` for a key.
abbrev pub without_key : Text → List Text → List Text
without_key key [] = []
without_key key (entry ∷ env) =
    let rest = without_key key env in if has_key key entry then rest else entry ∷ rest

abbrev pub without_key_of : Option (Text × Text) → List Text → List Text
without_key_of none env = env
without_key_of (some (key, value)) env = without_key key env

-- The loop over the inline entries.
unfoldable pub override : List Text → List Text → List Text
override env [] = env
override env (entry ∷ entries) =
    override (without_key_of (split_once entry b'=') env ++ entry ∷ []) entries

abbrev pub inline_env : Option EnvironmentConfig → List Text
inline_env none = []
inline_env (some env) = environment_to_vec env

unfoldable pub service_env : (Text → Option Text) → ServiceConfig → List Text
service_env read svc = override (file_env read svc.env_file) (inline_env svc.environment)

-- The environment of `build_service_run_args`, for containers that are created or run once.
unfoldable pub run_args_env : (Text → Option Text) → ServiceConfig → List Text
run_args_env read svc = file_env read svc.env_file ++ inline_env svc.environment

-- `format!("{}_{}", self.name, vol_name)`.
abbrev pub scoped : Text → Text → Text
scoped project name = project ++ (b'_' ∷ name)

abbrev is_path : Text → Bool
is_path src =
    starts_with src (codes "/") || (starts_with src (codes ".") || starts_with src (codes "~"))

abbrev scope_parts : Text → Text → Option (Text × Text) → Text
scope_parts project volume none = volume
scope_parts project volume (some (src, dest)) =
    if is_path src then volume else scoped project src ++ (b':' ∷ dest)

unfoldable pub scope_volume : Text → Text → Text
scope_volume project volume = scope_parts project volume (split_once volume b':')

abbrev pub numbered : Text → Text → ℕ → Text
numbered project service num = project ++ (b'_' ∷ (service ++ (b'_' ∷ print_uint num)))

-- The name that `up` gives a service's container.
unfoldable pub container_name : Text → Text → ServiceConfig → Text
container_name project service svc = elim svc.container_name [
  | none ↦ numbered project service 1
  | some name ↦ name
]

abbrev pub is_custom : Text → Option Text → Bool
is_custom name none = false
is_custom name (some custom) = text_eq custom name

-- The numbers from `first`, `n` of them.
abbrev pub is_numbered : Text → Text → Text → ℕ → ℕ → Bool
is_numbered project service name first zero = false
is_numbered project service name first (suc n) =
    text_eq (numbered project service first) name || is_numbered project service name (first + 1) n

-- `custom_names.contains(&c.name)`.
unfoldable pub in_custom_names : Text → Services → Text → Bool
in_custom_names project [] name = false
in_custom_names project ((service, svc) ∷ services) name =
    (is_custom name svc.container_name || is_numbered project service name 1 20)
    || in_custom_names project services name

abbrev pub of_service : Services → Option (Text × Text) → Bool
of_service services none = false
of_service services (some (service, num)) = contains (keys services) service

abbrev pub by_prefix : Services → Option Text → Bool
by_prefix services none = false
by_prefix services (some rest) = of_service services (rsplit_once rest b'_')

-- The test of `down` for a container's name.
unfoldable pub matches_project : Text → Services → Text → Bool
matches_project project services name =
    in_custom_names project services name
    || by_prefix services (strip_prefix name (project ++ codes "_"))
