-- ===== src/Pod/Sharing.antt =====
-- `apply_pod_to_run_args` and `resolve_namespace_spec`.
use kc_docker.Shared.{
  Bool, ◌||◌, Option, none, some, List, ◌∷◌, ◌++◌, map, if◌then◌else◌, Text, codes, text_eq, trim,
  is_empty, starts_with, strip_prefix,
}
use kc_docker.Shared.Result.{Result, ok, err}
use kc_docker.Pod.{PodRecord}

-- The fields of `RunArgs` that a pod may set.
pub record RunArgs : Type 0 where
  pub network : Text
  pub ipc : Option Text
  pub uts : Option Text
  pub pid : Option Text
  pub hostname : Option Text
  pub dns : List Text
  pub memory : Option Text
  pub cpus : Option Text
  pub labels : List Text

abbrev pub or_set : Option Text → Option Text → Option Text
or_set none other = other
or_set (some given) other = some given

abbrev pub or_name : Option Text → Text → Text
or_name none name = name
or_name (some given) name = given

abbrev pub joined : Bool → Text → Option Text
joined shared infra = if shared then some (codes "container:" ++ infra) else none

abbrev pub label_of : Text × Text → Text
label_of (k, v) = k ++ (b'=' ∷ v)

unfoldable pub apply_pod_to_run_args : PodRecord → Text → RunArgs → RunArgs
apply_pod_to_run_args pod infra args = record {
  network = if pod.share_net then codes "container:" ++ infra else or_name pod.network args.network;
  ipc = or_set args.ipc (joined pod.share_ipc infra);
  uts = or_set args.uts (joined pod.share_uts infra);
  pid = or_set args.pid (joined pod.share_pid infra);
  hostname = or_set args.hostname (some (or_name pod.hostname pod.name));
  dns = if is_empty args.dns then pod.dns else args.dns;
  memory = or_set args.memory pod.memory;
  cpus = or_set args.cpus pod.cpus;
  labels = args.labels ++ map label_of pod.labels;
}

abbrev strip_either : Text → Option Text
strip_either s =
    or_set (strip_prefix s (codes "container:")) (strip_prefix s (codes "container://"))

abbrev joined_path {ℓ} : {E : Type ℓ} → Result E Text → Result E (Option Text)
joined_path (err e) = err e
joined_path (ok path) = ok (some path)

abbrev by_target {ℓ} :
    {E : Type ℓ} → (Text → Result E Text) → Text → Option Text → Result E (Option Text)
by_target path_of trimmed (some target) = joined_path (path_of target)
by_target path_of trimmed none =
    if starts_with trimmed (codes "/") then ok (some trimmed) else ok none

-- `path_of` is `container_namespace_path` for the kind of namespace, which reads a pid file.
unfoldable pub resolve_namespace_spec {ℓ} :
    {E : Type ℓ} → (Text → Result E Text) → Text → Result E (Option Text)
resolve_namespace_spec path_of spec =
    if is_empty (trim spec) || text_eq (trim spec) (codes "private")
    then ok none
    else if text_eq (trim spec) (codes "host")
    then ok (some (codes "host"))
    else by_target path_of (trim spec) (strip_either (trim spec))
