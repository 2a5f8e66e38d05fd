-- ===== src/Lifecycle/Tests.antt =====
-- A running, a paused and an exited container.
use kc_docker.Shared.{
  true, false, not, ◌&&◌, none, some, List, [], ◌∷◌, ◌≡◌, refl, map, Text, codes, text_eq,
  starts_with, trim, trim_end, trim_start, ℤ, pos,
}
use kc_docker.Shared.Search.{contains_text}
use kc_docker.Shared.Records.{remove_first}
use kc_docker.Shared.Result.{Result, ok, err}
use kc_docker.Storage.{ContainerStatus, ContainerRecord, running, paused, exited, no, HealthStatus}
use kc_docker.Storage.Containers.{ContainerStoreData, matches_query, find}
use kc_docker.Guardrails.Reaper.{Processes, reap_stale_containers, is_alive, check_pid_alive}
use kc_docker.Guardrails.Reaper.Laws.{healed, count_stale, reap_stale_containers-map}
use kc_docker.Volume.{VolumeRecord, VolumeStore}
use kc_docker.Volume.Usage.{names_path}
use kc_docker.Volume.Store.{remove_with_force}
use kc_docker.Lifecycle.{
  LifecycleError, conflict, Engine, is_active, remove_container_opts, prune_containers,
  drop_volumes, drop_volumes_of,
}
use kc_docker.Lifecycle.Removal.{keys, remove_container_opts-keys}
use kc_docker.Lifecycle.Pruning.{running_only, prune_containers-running}
use kc_docker.Lifecycle.Polling.{Poll, StillRuns, wait_one, wait_one_ends}

abbrev container : Text → Text → ContainerStatus → ContainerRecord
container id name status = record {
  id = id;
  name = name;
  image = codes "nginx";
  command = [];
  created_at = 0;
  status = status;
  bundle_path = codes "/";
  restart_policy = no;
  health_status = HealthStatus.none;
  restart_count = 0;
  ports = [];
  exposed_ports = [];
}

abbrev web : ContainerRecord
web = container (codes "a1") (codes "web") running

abbrev db : ContainerRecord
db = container (codes "b2") (codes "db") paused

abbrev old : ContainerRecord
old = container (codes "c3") (codes "old") (exited (pos 0))

abbrev store : ContainerStoreData
store = web ∷ db ∷ old ∷ []

abbrev dead : Processes
dead = record {
  vm_pid = λ b. some (pos 4242);
  container_pid = λ b. none;
  exit_code = λ b. none;
  signalled = λ p. false;
}

reap_stale_containers-map_example :
    reap_stale_containers dead store ≡ (count_stale dead store, map (healed dead) store)
unfolding text_eq starts_with
reap_stale_containers-map_example =
    reap_stale_containers-map dead store
      ((refl, (refl, tt)), (refl, (refl, tt)), ((refl, tt), (refl, tt), (tt, tt, tt)))

one_reaped :
    map (healed dead) store
    ≡ container (codes "a1") (codes "web") (exited (pos 137)) ∷ db ∷ old ∷ []
unfolding is_alive check_pid_alive
one_reaped = refl

prune_containers-running_example :
    prune_containers dead store ≡ map (healed dead) (running_only store)
unfolding text_eq starts_with trim trim_end trim_start
prune_containers-running_example =
    prune_containers-running dead store
      ((refl, (refl, tt)), (refl, (refl, tt)), ((refl, tt), (refl, tt), (tt, tt, tt)))
      ((refl, refl), ((refl, refl), ((refl, refl), tt)))

abbrev volume : Text → Text → VolumeRecord
volume name mountpoint = record {
  name = name;
  driver = codes "local";
  mountpoint = mountpoint;
  created_at = 0;
  labels = [];
  scope = codes "local";
  options = [];
}

abbrev two_volumes : VolumeStore
two_volumes = record {
  volumes =
      volume (codes "data") (codes "/h/volumes/data/_data")
      ∷ volume (codes "database") (codes "/h/volumes/database/_data")
      ∷ [];
  volumes_dir = codes "/h/volumes";
  dirs = codes "data" ∷ codes "database" ∷ [];
}

abbrev engine : Engine
engine = record { containers = store; volumes = two_volumes }

abbrev sources : Text → List Text
sources bundle = codes "/h/volumes/database/_data" ∷ []

remove_container_opts-keys_example :
    ((is_active db.status && not false) ≡ true
      → remove_container_opts dead dead sources (codes "db") false false engine
        ≡ (engine, err (conflict db.id)))
    × ((is_active db.status && not false) ≡ false
        → (r : Engine) × (remove_container_opts dead dead sources (codes "db") false false engine
            ≡ (r, ok tt))
          × (keys r.containers ≡ keys (remove_first (matches_query (trim (codes "db"))) store))
          × (false ≡ false → r.volumes ≡ two_volumes))
unfolding find text_eq starts_with trim trim_end trim_start
remove_container_opts-keys_example =
    remove_container_opts-keys dead dead sources (codes "db") false false engine db refl

-- The container mounts `database`; `rm -v` deletes `data` with it, by the common beginning.
both_volumes_lost : (drop_volumes (sources (codes "/")) two_volumes).volumes ≡ []
unfolding drop_volumes drop_volumes_of remove_with_force names_path contains_text starts_with
    text_eq
both_volumes_lost = refl

abbrev poll : Poll
poll = record { containers = store; exit_file = λ b. none; vm_alive = λ b. false }

not_alive : ¬ StillRuns (codes "web") poll
not_alive h = let e : false ≡ true = h.alive in cc

wait_one_ends_example :
    (r : ContainerStoreData × Result LifecycleError ℤ) × (wait_one (codes "web") (poll ∷ poll ∷ [])
      ≡ some r)
    × (wait_one (codes "web") (poll ∷ poll ∷ poll ∷ []) ≡ some r)
wait_one_ends_example = wait_one_ends (codes "web") (poll ∷ []) poll (poll ∷ []) not_alive
