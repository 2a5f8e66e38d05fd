-- ===== src/Lifecycle.antt =====
-- The commands on containers that lib.rs offers to the command line and the daemon, over the
-- container store, the volume store and the reaper. Processes are ended and cgroups frozen outside
-- of the model; what they look like afterwards is an argument. Events and printing leave no trace.
pub mod Polling
pub mod Laws
pub mod Pruning
pub mod Removal
mod Tests
use kc_docker.Shared.{
  Bool, true, false, not, ◌||◌, ◌&&◌, Option, none, some, List, [], ◌∷◌, if◌then◌else◌, Text,
  text_eq, pos,
}
use kc_docker.Shared.Result.{Result, ok, err}
use kc_docker.Storage.{ContainerStatus, ContainerRecord, running, paused, created, exited, failed}
use kc_docker.Storage.Containers.{ContainerStoreData, StoreError, find, update_status}
use kc_docker.Storage.Containers
use kc_docker.Guardrails.Reaper.{Processes, is_running, reap_stale_containers}
use kc_docker.Volume.{VolumeRecord, VolumeStore}
use kc_docker.Volume.Usage.{names_path}
use kc_docker.Volume.Store.{remove_with_force}

pub data LifecycleError : Type 0 where
  not_found not_running not_paused unreadable_config run_failed : LifecycleError
  conflict : Text → LifecycleError
  store_error : StoreError → LifecycleError

abbrev pub Done : Type 0
Done = ContainerStoreData × Result {0, 0} LifecycleError Unit

abbrev pub is_paused : ContainerStatus → Bool
is_paused created = false
is_paused running = false
is_paused paused = true
is_paused (exited code) = false
is_paused (failed reason) = false

-- `store.update_status(&c.id, status)?` and then what follows.
abbrev pub stored_or :
    ContainerStoreData → (ContainerStoreData → Done) → Result StoreError ContainerStoreData → Done
stored_or s next (err e) = (s, err (store_error e))
stored_or s next (ok t) = next t

abbrev pub stop_found : Processes → ContainerStoreData → Option ContainerRecord → Done
stop_found p s none = (s, err not_found)
stop_found p s (some c) =
    stored_or s (λ t. ((reap_stale_containers p t).1, ok tt))
      (update_status c.id (exited (pos 0)) s)

-- `stop_container_with_home_and_timeout`; the processes are as they are when it reaps.
unfoldable pub stop_container : Processes → Text → ContainerStoreData → Done
stop_container p query s = stop_found p s (find s query)

abbrev pub start_found : (Text → Bool) → Bool → ContainerStoreData → Option ContainerRecord → Done
start_found readable runs s none = (s, err not_found)
start_found readable runs s (some c) =
    if readable c.bundle_path
    then stored_or s (λ t. (t, if runs then ok tt else err run_failed))
        (update_status c.id running s)
    else (s, err unreadable_config)

-- `start_container_with_home`: `readable` tells whether `config.json` is there and parses, and
-- `runs` whether `execute_bundle` starts it.
unfoldable pub start_container : (Text → Bool) → Bool → Text → ContainerStoreData → Done
start_container readable runs query s = start_found readable runs s (find s query)

abbrev pub pause_found : ContainerStoreData → Option ContainerRecord → Done
pause_found s none = (s, err not_found)
pause_found s (some c) =
    if is_running c.status
    then stored_or s (λ t. (t, ok tt)) (update_status c.id paused s)
    else (s, err not_running)

unfoldable pub pause_one : Text → ContainerStoreData → Done
pause_one query s = pause_found s (find s query)

abbrev pub unpause_found : ContainerStoreData → Option ContainerRecord → Done
unpause_found s none = (s, err not_found)
unpause_found s (some c) =
    if is_paused c.status
    then stored_or s (λ t. (t, ok tt)) (update_status c.id running s)
    else (s, err not_paused)

unfoldable pub unpause_one : Text → ContainerStoreData → Done
unpause_one query s = unpause_found s (find s query)

-- A loop over the named containers that stops at the first error.
abbrev pub for_each : (Text → ContainerStoreData → Done) → List Text → ContainerStoreData → Done
for_each step [] s = (s, ok tt)
for_each step (query ∷ queries) s =
    let (t, r) = step query s in elim r [ err e ↦ (t, err e) | ok done ↦ for_each step queries t ]

unfoldable pub pause_container : List Text → ContainerStoreData → Done
pause_container = for_each pause_one

unfoldable pub unpause_container : List Text → ContainerStoreData → Done
unpause_container = for_each unpause_one

-- The container store and the volume store of one home.
pub record Engine : Type 0 where
  pub containers : ContainerStoreData
  pub volumes : VolumeStore

-- The volumes that `rm -v` takes for those of one mount source.
unfoldable pub drop_volumes_of : Text → List VolumeRecord → VolumeStore → VolumeStore
drop_volumes_of source [] s = s
drop_volumes_of source (v ∷ volumes) s = drop_volumes_of source volumes (
    if names_path v.name source || text_eq source v.name
    then (remove_with_force [] (λ bundle. []) v.name true s).0
    else s)

unfoldable pub drop_volumes : List Text → VolumeStore → VolumeStore
drop_volumes [] s = s
drop_volumes (source ∷ sources) s = drop_volumes sources (drop_volumes_of source s.volumes s)

abbrev pub is_active : ContainerStatus → Bool
is_active status = is_running status || is_paused status

abbrev pub remove_stored :
    Processes
    → Text
    → VolumeStore
    → ContainerStoreData
    → Result StoreError (ContainerRecord × ContainerStoreData)
    → Engine × Result {0, 0} LifecycleError Unit
remove_stored p query volumes s (err e) =
    (record { containers = s; volumes = volumes }, err (store_error e))
remove_stored p query volumes s (ok (removed, t)) =
    (record { containers = (reap_stale_containers p t).1; volumes = volumes }, ok tt)

abbrev pub remove_found :
    Processes
    → Processes
    → (Text → List Text)
    → Text
    → Bool
    → Bool
    → Engine
    → Option ContainerRecord
    → Engine × Result {0, 0} LifecycleError Unit
remove_found at_stop at_end sources query force with_volumes e none = (e, err not_found)
remove_found at_stop at_end sources query force with_volumes e (some c) =
    let left =
      if is_active c.status then (stop_container at_stop query e.containers).0 else e.containers in
    let volumes =
      if with_volumes then drop_volumes (sources c.bundle_path) e.volumes else e.volumes in
    if is_active c.status && not force
    then (e, err (conflict c.id))
    else remove_stored at_end query volumes left (Containers.remove query left)

-- The processes are as they are when `stop_container` reaps, and at the end; `sources` gives the
-- mount sources of a bundle's `config.json`.
unfoldable pub remove_container_opts :
    Processes
    → Processes
    → (Text → List Text)
    → Text
    → Bool
    → Bool
    → Engine
    → Engine × Result {0, 0} LifecycleError Unit
remove_container_opts at_stop at_end sources query force with_volumes e =
    remove_found at_stop at_end sources query force with_volumes e (find e.containers query)

-- `let _ = c_store.remove(&c.id)`.
abbrev pub removed_or :
    ContainerStoreData
    → Result StoreError (ContainerRecord × ContainerStoreData)
    → ContainerStoreData
removed_or s (err e) = s
removed_or s (ok (removed, t)) = t

-- The loop over the listed containers.
unfoldable pub prune_each : List ContainerRecord → ContainerStoreData → ContainerStoreData
prune_each [] s = s
prune_each (c ∷ containers) s =
    prune_each containers
      (if is_running c.status then s else removed_or s (Containers.remove c.id s))

unfoldable pub prune_containers : Processes → ContainerStoreData → ContainerStoreData
prune_containers p s = (reap_stale_containers p (prune_each s s)).1
