-- ===== src/Pod/Removal.antt =====
-- `PodStore::remove_with_force` and `prune`, with the containers of the pods.
use kc_docker.Shared.{
  Bool, false, not, ◌||◌, ◌&&◌, Option, none, some, List, [], ◌∷◌, if◌then◌else◌, Text, codes,
  text_eq, trim, is_empty,
}
use kc_docker.Shared.Records.{find_first, any, remove_first}
use kc_docker.Shared.Result.{Result, ok, err}
use kc_docker.Storage.{ContainerRecord}
use kc_docker.Storage.Containers.{ContainerStoreData}
use kc_docker.Storage.Containers
use kc_docker.Guardrails.Reaper.{Processes, is_running}
use kc_docker.Lifecycle.{Engine, remove_container_opts}
use kc_docker.Pod.{PodRecord, PodStoreData, PodError, not_found, running_pod}
use kc_docker.Pod.Store.{matches_query, infra_name}

abbrev pub runs : Option ContainerRecord → Bool
runs none = false
runs (some c) = is_running c.status

abbrev pub or_else : Option ContainerRecord → Option ContainerRecord → Option ContainerRecord
or_else none other = other
or_else (some c) other = some c

-- The infra container, by its name or else by the recorded id.
unfoldable pub find_infra : ContainerStoreData → PodRecord → Option ContainerRecord
find_infra containers p =
    or_else (Containers.find containers (infra_name p))
      (Containers.find containers p.infra_container_id)

abbrev pub any_member_runs : ContainerStoreData → PodRecord → Bool
any_member_runs containers p = any (λ cid. runs (Containers.find containers cid)) p.containers

-- A member or the infra container runs.
abbrev pub is_busy : ContainerStoreData → PodRecord → Bool
is_busy containers p = any_member_runs containers p || runs (find_infra containers p)

-- What `crate::remove_container` reads outside of the stores.
pub record Removing : Type 0 where
  pub at_stop : Text → Processes
  pub at_end : Text → Processes
  pub sources : Text → List Text

-- `let _ = crate::remove_container(cid, force)`.
abbrev pub remove_container : Removing → Bool → Text → Engine → Engine
remove_container r force cid e =
    (remove_container_opts (r.at_stop cid) (r.at_end cid) r.sources cid force false e).0

abbrev pub remove_members : Removing → Bool → List Text → Engine → Engine
remove_members r force [] e = e
remove_members r force (cid ∷ cids) e = remove_members r force cids (remove_container r force cid e)

abbrev pub remove_infra : Removing → Bool → Engine → Option ContainerRecord → Engine
remove_infra r force e none = e
remove_infra r force e (some infra) = remove_container r force infra.id e

abbrev pub PodState : Type 0
PodState = PodStoreData × Engine

abbrev pub remove_found :
    Removing → Bool → Text → PodState → Option PodRecord → PodState × Result PodError PodRecord
remove_found r force q (pods, e) none = ((pods, e), err not_found)
remove_found r force q (pods, e) (some p) =
    let members_gone = remove_members r force p.containers e in
    let all_gone = remove_infra r force members_gone (find_infra members_gone.containers p) in
    if not force && is_busy e.containers p
    then ((pods, e), err (running_pod p.name))
    else ((remove_first (matches_query q) pods, all_gone), ok p)

unfoldable pub remove_with_force :
    Removing → Text → Bool → PodState → PodState × Result PodError PodRecord
remove_with_force r query force s =
    if is_empty (trim query)
    then (s, err not_found)
    else remove_found r force (trim query) s (find_first (matches_query (trim query)) s.0)

-- The test of `prune` for a pod that goes.
abbrev pub is_prunable : ContainerStoreData → PodRecord → Bool
is_prunable containers p =
    not (any_member_runs containers p)
    && (not (runs (find_infra containers p)) && not (text_eq p.status (codes "Running")))

-- The pods that are left, and the names of those that go.
unfoldable pub prune : ContainerStoreData → PodStoreData → PodStoreData × List Text
prune containers [] = ([], [])
prune containers (p ∷ pods) =
    let rest = prune containers pods in
    if is_prunable containers p then (rest.0, p.name ∷ rest.1) else (p ∷ rest.0, rest.1)
