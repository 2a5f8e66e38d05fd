-- ===== src/Pod/Tests.antt =====
-- A pod with one member, and queries that are looser than they look.
use kc_docker.Shared.{
  true, false, not, ◌&&◌, none, some, List, [], ◌∷◌, ◌≡◌, refl, Text, codes, text_eq, starts_with,
  strip_prefix, trim, trim_end, trim_start,
}
use kc_docker.Shared.Records.{remove_first}
use kc_docker.Shared.Result.{ok, err}
use kc_docker.Storage.{ContainerRecord, running, no, HealthStatus}
use kc_docker.Guardrails.Reaper.{Processes}
use kc_docker.Lifecycle.{Engine}
use kc_docker.Pod.{PodRecord, PodStoreData, not_found, running_pod, default_config}
use kc_docker.Pod.Store.{
  find, matches_query, create_with_config, update_status, add_container_to_pod,
}
use kc_docker.Pod.Removal.{Removing, is_busy, remove_with_force}
use kc_docker.Pod.Sharing.{resolve_namespace_spec}
use kc_docker.Pod.Membership.{IsTidy, start, after, created, member_added, Reach-IsTidy}
use kc_docker.Pod.Refusal.{remove_with_force-Removed}

abbrev pod : List Text → Text → PodRecord
pod members status = record {
  id = codes "0123456789ab";
  name = codes "web";
  created_at = 1;
  status = status;
  infra_container_id = codes "web-infra";
  containers = members;
  ports = [];
  hostname = none;
  labels = [];
  dns = [];
  memory = none;
  cpus = none;
  share_ipc = true;
  share_net = true;
  share_uts = true;
  share_pid = false;
  network = none;
}

abbrev new_pods : PodStoreData
new_pods = pod [] (codes "Created") ∷ []

abbrev joined_pods : PodStoreData
joined_pods = pod (codes "c1" ∷ []) (codes "Running") ∷ []

pod_created :
    create_with_config 1
      (codes "0123456789abcdef")
      (record default_config { name = some (codes "web ") })
      []
    ≡ ok (pod [] (codes "Created"), new_pods)
unfolding create_with_config text_eq trim trim_end trim_start
pod_created = refl

member_joined : add_container_to_pod (codes "web") (codes "c1") new_pods ≡ ok joined_pods
unfolding add_container_to_pod text_eq starts_with
member_joined = refl

joined_twice : add_container_to_pod (codes "0123") (codes "c1") joined_pods ≡ ok joined_pods
unfolding add_container_to_pod text_eq starts_with
joined_twice = refl

Reach-IsTidy_example : IsTidy joined_pods
Reach-IsTidy_example = Reach-IsTidy joined_pods (
    after
      (after start (
        created 1 (codes "0123456789abcdef") (record default_config { name = some (codes "web ") })
          (pod [] (codes "Created")) pod_created))
      (member_added (codes "web") (codes "c1") member_joined))

abbrev member : ContainerRecord
member = record {
  id = codes "c1";
  name = codes "app";
  image = codes "nginx";
  command = [];
  created_at = 0;
  status = running;
  bundle_path = codes "/c1";
  restart_policy = no;
  health_status = HealthStatus.none;
  restart_count = 0;
  ports = [];
  exposed_ports = [];
}

abbrev engine : Engine
engine = record {
  containers = member ∷ [];
  volumes = record { volumes = []; volumes_dir = codes "/v"; dirs = [] };
}

abbrev dead : Processes
dead = record {
  vm_pid = λ b. none;
  container_pid = λ b. none;
  exit_code = λ b. none;
  signalled = λ p. false;
}

abbrev removing : Removing
removing = record { at_stop = λ c. dead; at_end = λ c. dead; sources = λ b. [] }

remove_with_force-Removed_example :
    (find joined_pods (codes "web") ≡ none
      → remove_with_force removing (codes "web") false (joined_pods, engine)
        ≡ ((joined_pods, engine), err not_found))
    × ((p : PodRecord)
        → find joined_pods (codes "web") ≡ some p
        → ((not false && is_busy engine.containers p) ≡ true
            → remove_with_force removing (codes "web") false (joined_pods, engine)
              ≡ ((joined_pods, engine), err (running_pod p.name)))
          × ((not false && is_busy engine.containers p) ≡ false
              → (after : Engine) × (remove_with_force removing
                    (codes "web")
                    false
                    (joined_pods, engine)
                  ≡ ((remove_first (matches_query (trim (codes "web"))) joined_pods, after), ok p))
                × (after.volumes ≡ engine.volumes)))
remove_with_force-Removed_example =
    remove_with_force-Removed removing false (codes "web") joined_pods engine

-- The empty query of `update_status` is the beginning of every id.
empty_query_is_first :
    update_status [] (codes "Exited") new_pods ≡ ok (pod [] (codes "Exited") ∷ [])
unfolding update_status text_eq starts_with
empty_query_is_first = refl

-- `container://` is never stripped: the target keeps two slashes.
slashes_kept :
    resolve_namespace_spec {E = Text} (λ target. ok target) (codes "container://web")
    ≡ ok (some (codes "//web"))
unfolding resolve_namespace_spec text_eq starts_with strip_prefix trim trim_end trim_start
slashes_kept = refl
