-- ===== src/Storage/Tests.antt =====
-- A store with one container.
use kc_docker.Shared.{
  [], ◌∷◌, ◌≡◌, refl, Text, codes, text_eq, starts_with, trim, trim_end, trim_start,
}
use kc_docker.Shared.Result.{ok, err}
use kc_docker.Storage.{ContainerStatus, running, no, HealthStatus, ContainerRecord}
use kc_docker.Storage.Containers.{ContainerStoreData, add, rename, update_status, name_in_use}
use kc_docker.Storage.Uniqueness.{Differ}
use kc_docker.Storage.Reach.{added, start, after, Reach-Differ}

abbrev container : Text → Text → ContainerRecord
container id name = record {
  id = id;
  name = name;
  image = codes "nginx";
  command = [];
  created_at = 0;
  status = running;
  bundle_path = codes "/c1";
  restart_policy = no;
  health_status = HealthStatus.none;
  restart_count = 0;
  ports = [];
  exposed_ports = [];
}

abbrev one : ContainerStoreData
one = container (codes "a1") (codes "web") ∷ []

one_added : add (container (codes "a1") (codes "web")) [] ≡ ok one
unfolding add text_eq trim trim_end trim_start
one_added = refl

abbrev two : ContainerStoreData
two = container (codes "a1") (codes "web") ∷ container (codes "b2") (codes "db") ∷ []

two_added : add (container (codes "b2") (codes "db")) one ≡ ok two
unfolding add text_eq trim trim_end trim_start
two_added = refl

name_refused : rename (codes "b2") (codes " web ") two ≡ err name_in_use
unfolding rename text_eq starts_with trim trim_end trim_start
name_refused = refl

Reach-Differ_example : Differ two
Reach-Differ_example = Reach-Differ two (
    after (after start (added [] one (container (codes "a1") (codes "web")) one_added))
      (added one two (container (codes "b2") (codes "db")) two_added))

-- The empty query of `update_status` is the beginning of every id, so it means the first container.
empty_query_is_first :
    update_status [] ContainerStatus.paused one
    ≡ ok (record (container (codes "a1") (codes "web")) { status = ContainerStatus.paused } ∷ [])
unfolding update_status text_eq starts_with
empty_query_is_first = refl
