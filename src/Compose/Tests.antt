-- ===== src/Compose/Tests.antt =====
-- A compose file with two services.
use kc_docker.Shared.{none, some, List, [], ◌∷◌, ◌≡◌, Text, codes, ◌↔◌}
use kc_docker.Shared.Result.{ok}
use kc_docker.Compose.{ServiceConfig, Services, dependency_order}
use kc_docker.Compose.Order.{Ordered, IsStartable, dependency_order-Ordered, dependency_order_iff}

abbrev service : List Text → ServiceConfig
service deps = record {
  image = some (codes "alpine");
  build = none;
  container_name = none;
  env_file = none;
  command = none;
  entrypoint = none;
  environment = none;
  ports = none;
  volumes = none;
  depends_on = some deps;
  networks = none;
  restart = none;
}

abbrev web_and_db : Services
web_and_db = (codes "web", service (codes "db" ∷ [])) ∷ (codes "db", service []) ∷ []

dependency_order-Ordered_example : Ordered web_and_db (dependency_order web_and_db)
dependency_order-Ordered_example = dependency_order-Ordered web_and_db

dependency_order_iff_example :
    ((order : List Text) × (dependency_order web_and_db ≡ ok order)) ↔ IsStartable web_and_db
dependency_order_iff_example = dependency_order_iff web_and_db
