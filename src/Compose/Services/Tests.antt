-- ===== src/Compose/Services/Tests.antt =====
-- A service with an environment file, and two projects whose names overlap.
use kc_docker.Shared.{
  true, Option, none, some, [], ◌∷◌, ◌≡◌, refl, Text, codes, text_eq, trim, trim_end, trim_start,
  starts_with, strip_prefix, split, split_once, rsplit_once,
}
use kc_docker.Shared.Maps.{get}
use kc_docker.Shared.Decimal.{print_uint}
use kc_docker.Builder.Texts.{lines, split_whitespace, strip_last}
use kc_docker.Compose.{CommandOrList, EnvironmentConfig, ServiceConfig, Services}
use kc_docker.Compose.Services.{
  command_to_vec, environment_to_vec, override, service_env, run_args_env, file_env, inline_env,
  scope_volume, numbered, container_name, in_custom_names, matches_project,
}
use kc_docker.Compose.Services.Overrides.{entries_of, last_or, service_env-last_or}
use kc_docker.Compose.Services.Matching.{matches_project-container_name}

abbrev svc : ServiceConfig
svc = record {
  image = some (codes "nginx");
  build = none;
  container_name = none;
  env_file = some (CommandOrList.string (codes ".env"));
  command = none;
  entrypoint = none;
  environment = some (EnvironmentConfig.list (codes "A=2" ∷ []));
  ports = none;
  volumes = none;
  depends_on = none;
  networks = none;
  restart = none;
}

abbrev read : Text → Option Text
read path = some (codes "A=1\n# note\n B=3 \n")

service_env-last_or_example :
    entries_of (codes "A") (service_env read svc)
    ≡ last_or
        (codes "A")
        (entries_of (codes "A") (file_env read svc.env_file))
        (inline_env svc.environment)
service_env-last_or_example = service_env-last_or read svc (codes "A")

inline_wins : service_env read svc ≡ codes "B=3" ∷ codes "A=2" ∷ []
unfolding service_env override environment_to_vec command_to_vec lines split split_once text_eq
    starts_with trim trim_end trim_start split_whitespace strip_last
inline_wins = refl

-- For a container that is only created, or run once, both entries stay.
both_kept : run_args_env read svc ≡ codes "A=1" ∷ codes "B=3" ∷ codes "A=2" ∷ []
unfolding run_args_env environment_to_vec command_to_vec lines split split_once text_eq starts_with
    trim trim_end trim_start split_whitespace strip_last
both_kept = refl

volume_scoped : scope_volume (codes "shop") (codes "data:/var/lib") ≡ codes "shop_data:/var/lib"
unfolding scope_volume split_once starts_with
volume_scoped = refl

abbrev services : Services
services = (codes "a_b", svc) ∷ []

matches_project-container_name_example :
    (matches_project (codes "p") services (container_name (codes "p") (codes "a_b") svc) ≡ true)
    × (matches_project (codes "p") services (numbered (codes "p") (codes "a_b") 30) ≡ true)
unfolding text_eq get
matches_project-container_name_example =
    matches_project-container_name (codes "p") services (codes "a_b") svc 30 refl

-- The service `b` of the project `p_a` has its container under a name of the project `p`.
other_project_matches :
    matches_project (codes "p") services (container_name (codes "p_a") (codes "b") svc) ≡ true
unfolding matches_project in_custom_names container_name text_eq strip_prefix rsplit_once print_uint
other_project_matches = refl
