-- ===== src/Guardrails/Tests.antt =====
-- Concrete ports and log files.
use kc_docker.Shared.{
  negsuc, zero, suc, true, none, some, [], ◌∷◌, ◌≡◌, refl, arith, codes, text_eq, strip_prefix,
  parse_uint, parse_digits, trim, trim_end, trim_start,
}
use kc_docker.Shared.Search.{strip_suffix}
use kc_docker.Guardrails.Sizes.{split_unit, parse_size}
use kc_docker.Shared.Result.{ok, err}
use kc_docker.Network.Ports.{PortMapping}
use kc_docker.Storage.{ContainerStatus, ContainerRecord, running, exited, no, HealthStatus}
use kc_docker.Guardrails.Collisions.{
  conflict, any_clash, check_containers, ensure_no_conflicts_with_containers,
}
use kc_docker.Guardrails.Collisions.Laws.{Checked, ensure_no_conflicts-Checked}
use kc_docker.Guardrails.Rotation.{Files, rotate_if_needed}
use kc_docker.Guardrails.Rotation.Laws.{IsRotated, rotate_if_needed-IsRotated}

abbrev web_port : PortMapping
web_port = record { host_ip = none; host_port = 8080; container_port = 80; protocol = codes "tcp" }

abbrev local_port : PortMapping
local_port = record {
  host_ip = some (codes "127.0.0.1");
  host_port = 8080;
  container_port = 81;
  protocol = codes "tcp";
}

abbrev web_with : ContainerStatus → ContainerRecord
web_with status = record {
  id = codes "c1";
  name = codes "web";
  image = codes "nginx";
  command = [];
  created_at = 0;
  status = status;
  bundle_path = codes "/c1";
  restart_policy = no;
  health_status = HealthStatus.none;
  restart_count = 0;
  ports = web_port ∷ [];
  exposed_ports = [];
}

abbrev web : ContainerRecord
web = web_with running

abbrev stopped : ContainerRecord
stopped = web_with (exited (negsuc 0))

web_conflict :
    ensure_no_conflicts_with_containers (local_port ∷ []) (web ∷ []) ≡ err (conflict local_port web)
unfolding ensure_no_conflicts_with_containers check_containers any_clash text_eq
web_conflict = refl

stopped_is_free : ensure_no_conflicts_with_containers (local_port ∷ []) (stopped ∷ []) ≡ ok tt
unfolding ensure_no_conflicts_with_containers check_containers any_clash text_eq
stopped_is_free = refl

ensure_no_conflicts-Checked_example :
    Checked
      (local_port ∷ [])
      (web ∷ [])
      (ensure_no_conflicts_with_containers (local_port ∷ []) (web ∷ []))
ensure_no_conflicts-Checked_example = ensure_no_conflicts-Checked (local_port ∷ []) (web ∷ [])

abbrev logs : Files
logs zero = some (1 ∷ 2 ∷ 3 ∷ [])
logs (suc zero) = some (4 ∷ [])
logs (suc (suc n)) = none

rotate_if_needed-IsRotated_example :
    ((rotate_if_needed 3 2 logs).0 ≡ true) × IsRotated 1 logs (rotate_if_needed 3 2 logs).1
rotate_if_needed-IsRotated_example =
    rotate_if_needed-IsRotated 3 1 logs (1 ∷ 2 ∷ 3 ∷ []) refl (omega arith)

-- A size that fits, and one that wraps to zero.
ten_megabytes : parse_size (codes "10m") ≡ ok 10485760
unfolding parse_size split_unit strip_suffix strip_prefix parse_uint parse_digits trim trim_end
    trim_start
ten_megabytes = refl

huge_is_zero : parse_size (codes "17179869184g") ≡ ok 0
unfolding parse_size split_unit strip_suffix strip_prefix parse_uint parse_digits trim trim_end
    trim_start
huge_is_zero = refl
