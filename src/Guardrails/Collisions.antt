-- ===== src/Guardrails/Collisions.antt =====
-- `PortCollisionGuard::ensure_no_conflicts_with_containers`.
pub mod Laws
use kc_docker.Shared.{
  Bool, true, false, ◌||◌, ◌&&◌, not, none, some, List, [], ◌∷◌, if◌then◌else◌, Text, codes, ◌==◌,
  text_eq,
}
use kc_docker.Shared.Result.{Result, ok, err, ◌>>=◌}
use kc_docker.Network.Ports.{PortMapping}
use kc_docker.Storage.{ContainerStatus, running, ContainerRecord}

-- The message of the error names the requested mapping and the container.
pub data PortConflict : Type 0 where
  conflict : PortMapping → ContainerRecord → PortConflict

abbrev pub any_ip : Text
any_ip = codes "0.0.0.0"

abbrev pub is_running : ContainerStatus → Bool
is_running running = true
is_running _ = false

-- `host_ip.as_deref().unwrap_or("0.0.0.0")`.
abbrev pub bound_ip : PortMapping → Text
bound_ip p = elim p.host_ip [ none ↦ any_ip | some ip ↦ ip ]

abbrev pub ips_overlap : Text → Text → Bool
ips_overlap req_ip running_ip =
    text_eq req_ip any_ip || (text_eq running_ip any_ip || text_eq req_ip running_ip)

abbrev pub clashes : PortMapping → PortMapping → Bool
clashes req p =
    (text_eq p.protocol req.protocol && p.host_port == req.host_port)
    && ips_overlap (bound_ip req) (bound_ip p)

-- The three loops, the innermost one first.
unfoldable pub any_clash : PortMapping → List PortMapping → Bool
any_clash req [] = false
any_clash req (p ∷ ports) = clashes req p || any_clash req ports

unfoldable pub check_containers :
    PortMapping → List ContainerRecord → Result {0, 0} PortConflict Unit
check_containers req [] = ok tt
check_containers req (c ∷ containers) =
    if not (is_running c.status)
    then check_containers req containers
    else if any_clash req c.ports
    then err (conflict req c)
    else check_containers req containers

unfoldable pub ensure_no_conflicts_with_containers :
    List PortMapping → List ContainerRecord → Result {0, 0} PortConflict Unit
ensure_no_conflicts_with_containers [] containers = ok tt
ensure_no_conflicts_with_containers (req ∷ requested) containers =
    if req.host_port == 0 then ensure_no_conflicts_with_containers requested containers else do
      _ ← check_containers req containers
      ensure_no_conflicts_with_containers requested containers
