-- ===== src/Storage.antt =====
-- The container's record, src/storage/container_store.rs, with the policies of src/health/mod.rs.
pub mod Containers
pub mod Uniqueness
pub mod Reach
pub mod Restart
pub mod Images
mod Tests
use kc_docker.Shared.{ℕ, ℤ, Text, List}
use kc_docker.Network.Ports.{PortMapping}

pub data ContainerStatus : Type 0 where
  created running paused : ContainerStatus
  exited : ℤ → ContainerStatus
  failed : Text → ContainerStatus

pub data HealthStatus : Type 0 where
  none starting healthy unhealthy : HealthStatus

pub data RestartPolicy : Type 0 where
  no always unless_stopped : RestartPolicy
  on_failure : ℕ → RestartPolicy

-- `created_at` counts the nanoseconds of the timestamp.
pub record ContainerRecord : Type 0 where
  pub id : Text
  pub name : Text
  pub image : Text
  pub command : List Text
  pub created_at : ℕ
  pub status : ContainerStatus
  pub bundle_path : Text
  pub restart_policy : RestartPolicy
  pub health_status : HealthStatus
  pub restart_count : ℕ
  pub ports : List PortMapping
  pub exposed_ports : List Text
