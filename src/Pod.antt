-- ===== src/Pod.antt =====
-- Pods, src/pod/mod.rs: the configuration, the record and the run arguments that a pod changes.
pub mod Store
pub mod Removal
pub mod Sharing
pub mod Membership
pub mod Refusal
mod Tests
use kc_docker.Shared.{ℕ, Bool, true, false, Option, none, List, [], Text}
use kc_docker.Network.Ports.{PortMapping}

pub record PodConfig : Type 0 where
  pub name : Option Text
  pub ports : List PortMapping
  pub hostname : Option Text
  pub labels : List (Text × Text)
  pub dns : List Text
  pub memory : Option Text
  pub cpus : Option Text
  pub share_ipc : Bool
  pub share_net : Bool
  pub share_uts : Bool
  pub share_pid : Bool
  pub infra : Bool
  pub network : Option Text

-- `created_at` counts the nanoseconds of the timestamp.
pub record PodRecord : Type 0 where
  pub id : Text
  pub name : Text
  pub created_at : ℕ
  pub status : Text
  pub infra_container_id : Text
  pub containers : List Text
  pub ports : List PortMapping
  pub hostname : Option Text
  pub labels : List (Text × Text)
  pub dns : List Text
  pub memory : Option Text
  pub cpus : Option Text
  pub share_ipc : Bool
  pub share_net : Bool
  pub share_uts : Bool
  pub share_pid : Bool
  pub network : Option Text

-- `PodConfig::default`.
abbrev pub default_config : PodConfig
default_config = record {
  name = none;
  ports = [];
  hostname = none;
  labels = [];
  dns = [];
  memory = none;
  cpus = none;
  share_ipc = true;
  share_net = true;
  share_uts = true;
  share_pid = false;
  infra = true;
  network = none;
}

abbrev pub PodStoreData : Type 0
PodStoreData = List PodRecord

pub data PodError : Type 0 where
  name_exists not_found : PodError
  running_pod : Text → PodError
