-- ===== src/Volume.antt =====
-- Named volumes, src/volume/mod.rs: the records, the state of `VolumeStore` and its errors.
pub mod Store
pub mod Filters
pub mod Usage
pub mod Prune
pub mod Mounts
pub mod Spec
pub mod Names
pub mod Invariant
pub mod Pruned
pub mod Reach
pub mod Refinement
pub mod InUse
pub mod Resolve
mod Tests
use kc_docker.Shared.{ℕ, Text, List}

-- `created_at` counts the nanoseconds of the timestamp.
pub record VolumeRecord : Type 0 where
  pub name : Text
  pub driver : Text
  pub mountpoint : Text
  pub created_at : ℕ
  pub labels : List (Text × Text)
  pub scope : Text
  pub options : List (Text × Text)

-- What `volumes.json` holds, the path of the volumes' directory, and the names of the
-- directories in it.
pub record VolumeStore : Type 0 where
  pub volumes : List VolumeRecord
  pub volumes_dir : Text
  pub dirs : List Text

pub data VolumeError : Type 0 where
  invalid_name name_in_use escapes_dir not_found : VolumeError
  in_use : Text → VolumeError
  empty_spec invalid_format empty_destination invalid_destination traversal io_error : VolumeError
