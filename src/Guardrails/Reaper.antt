-- ===== src/Guardrails/Reaper.antt =====
-- `ProcessReaper::reap_stale_containers_with_store`, without the part that only macOS compiles.
-- The pid files, the exit-code file and the processes are read through a record; deleting the
-- files and killing what is left of a dead container leave the store as it is.
pub mod Laws
use kc_docker.Shared.{
  ℕ, zero, suc, ◌+◌, Bool, true, false, not, ◌&&◌, Option, none, some, List, [], ◌∷◌, if◌then◌else◌,
  Text, ℤ, pos, negsuc,
}
use kc_docker.Shared.Result.{Result, ok, err}
use kc_docker.Storage.{ContainerStatus, ContainerRecord, running, created, paused, exited, failed}
use kc_docker.Storage.Containers.{ContainerStoreData, StoreError, update_status}

-- For a bundle path, the numbers in `vm.pid` and `container.pid`, where they can be read, and in
-- `boxr-exitcode`, 0 where that holds no number; and whether `kill(pid, 0)` succeeds.
pub record Processes : Type 0 where
  pub vm_pid : Text → Option ℤ
  pub container_pid : Text → Option ℤ
  pub exit_code : Text → Option ℤ
  pub signalled : ℤ → Bool

abbrev pub is_running : ContainerStatus → Bool
is_running created = false
is_running running = true
is_running paused = false
is_running (exited code) = false
is_running (failed reason) = false

-- `pid <= 1`.
abbrev pub at_most_one : ℤ → Bool
at_most_one (pos zero) = true
at_most_one (pos (suc zero)) = true
at_most_one (pos (suc (suc n))) = false
at_most_one (negsuc n) = true

unfoldable pub check_pid_alive : Processes → Option ℤ → Option Bool
check_pid_alive p none = none
check_pid_alive p (some pid) = some (if at_most_one pid then false else p.signalled pid)

abbrev pub alive_or : Option Bool → Option Bool → Bool
alive_or (some b) other = b
alive_or none (some b) = b
alive_or none none = false

unfoldable pub is_alive : Processes → Text → Bool
is_alive p bundle =
    alive_or (check_pid_alive p (p.vm_pid bundle)) (check_pid_alive p (p.container_pid bundle))

abbrev pub code_or_killed : Option ℤ → ℤ
code_or_killed none = pos 137
code_or_killed (some code) = code

-- `let _ = store.update_status(..)`.
abbrev pub keep_or : ContainerStoreData → Result StoreError ContainerStoreData → ContainerStoreData
keep_or s (err e) = s
keep_or s (ok t) = t

abbrev pub is_stale : Processes → ContainerRecord → Bool
is_stale p c = is_running c.status && not (is_alive p c.bundle_path)

-- One round of the loop.
unfoldable pub reap_one : Processes → ContainerRecord → ContainerStoreData → ContainerStoreData
reap_one p c s =
    if is_stale p c
    then keep_or s (update_status c.id (exited (code_or_killed (p.exit_code c.bundle_path))) s)
    else s

-- The loop over the listed containers, with the count.
unfoldable pub reap_each :
    Processes → List ContainerRecord → ContainerStoreData → ℕ × ContainerStoreData
reap_each p [] s = (0, s)
reap_each p (c ∷ containers) s =
    let rest = reap_each p containers (reap_one p c s) in
    ((if is_stale p c then 1 else 0) + rest.0, rest.1)

unfoldable pub reap_stale_containers : Processes → ContainerStoreData → ℕ × ContainerStoreData
reap_stale_containers p s = reap_each p s s
