-- ===== src/Lifecycle/Polling.antt =====
-- `wait_container`, on Linux and macOS: a loop that looks at a container every 200 ms. Each round
-- reads the stored containers and the files of the bundle anew.
use kc_docker.Shared.{
  Bool, true, false, Option, none, some, List, [], ◌∷◌, ◌++◌, ◌≡◌, refl, sym, subst, ◌⊎◌,
  if◌then◌else◌, Text, ℤ, pos, Bool-cases, Option-cases, inl, inr,
}
use kc_docker.Shared.Result.{Result, ok, err}
use kc_docker.Storage.{ContainerStatus, ContainerRecord, running, paused, created, exited, failed}
use kc_docker.Storage.Containers.{ContainerStoreData, find, update_status}
use kc_docker.Guardrails.Reaper.{keep_or}
use kc_docker.Lifecycle.{LifecycleError, not_found}

-- What one round reads: the store, the number in `rootfs/boxr-exitcode`, and whether the process
-- of `vm.pid` is alive.
pub record Poll : Type 0 where
  pub containers : ContainerStoreData
  pub exit_file : Text → Option ℤ
  pub vm_alive : Text → Bool

-- The store that is left and the result, or another round.
abbrev pub Round : Type 0
Round = Option (ContainerStoreData × Result LifecycleError ℤ)

abbrev pub ended : Poll → ContainerRecord → ℤ → Round
ended poll c code =
    some (keep_or poll.containers (update_status c.id (exited code) poll.containers), ok code)

abbrev pub look_at_process : Poll → ContainerRecord → Option ℤ → Round
look_at_process poll c (some code) = ended poll c code
look_at_process poll c none = if poll.vm_alive c.bundle_path then none else ended poll c (pos 137)

abbrev pub look_at_status : Poll → ContainerRecord → ContainerStatus → Round
look_at_status poll c (exited code) = some (poll.containers, ok code)
look_at_status poll c (failed reason) = some (poll.containers, ok (pos 1))
look_at_status poll c running = look_at_process poll c (poll.exit_file c.bundle_path)
look_at_status poll c created = look_at_process poll c (poll.exit_file c.bundle_path)
look_at_status poll c paused = look_at_process poll c (poll.exit_file c.bundle_path)

abbrev pub look_at : Poll → Option ContainerRecord → Round
look_at poll none = some (poll.containers, err not_found)
look_at poll (some c) = look_at_status poll c c.status

unfoldable pub poll_once : Text → Poll → Round
poll_once query poll = look_at poll (find poll.containers query)

-- The rounds of the loop for one container; `none` while it still waits.
unfoldable pub wait_one : Text → List Poll → Round
wait_one query [] = none
wait_one query (poll ∷ polls) = elim (poll_once query poll) [
  | some result ↦ some result
  | none ↦ wait_one query polls
]

-- The container is neither exited nor failed.
pub data IsOpen : ContainerStatus → Type 0 where
  is_created : IsOpen created
  is_running : IsOpen running
  is_paused : IsOpen paused

-- The container is there, and neither its record, its exit file nor its process says that it ended.
pub record StillRuns (query : Text) (poll : Poll) : Type 0 where
  pub container : ContainerRecord
  pub there : find poll.containers query ≡ some container
  pub open_status : IsOpen container.status
  pub no_code : poll.exit_file container.bundle_path ≡ none
  pub alive : poll.vm_alive container.bundle_path ≡ true

-- How a round ends the loop, and with what.
pub data EndsWith (query : Text) (poll : Poll) (r : ContainerStoreData × Result LifecycleError ℤ)
    : Type 0 where
  gone :
      find poll.containers query ≡ none
      → r ≡ (poll.containers, err not_found)
      → EndsWith query poll r
  recorded :
      (c : ContainerRecord) (code : ℤ)
      → find poll.containers query ≡ some c
      → c.status ≡ exited code
      → r ≡ (poll.containers, ok code)
      → EndsWith query poll r
  failure :
      (c : ContainerRecord) (reason : Text)
      → find poll.containers query ≡ some c
      → c.status ≡ failed reason
      → r ≡ (poll.containers, ok (pos 1))
      → EndsWith query poll r
  reported :
      (c : ContainerRecord) (code : ℤ)
      → find poll.containers query ≡ some c
      → IsOpen c.status
      → poll.exit_file c.bundle_path ≡ some code
      → r ≡ (keep_or poll.containers (update_status c.id (exited code) poll.containers), ok code)
      → EndsWith query poll r
  killed :
      (c : ContainerRecord)
      → find poll.containers query ≡ some c
      → IsOpen c.status
      → poll.exit_file c.bundle_path ≡ none
      → poll.vm_alive c.bundle_path ≡ false
      → r ≡ (
        keep_or poll.containers (update_status c.id (exited (pos 137)) poll.containers),
        ok (pos 137),
      )
      → EndsWith query poll r

pub data Waited (query : Text) : List Poll → Round → Type 0 where
  still_waiting : Waited query [] none
  another_round :
      {poll : Poll} {polls : List Poll} {r : Round}
      → StillRuns query poll
      → Waited query polls r
      → Waited query (poll ∷ polls) r
  over :
      {poll : Poll} {polls : List Poll} {r : ContainerStoreData × Result LifecycleError ℤ}
      → EndsWith query poll r
      → Waited query (poll ∷ polls) (some r)

module _ (query : Text) (poll : Poll) (c : ContainerRecord)
    (there : find poll.containers query ≡ some c) where
  open_round :
      IsOpen c.status
      → (StillRuns query poll × (look_at_process poll c (poll.exit_file c.bundle_path) ≡ none))
        ⊎ ((r : ContainerStoreData × Result LifecycleError ℤ) × EndsWith query poll r
            × (look_at_process poll c (poll.exit_file c.bundle_path) ≡ some r))
  open_round o = elim (Option-cases (poll.exit_file c.bundle_path)) [
    | inr (code, said) ↦ rw said (inr (_, reported c code there o said refl, refl))
    | inl silent ↦ elim (Bool-cases (poll.vm_alive c.bundle_path)) [
      | inl alive ↦ inl (
        record { container = c; there = there; open_status = o; no_code = silent; alive = alive },
        rw silent (rw alive refl),
      )
      | inr dead ↦ inr (_, killed c there o silent dead refl, rw silent (rw dead refl))
    ]
  ]

  found_round :
      (status : ContainerStatus)
      → c.status ≡ status
      → (StillRuns query poll × (look_at_status poll c status ≡ none))
        ⊎ ((r : ContainerStoreData × Result LifecycleError ℤ) × EndsWith query poll r
            × (look_at_status poll c status ≡ some r))
  found_round (exited code) e = inr (_, recorded c code there e refl, refl)
  found_round (failed reason) e = inr (_, failure c reason there e refl, refl)
  found_round running e = open_round (subst IsOpen (sym e) is_running)
  found_round created e = open_round (subst IsOpen (sym e) is_created)
  found_round paused e = open_round (subst IsOpen (sym e) is_paused)

one_round :
    (query : Text) (poll : Poll)
    → (StillRuns query poll × (poll_once query poll ≡ none))
      ⊎ ((r : ContainerStoreData × Result LifecycleError ℤ) × EndsWith query poll r
          × (poll_once query poll ≡ some r))
unfolding poll_once
one_round query poll = elim (Option-cases (find poll.containers query)) [
  | inl missing ↦ inr (_, gone missing refl, rw missing refl)
  | inr (c, there) ↦ rw there (found_round query poll c there c.status refl)
]

-- `wait` looks at the container round by round. It goes on while the container is there, open,
-- without an exit code and with a live process, and it ends in the first round in which that is
-- not so: with an error where the container is gone, with the recorded exit code, with 1 for a
-- failed one, with the code of the exit file, or with 137 for a dead process; the last two are
-- written to the store.
pub wait_one-Waited : (query : Text) (polls : List Poll) → Waited query polls (wait_one query polls)
unfolding wait_one
wait_one-Waited query [] = still_waiting
wait_one-Waited query (poll ∷ polls) = elim (one_round query poll) [
  | inl (runs, again) ↦ rw (again, wait_one) (another_round runs (wait_one-Waited query polls))
  | inr (r, ends, now) ↦ rw (now, wait_one) (over ends)
]

-- If in some round the container no longer runs, `wait` has returned by that round.
pub wait_one_ends :
    (query : Text) (before : List Poll) (poll : Poll) (after : List Poll)
    → ¬ StillRuns query poll
    → (r : ContainerStoreData × Result LifecycleError ℤ) × (wait_one query (before ++ poll ∷ [])
        ≡ some r)
      × (wait_one query (before ++ poll ∷ after) ≡ some r)
unfolding wait_one
wait_one_ends query [] poll after stops = elim (one_round query poll) [
  | inl (runs, again) ↦ absurd (stops runs)
  | inr (r, ends, now) ↦ rw (now, wait_one) (r, refl, refl)
]
wait_one_ends query (first ∷ before) poll after stops = elim (one_round query first) [
  | inl (runs, again) ↦ rw (again, wait_one) (wait_one_ends query before poll after stops)
  | inr (r, ends, now) ↦ rw (now, wait_one) (r, refl, refl)
]

-- The loop over the named containers, with the code of the last one so far.
unfoldable pub wait_container : ℤ → List (Text × List Poll) → Option (Result LifecycleError ℤ)
wait_container last_code [] = some (ok last_code)
wait_container last_code ((query, polls) ∷ rest) = elim (wait_one query polls) [
  | none ↦ none
  | some ended ↦
      let (s, r) = ended in elim r [ err e ↦ some (err e) | ok code ↦ wait_container code rest ]
]
