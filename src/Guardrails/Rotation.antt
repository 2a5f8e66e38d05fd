-- ===== src/Guardrails/Rotation.antt =====
-- `LogRotator::rotate_if_needed`. The state is the log's directory: number 0 is the log file, number
-- `i` the backup with the suffix `.i`. File operations are taken to succeed.
pub mod Laws
use kc_docker.Shared.{
  ℕ, zero, suc, ◌+◌, Bool, true, false, Option, none, some, List, [], if◌then◌else◌, length, ◌==◌,
  ltb,
}

abbrev pub Files : Type 0
Files = ℕ → Option (List ℕ)

-- `fs::rename`, which replaces the destination.
abbrev pub rename : ℕ → ℕ → Files → Files
rename src dst files = λ k. if k == src then none else if k == dst then files src else files k

-- `fs::write`.
abbrev pub write : ℕ → List ℕ → Files → Files
write file content files = λ k. if k == file then some content else files k

abbrev pub rename_if_exists : Option (List ℕ) → ℕ → ℕ → Files → Files
rename_if_exists none src dst files = files
rename_if_exists (some content) src dst files = rename src dst files

-- `for i in (1..=n).rev()`.
unfoldable pub shift : ℕ → Files → Files
shift zero files = files
shift (suc i) files = shift i (rename_if_exists (files (suc i)) (suc i) (suc i + 1) files)

abbrev pub rotate : ℕ → Files → Files
rotate zero files = write 0 [] files
rotate (suc n) files = write 0 [] (rename 0 1 (shift n files))

unfoldable pub rotate_if_needed : ℕ → ℕ → Files → Bool × Files
rotate_if_needed max_bytes max_files files = elim (files 0) [
  | none ↦ (false, files)
  | some content ↦
      if ltb (length content) max_bytes then (false, files) else (true, rotate max_files files)
]
