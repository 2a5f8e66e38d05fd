-- ===== src/Lifecycle/Pruning.antt =====
-- `prune_containers` against a filter of the stored containers.
use kc_docker.Shared.{
  true, false, List, [], ◌∷◌, ◌++◌, ◌≡◌, refl, ap, ◌∙◌, All, All-append, map, if◌then◌else◌, Text,
  trim, is_empty, Bool-cases, inl, inr, append_assoc,
}
use kc_docker.Shared.Records.{remove_first}
use kc_docker.Shared.Result.{ok}
use kc_docker.Storage.{ContainerRecord}
use kc_docker.Storage.Containers.{ContainerStoreData, matches_query}
use kc_docker.Storage.Containers
use kc_docker.Guardrails.Reaper.{Processes, is_running, reap_stale_containers}
use kc_docker.Guardrails.Reaper.Laws.{
  healed, IsNotMeant, Unambiguous, find_first-append, matches_own, all_apart,
  reap_stale_containers-map,
}
use kc_docker.Lifecycle.{prune_each, prune_containers}

-- The running containers, in order.
abbrev pub running_only : List ContainerRecord → List ContainerRecord
running_only [] = []
running_only (c ∷ containers) =
    let rest = running_only containers in if is_running c.status then c ∷ rest else rest

-- An id that is neither empty nor changed by trimming.
abbrev pub IsClean : ContainerRecord → Type 0
IsClean c = (trim c.id ≡ c.id) × (is_empty c.id ≡ false)

remove_first-append :
    (q : Text) (before : List ContainerRecord) (c : ContainerRecord) (after : List ContainerRecord)
    → All (λ d. matches_query q d ≡ false) before
    → matches_query q c ≡ true
    → remove_first (matches_query q) (before ++ c ∷ after) ≡ before ++ after
remove_first-append q [] c after h hit = rw hit refl
remove_first-append q (d ∷ before) c after h hit =
    rw (h.0) (ap (◌∷◌ d) (remove_first-append q before c after h.1 hit))

remove-append :
    (before : List ContainerRecord) (c : ContainerRecord) (after : List ContainerRecord)
    → All (λ d. matches_query c.id d ≡ false) before
    → IsClean c
    → Containers.remove c.id (before ++ c ∷ after) ≡ ok (c, before ++ after)
unfolding Containers.remove
remove-append before c after h clean = rw (clean.0) (
    rw (clean.1) (
      rw (find_first-append c.id before c after h (matches_own c))
        (rw (remove_first-append c.id before c after h (matches_own c)) refl)))

-- Apart from one more container that stays.
pub All-widen :
    (done : List ContainerRecord) (c : ContainerRecord) (l : List ContainerRecord)
    → All (λ d. All (λ e. IsNotMeant d e) done) l
    → All (λ d. IsNotMeant d c) l
    → All (λ d. All (λ e. IsNotMeant d e) (done ++ c ∷ [])) l
All-widen done c [] a n = tt
All-widen done c (d ∷ l) a n =
    (All-append (λ e. IsNotMeant d e) done (c ∷ []) a.0 (n.0, tt), All-widen done c l a.1 n.1)

prune_each-append :
    (done rest : List ContainerRecord)
    → All (λ d. All (λ e. IsNotMeant d e) done) rest
    → Unambiguous rest
    → All IsClean rest
    → prune_each rest (done ++ rest) ≡ done ++ running_only rest
unfolding prune_each
prune_each-append done [] apart h clean = refl
prune_each-append done (c ∷ rest) apart h clean = elim (Bool-cases (is_running c.status)) [
  | inl runs ↦ rw runs (
      rw (← append_assoc done (c ∷ []) rest) (
        prune_each-append (done ++ c ∷ []) rest (All-widen done c rest apart.1 h.0) h.2 clean.1
        ∙ append_assoc done (c ∷ []) (running_only rest)))
  | inr stopped ↦ rw stopped (
      rw (remove-append done c rest apart.0 clean.0)
        (prune_each-append done rest apart.1 h.2 clean.1))
]

module _ (P : ContainerRecord → Type 0) where
  All-running_only : (l : List ContainerRecord) → All P l → All P (running_only l)
  All-running_only [] h = tt
  All-running_only (c ∷ l) h = elim (Bool-cases (is_running c.status)) [
    | inl runs ↦ rw runs (h.0, All-running_only l h.1)
    | inr stopped ↦ rw stopped (All-running_only l h.1)
  ]

Unambiguous-running_only : (l : List ContainerRecord) → Unambiguous l → Unambiguous (running_only l)
Unambiguous-running_only [] h = tt
Unambiguous-running_only (c ∷ l) h = elim (Bool-cases (is_running c.status)) [
  | inl runs ↦ rw runs (
    All-running_only (λ d. IsNotMeant d c) l h.0,
    All-running_only (λ d. IsNotMeant c d) l h.1,
    Unambiguous-running_only l h.2,
  )
  | inr stopped ↦ rw stopped (Unambiguous-running_only l h.2)
]

-- Where every id is clean and means its own container only, `prune_containers` keeps exactly the
-- running containers, in their order, and of these it marks the ones without a live process as
-- exited; paused and created containers are removed like exited ones.
pub prune_containers-running :
    (p : Processes) (s : ContainerStoreData)
    → Unambiguous s
    → All IsClean s
    → prune_containers p s ≡ map (healed p) (running_only s)
unfolding prune_containers
prune_containers-running p s h clean =
    let kept : prune_each s s ≡ running_only s = prune_each-append [] s (all_apart p s) h clean in
    ap (λ t. (reap_stale_containers p t).1) kept
    ∙ ap (λ r. r.1) (reap_stale_containers-map p (running_only s) (Unambiguous-running_only s h))
