-- ===== src/Guardrails/Reaper/Laws.antt =====
-- The reaper against a map over the stored containers.
use kc_docker.Shared.{
  ℕ, ◌+◌, true, false, some, List, [], ◌∷◌, ◌++◌, ◌≡◌, refl, ap, ◌∙◌, All, All-append, map,
  if◌then◌else◌, Text, text_eq_refl, Bool-cases, inl, inr, append_assoc,
}
use kc_docker.Shared.Records.{find_first, update_first}
use kc_docker.Storage.{ContainerRecord, exited}
use kc_docker.Storage.Containers.{ContainerStoreData, matches_query, set_status, update_status}
use kc_docker.Guardrails.Reaper.{
  Processes, is_stale, code_or_killed, reap_one, reap_each, reap_stale_containers,
}

-- The record that a dead container should have.
abbrev pub healed : Processes → ContainerRecord → ContainerRecord
healed p c =
    if is_stale p c
    then record c { status = exited (code_or_killed (p.exit_code c.bundle_path)) }
    else c

abbrev pub count_stale : Processes → List ContainerRecord → ℕ
count_stale p [] = 0
count_stale p (c ∷ containers) = (if is_stale p c then 1 else 0) + count_stale p containers

-- The id of `d` does not mean `c`: neither the id of `c` begins with it nor is it the name of `c`.
abbrev pub IsNotMeant : ContainerRecord → ContainerRecord → Type 0
IsNotMeant d c = matches_query d.id c ≡ false

-- Every id means its own container only.
abbrev pub Unambiguous : List ContainerRecord → Type 0
Unambiguous [] = Unit
Unambiguous (c ∷ containers) =
    All (λ d. IsNotMeant d c) containers
    × All (λ d. IsNotMeant c d) containers
    × Unambiguous containers

pub matches_own : (c : ContainerRecord) → matches_query c.id c ≡ true
matches_own c = rw (text_eq_refl c.id) refl

-- The update goes past those that the id does not mean.
update_first-append :
    (q : Text) (f : ContainerRecord → ContainerRecord) (before : List ContainerRecord)
    (c : ContainerRecord) (after : List ContainerRecord)
    → All (λ d. matches_query q d ≡ false) before
    → matches_query q c ≡ true
    → update_first (matches_query q) f (before ++ c ∷ after) ≡ before ++ f c ∷ after
update_first-append q f [] c after h hit = rw hit refl
update_first-append q f (d ∷ before) c after h hit =
    rw (h.0) (ap (◌∷◌ d) (update_first-append q f before c after h.1 hit))

pub find_first-append :
    (q : Text) (before : List ContainerRecord) (c : ContainerRecord) (after : List ContainerRecord)
    → All (λ d. matches_query q d ≡ false) before
    → matches_query q c ≡ true
    → find_first (matches_query q) (before ++ c ∷ after) ≡ some c
find_first-append q [] c after h hit = rw hit refl
find_first-append q (d ∷ before) c after h hit =
    rw (h.0) (find_first-append q before c after h.1 hit)

module _ (p : Processes) where
  reap_one-append :
      (before : List ContainerRecord) (c : ContainerRecord) (after : List ContainerRecord)
      → All (λ d. matches_query c.id d ≡ false) before
      → reap_one p c (before ++ c ∷ after) ≡ before ++ healed p c ∷ after
  unfolding reap_one update_status
  reap_one-append before c after h = elim (Bool-cases (is_stale p c)) [
    | inr fine ↦ rw fine refl
    | inl stale ↦ rw stale (
        rw (find_first-append c.id before c after h (matches_own c)) (
          update_first-append c.id
            (set_status (exited (code_or_killed (p.exit_code c.bundle_path)))) before c after h
            (matches_own c)))
  ]

  -- What `healed` changes is not looked at by a query.
  matches-healed :
      (q : Text) (c : ContainerRecord) → matches_query q (healed p c) ≡ matches_query q c
  matches-healed q c = elim (Bool-cases (is_stale p c)) [
    | inl stale ↦ rw stale refl
    | inr fine ↦ rw fine refl
  ]

  reap_each-append :
      (done rest : List ContainerRecord)
      → All (λ d. All (λ e. IsNotMeant d e) done) rest
      → Unambiguous rest
      → reap_each p rest (done ++ rest) ≡ (count_stale p rest, done ++ map (healed p) rest)
  unfolding reap_each
  reap_each-append done [] apart h = refl
  reap_each-append done (c ∷ rest) apart h = rw (reap_one-append done c rest apart.0) (
      rw (← append_assoc done (healed p c ∷ []) rest) (
        rw (reap_each-append (done ++ healed p c ∷ []) rest (widen rest apart.1 h.0) h.2)
          (rw (append_assoc done (healed p c ∷ []) (map (healed p) rest)) refl)))
    where
      widen :
          (l : List ContainerRecord)
          → All (λ d. All (λ e. IsNotMeant d e) done) l
          → All (λ d. IsNotMeant d c) l
          → All (λ d. All (λ e. IsNotMeant d e) (done ++ healed p c ∷ [])) l
      widen [] a n = tt
      widen (d ∷ l) a n = (
        All-append (λ e. IsNotMeant d e) done (healed p c ∷ []) a.0
            (matches-healed d.id c ∙ n.0, tt),
        widen l a.1 n.1,
      )

  pub all_apart : (l : List ContainerRecord) → All (λ d. All (λ e. IsNotMeant d e) []) l
  all_apart [] = tt
  all_apart (c ∷ l) = (tt, all_apart l)

  -- Where every id means its own container only, the reaper marks exactly the running containers
  -- without a live process as exited, with the recorded exit code or else 137, leaves all other
  -- records and the order as they are, and returns the number of those it marked.
  pub reap_stale_containers-map :
      (s : ContainerStoreData)
      → Unambiguous s
      → reap_stale_containers p s ≡ (count_stale p s, map (healed p) s)
  unfolding reap_stale_containers
  reap_stale_containers-map s h = reap_each-append [] s (all_apart s) h
