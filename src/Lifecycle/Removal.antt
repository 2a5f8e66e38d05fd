-- ===== src/Lifecycle/Removal.antt =====
-- `remove_container_opts`, seen through the ids and names of the stored containers.
use kc_docker.Shared.{
  Bool, true, false, not, ◌&&◌, none, some, List, [], ◌∷◌, ◌≡◌, refl, ap, ap₂, subst, ◌∙◌, arith,
  if◌then◌else◌, Text, trim, is_empty, Bool-cases, Option-cases, inl, inr, pos,
}
use kc_docker.Shared.Records.{find_first, update_first, remove_first}
use kc_docker.Shared.Result.{Result, ok, err, Result-cases}
use kc_docker.Storage.{ContainerStatus, ContainerRecord, exited}
use kc_docker.Storage.Containers.{
  ContainerStoreData, StoreError, matches_query, set_status, find, update_status,
}
use kc_docker.Storage.Containers
use kc_docker.Guardrails.Reaper.{
  Processes, is_stale, code_or_killed, keep_or, reap_one, reap_each, reap_stale_containers,
}
use kc_docker.Lifecycle.{
  not_found, conflict, Engine, is_active, stop_container, remove_container_opts, drop_volumes,
}

-- The id and the name of each container, in order.
abbrev pub keys : List ContainerRecord → List (Text × Text)
keys [] = []
keys (c ∷ containers) = (c.id, c.name) ∷ keys containers

keys-update_first :
    (test : ContainerRecord → Bool) (status : ContainerStatus) (s : ContainerStoreData)
    → keys (update_first test (set_status status) s) ≡ keys s
keys-update_first test status [] = refl
keys-update_first test status (c ∷ s) = elim (Bool-cases (test c)) [
  | inl hit ↦ rw hit refl
  | inr miss ↦ rw miss (ap (◌∷◌ (c.id, c.name)) (keys-update_first test status s))
]

keys-update_status :
    (id : Text) (status : ContainerStatus) (s : ContainerStoreData)
    → keys (keep_or s (update_status id status s)) ≡ keys s
unfolding update_status
keys-update_status id status s = elim (Option-cases (find_first (matches_query id) s)) [
  | inl missing ↦ rw missing refl
  | inr (c, found) ↦ rw found (keys-update_first (matches_query id) status s)
]

keys-reap_one :
    (p : Processes) (c : ContainerRecord) (s : ContainerStoreData) → keys (reap_one p c s) ≡ keys s
unfolding reap_one
keys-reap_one p c s = elim (Bool-cases (is_stale p c)) [
  | inl stale ↦
      rw stale (keys-update_status c.id (exited (code_or_killed (p.exit_code c.bundle_path))) s)
  | inr fine ↦ rw fine refl
]

keys-reap_each :
    (p : Processes) (containers : List ContainerRecord) (s : ContainerStoreData)
    → keys (reap_each p containers s).1 ≡ keys s
unfolding reap_each
keys-reap_each p [] s = refl
keys-reap_each p (c ∷ containers) s =
    keys-reap_each p containers (reap_one p c s) ∙ keys-reap_one p c s

pub keys-reap_stale_containers :
    (p : Processes) (s : ContainerStoreData) → keys (reap_stale_containers p s).1 ≡ keys s
unfolding reap_stale_containers
keys-reap_stale_containers p s = keys-reap_each p s s

keys-stop_container :
    (p : Processes) (query : Text) (s : ContainerStoreData)
    → keys (stop_container p query s).0 ≡ keys s
unfolding stop_container
keys-stop_container p query s = elim (Option-cases (find s query)) [
  | inl missing ↦ rw missing refl
  | inr (c, there) ↦ rw there (elim (Result-cases (update_status c.id (exited (pos 0)) s)) [
    | inr (e, failed') ↦ rw failed' refl
    | inl (t, done) ↦
        let kept : keys t ≡ keys s =
          subst (λ (r : Result StoreError ContainerStoreData). keys (keep_or s r) ≡ keys s) done
            (keys-update_status c.id (exited (pos 0)) s) in
        rw done (keys-reap_stale_containers p t ∙ kept)
  ])
]

-- A query looks at ids and names only.
module _ (q : Text) where
  same_test :
      (c d : ContainerRecord)
      → c.id ≡ d.id
      → c.name ≡ d.name
      → matches_query q c ≡ matches_query q d
  same_test c d i n = rw (i, n) refl

  keys-remove_first :
      (s t : ContainerStoreData)
      → keys s ≡ keys t
      → keys (remove_first (matches_query q) s) ≡ keys (remove_first (matches_query q) t)
  keys-remove_first [] [] e = refl
  keys-remove_first [] (d ∷ t) e = absurd (ground arith)
  keys-remove_first (c ∷ s) [] e = absurd (ground arith)
  keys-remove_first (c ∷ s) (d ∷ t) e =
      let i : c.id ≡ d.id = ground arith in
      let n : c.name ≡ d.name = ground arith in
      let rest : keys s ≡ keys t = ground arith in
      elim (Bool-cases (matches_query q d)) [
        | inl hit ↦ rw (same_test c d i n ∙ hit) (rw hit rest)
        | inr miss ↦
            rw (same_test c d i n ∙ miss)
              (rw miss (ap₂ (◌∷◌) (rw (i, n) refl) (keys-remove_first s t rest)))
      ]

  found_by_keys :
      (s t : ContainerStoreData) (c : ContainerRecord)
      → keys s ≡ keys t
      → find_first (matches_query q) t ≡ some c
      → (d : ContainerRecord) × (find_first (matches_query q) s ≡ some d)
  found_by_keys [] [] c e h = absurd (ground arith)
  found_by_keys [] (d ∷ t) c e h = absurd (ground arith)
  found_by_keys (b ∷ s) [] c e h = absurd (ground arith)
  found_by_keys (b ∷ s) (d ∷ t) c e h =
      let i : b.id ≡ d.id = ground arith in
      let n : b.name ≡ d.name = ground arith in
      let rest : keys s ≡ keys t = ground arith in
      elim (Bool-cases (matches_query q d)) [
        | inl hit ↦ rw (same_test b d i n ∙ hit) (b, refl)
        | inr miss ↦ rw (same_test b d i n ∙ miss) (found_by_keys s t c rest (ground arith))
      ]

pub remove_container_opts-missing :
    (at_stop at_end : Processes) (sources : Text → List Text) (query : Text)
    (force with_volumes : Bool) (e : Engine)
    → find e.containers query ≡ none
    → remove_container_opts at_stop at_end sources query force with_volumes e ≡ (e, err not_found)
unfolding remove_container_opts
remove_container_opts-missing at_stop at_end sources query force with_volumes e missing =
    rw missing refl

module _ (at_stop at_end : Processes) (sources : Text → List Text) (query : Text)
    (force with_volumes : Bool) (e : Engine) (c : ContainerRecord)
    (there : find e.containers query ≡ some c) where
  left : ContainerStoreData
  left = if is_active c.status then (stop_container at_stop query e.containers).0 else e.containers

  keys-left : keys left ≡ keys e.containers
  unfolding left
  keys-left = elim (Bool-cases (is_active c.status)) [
    | inl active ↦ rw active (keys-stop_container at_stop query e.containers)
    | inr idle ↦ rw idle refl
  ]

  removed_left :
      (d : ContainerRecord) × (Containers.remove query left
        ≡ ok (d, remove_first (matches_query (trim query)) left))
  unfolding find Containers.remove
  removed_left = elim (Bool-cases (is_empty (trim query))) [
    | inl blank ↦ absurd (ground arith)
    | inr filled ↦
        let found : find_first (matches_query (trim query)) e.containers ≡ some c = ground arith in
        let hit = found_by_keys (trim query) left e.containers c keys-left found in
        (hit.0, rw filled (rw hit.1 refl))
  ]

  -- Without force, the removal of a running or paused container is refused and changes nothing.
  -- Otherwise it succeeds: the first container that the query means is gone, every other one is
  -- left in its place with its id and its name, and the volumes are as they were unless they were
  -- to go too.
  pub remove_container_opts-keys :
      ((is_active c.status && not force) ≡ true
        → remove_container_opts at_stop at_end sources query force with_volumes e
          ≡ (e, err (conflict c.id)))
      × ((is_active c.status && not force) ≡ false
          → (r : Engine) × (remove_container_opts at_stop at_end sources query force with_volumes e
              ≡ (r, ok tt))
            × (keys r.containers ≡ keys (remove_first (matches_query (trim query)) e.containers))
            × (with_volumes ≡ false → r.volumes ≡ e.volumes))
  unfolding remove_container_opts left
  remove_container_opts-keys = (
    λ refused. rw there (rw refused refl),
    λ allowed.
        let gone = remove_first (matches_query (trim query)) left in
        (
          record {
            containers = (reap_stale_containers at_end gone).1;
            volumes =
                if with_volumes then drop_volumes (sources c.bundle_path) e.volumes else e.volumes;
          },
          rw there (rw allowed (rw removed_left.1 refl)),
          keys-reap_stale_containers at_end gone
              ∙ keys-remove_first (trim query) left e.containers keys-left,
          λ kept. rw kept refl,
        ),
  )
