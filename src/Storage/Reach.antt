-- ===== src/Storage/Reach.antt =====
-- The states that the operations of `ContainerStore` reach.
use kc_docker.Shared.{
  [], Text, trim, is_empty, ◌≡◌, refl, arith, Bool-cases, Option-cases, inl, inr, subst,
}
use kc_docker.Shared.Records.{find_first, remove_first, update_first}
use kc_docker.Shared.Result.{ok}
use kc_docker.Storage.{ContainerStatus, HealthStatus, ContainerRecord}
use kc_docker.Storage.Containers.{
  ContainerStoreData, matches_query, add, set_status, set_health, update_status,
  update_health_status, rename, remove,
}
use kc_docker.Storage.Uniqueness.{
  Differ, add-Differ, rename-Differ, Differ-remove_first, Differ-update_first,
}

update_status-Differ :
    (query : Text) (status : ContainerStatus) (s t : ContainerStoreData)
    → update_status query status s ≡ ok t
    → Differ s
    → Differ t
unfolding update_status
update_status-Differ query status s t e d =
    elim (Option-cases (find_first (matches_query query) s)) [
      | inl missing ↦ absurd (ground arith)
      | inr (found, there) ↦
          let same : update_first (matches_query query) (set_status status) s ≡ t = ground arith in
          subst Differ same (
            Differ-update_first (matches_query query) (set_status status) (λ c. refl) (λ c. refl) s
              d)
    ]

update_health_status-Differ :
    (query : Text) (status : HealthStatus) (s t : ContainerStoreData)
    → update_health_status query status s ≡ ok t
    → Differ s
    → Differ t
unfolding update_health_status
update_health_status-Differ query status s t e d =
    elim (Option-cases (find_first (matches_query query) s)) [
      | inl missing ↦ absurd (ground arith)
      | inr (found, there) ↦
          let same : update_first (matches_query query) (set_health status) s ≡ t = ground arith in
          subst Differ same (
            Differ-update_first (matches_query query) (set_health status) (λ c. refl) (λ c. refl) s
              d)
    ]

remove-Differ :
    (query : Text) (s t : ContainerStoreData) (c : ContainerRecord)
    → remove query s ≡ ok (c, t)
    → Differ s
    → Differ t
unfolding remove
remove-Differ query s t c e d = elim (Bool-cases (is_empty (trim query))) [
  | inl blank ↦ absurd (ground arith)
  | inr filled ↦ elim (Option-cases (find_first (matches_query (trim query)) s)) [
    | inl missing ↦ absurd (ground arith)
    | inr (found, there) ↦
        let same : remove_first (matches_query (trim query)) s ≡ t = ground arith in
        subst Differ same (Differ-remove_first (matches_query (trim query)) s d)
  ]
]

-- One operation of `ContainerStore` that succeeds.
pub data Step : ContainerStoreData → ContainerStoreData → Type 0 where
  added : (s t : ContainerStoreData) (c : ContainerRecord) → add c s ≡ ok t → Step s t
  status_set :
      (s t : ContainerStoreData) (query : Text) (status : ContainerStatus)
      → update_status query status s ≡ ok t
      → Step s t
  health_set :
      (s t : ContainerStoreData) (query : Text) (status : HealthStatus)
      → update_health_status query status s ≡ ok t
      → Step s t
  renamed :
      (s t : ContainerStoreData) (old_query new_name : Text)
      → rename old_query new_name s ≡ ok t
      → Step s t
  removed :
      (s t : ContainerStoreData) (query : Text) (c : ContainerRecord)
      → remove query s ≡ ok (c, t)
      → Step s t

pub data Reach : ContainerStoreData → Type 0 where
  start : Reach []
  after : {s t : ContainerStoreData} → Reach s → Step s t → Reach t

Step-Differ : (s t : ContainerStoreData) → Step s t → Differ s → Differ t
Step-Differ _ _ (added s t c e) d = add-Differ c s t e d
Step-Differ _ _ (status_set s t query status e) d = update_status-Differ query status s t e d
Step-Differ _ _ (health_set s t query status e) d = update_health_status-Differ query status s t e d
Step-Differ _ _ (renamed s t old_query new_name e) d = rename-Differ old_query new_name s t e d
Step-Differ _ _ (removed s t query c e) d = remove-Differ query s t c e d

-- In every store that the operations reach, no two containers have one name or one id.
pub Reach-Differ : (s : ContainerStoreData) → Reach s → Differ s
Reach-Differ _ start = tt
Reach-Differ _ (after {s} {t} reached step) = Step-Differ s t step (Reach-Differ s reached)
