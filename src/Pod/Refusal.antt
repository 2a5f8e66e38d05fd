-- ===== src/Pod/Refusal.antt =====
-- `remove_with_force` of a pod, on every branch.
use kc_docker.Shared.{
  Bool, true, false, not, ◌&&◌, Option, none, some, List, [], ◌∷◌, ◌≡◌, refl, ap, ◌∙◌, arith, Text,
  trim, is_empty, Bool-cases, Option-cases, inl, inr,
}
use kc_docker.Shared.Records.{remove_first}
use kc_docker.Shared.Result.{Result, ok, err}
use kc_docker.Storage.{ContainerRecord}
use kc_docker.Storage.Containers
use kc_docker.Volume.{VolumeStore}
use kc_docker.Lifecycle.{LifecycleError, Engine, is_active}
use kc_docker.Lifecycle.Removal.{remove_container_opts-missing, remove_container_opts-keys}
use kc_docker.Pod.{PodRecord, PodStoreData, not_found, running_pod}
use kc_docker.Pod.Store.{matches_query, find}
use kc_docker.Pod.Removal.{
  Removing, find_infra, is_busy, remove_container, remove_members, remove_infra, remove_with_force,
}

abbrev volumes_after : Engine × Result {0, 0} LifecycleError Unit → VolumeStore
volumes_after d = d.0.volumes

module _ (r : Removing) (force : Bool) where
  remove_container-volumes :
      (cid : Text) (e : Engine) → (remove_container r force cid e).volumes ≡ e.volumes
  remove_container-volumes cid e = elim (Option-cases (Containers.find e.containers cid)) [
    | inl missing ↦ ap volumes_after (
        remove_container_opts-missing (r.at_stop cid) (r.at_end cid) r.sources cid force false e
          missing)
    | inr (c, there) ↦
        let all =
          remove_container_opts-keys (r.at_stop cid) (r.at_end cid) r.sources cid force false e c
            there in
        elim (Bool-cases (is_active c.status && not force)) [
          | inl refused ↦ ap volumes_after (all.0 refused)
          | inr allowed ↦ let done = all.1 allowed in ap volumes_after done.1 ∙ done.3 refl
        ]
  ]

  remove_members-volumes :
      (cids : List Text) (e : Engine) → (remove_members r force cids e).volumes ≡ e.volumes
  remove_members-volumes [] e = refl
  remove_members-volumes (cid ∷ cids) e =
      remove_members-volumes cids (remove_container r force cid e) ∙ remove_container-volumes cid e

  remove_infra-volumes :
      (e : Engine) (infra : Option ContainerRecord)
      → (remove_infra r force e infra).volumes ≡ e.volumes
  remove_infra-volumes e none = refl
  remove_infra-volumes e (some infra) = remove_container-volumes infra.id e

  -- A pod that no query finds is not removed. Without force, a pod with a running member or a
  -- running infra container is refused. In both cases nothing changes, in any store. Otherwise the
  -- removal succeeds, exactly the pod that was found leaves the list, and no volume changes.
  pub remove_with_force-Removed :
      (query : Text) (pods : PodStoreData) (e : Engine)
      → (find pods query ≡ none
          → remove_with_force r query force (pods, e) ≡ ((pods, e), err not_found))
        × ((p : PodRecord)
            → find pods query ≡ some p
            → ((not force && is_busy e.containers p) ≡ true
                → remove_with_force r query force (pods, e) ≡ ((pods, e), err (running_pod p.name)))
              × ((not force && is_busy e.containers p) ≡ false
                  → (after : Engine) × (remove_with_force r query force (pods, e)
                      ≡ ((remove_first (matches_query (trim query)) pods, after), ok p))
                    × (after.volumes ≡ e.volumes)))
  unfolding remove_with_force find
  remove_with_force-Removed query pods e = elim (Bool-cases (is_empty (trim query))) [
    | inl blank ↦ rw blank (λ h. refl, λ p h. absurd (ground arith))
    | inr filled ↦ rw filled (
      λ missing. rw missing refl,
      λ p there. (
        λ refused. rw there (rw refused refl),
        λ allowed.
            let gone = remove_members r force p.containers e in
            (
              remove_infra r force gone (find_infra gone.containers p),
              rw there (rw allowed refl),
              remove_infra-volumes gone (find_infra gone.containers p)
                  ∙ remove_members-volumes p.containers e,
            ),
      ),
    )
  ]
