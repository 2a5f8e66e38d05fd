-- ===== src/Pod/Membership.antt =====
-- Names of pods and members of a pod, under the operations of `PodStore`.
use kc_docker.Shared.{
  ℕ, Bool, false, not, ◌||◌, ◌&&◌, List, [], ◌∷◌, ◌++◌, ◌≡◌, refl, sym, subst, arith, All,
  All-append, Text, text_eq, text_eq_iff, trim, is_empty, Bool-cases, Option-cases, inl, inr,
}
use kc_docker.Shared.Maps.{contains}
use kc_docker.Shared.Records.{find_first, any, update_first, All-update_first, All-remove_first}
use kc_docker.Shared.Naming.{
  IsApart, Distinct, All-of_any, Distinct-snoc, Distinct-remove_first, Distinct-update_first,
}
use kc_docker.Shared.Result.{ok}
use kc_docker.Storage.Containers.{ContainerStoreData}
use kc_docker.Lifecycle.{Engine}
use kc_docker.Pod.{PodConfig, PodRecord, PodStoreData}
use kc_docker.Pod.Store.{
  matches_query, begins_or_named, pod_name, create_with_config, set_infra, set_status, add_member,
  change, set_infra_container_id, update_status, add_container_to_pod,
}
use kc_docker.Pod.Removal.{Removing, is_busy, is_prunable, remove_with_force, prune, PodState}

abbrev pub name_of : PodRecord → Text
name_of p = p.name

abbrev pub NoRepeats : List Text → Type 0
NoRepeats [] = Unit
NoRepeats (x ∷ xs) = (contains xs x ≡ false) × NoRepeats xs

abbrev pub HasMembers : PodRecord → Type 0
HasMembers p = NoRepeats p.containers

-- No two pods have one name, and no pod has a member twice.
abbrev pub IsTidy : PodStoreData → Type 0
IsTidy pods = Distinct name_of pods × All HasMembers pods

contains-snoc :
    (xs : List Text) (y z : Text) → contains (xs ++ y ∷ []) z ≡ (contains xs z || text_eq y z)
contains-snoc [] y z = ground arith
contains-snoc (x ∷ xs) y z = ground (arith, contains-snoc xs y z)

NoRepeats-snoc :
    (xs : List Text) (y : Text) → contains xs y ≡ false → NoRepeats xs → NoRepeats (xs ++ y ∷ [])
NoRepeats-snoc [] y h n = (refl, tt)
NoRepeats-snoc (x ∷ xs) y h n = (
  rw (contains-snoc xs y x) (ground (arith, n.0, text_eq_iff x y, text_eq_iff y x)),
  NoRepeats-snoc xs y (ground arith) n.1,
)

add_member-HasMembers : (cid : Text) (p : PodRecord) → HasMembers p → HasMembers (add_member cid p)
add_member-HasMembers cid p h = elim (Bool-cases (contains p.containers cid)) [
  | inl there ↦ rw there h
  | inr new ↦ rw new (NoRepeats-snoc p.containers cid new h)
]

module _ (f : PodRecord → PodRecord) (same_name : (p : PodRecord) → (f p).name ≡ p.name)
    (keeps : (p : PodRecord) → HasMembers p → HasMembers (f p)) where
  change-IsTidy :
      (query : Text) (s t : PodStoreData) → change f query s ≡ ok t → IsTidy s → IsTidy t
  change-IsTidy query s t e h = elim (Option-cases (find_first (begins_or_named query) s)) [
    | inl missing ↦ absurd (ground arith)
    | inr (p, there) ↦
        let same : update_first (begins_or_named query) f s ≡ t = ground arith in
        subst IsTidy same (
          Distinct-update_first name_of (begins_or_named query) f same_name s h.0,
          All-update_first (begins_or_named query) HasMembers f s p there (keeps p) h.1,
        )
  ]

create_with_config-IsTidy :
    (now : ℕ) (random : Text) (config : PodConfig) (s t : PodStoreData) (p : PodRecord)
    → create_with_config now random config s ≡ ok (p, t)
    → IsTidy s
    → IsTidy t
unfolding create_with_config
create_with_config-IsTidy now random config s t p e h =
    let n = pod_name config.name random in
    elim (Bool-cases (any (λ q. text_eq q.name n) s)) [
      | inl taken ↦ absurd (ground arith)
      | inr free ↦
          let new : (s ++ p ∷ [] ≡ t) × (p.name ≡ n) × (p.containers ≡ []) = ground arith in
          subst IsTidy new.0 (
            Distinct-snoc name_of s p h.0 (
                subst (λ m. All (λ q. text_eq q.name m ≡ false) s) (sym new.1)
                  (All-of_any name_of n s free)),
            All-append HasMembers s (p ∷ []) h.1 (subst NoRepeats (sym new.2) tt, tt),
          )
    ]

remove_with_force-IsTidy :
    (r : Removing) (query : Text) (force : Bool) (s : PodState)
    → IsTidy s.0
    → IsTidy (remove_with_force r query force s).0.0
unfolding remove_with_force
remove_with_force-IsTidy r query force s h = elim (Bool-cases (is_empty (trim query))) [
  | inl blank ↦ rw blank h
  | inr filled ↦ rw filled (elim (Option-cases (find_first (matches_query (trim query)) s.0)) [
    | inl missing ↦ rw missing h
    | inr (p, there) ↦ rw there (elim (Bool-cases (not force && is_busy s.1.containers p)) [
      | inl refused ↦ rw refused h
      | inr allowed ↦ rw allowed (
        Distinct-remove_first name_of (matches_query (trim query)) s.0 h.0,
        All-remove_first (matches_query (trim query)) HasMembers s.0 h.1,
      )
    ])
  ])
]

module _ (containers : ContainerStoreData) where
  All-prune : (P : PodRecord → Type 0) (s : PodStoreData) → All P s → All P (prune containers s).0
  unfolding prune
  All-prune P [] h = tt
  All-prune P (p ∷ s) h = elim (Bool-cases (is_prunable containers p)) [
    | inl gone ↦ rw (gone, prune) (All-prune P s h.1)
    | inr stays ↦ rw (stays, prune) (h.0, All-prune P s h.1)
  ]

  prune-IsTidy : (s : PodStoreData) → IsTidy s → IsTidy (prune containers s).0
  unfolding prune
  prune-IsTidy [] h = (tt, tt)
  prune-IsTidy (p ∷ s) h = elim (Bool-cases (is_prunable containers p)) [
    | inl gone ↦ rw (gone, prune) (prune-IsTidy s (h.0.1, h.1.1))
    | inr stays ↦
        let rest = prune-IsTidy s (h.0.1, h.1.1) in
        rw (stays, prune) ((All-prune (IsApart name_of p) s h.0.0, rest.0), (h.1.0, rest.1))
  ]

-- One operation on the pods; the containers are as they are at that time.
pub data Step (s t : PodStoreData) : Type 0 where
  created :
      (now : ℕ) (random : Text) (config : PodConfig) (p : PodRecord)
      → create_with_config now random config s ≡ ok (p, t)
      → Step s t
  infra_set : (query infra_id : Text) → set_infra_container_id query infra_id s ≡ ok t → Step s t
  status_set : (query status : Text) → update_status query status s ≡ ok t → Step s t
  member_added : (query cid : Text) → add_container_to_pod query cid s ≡ ok t → Step s t
  removed :
      (r : Removing) (query : Text) (force : Bool) (e : Engine)
      → (remove_with_force r query force (s, e)).0.0 ≡ t
      → Step s t
  pruned : (containers : ContainerStoreData) → (prune containers s).0 ≡ t → Step s t

pub data Reach : PodStoreData → Type 0 where
  start : Reach []
  after : {s t : PodStoreData} → Reach s → Step s t → Reach t

Step-IsTidy : (s t : PodStoreData) → Step s t → IsTidy s → IsTidy t
unfolding set_infra_container_id update_status add_container_to_pod
Step-IsTidy s t (created now random config p e) h =
    create_with_config-IsTidy now random config s t p e h
Step-IsTidy s t (infra_set query infra_id e) h =
    change-IsTidy (set_infra infra_id) (λ p. refl) (λ p m. m) query s t e h
Step-IsTidy s t (status_set query status e) h =
    change-IsTidy (set_status status) (λ p. refl) (λ p m. m) query s t e h
Step-IsTidy s t (member_added query cid e) h =
    change-IsTidy (add_member cid) (add_member-name cid) (add_member-HasMembers cid) query s t e h
  where
    add_member-name : (cid : Text) (p : PodRecord) → (add_member cid p).name ≡ p.name
    add_member-name cid p = ground arith
Step-IsTidy s t (removed r query force e same) h =
    subst IsTidy same (remove_with_force-IsTidy r query force (s, e) h)
Step-IsTidy s t (pruned containers same) h = subst IsTidy same (prune-IsTidy containers s h)

-- In every store that the operations on pods reach, no two pods have one name, and no pod has a
-- member twice.
pub Reach-IsTidy : (s : PodStoreData) → Reach s → IsTidy s
Reach-IsTidy _ start = (tt, tt)
Reach-IsTidy _ (after {s} {t} reached step) = Step-IsTidy s t step (Reach-IsTidy s reached)
