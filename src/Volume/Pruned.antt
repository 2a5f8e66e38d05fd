-- ===== src/Volume/Pruned.antt =====
-- A well-formed store of volumes, under `prune` and `prune_with_options`.
use kc_docker.Shared.{
  Bool, false, List, [], ◌∷◌, ◌≡◌, refl, arith, All, Text, text_eq, text_eq_iff, Bool-cases, inl,
  inr,
}
use kc_docker.Shared.Maps.{contains, discard, contains-discard}
use kc_docker.Storage.{ContainerRecord}
use kc_docker.Volume.{VolumeRecord, VolumeStore}
use kc_docker.Volume.Prune.{retain, stored, prune, prune_with_options}
use kc_docker.Volume.Invariant.{IsStored, IsConsistent, All-discard}
use kc_docker.Volume.Names.{IsApart, Distinct, retain_gone, retain_stays}

module _ (dir : Text) (goes : VolumeRecord → Bool) where
  All-retain :
      (P : VolumeRecord → Type 0) (volumes : List VolumeRecord) (dirs : List Text)
      → All P volumes
      → All P (retain goes volumes dirs).0
  All-retain P [] dirs h = unfold retain in tt
  All-retain P (v ∷ volumes) dirs h = elim (Bool-cases (goes v)) [
    | inl gone ↦
        rw (retain_gone goes v volumes dirs gone) (All-retain P volumes (discard v.name dirs) h.1)
    | inr stays ↦ rw (retain_stays goes v volumes dirs stays) (h.0, All-retain P volumes dirs h.1)
  ]

  Distinct-retain :
      (volumes : List VolumeRecord) (dirs : List Text)
      → Distinct volumes
      → Distinct (retain goes volumes dirs).0
  Distinct-retain [] dirs h = unfold retain in tt
  Distinct-retain (v ∷ volumes) dirs h = elim (Bool-cases (goes v)) [
    | inl gone ↦
        rw (retain_gone goes v volumes dirs gone)
          (Distinct-retain volumes (discard v.name dirs) h.1)
    | inr stays ↦
        rw (retain_stays goes v volumes dirs stays)
          (All-retain (IsApart v) volumes dirs h.0, Distinct-retain volumes dirs h.1)
  ]

  -- A volume apart from all that are looked at keeps its directory.
  contains-left :
      (n : Text) (volumes : List VolumeRecord) (dirs : List Text)
      → All (λ w. text_eq w.name n ≡ false) volumes
      → contains (retain goes volumes dirs).1 n ≡ contains dirs n
  contains-left n [] dirs h = unfold retain in refl
  contains-left n (v ∷ volumes) dirs h = elim (Bool-cases (goes v)) [
    | inl gone ↦ rw (retain_gone goes v volumes dirs gone) (
        rw (contains-left n volumes (discard v.name dirs) h.1)
          (rw (contains-discard v.name n dirs) (rw h.0 refl)))
    | inr stays ↦ rw (retain_stays goes v volumes dirs stays) (contains-left n volumes dirs h.1)
  ]

  apart_comm :
      (v : VolumeRecord) (volumes : List VolumeRecord)
      → All (IsApart v) volumes
      → All (λ w. text_eq w.name v.name ≡ false) volumes
  apart_comm v [] h = tt
  apart_comm v (w ∷ volumes) h = (
    ground (arith, h.0, text_eq_iff v.name w.name, text_eq_iff w.name v.name),
    apart_comm v volumes h.1,
  )

  All-kept :
      (volumes : List VolumeRecord) (dirs : List Text)
      → Distinct volumes
      → All (IsStored dir dirs) volumes
      → All (IsStored dir (retain goes volumes dirs).1) (retain goes volumes dirs).0
  All-kept [] dirs d h = unfold retain in tt
  All-kept (v ∷ volumes) dirs d h = elim (Bool-cases (goes v)) [
    | inl gone ↦
        rw (retain_gone goes v volumes dirs gone)
          (All-kept volumes (discard v.name dirs) d.1 (All-discard dir v dirs volumes d.0 h.1))
    | inr stays ↦ rw (retain_stays goes v volumes dirs stays) (
      record {
        named = h.0.named;
        mounted = h.0.mounted;
        present = rw (contains-left v.name volumes dirs (apart_comm v volumes d.0)) h.0.present;
      },
      All-kept volumes dirs d.1 h.1,
    )
  ]

stored-IsConsistent :
    (goes : VolumeRecord → Bool) (s : VolumeStore)
    → IsConsistent s
    → IsConsistent (stored s (retain goes s.volumes s.dirs)).0
stored-IsConsistent goes s h = record {
  distinct = Distinct-retain s.volumes_dir goes s.volumes s.dirs h.distinct;
  stored = All-kept s.volumes_dir goes s.volumes s.dirs h.distinct h.stored;
}

module _ (containers : List ContainerRecord) (sources : Text → List Text) (s : VolumeStore) where
  pub prune-IsConsistent : IsConsistent s → IsConsistent (prune containers sources s).0
  unfolding prune
  prune-IsConsistent h = stored-IsConsistent _ s h

  pub prune_with_options-IsConsistent :
      (all : Bool) (filters : List Text)
      → IsConsistent s
      → IsConsistent (prune_with_options containers sources all filters s).0
  unfolding prune_with_options
  prune_with_options-IsConsistent all filters h = stored-IsConsistent _ s h
