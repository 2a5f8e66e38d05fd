-- ===== src/Volume/Names.antt =====
-- The records of a store by name: distinct names, lookups after a change, and the names in use.
use kc_docker.Shared.{
  Bool, true, false, ◌||◌, ◌&&◌, Option, none, some, List, [], ◌∷◌, ◌++◌, ◌≡◌, refl, arith, All,
  if◌then◌else◌, Text, text_eq, text_eq_iff, text_eq_refl, text_eq_sound, Bool-cases, inl, inr,
}
use kc_docker.Shared.Maps.{contains, add, contains-add, discard}
use kc_docker.Shared.Records.{find_first, any, remove_first}
use kc_docker.Storage.{ContainerRecord}
use kc_docker.Volume.{VolumeRecord}
use kc_docker.Volume.Store.{has_name}
use kc_docker.Volume.Usage.{
  is_used_by, used_by_source, used_by_sources, used_by_containers, used_volume_names,
}
use kc_docker.Volume.Prune.{retain}

abbrev pub IsApart : VolumeRecord → VolumeRecord → Type 0
IsApart v w = text_eq v.name w.name ≡ false

-- No two volumes have one name.
abbrev pub Distinct : List VolumeRecord → Type 0
Distinct [] = Unit
Distinct (v ∷ volumes) = All (IsApart v) volumes × Distinct volumes

-- Some container has a mount source that counts as the volume's.
abbrev pub is_mounted : (Text → List Text) → List ContainerRecord → Text → Bool
is_mounted sources containers name =
    any (λ c. any (is_used_by name) (sources c.bundle_path)) containers

contains-used_by_source :
    (source n : Text) (volumes : List VolumeRecord) (names : List Text)
    → contains (used_by_source source volumes names) n
      ≡ (contains names n || (is_used_by n source && any (has_name n) volumes))
unfolding used_by_source
contains-used_by_source source n [] names = ground arith
contains-used_by_source source n (v ∷ volumes) names = elim (Bool-cases (text_eq v.name n)) [
  | inl same ↦
      let e : v.name ≡ n = text_eq_sound v.name n same in
      rw
        (contains-used_by_source source n volumes
          (if is_used_by v.name source then add v.name names else names))
        (rw e (elim (Bool-cases (is_used_by n source)) [
          | inl used ↦ rw used (rw (contains-add n n names) (ground (arith, text_eq_iff n n)))
          | inr unused ↦ rw unused (ground arith)
        ]))
  | inr other ↦
      rw
        (contains-used_by_source source n volumes
          (if is_used_by v.name source then add v.name names else names))
        (elim (Bool-cases (is_used_by v.name source)) [
          | inl used ↦ rw used (rw (contains-add v.name n names) (ground arith))
          | inr unused ↦ rw unused (ground arith)
        ])
]

contains-used_by_sources :
    (sources : List Text) (n : Text) (volumes : List VolumeRecord) (names : List Text)
    → contains (used_by_sources sources volumes names) n
      ≡ (contains names n || (any (is_used_by n) sources && any (has_name n) volumes))
unfolding used_by_sources
contains-used_by_sources [] n volumes names = ground arith
contains-used_by_sources (source ∷ rest) n volumes names = ground (
  arith,
  contains-used_by_sources rest n volumes (used_by_source source volumes names),
  contains-used_by_source source n volumes names,
)

module _ (sources : Text → List Text) (n : Text) where
  contains-used_by_containers :
      (containers : List ContainerRecord) (volumes : List VolumeRecord) (names : List Text)
      → contains (used_by_containers sources containers volumes names) n
        ≡ (contains names n || (is_mounted sources containers n && any (has_name n) volumes))
  unfolding used_by_containers
  contains-used_by_containers [] volumes names = ground arith
  contains-used_by_containers (c ∷ containers) volumes names = ground (
    arith,
    contains-used_by_containers containers volumes
        (used_by_sources (sources c.bundle_path) volumes names),
    contains-used_by_sources (sources c.bundle_path) n volumes names,
  )

  -- The name of a stored volume is in the set exactly when the volume is mounted.
  pub contains-used_volume_names :
      (containers : List ContainerRecord) (volumes : List VolumeRecord)
      → any (has_name n) volumes ≡ true
      → contains (used_volume_names sources containers volumes) n ≡ is_mounted sources containers n
  unfolding used_volume_names
  contains-used_volume_names containers volumes h =
      ground (arith, contains-used_by_containers containers volumes [])

pub find_first-none :
    (n : Text) (volumes : List VolumeRecord)
    → any (has_name n) volumes ≡ false
    → find_first (has_name n) volumes ≡ none
find_first-none n [] h = refl
find_first-none n (v ∷ volumes) h = ground (arith, find_first-none n volumes)

pub find_first-any :
    (n : Text) (volumes : List VolumeRecord)
    → any (has_name n) volumes
      ≡ elim (find_first (has_name n) volumes) [ none ↦ false | some v ↦ true ]
find_first-any n [] = refl
find_first-any n (v ∷ volumes) = elim (Bool-cases (text_eq v.name n)) [
  | inl same ↦ rw same refl
  | inr other ↦ rw other (find_first-any n volumes)
]

pub find_first-snoc :
    (n : Text) (volumes : List VolumeRecord) (new : VolumeRecord)
    → any (has_name new.name) volumes ≡ false
    → find_first (has_name n) (volumes ++ new ∷ [])
      ≡ (if text_eq new.name n then some new else find_first (has_name n) volumes)
find_first-snoc n [] new h = refl
find_first-snoc n (v ∷ volumes) new h = ground (
  arith,
  find_first-snoc n volumes new,
  text_eq_iff new.name n,
  text_eq_iff v.name n,
  text_eq_iff v.name new.name,
)

pub found_snoc :
    (volumes : List VolumeRecord) (new : VolumeRecord)
    → any (has_name new.name) volumes ≡ false
    → find_first (has_name new.name) (volumes ++ new ∷ []) ≡ some new
found_snoc volumes new h = rw (find_first-snoc new.name volumes new h, text_eq_refl new.name) refl

none_of_apart :
    (n : Text) (v : VolumeRecord) (volumes : List VolumeRecord)
    → v.name ≡ n
    → All (IsApart v) volumes
    → find_first (has_name n) volumes ≡ none
none_of_apart n v [] e h = refl
none_of_apart n v (w ∷ volumes) e h =
    ground (arith, none_of_apart n v volumes, text_eq_iff v.name w.name, text_eq_iff w.name n)

pub find_first-remove_first :
    (a n : Text) (volumes : List VolumeRecord)
    → Distinct volumes
    → find_first (has_name n) (remove_first (has_name a) volumes)
      ≡ (if text_eq a n then none else find_first (has_name n) volumes)
find_first-remove_first a n [] h = ground arith
find_first-remove_first a n (v ∷ volumes) h = ground (
  arith,
  find_first-remove_first a n volumes h.1,
  none_of_apart n v volumes,
  text_eq_iff v.name a,
  text_eq_iff v.name n,
  text_eq_iff a n,
)

-- A volume that goes is dropped.
abbrev pub kept_if : (VolumeRecord → Bool) → Option VolumeRecord → Option VolumeRecord
kept_if goes none = none
kept_if goes (some v) = if goes v then none else some v

abbrev pub goes_if : (VolumeRecord → Bool) → Option VolumeRecord → Bool
goes_if goes none = false
goes_if goes (some v) = goes v

module _ (goes : VolumeRecord → Bool) (v : VolumeRecord) (volumes : List VolumeRecord)
    (dirs : List Text) where
  pub retain_gone :
      goes v ≡ true
      → retain goes (v ∷ volumes) dirs ≡ (
        (retain goes volumes (discard v.name dirs)).0,
        (retain goes volumes (discard v.name dirs)).1,
        v.name ∷ (retain goes volumes (discard v.name dirs)).2,
      )
  unfolding retain
  retain_gone gone = rw (gone, retain) refl

  pub retain_stays :
      goes v ≡ false
      → retain goes (v ∷ volumes) dirs ≡ (
        v ∷ (retain goes volumes dirs).0,
        (retain goes volumes dirs).1,
        (retain goes volumes dirs).2,
      )
  unfolding retain
  retain_stays stays = rw (stays, retain) refl

module _ (goes : VolumeRecord → Bool) (n : Text) where
  pub find_first-retain :
      (volumes : List VolumeRecord) (dirs : List Text)
      → Distinct volumes
      → find_first (has_name n) (retain goes volumes dirs).0
        ≡ kept_if goes (find_first (has_name n) volumes)
  find_first-retain [] dirs h = unfold retain in refl
  find_first-retain (v ∷ volumes) dirs h = elim (Bool-cases (goes v)) [
    | inl gone ↦ rw (retain_gone goes v volumes dirs gone) (
        rw (find_first-retain volumes (discard v.name dirs) h.1)
          (elim (Bool-cases (text_eq v.name n)) [
            | inl same ↦
                rw same
                  (rw gone (rw (none_of_apart n v volumes (text_eq_sound v.name n same) h.0) refl))
            | inr other ↦ rw other refl
          ]))
    | inr stays ↦ rw (retain_stays goes v volumes dirs stays) (
        rw (find_first-retain volumes dirs h.1) (elim (Bool-cases (text_eq v.name n)) [
          | inl same ↦ rw same (rw stays refl)
          | inr other ↦ rw other refl
        ]))
  ]

  pub contains-retain :
      (volumes : List VolumeRecord) (dirs : List Text)
      → Distinct volumes
      → contains (retain goes volumes dirs).2 n ≡ goes_if goes (find_first (has_name n) volumes)
  contains-retain [] dirs h = unfold retain in refl
  contains-retain (v ∷ volumes) dirs h = elim (Bool-cases (goes v)) [
    | inl gone ↦ rw (retain_gone goes v volumes dirs gone) (
        rw (contains-retain volumes (discard v.name dirs) h.1)
          (elim (Bool-cases (text_eq v.name n)) [
            | inl same ↦ rw same (rw gone refl)
            | inr other ↦ rw other refl
          ]))
    | inr stays ↦ rw (retain_stays goes v volumes dirs stays) (
        rw (contains-retain volumes dirs h.1) (elim (Bool-cases (text_eq v.name n)) [
          | inl same ↦
              rw same
                (rw stays (rw (none_of_apart n v volumes (text_eq_sound v.name n same) h.0) refl))
          | inr other ↦ rw other refl
        ]))
  ]
