-- ===== src/Volume/InUse.antt =====
-- Volumes that a container mounts, under `prune`, `prune_with_options` and `remove_with_force`.
use kc_docker.Shared.{
  Bool, true, false, some, List, [], ◌∷◌, ◌++◌, ◌≡◌, refl, ap, ◌∙◌, arith, Text, codes, text_eq,
  text_eq_sound, Bool-cases, inl, inr, append_assoc, append-nil,
}
use kc_docker.Shared.Search.{contains_text, contains_text-append}
use kc_docker.Shared.Records.{any, test_of_found, All-find_first}
use kc_docker.Shared.Result.{err}
use kc_docker.Storage.{ContainerRecord}
use kc_docker.Volume.{VolumeRecord, VolumeStore, in_use}
use kc_docker.Volume.Store.{has_name, find, mountpoint_of, remove_with_force}
use kc_docker.Volume.Usage.{names_path, refers_to, is_used_by, user_of}
use kc_docker.Volume.Prune.{prune, prune_with_options}
use kc_docker.Volume.Names.{
  is_mounted, contains-used_volume_names, find_first-any, find_first-retain,
}
use kc_docker.Volume.Invariant.{IsStored, IsConsistent}

-- Some container has a mount with this source.
abbrev pub mounts : (Text → List Text) → List ContainerRecord → Text → Bool
mounts sources containers source =
    any (λ c. any (λ m. text_eq m source) (sources c.bundle_path)) containers

abbrev pub volumes_of : Text → Text
volumes_of home = home ++ codes "/volumes"

-- The mountpoint has the part `volumes/NAME/_data`.
names_path-mountpoint_of : (home n : Text) → names_path n (mountpoint_of (volumes_of home) n) ≡ true
unfolding names_path
names_path-mountpoint_of home n =
    let parts : mountpoint_of (volumes_of home) n
        ≡ (home ++ codes "/") ++ ((codes "volumes/" ++ (n ++ codes "/_data")) ++ []) =
      simp (append_assoc, append-nil) refl in
    let path : Text = codes "volumes/" ++ (n ++ codes "/_data") in
    rw (ap (λ t. contains_text t path) parts ∙ contains_text-append (home ++ codes "/") path [])
      refl

any-of_source :
    (test : Text → Bool) (source : Text)
    → test source ≡ true
    → (l : List Text) → any (λ m. text_eq m source) l ≡ true
    → any test l ≡ true
any-of_source test source t [] h = h
any-of_source test source t (m ∷ l) h = elim (Bool-cases (text_eq m source)) [
  | inl same ↦ rw (text_eq_sound m source same) (rw t refl)
  | inr other ↦ ground (arith, any-of_source test source t l)
]

module _ (sources : Text → List Text) (source n : Text) where
  is_mounted-of_mounts :
      is_used_by n source ≡ true
      → (containers : List ContainerRecord) → mounts sources containers source ≡ true
      → is_mounted sources containers n ≡ true
  is_mounted-of_mounts used [] h = h
  is_mounted-of_mounts used (c ∷ containers) h =
      elim (Bool-cases (any (λ m. text_eq m source) (sources c.bundle_path))) [
        | inl here ↦ rw (any-of_source (is_used_by n) source used (sources c.bundle_path) here) refl
        | inr elsewhere ↦ ground (arith, is_mounted-of_mounts used containers)
      ]

  user_of-mounts :
      refers_to n source ≡ true
      → (containers : List ContainerRecord) → mounts sources containers source ≡ true
      → (id : Text) × (user_of sources n containers ≡ some id)
  unfolding user_of
  user_of-mounts used [] h = absurd (ground arith)
  user_of-mounts used (c ∷ containers) h =
      elim (Bool-cases (any (refers_to n) (sources c.bundle_path))) [
        | inl here ↦ rw here (c.id, refl)
        | inr elsewhere ↦
            rw elsewhere (elim (Bool-cases (any (λ m. text_eq m source) (sources c.bundle_path))) [
              | inl there ↦ absurd (
                  ground
                    (arith, any-of_source (refers_to n) source used (sources c.bundle_path) there))
              | inr not_there ↦ user_of-mounts used containers (ground arith)
            ])
      ]

module _ (home n : Text) (s : VolumeStore) (v : VolumeRecord) (containers : List ContainerRecord)
    (sources : Text → List Text) (at : s.volumes_dir ≡ volumes_of home) (valid : IsConsistent s)
    (stored : find s n ≡ some v) (mounted : mounts sources containers v.mountpoint ≡ true) where
  named : v.name ≡ n
  named = text_eq_sound v.name n (test_of_found (has_name n) s.volumes v stored)

  path : names_path n v.mountpoint ≡ true
  path =
      let there : v.mountpoint ≡ mountpoint_of (volumes_of home) n =
        (All-find_first (has_name n) (IsStored s.volumes_dir s.dirs) s.volumes v stored
          valid.stored).mounted
        ∙ rw (at, named) refl in
      rw there (names_path-mountpoint_of home n)

  used : is_mounted sources containers v.name ≡ true
  used = rw named (
      is_mounted-of_mounts sources v.mountpoint n (unfold is_used_by in rw path refl) containers
        mounted)

  -- A stored volume whose mountpoint is a mount source of some container survives `prune` and
  -- `prune_with_options` with any filters, unchanged, and an unforced removal is refused with the
  -- id of a container and changes nothing; the store is well formed, and its volumes' directory
  -- is `volumes` in the home directory.
  pub prune-keeps_mounted :
      (all : Bool) (filters : List Text)
      → (find (prune containers sources s).0 n ≡ some v)
        × (find (prune_with_options containers sources all filters s).0 n ≡ some v)
        × ((id : Text) × (remove_with_force containers sources n false s ≡ (s, err (in_use id))))
  unfolding prune prune_with_options remove_with_force
  prune-keeps_mounted all filters =
      let in_list : any (has_name v.name) s.volumes ≡ true =
        rw (named, find_first-any n s.volumes, stored) refl in
      let in_set = contains-used_volume_names sources v.name containers s.volumes in_list ∙ used in
      let user =
        user_of-mounts sources v.mountpoint n (unfold refers_to in rw path refl) containers
          mounted in
      (
        find_first-retain _ n s.volumes s.dirs valid.distinct ∙ rw (stored) (rw in_set refl),
        find_first-retain _ n s.volumes s.dirs valid.distinct ∙ rw (stored) (rw in_set refl),
        (user.0, rw (user.1) refl),
      )
