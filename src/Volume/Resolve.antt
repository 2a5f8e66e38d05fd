-- ===== src/Volume/Resolve.antt =====
-- What `resolve_mount` returns, and what it leaves in the store.
use kc_docker.Shared.{
  Bool, true, false, Option, none, some, List, [], ◌∷◌, ◌≡◌, refl, ◌∙◌, if◌then◌else◌, Text, codes,
  text_eq, trim, is_empty, starts_with, split, subst, Bool-cases, Option-cases, inl, inr,
  text_eq_sound,
}
use kc_docker.Shared.Search.{contains_text}
use kc_docker.Shared.Records.{any, test_of_found, All-find_first}
use kc_docker.Shared.Result.{Result, ok, err}
use kc_docker.Volume.{VolumeRecord, VolumeStore, VolumeError}
use kc_docker.Volume.Store.{
  Surroundings, has_name, find, volume_name, is_valid_name, mountpoint_of, create_with_options,
  create,
}
use kc_docker.Volume.Mounts.{
  MountSpec, Paths, is_host_path, expand_home, mount_host_path, with_mount, found_or_created,
  mount_named, mount_parts, split_parts, resolve_mount,
}
use kc_docker.Volume.Names.{found_snoc}
use kc_docker.Volume.Invariant.{IsStored, IsConsistent}

-- The directory of a stored volume, right below the volumes' directory.
pub record IsVolumeMount (s : VolumeStore) (m : MountSpec) : Type 0 where
  pub name : Text
  pub volume : VolumeRecord
  pub stored : find s name ≡ some volume
  pub named : is_valid_name name ≡ true
  pub placed : m.source ≡ mountpoint_of s.volumes_dir name

-- The canonical form of a path without `..` that the flag names.
pub record IsHostMount (p : Paths) (m : MountSpec) : Type 0 where
  pub path : Text
  pub direct : contains_text path (codes "..") ≡ false
  pub placed : p.canonical (expand_home p.home path) ≡ some m.source

abbrev pub IsSource : Paths → VolumeStore → MountSpec → Type 0
IsSource p s m = if m.is_volume then IsVolumeMount s m else IsHostMount p m

-- A store and a mount that are fit for a container.
pub record IsMount (p : Paths) (s : VolumeStore) (m : MountSpec) : Type 0 where
  pub absolute : starts_with m.destination (codes "/") ≡ true
  pub direct : contains_text m.destination (codes "..") ≡ false
  pub from : IsSource p s m

-- A mount for the container, or an error that leaves the volumes as they were.
abbrev pub Fits : Paths → VolumeStore → VolumeStore → Result VolumeError MountSpec → Type 0
Fits p s t (err e) = t.volumes ≡ s.volumes
Fits p s t (ok m) = IsMount p t m

abbrev FitsVolume : VolumeStore → VolumeStore → Result VolumeError VolumeRecord → Type 0
FitsVolume s t (err e) = t.volumes ≡ s.volumes
FitsVolume s t (ok v) =
    (name : Text) × (find t name ≡ some v)
    × (is_valid_name name ≡ true)
    × (v.mountpoint ≡ mountpoint_of t.volumes_dir name)

create-FitsVolume :
    (w : Surroundings) (name : Option Text) (s : VolumeStore)
    → FitsVolume s (create w name none s).0 (create w name none s).1
unfolding create create_with_options
create-FitsVolume w name s =
    let n = volume_name name w.random in
    elim (Bool-cases (is_valid_name n)) [
      | inr bad ↦ rw bad refl
      | inl good ↦ rw good (elim (Bool-cases (any (has_name n) s.volumes)) [
        | inl taken ↦ rw taken refl
        | inr free ↦ rw free (elim (Bool-cases (w.escapes n)) [
          | inl out ↦ rw out refl
          | inr inside ↦ rw inside (n, found_snoc s.volumes _ free, good, refl)
        ])
      ])
    ]

found_or_created-FitsVolume :
    (w : Surroundings) (source : Text) (s : VolumeStore)
    → IsConsistent s
    → FitsVolume s
        (found_or_created w source s (find s source)).0
        (found_or_created w source s (find s source)).1
found_or_created-FitsVolume w source s h = elim (Option-cases (find s source)) [
  | inl missing ↦ rw missing (create-FitsVolume w (some source) s)
  | inr (v, here) ↦
      let is_stored =
        All-find_first (has_name source) (IsStored s.volumes_dir s.dirs) s.volumes v here
          h.stored in
      let named : v.name ≡ source =
        text_eq_sound v.name source (test_of_found (has_name source) s.volumes v here) in
      rw here (
        source,
        here,
        subst (λ n. is_valid_name n ≡ true) named is_stored.named,
        is_stored.mounted ∙ rw named refl,
      )
]

module _ (w : Surroundings) (p : Paths) (dest : Text) (read_only : Bool) (s : VolumeStore) where
  module _ (absolute : starts_with dest (codes "/") ≡ true)
      (direct : contains_text dest (codes "..") ≡ false) where
    with_mount-Fits :
        (r : VolumeStore × Result VolumeError VolumeRecord)
        → FitsVolume s r.0 r.1
        → Fits p s (with_mount dest read_only r).0 (with_mount dest read_only r).1
    with_mount-Fits (t, err e) h = h
    with_mount-Fits (t, ok v) h = record {
      absolute = absolute;
      direct = direct;
      from = record { name = h.0; volume = v; stored = h.1; named = h.2; placed = h.3 };
    }

    mount_host_path-Fits : (source : Text) → Fits p s s (mount_host_path p source dest read_only)
    unfolding mount_host_path
    mount_host_path-Fits source = elim (Bool-cases (contains_text source (codes ".."))) [
      | inl climbs ↦ rw climbs refl
      | inr stays ↦ rw stays (elim (Option-cases (p.canonical (expand_home p.home source))) [
        | inl missing ↦ rw missing refl
        | inr (path, there) ↦ rw there record {
          absolute = absolute;
          direct = direct;
          from = record { path = source; direct = stays; placed = there };
        }
      ])
    ]

  mount_parts-Fits :
      (source : Text)
      → IsConsistent s
      → Fits p s
          (mount_parts w p source dest read_only s).0
          (mount_parts w p source dest read_only s).1
  unfolding mount_parts mount_named
  mount_parts-Fits source h = elim (Bool-cases (is_empty (trim dest))) [
    | inl blank ↦ rw blank refl
    | inr filled ↦ rw filled (elim (Bool-cases (starts_with dest (codes "/"))) [
      | inr relative ↦ rw relative refl
      | inl absolute ↦ rw absolute (elim (Bool-cases (contains_text dest (codes ".."))) [
        | inl climbs ↦ rw climbs refl
        | inr direct ↦ rw direct (elim (Bool-cases (is_empty source)) [
          | inl anonymous ↦
              rw anonymous (
                with_mount-Fits absolute direct (create w none none s) (create-FitsVolume w none s))
          | inr given ↦ rw given (elim (Bool-cases (is_host_path source)) [
            | inl host ↦ rw host (mount_host_path-Fits absolute direct source)
            | inr named ↦ rw named (
                with_mount-Fits absolute direct (found_or_created w source s (find s source))
                  (found_or_created-FitsVolume w source s h))
          ])
        ])
      ])
    ])
  ]

split_parts-Fits :
    (w : Surroundings) (p : Paths) (s : VolumeStore) (parts : List Text)
    → IsConsistent s
    → Fits p s (split_parts w p s parts).0 (split_parts w p s parts).1
split_parts-Fits w p s [] h = refl
split_parts-Fits w p s (dest ∷ []) h = mount_parts-Fits w p dest false s [] h
split_parts-Fits w p s (source ∷ dest ∷ []) h = mount_parts-Fits w p dest false s source h
split_parts-Fits w p s (source ∷ dest ∷ mode ∷ []) h =
    mount_parts-Fits w p dest (text_eq mode (codes "ro")) s source h
split_parts-Fits w p s (a ∷ b ∷ c ∷ d ∷ more) h = refl

-- In a well-formed store, `resolve_mount` of any flag either fails and leaves the volumes as they
-- were, or gives a mount with an absolute destination that has no `..` in it. Its source is then
-- the mountpoint of a volume that the store holds under a valid name, right below the volumes'
-- directory; or, for a host path, the canonical form of a path without `..`.
pub resolve_mount-Fits :
    (w : Surroundings) (p : Paths) (spec : Text) (s : VolumeStore)
    → IsConsistent s
    → Fits p s (resolve_mount w p spec s).0 (resolve_mount w p spec s).1
unfolding resolve_mount
resolve_mount-Fits w p spec s h = elim (Bool-cases (is_empty (trim spec))) [
  | inl blank ↦ rw blank refl
  | inr filled ↦ rw filled (split_parts-Fits w p s (split (trim spec) b':') h)
]
