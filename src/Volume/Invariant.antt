-- ===== src/Volume/Invariant.antt =====
-- A well-formed store of volumes, under `create_with_options` and `remove_with_force`.
use kc_docker.Shared.{
  Bool, true, false, Option, none, some, List, [], ◌∷◌, ◌++◌, ◌≡◌, refl, arith, All, All-append,
  if◌then◌else◌, Text, text_eq, text_eq_iff, Bool-cases, Option-cases, inl, inr,
}
use kc_docker.Shared.Maps.{contains, add, contains-add, discard, contains-discard}
use kc_docker.Shared.Records.{find_first, any, remove_first, All-remove_first, test_of_found}
use kc_docker.Storage.{ContainerRecord}
use kc_docker.Volume.{VolumeRecord, VolumeStore}
use kc_docker.Volume.Store.{
  Surroundings, has_name, is_valid_name, mountpoint_of, volume_name, create_with_options, take_out,
  remove_with_force, find,
}
use kc_docker.Volume.Usage.{user_of}
use kc_docker.Volume.Names.{IsApart, Distinct}

-- The name is one that `create` takes, the mountpoint lies below the volumes' directory under
-- that name, and the directory is there.
pub record IsStored (dir : Text) (dirs : List Text) (v : VolumeRecord) : Type 0 where
  pub named : is_valid_name v.name ≡ true
  pub mounted : v.mountpoint ≡ mountpoint_of dir v.name
  pub present : contains dirs v.name ≡ true

pub record IsConsistent (s : VolumeStore) : Type 0 where
  pub distinct : Distinct s.volumes
  pub stored : All (IsStored s.volumes_dir s.dirs) s.volumes

module _ (dir : Text) where
  -- One more directory does no harm.
  All-add :
      (name : Text) (dirs : List Text) (volumes : List VolumeRecord)
      → All (IsStored dir dirs) volumes
      → All (IsStored dir (add name dirs)) volumes
  All-add name dirs [] h = tt
  All-add name dirs (v ∷ volumes) h = (
    record {
      named = h.0.named;
      mounted = h.0.mounted;
      present = ground (arith, contains-add name v.name dirs, h.0.present);
    },
    All-add name dirs volumes h.1,
  )

  -- Deleting one volume's directory leaves those of the others.
  pub All-discard :
      (v : VolumeRecord) (dirs : List Text) (volumes : List VolumeRecord)
      → All (IsApart v) volumes
      → All (IsStored dir dirs) volumes
      → All (IsStored dir (discard v.name dirs)) volumes
  All-discard v dirs [] apart h = tt
  All-discard v dirs (w ∷ volumes) apart h = (
    record {
      named = h.0.named;
      mounted = h.0.mounted;
      present = rw (contains-discard v.name w.name dirs) (rw apart.0 h.0.present);
    },
    All-discard v dirs volumes apart.1 h.1,
  )

-- A name that no volume has is apart from all.
All-apart :
    (name : Text) (volumes : List VolumeRecord)
    → any (has_name name) volumes ≡ false
    → All (λ w. text_eq w.name name ≡ false) volumes
All-apart name [] h = tt
All-apart name (v ∷ volumes) h = (ground arith, All-apart name volumes (ground arith))

Distinct-snoc :
    (volumes : List VolumeRecord) (new : VolumeRecord)
    → Distinct volumes
    → All (λ w. text_eq w.name new.name ≡ false) volumes
    → Distinct (volumes ++ new ∷ [])
Distinct-snoc [] new h apart = (tt, tt)
Distinct-snoc (v ∷ volumes) new h apart = (
  All-append (IsApart v) volumes (new ∷ []) h.0 (apart.0, tt),
  Distinct-snoc volumes new h.1 apart.1,
)

pub create_with_options-IsConsistent :
    (w : Surroundings) (name : Option Text) (driver : Text) (labels : Option (List (Text × Text)))
    (scope : Text) (options : Option (List (Text × Text))) (s : VolumeStore)
    → IsConsistent s
    → IsConsistent (create_with_options w name driver labels scope options s).0
unfolding create_with_options
create_with_options-IsConsistent w name driver labels scope options s h =
    let n = volume_name name w.random in
    elim (Bool-cases (is_valid_name n)) [
      | inr bad ↦ rw bad h
      | inl good ↦ rw good (elim (Bool-cases (any (has_name n) s.volumes)) [
        | inl taken ↦ rw taken h
        | inr free ↦ rw free (elim (Bool-cases (w.escapes n)) [
          | inl out ↦ rw out record {
            distinct = h.distinct;
            stored = All-add s.volumes_dir n s.dirs s.volumes h.stored;
          }
          | inr inside ↦ rw inside record {
            distinct = Distinct-snoc s.volumes _ h.distinct (All-apart n s.volumes free);
            stored =
                All-append (IsStored s.volumes_dir (add n s.dirs)) s.volumes _
                  (All-add s.volumes_dir n s.dirs s.volumes h.stored)
                  (
                    record {
                      named = good;
                      mounted = refl;
                      present = ground (arith, contains-add n n s.dirs, text_eq_iff n n);
                    },
                    tt,
                  );
          }
        ])
      ])
    ]

module _ (dir : Text) (name : Text) where
  Distinct-remove_first :
      (volumes : List VolumeRecord)
      → Distinct volumes
      → Distinct (remove_first (has_name name) volumes)
  Distinct-remove_first [] h = h
  Distinct-remove_first (v ∷ volumes) h = elim (Bool-cases (text_eq v.name name)) [
    | inl hit ↦ rw hit h.1
    | inr miss ↦ rw miss (
      All-remove_first (has_name name) (IsApart v) volumes h.0,
      Distinct-remove_first volumes h.1,
    )
  ]

  -- What is left when the first volume of the name goes has none of that name.
  All-taken_out :
      (dirs : List Text) (volumes : List VolumeRecord) (found : VolumeRecord)
      → find_first (has_name name) volumes ≡ some found
      → Distinct volumes
      → All (IsStored dir dirs) volumes
      → All (IsStored dir (discard found.name dirs)) (remove_first (has_name name) volumes)
  All-taken_out dirs [] found e d h = tt
  All-taken_out dirs (v ∷ volumes) found e d h = elim (Bool-cases (text_eq v.name name)) [
    | inl hit ↦
        let same : v ≡ found = ground arith in
        rw hit (rw (← same) (All-discard dir v dirs volumes d.0 h.1))
    | inr miss ↦
        let named : text_eq found.name name ≡ true =
          test_of_found (has_name name) volumes found (ground arith) in
        let other : text_eq found.name v.name ≡ false = ground (
          arith,
          text_eq_iff found.name name,
          text_eq_iff v.name name,
          text_eq_iff found.name v.name,
        ) in
        rw miss (
          record {
            named = h.0.named;
            mounted = h.0.mounted;
            present = rw (contains-discard found.name v.name dirs) (rw other h.0.present);
          },
          All-taken_out dirs volumes found (ground arith) d.1 h.1,
        )
  ]

take_out-IsConsistent :
    (name : Text) (s : VolumeStore)
    → IsConsistent s
    → IsConsistent (take_out name s (find s name)).0
take_out-IsConsistent name s h = elim (Option-cases (find s name)) [
  | inl missing ↦ rw missing h
  | inr (v, found) ↦ rw found record {
    distinct = Distinct-remove_first s.volumes_dir name s.volumes h.distinct;
    stored = All-taken_out s.volumes_dir name s.dirs s.volumes v found h.distinct h.stored;
  }
]

pub remove_with_force-IsConsistent :
    (containers : List ContainerRecord) (sources : Text → List Text) (name : Text) (force : Bool)
    (s : VolumeStore)
    → IsConsistent s
    → IsConsistent (remove_with_force containers sources name force s).0
unfolding remove_with_force
remove_with_force-IsConsistent containers sources name force s h =
    elim (Option-cases (if force then none else user_of sources name containers)) [
      | inl unused ↦ rw unused (take_out-IsConsistent name s h)
      | inr (id, used) ↦ rw used h
    ]
