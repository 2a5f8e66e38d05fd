-- ===== src/Volume/Refinement.antt =====
-- The store of volumes against the map from names to records.
use kc_docker.Shared.{
  Bool, true, not, ◌&&◌, ◌||◌, Option, none, some, List, [], ◌∷◌, ◌≡◌, refl, ap, ap₂, ◌∙◌, arith,
  if◌then◌else◌, Text, is_empty, Bool-cases, Option-cases, inl, inr, text_eq_sound,
}
use mathlib.Core.Path.{fun_ext}
use kc_docker.Shared.Maps.{contains}
use kc_docker.Shared.Records.{any, test_of_found}
use kc_docker.Storage.{ContainerRecord}
use kc_docker.Volume.{VolumeRecord, VolumeStore}
use kc_docker.Volume.Store.{
  Surroundings, find, has_name, volume_name, is_valid_name, create_with_options, remove_with_force,
}
use kc_docker.Volume.Filters.{matches_filters}
use kc_docker.Volume.Usage.{user_of}
use kc_docker.Volume.Prune.{retain, stored, prune, prune_with_options}
use kc_docker.Volume.Names.{
  kept_if, goes_if, contains-used_volume_names, find_first-none, find_first-any, find_first-snoc,
  find_first-remove_first, find_first-retain, contains-retain,
}
use kc_docker.Volume.Invariant.{IsConsistent}
use kc_docker.Volume.Reach.{run-IsConsistent}
use kc_docker.Volume.Spec.{
  Action, find_one, create_one, remove_one, prune_all, prune_some, Reply, names, run, VolumeMap,
  view, spec_prune, run_spec, run_all, run_spec_all,
}

run-volumes_dir : (a : Action) (s : VolumeStore) → (run a s).0.volumes_dir ≡ s.volumes_dir
unfolding run create_with_options remove_with_force prune prune_with_options
run-volumes_dir (find_one n) s = refl
run-volumes_dir (create_one w name driver labels scope options) s = ground arith
run-volumes_dir (remove_one containers sources name force) s =
    elim (Option-cases (if force then none else user_of sources name containers)) [
      | inr (id, used) ↦ rw used refl
      | inl unused ↦ rw unused (elim (Option-cases (find s name)) [
        | inl missing ↦ rw missing refl
        | inr (v, here) ↦ rw here refl
      ])
    ]
run-volumes_dir (prune_all containers sources) s = refl
run-volumes_dir (prune_some containers sources all filters) s = refl

-- A store with the effect of a call, as the map and the reply that it shows.
abbrev Shows : VolumeStore × Reply → VolumeMap × Reply → Type 0
Shows r m = ((n : Text) → view r.0 n ≡ m.0 n) × (r.1 ≡ m.1)

Shows-create :
    (w : Surroundings) (name : Option Text) (driver : Text) (labels : Option (List (Text × Text)))
    (scope : Text) (options : Option (List (Text × Text))) (s : VolumeStore)
    → Shows
        (run (create_one w name driver labels scope options) s)
        (run_spec s.volumes_dir (create_one w name driver labels scope options) (view s))
unfolding run run_spec create_with_options
Shows-create w name driver labels scope options s =
    let n = volume_name name w.random in
    elim (Bool-cases (is_valid_name n)) [
      | inr bad ↦ rw bad (λ m. refl, refl)
      | inl good ↦ rw good (elim (Bool-cases (any (has_name n) s.volumes)) [
        | inl taken ↦ rw taken (elim (Option-cases (find s n)) [
          | inl missing ↦ absurd (ground (arith, find_first-any n s.volumes))
          | inr (old, here) ↦ rw here (λ m. refl, refl)
        ])
        | inr free ↦ rw free (
            rw (find_first-none n s.volumes free) (elim (Bool-cases (w.escapes n)) [
              | inl out ↦ rw out (λ m. refl, refl)
              | inr inside ↦ rw inside (λ m. find_first-snoc m s.volumes _ free, refl)
            ]))
      ])
    ]

Shows-remove :
    (containers : List ContainerRecord) (sources : Text → List Text) (name : Text) (force : Bool)
    (s : VolumeStore)
    → IsConsistent s
    → Shows
        (run (remove_one containers sources name force) s)
        (run_spec s.volumes_dir (remove_one containers sources name force) (view s))
unfolding run run_spec remove_with_force
Shows-remove containers sources name force s h =
    elim (Option-cases (if force then none else user_of sources name containers)) [
      | inr (id, used) ↦ rw used (λ m. refl, refl)
      | inl unused ↦ rw unused (elim (Option-cases (find s name)) [
        | inl missing ↦ rw missing (λ m. refl, refl)
        | inr (v, here) ↦ rw here (λ m. find_first-remove_first name m s.volumes h.distinct, refl)
      ])
    ]

-- Two tests that agree on the stored volumes do the same to the map.
module _ (s : VolumeStore) (goes gone : VolumeRecord → Bool)
    (same : (v : VolumeRecord) → any (has_name v.name) s.volumes ≡ true → goes v ≡ gone v) where
  agree : (n : Text) (v : VolumeRecord) → find s n ≡ some v → goes v ≡ gone v
  agree n v here =
      let e : v.name ≡ n = text_eq_sound v.name n (test_of_found (has_name n) s.volumes v here) in
      same v (rw e (rw (find_first-any n s.volumes) (rw here refl)))

  kept_agree : (n : Text) → kept_if goes (find s n) ≡ kept_if gone (find s n)
  kept_agree n = elim (Option-cases (find s n)) [
    | inl missing ↦ rw missing refl
    | inr (v, here) ↦ rw here (rw (agree n v here) refl)
  ]

  goes_agree : (n : Text) → goes_if goes (find s n) ≡ goes_if gone (find s n)
  goes_agree n = elim (Option-cases (find s n)) [
    | inl missing ↦ rw missing refl
    | inr (v, here) ↦ rw here (agree n v here)
  ]

  Shows-stored :
      IsConsistent s
      → Shows
          (
            (stored s (retain goes s.volumes s.dirs)).0,
            names (contains (stored s (retain goes s.volumes s.dirs)).1),
          )
          (spec_prune gone (view s))
  Shows-stored h = (
    λ n. find_first-retain goes n s.volumes s.dirs h.distinct ∙ kept_agree n,
    ap names (fun_ext (λ n. contains-retain goes n s.volumes s.dirs h.distinct ∙ goes_agree n)),
  )

Shows-run :
    (a : Action) (s : VolumeStore)
    → IsConsistent s
    → Shows (run a s) (run_spec s.volumes_dir a (view s))
Shows-run (find_one n) s h = unfold run in unfold run_spec in (λ m. refl, refl)
Shows-run (create_one w name driver labels scope options) s h =
    Shows-create w name driver labels scope options s
Shows-run (remove_one containers sources name force) s h =
    Shows-remove containers sources name force s h
Shows-run (prune_all containers sources) s h =
    unfold run in
    unfold run_spec in
    unfold prune in
    Shows-stored s _ _
      (λ v stored'. ap not (contains-used_volume_names sources v.name containers s.volumes stored'))
      h
Shows-run (prune_some containers sources all filters) s h =
    unfold run in
    unfold run_spec in
    unfold prune_with_options in
    Shows-stored s _ _
      (λ v stored'.
        ap (λ (b : Bool). not b && (matches_filters v filters && (all || is_empty v.labels)))
          (contains-used_volume_names sources v.name containers s.volumes stored'))
      h

-- For every sequence of calls on a well-formed store, the replies are those of a plain map from
-- names to records: each find, create, forced or unforced remove, prune and filtered prune
-- answers as the map does, errors included, and leaves the map that it shows as it should. The
-- names that a prune returns are compared as a set.
pub run_all-run_spec_all :
    (actions : List Action) (s : VolumeStore)
    → IsConsistent s
    → run_all actions s ≡ run_spec_all s.volumes_dir actions (view s)
unfolding run_all run_spec_all
run_all-run_spec_all [] s h = refl
run_all-run_spec_all (a ∷ actions) s h =
    let shown = Shows-run a s h in
    let map_after : view (run a s).0 ≡ (run_spec s.volumes_dir a (view s)).0 = fun_ext shown.0 in
    ap₂ (◌∷◌) shown.1 (
      run_all-run_spec_all actions (run a s).0 (run-IsConsistent a s h)
      ∙ rw (run-volumes_dir a s) (rw map_after refl))
