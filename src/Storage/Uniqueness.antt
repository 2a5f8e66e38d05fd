-- ===== src/Storage/Uniqueness.antt =====
-- Names and ids of the containers under `add`, `rename` and the changes to one record.
use kc_docker.Shared.{
  Bool, false, [], ◌∷◌, ◌++◌, Text, text_eq, trim, ◌≡◌, arith, Bool-cases, Option-cases, inl, inr,
  subst, All, text_eq_iff, text_eq_sound,
}
use kc_docker.Shared.Records.{find_first, any, remove_first, update_first}
use kc_docker.Shared.Result.{ok}
use kc_docker.Storage.{ContainerRecord}
use kc_docker.Storage.Containers.{
  ContainerStoreData, matches_query, has_id, has_name_elsewhere, is_valid_name, without_id, add,
  set_name, rename,
}

-- Neither the name nor the id of `c` is among the containers.
abbrev pub IsOther : ContainerRecord → ContainerRecord → Type 0
IsOther c d = (text_eq c.name d.name ≡ false) × (text_eq c.id d.id ≡ false)

abbrev pub Differ : ContainerStoreData → Type 0
Differ [] = Unit
Differ (c ∷ containers) = All (IsOther c) containers × Differ containers

IsOther-comm : (c d : ContainerRecord) → IsOther c d → IsOther d c
IsOther-comm c d h = ground (
  arith,
  text_eq_iff c.name d.name,
  text_eq_iff d.name c.name,
  text_eq_iff c.id d.id,
  text_eq_iff d.id c.id,
)

All-without_id :
    (P : ContainerRecord → Type 0) (id : Text) (l : ContainerStoreData)
    → All P l
    → All P (without_id id l)
All-without_id P id [] h = tt
All-without_id P id (c ∷ l) h = elim (Bool-cases (text_eq c.id id)) [
  | inl same ↦ rw same (All-without_id P id l h.1)
  | inr other ↦ rw other (h.0, All-without_id P id l h.1)
]

Differ-without_id : (id : Text) (l : ContainerStoreData) → Differ l → Differ (without_id id l)
Differ-without_id id [] h = tt
Differ-without_id id (c ∷ l) h = elim (Bool-cases (text_eq c.id id)) [
  | inl same ↦ rw same (Differ-without_id id l h.1)
  | inr other ↦ rw other (All-without_id (IsOther c) id l h.0, Differ-without_id id l h.1)
]

All-append_one :
    (P : ContainerRecord → Type 0) (l : ContainerStoreData) (c : ContainerRecord)
    → All P l
    → P c
    → All P (l ++ c ∷ [])
All-append_one P [] c h p = (p, tt)
All-append_one P (d ∷ l) c h p = (h.0, All-append_one P l c h.1 p)

Differ-snoc :
    (l : ContainerStoreData) (c : ContainerRecord)
    → Differ l
    → All (λ d. IsOther d c) l
    → Differ (l ++ c ∷ [])
Differ-snoc [] c h o = (tt, tt)
Differ-snoc (d ∷ l) c h o = (All-append_one (IsOther d) l c h.0 o.0, Differ-snoc l c h.1 o.1)

-- Of the containers left by the test for the name, those with another id have another name.
others_of_test :
    (c : ContainerRecord) (l : ContainerStoreData)
    → any (has_name_elsewhere c.name c.id) l ≡ false
    → All (λ d. IsOther d c) (without_id c.id l)
others_of_test c [] h = tt
others_of_test c (d ∷ l) h = elim (Bool-cases (text_eq d.id c.id)) [
  | inl same ↦ rw same (others_of_test c l (ground arith))
  | inr other ↦ rw other ((ground arith, other), others_of_test c l (ground arith))
]

pub add-Differ :
    (c : ContainerRecord) (s t : ContainerStoreData) → add c s ≡ ok t → Differ s → Differ t
unfolding add
add-Differ c s t e d = elim (Bool-cases (is_valid_name (trim c.name))) [
  | inr bad ↦ absurd (ground arith)
  | inl good ↦ elim (Bool-cases (any (has_name_elsewhere c.name c.id) s)) [
    | inl taken ↦ absurd (ground arith)
    | inr free ↦
        let same : without_id c.id s ++ c ∷ [] ≡ t = ground arith in
        subst Differ same
          (Differ-snoc (without_id c.id s) c (Differ-without_id c.id s d) (others_of_test c s free))
  ]
]

module _ (test : ContainerRecord → Bool) where
  All-remove :
      (P : ContainerRecord → Type 0) (l : ContainerStoreData)
      → All P l
      → All P (remove_first test l)
  All-remove P [] h = h
  All-remove P (c ∷ l) h = elim (Bool-cases (test c)) [
    | inl hit ↦ rw hit h.1
    | inr miss ↦ rw miss (h.0, All-remove P l h.1)
  ]

  pub Differ-remove_first : (l : ContainerStoreData) → Differ l → Differ (remove_first test l)
  Differ-remove_first [] h = h
  Differ-remove_first (c ∷ l) h = elim (Bool-cases (test c)) [
    | inl hit ↦ rw hit h.1
    | inr miss ↦ rw miss (All-remove (IsOther c) l h.0, Differ-remove_first l h.1)
  ]

  module _ (f : ContainerRecord → ContainerRecord) where
    All-update :
        (P : ContainerRecord → Type 0)
        → ((d : ContainerRecord) → P d → P (f d))
        → (l : ContainerStoreData) → All P l
        → All P (update_first test f l)
    All-update P keep [] h = h
    All-update P keep (c ∷ l) h = elim (Bool-cases (test c)) [
      | inl hit ↦ rw hit (keep c h.0, h.1)
      | inr miss ↦ rw miss (h.0, All-update P keep l h.1)
    ]

    pub Differ-update_first :
        ((d : ContainerRecord) → (f d).name ≡ d.name)
        → ((d : ContainerRecord) → (f d).id ≡ d.id)
        → (l : ContainerStoreData) → Differ l
        → Differ (update_first test f l)
    Differ-update_first names ids [] h = h
    Differ-update_first names ids (c ∷ l) h = elim (Bool-cases (test c)) [
      | inl hit ↦ rw hit (rw (names c, ids c) h)
      | inr miss ↦ rw miss (
        All-update (IsOther c) (λ d o. rw (names d, ids d) o) l h.0,
        Differ-update_first names ids l h.1,
      )
    ]

-- Those that differ from `c` differ from it under a name that no other container has.
others_of_renamed :
    (name : Text) (c : ContainerRecord) (l : ContainerStoreData)
    → any (has_name_elsewhere name c.id) l ≡ false
    → All (IsOther c) l
    → All (IsOther (set_name name c)) l
others_of_renamed name c [] free h = tt
others_of_renamed name c (d ∷ l) free h =
    let different : text_eq d.id c.id ≡ false = (IsOther-comm c d h.0).1 in
    let unnamed : text_eq d.name name ≡ false = ground arith in
    (
      (ground (arith, text_eq_iff d.name name, text_eq_iff name d.name), h.0.1),
      others_of_renamed name c l (ground arith) h.1,
    )

Differ-renamed :
    (name id : Text) (l : ContainerStoreData)
    → any (has_name_elsewhere name id) l ≡ false
    → Differ l
    → Differ (update_first (has_id id) (set_name name) l)
Differ-renamed name id [] free h = tt
Differ-renamed name id (c ∷ l) free h = elim (Bool-cases (text_eq c.id id)) [
  | inl here ↦
      let same : c.id ≡ id = text_eq_sound c.id id here in
      let others : any (has_name_elsewhere name c.id) l ≡ false = rw same (ground arith) in
      rw here (others_of_renamed name c l others h.0, h.1)
  | inr other ↦
      let unnamed : text_eq c.name name ≡ false = ground arith in
      rw other (
        All-update (has_id id) (set_name name) (IsOther c) (λ d o. (unnamed, o.1)) l h.0,
        Differ-renamed name id l (ground arith) h.1,
      )
]

pub rename-Differ :
    (old_query new_name : Text) (s t : ContainerStoreData)
    → rename old_query new_name s ≡ ok t
    → Differ s
    → Differ t
unfolding rename
rename-Differ old_query new_name s t e d = elim (Bool-cases (is_valid_name (trim new_name))) [
  | inr bad ↦ absurd (ground arith)
  | inl good ↦ elim (Option-cases (find_first (matches_query old_query) s)) [
    | inl missing ↦ absurd (ground arith)
    | inr (old, found) ↦ elim (Bool-cases (text_eq old.name (trim new_name))) [
      | inl named ↦ let same : s ≡ t = ground arith in subst Differ same d
      | inr new ↦ elim (Bool-cases (any (has_name_elsewhere (trim new_name) old.id) s)) [
        | inl taken ↦ absurd (ground arith)
        | inr free ↦
            let same : update_first (has_id old.id) (set_name (trim new_name)) s ≡ t =
              ground arith in
            subst Differ same (Differ-renamed (trim new_name) old.id s free d)
      ]
    ]
  ]
]
