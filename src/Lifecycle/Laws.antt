-- ===== src/Lifecycle/Laws.antt =====
-- Pausing and unpausing, stopping and starting, and removing one container.
use kc_docker.Shared.{
  Bool, true, false, some, [], ◌∷◌, ◌≡◌, refl, sym, ap, subst, ◌∙◌, arith, Text, trim, is_empty,
  Bool-cases, inl, inr,
}
use kc_docker.Shared.Records.{find_first, update_first, test_of_found}
use kc_docker.Shared.Result.{ok}
use kc_docker.Storage.{ContainerStatus, ContainerRecord, running, paused}
use kc_docker.Storage.Containers.{
  ContainerStoreData, matches_query, set_status, find, update_status,
}
use kc_docker.Lifecycle.{pause_one, unpause_one}

module _ (test other : ContainerRecord → Bool) (f : ContainerRecord → ContainerRecord)
    (unseen : (d : ContainerRecord) → test (f d) ≡ test d) where
  -- The container that both tests find first is changed, and the first test finds it still.
  find_first-update_other :
      (s : ContainerStoreData) (c : ContainerRecord)
      → find_first test s ≡ some c
      → find_first other s ≡ some c
      → find_first test (update_first other f s) ≡ some (f c)
  find_first-update_other [] c e o = absurd (ground arith)
  find_first-update_other (d ∷ s) c e o = elim (Bool-cases (other d)) [
    | inl hit ↦
        let same : d ≡ c = ground arith in
        let meant : test d ≡ true = rw same (test_of_found test (d ∷ s) c e) in
        rw hit (rw (unseen d ∙ meant) (ap (λ k. some (f k)) same))
    | inr miss ↦
        let unmet : test d ≡ false = elim (Bool-cases (test d)) [
          | inr no' ↦ no'
          | inl yes' ↦
              let same : d ≡ c = ground arith in
              let met : other c ≡ true = test_of_found other (d ∷ s) c o in absurd (ground arith)
        ] in
        rw miss (rw unmet (find_first-update_other s c (ground arith) (ground arith)))
  ]

update_first_back :
    (test : ContainerRecord → Bool) (f g : ContainerRecord → ContainerRecord)
    → ((d : ContainerRecord) → test (f d) ≡ test d)
    → (s : ContainerStoreData) (c : ContainerRecord) → find_first test s ≡ some c
    → g (f c) ≡ c
    → update_first test g (update_first test f s) ≡ s
update_first_back test f g unseen [] c e back = refl
update_first_back test f g unseen (d ∷ s) c e back = elim (Bool-cases (test d)) [
  | inl hit ↦
      let same : d ≡ c = ground arith in
      rw hit (rw (unseen d ∙ hit) (ap (λ k. k ∷ s) (subst (λ k. g (f k) ≡ k) (sym same) back)))
  | inr miss ↦
      rw miss (rw miss (ap (◌∷◌ d) (update_first_back test f g unseen s c (ground arith) back)))
]

-- A running container that its id means first can be paused, and unpausing it then restores the
-- whole store.
pub unpause-pause :
    (query : Text) (s : ContainerStoreData) (c : ContainerRecord)
    → find s query ≡ some c
    → c.status ≡ running
    → find_first (matches_query c.id) s ≡ some c
    → (t : ContainerStoreData) × (pause_one query s ≡ (t, ok tt))
      × (find t query ≡ some (set_status paused c))
      × (unpause_one query t ≡ (s, ok tt))
unfolding pause_one unpause_one update_status find
unpause-pause query s c there status meant = elim (Bool-cases (is_empty (trim query))) [
  | inl blank ↦ absurd (ground arith)
  | inr filled ↦
      let q = trim query in
      let found : find_first (matches_query q) s ≡ some c = ground arith in
      let t = update_first (matches_query c.id) (set_status paused) s in
      let found_paused : find_first (matches_query q) t ≡ some (set_status paused c) =
        find_first-update_other (matches_query q) (matches_query c.id) (set_status paused)
          (λ d. refl) s c found meant in
      let meant_paused : find_first (matches_query c.id) t ≡ some (set_status paused c) =
        find_first-update_other (matches_query c.id) (matches_query c.id) (set_status paused)
          (λ d. refl) s c meant meant in
      let same : set_status running (set_status paused c) ≡ c =
        ap (λ (k : ContainerStatus). record c { status = k }) (sym status) in
      (
        t,
        rw filled (rw found (rw status (rw meant refl))),
        rw filled found_paused,
        rw filled (
            rw found_paused (
              rw meant_paused (
                ap (λ k. (k, ok tt))
                  (update_first_back (matches_query c.id) (set_status paused) (set_status running)
                    (λ d. refl) s c meant same)))),
      )
]
