-- ===== src/Shared/Records.antt =====
-- Searching a vector by a predicate and changing the first hit: `iter().find`, `iter_mut().find`,
-- `position` with `remove`, `iter().any`.
use mathlib.Core.Path.{◌≡◌, refl}
use mathlib.Core.Bool.{Bool, true, false, ◌||◌}
use mathlib.Core.Option.{Option, none, some}
use mathlib.Core.List.{List, [], ◌∷◌}
use mathlib.Core.Logic.{inl, inr}
use native.Mathlib.Omega.{arith}
use kc_docker.Shared.Tests.{if◌then◌else◌, Bool-cases}
use kc_docker.Shared.Lists.{All}

module _ {ℓ} {A : Type ℓ} (test : A → Bool) where
  abbrev pub find_first : List A → Option A
  find_first [] = none
  find_first (x ∷ xs) = if test x then some x else find_first xs

  abbrev pub any : List A → Bool
  any [] = false
  any (x ∷ xs) = test x || any xs

  abbrev pub remove_first : List A → List A
  remove_first [] = []
  remove_first (x ∷ xs) = if test x then xs else x ∷ remove_first xs

  abbrev pub update_first : (A → A) → List A → List A
  update_first f [] = []
  update_first f (x ∷ xs) = if test x then f x ∷ xs else x ∷ update_first f xs

  module _ {κ} (P : A → Type κ) where
    pub All-remove_first : (xs : List A) → All P xs → All P (remove_first xs)
    All-remove_first [] h = h
    All-remove_first (x ∷ xs) h = elim (Bool-cases (test x)) [
      | inl hit ↦ rw hit h.1
      | inr miss ↦ rw miss (h.0, All-remove_first xs h.1)
    ]

    -- Only the first hit changes: it is enough that the change keeps `P` there.
    pub All-update_first :
        (f : A → A) (xs : List A) (found : A)
        → find_first xs ≡ some found
        → (P found → P (f found))
        → All P xs
        → All P (update_first f xs)
    All-update_first f [] found e keep h = h
    All-update_first f (x ∷ xs) found e keep h = elim (Bool-cases (test x)) [
      | inl hit ↦
          let same : x ≡ found = ground arith in rw hit (rw same (keep (rw (← same) h.0), h.1))
      | inr miss ↦ rw miss (h.0, All-update_first f xs found (ground arith) keep h.1)
    ]

    pub All-find_first : (xs : List A) (found : A) → find_first xs ≡ some found → All P xs → P found
    All-find_first [] found e h = absurd (ground arith)
    All-find_first (x ∷ xs) found e h = elim (Bool-cases (test x)) [
      | inl hit ↦ let same : x ≡ found = ground arith in rw (← same) h.0
      | inr miss ↦ All-find_first xs found (ground arith) h.1
    ]

  pub test_of_found : (xs : List A) (found : A) → find_first xs ≡ some found → test found ≡ true
  test_of_found [] found e = absurd (ground arith)
  test_of_found (x ∷ xs) found e = elim (Bool-cases (test x)) [
    | inl hit ↦ let same : x ≡ found = ground arith in rw (← same) hit
    | inr miss ↦ test_of_found xs found (ground arith)
  ]

  -- The changed record is the one that is found, while it still passes the test.
  pub find_first-update_first :
      (f : A → A) (xs : List A) (found : A)
      → find_first xs ≡ some found
      → test (f found) ≡ true
      → find_first (update_first f xs) ≡ some (f found)
  find_first-update_first f [] found e h = absurd (ground arith)
  find_first-update_first f (x ∷ xs) found e h = elim (Bool-cases (test x)) [
    | inl hit ↦ let same : x ≡ found = ground arith in rw hit (rw same (rw h refl))
    | inr miss ↦ rw miss (rw miss (find_first-update_first f xs found (ground arith) h))
  ]
