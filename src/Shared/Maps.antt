-- ===== src/Shared/Maps.antt =====
-- `HashMap<String, V>` as an association list and `HashSet<String>` as a list, with the laws of
-- their operations. The order of a list stands for the unspecified order of iteration.
use mathlib.Core.Path.{◌≡◌, refl}
use mathlib.Core.Bool.{Bool, false, ◌||◌}
use mathlib.Core.Option.{Option, none, some}
use mathlib.Core.List.{List, [], ◌∷◌}
use native.Mathlib.Omega.{arith}
use mathlib.Core.Logic.{inl, inr}
use kc_docker.Shared.Tests.{if◌then◌else◌, Bool-cases}
use kc_docker.Shared.Strings.{Text, text_eq, text_eq_iff, text_eq_sound}

-- `HashSet::contains`, and `Vec::contains`.
abbrev pub contains : List Text → Text → Bool
contains [] x = false
contains (y ∷ s) x = text_eq y x || contains s x

-- `HashSet::insert`.
abbrev pub add : Text → List Text → List Text
add x s = if contains s x then s else x ∷ s

-- `HashSet::remove`, and `retain(|d| d != x)`.
abbrev pub discard : Text → List Text → List Text
discard x [] = []
discard x (y ∷ s) = let rest = discard x s in if text_eq y x then rest else y ∷ rest

pub contains-add :
    (x z : Text) (s : List Text) → contains (add x s) z ≡ (text_eq x z || contains s z)
contains-add x z s = elim (Bool-cases (contains s x)) [
  | inr new ↦ rw new refl
  | inl old ↦ rw old (elim (Bool-cases (text_eq x z)) [
    | inr other ↦ rw other refl
    | inl same ↦ rw same (rw (← text_eq_sound x z same) old)
  ])
]

pub discard_absent : (x : Text) (s : List Text) → contains s x ≡ false → discard x s ≡ s
discard_absent x [] h = refl
discard_absent x (y ∷ s) h = ground (arith, discard_absent x s)

pub contains-discard :
    (x z : Text) (s : List Text)
    → contains (discard x s) z ≡ (if text_eq x z then false else contains s z)
contains-discard x z [] = ground arith
contains-discard x z (y ∷ s) =
    ground (arith, contains-discard x z s, text_eq_iff y x, text_eq_iff y z, text_eq_iff x z)

module _ {ℓ} {V : Type ℓ} where
  abbrev pub keys : List (Text × V) → List Text
  keys [] = []
  keys ((k, v) ∷ m) = k ∷ keys m

  -- `HashMap::get`.
  unfoldable pub get : List (Text × V) → Text → Option V
  get [] k = none
  get ((j, v) ∷ m) k = if text_eq j k then some v else get m k

  -- `HashMap::insert`.
  unfoldable pub insert : Text → V → List (Text × V) → List (Text × V)
  insert k v [] = (k, v) ∷ []
  insert k v ((j, w) ∷ m) = if text_eq j k then (k, v) ∷ m else (j, w) ∷ insert k v m

  -- `HashMap::remove`.
  unfoldable pub remove : Text → List (Text × V) → List (Text × V)
  remove k [] = []
  remove k ((j, v) ∷ m) = let rest = remove k m in if text_eq j k then rest else (j, v) ∷ rest

  pub get-insert :
      (k j : Text) (v : V) (m : List (Text × V))
      → get (insert k v m) j ≡ (if text_eq k j then some v else get m j)
  unfolding get insert
  get-insert k j v [] = refl
  get-insert k j v ((i, w) ∷ m) =
      ground (arith, text_eq_iff k j, text_eq_iff i k, text_eq_iff i j, get-insert k j v m)

  pub get-remove :
      (k j : Text) (m : List (Text × V))
      → get (remove k m) j ≡ (if text_eq k j then none else get m j)
  unfolding get remove
  get-remove k j [] = ground arith
  get-remove k j ((i, w) ∷ m) =
      ground (arith, text_eq_iff k j, text_eq_iff i k, text_eq_iff i j, get-remove k j m)
