-- ===== src/Shared/Naming.antt =====
-- Lists of records with a name each, no two the same, under the changes that a store makes.
use mathlib.Core.Path.{◌≡◌, sym, subst}
use mathlib.Core.Bool.{Bool, false}
use mathlib.Core.List.{List, [], ◌∷◌, ◌++◌}
use mathlib.Core.Logic.{inl, inr}
use native.Mathlib.Omega.{arith}
use kc_docker.Shared.Tests.{Bool-cases}
use kc_docker.Shared.Lists.{All, All-append}
use kc_docker.Shared.Strings.{Text, text_eq, text_eq_iff}
use kc_docker.Shared.Records.{any, remove_first, update_first, All-remove_first}

module _ {ℓ} {A : Type ℓ} (name_of : A → Text) where
  abbrev pub IsApart : A → A → Type 0
  IsApart a b = text_eq (name_of a) (name_of b) ≡ false

  -- No two records have one name.
  abbrev pub Distinct : List A → Type 0
  Distinct [] = Unit
  Distinct (a ∷ as') = All (IsApart a) as' × Distinct as'

  IsApart-comm : (a b : A) → IsApart a b → IsApart b a
  IsApart-comm a b h =
      ground (arith, text_eq_iff (name_of a) (name_of b), text_eq_iff (name_of b) (name_of a))

  pub All-IsApart_comm : (a : A) (l : List A) → All (IsApart a) l → All (λ b. IsApart b a) l
  All-IsApart_comm a [] h = tt
  All-IsApart_comm a (b ∷ l) h = (IsApart-comm a b h.0, All-IsApart_comm a l h.1)

  -- A test for a name that nothing passes keeps every record apart from that name.
  pub All-of_any :
      (n : Text) (l : List A)
      → any (λ a. text_eq (name_of a) n) l ≡ false
      → All (λ a. text_eq (name_of a) n ≡ false) l
  All-of_any n [] h = tt
  All-of_any n (a ∷ l) h = (ground arith, All-of_any n l (ground arith))

  pub Distinct-snoc :
      (l : List A) (new : A) → Distinct l → All (λ a. IsApart a new) l → Distinct (l ++ new ∷ [])
  Distinct-snoc [] new h apart = (tt, tt)
  Distinct-snoc (a ∷ l) new h apart =
      (All-append (IsApart a) l (new ∷ []) h.0 (apart.0, tt), Distinct-snoc l new h.1 apart.1)

  module _ (test : A → Bool) where
    pub Distinct-remove_first : (l : List A) → Distinct l → Distinct (remove_first test l)
    Distinct-remove_first [] h = h
    Distinct-remove_first (a ∷ l) h = elim (Bool-cases (test a)) [
      | inl hit ↦ rw hit h.1
      | inr miss ↦ rw miss (All-remove_first test (IsApart a) l h.0, Distinct-remove_first l h.1)
    ]

    module _ (f : A → A) (same_name : (a : A) → name_of (f a) ≡ name_of a) where
      All-update_first :
          (a : A) (l : List A) → All (IsApart a) l → All (IsApart a) (update_first test f l)
      All-update_first a [] h = h
      All-update_first a (b ∷ l) h = elim (Bool-cases (test b)) [
        | inl hit ↦ rw hit (rw (same_name b) h)
        | inr miss ↦ rw miss (h.0, All-update_first a l h.1)
      ]

      pub Distinct-update_first : (l : List A) → Distinct l → Distinct (update_first test f l)
      Distinct-update_first [] h = h
      Distinct-update_first (a ∷ l) h = elim (Bool-cases (test a)) [
        | inl hit ↦
            rw hit
              (subst (λ n. All (λ b. text_eq n (name_of b) ≡ false) l) (sym (same_name a)) h.0, h.1)
        | inr miss ↦ rw miss (All-update_first a l h.0, Distinct-update_first l h.1)
      ]
