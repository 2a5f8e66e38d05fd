-- ===== src/Shared/Splitting.antt =====
-- Laws of `split`, `split_once` and `contains` at a separator.
use Prim.Native.Nat.{ℕ}
use mathlib.Core.Path.{◌≡◌, refl, ap}
use mathlib.Core.Logic.{inl, inr}
use mathlib.Core.Bool.{false}
use mathlib.Core.Option.{none, some}
use mathlib.Core.List.{[], ◌∷◌, ◌++◌}
use native.Mathlib.Omega.{arith}
use kc_docker.Shared.Tests.{Bool-cases, Option-cases, ◌==◌}
use kc_docker.Shared.Lists.{All}
use kc_docker.Shared.Strings.{Text, split, split_once, rsplit_once}

-- No character of the text is `c`.
abbrev pub Lacks : ℕ → Text → Type 0
Lacks c s = All (λ d. (d == c) ≡ false) s

pub split_once-append : (c : ℕ) (s t : Text) → Lacks c s → split_once (s ++ c ∷ t) c ≡ some (s, t)
unfolding split_once
split_once-append c [] t h = ground arith
split_once-append c (d ∷ s) t h =
    rw (h.0, split_once) (rw (split_once-append c s t h.1, split_once))

pub split_once-none : (c : ℕ) (s : Text) → Lacks c s → split_once s c ≡ none
unfolding split_once
split_once-none c [] h = refl
split_once-none c (d ∷ s) h = rw (h.0, split_once) (rw (split_once-none c s h.1, split_once))

-- The parts of a successful `split_once`: put together again, and none of `c` in the first.
pub split_once-eq-some :
    (c : ℕ) (s a b : Text) → split_once s c ≡ some (a, b) → (s ≡ a ++ c ∷ b) × Lacks c a
unfolding split_once
split_once-eq-some c [] a b h = absurd (ground arith)
split_once-eq-some c (d ∷ s) a b h = elim (Bool-cases (d == c)) [
  | inl here ↦
      let (ea, eb, same) : (a ≡ []) × (b ≡ s) × (d ≡ c) = ground arith in
      rw ea (rw eb (ap (λ k. k ∷ s) same, tt))
  | inr other ↦ elim (Option-cases (split_once s c)) [
    | inl absent ↦ absurd (ground arith)
    | inr ((p, q), found) ↦
        let (ea, eb) : (a ≡ d ∷ p) × (b ≡ q) = ground arith in
        let ih = split_once-eq-some c s p q found in rw ea (rw eb (ap (◌∷◌ d) ih.0, (other, ih.1)))
  ]
]

pub split-append : (c : ℕ) (s t : Text) → Lacks c s → split (s ++ c ∷ t) c ≡ s ∷ split t c
unfolding split
split-append c [] t h = ground arith
split-append c (d ∷ s) t h = rw h.0 (rw (split-append c s t h.1))

pub split_whole : (c : ℕ) (s : Text) → Lacks c s → split s c ≡ s ∷ []
unfolding split
split_whole c [] h = refl
split_whole c (d ∷ s) h = rw h.0 (rw (split_whole c s h.1))

pub rsplit_once-none : (c : ℕ) (s : Text) → Lacks c s → rsplit_once s c ≡ none
unfolding rsplit_once
rsplit_once-none c [] h = refl
rsplit_once-none c (d ∷ s) h = rw (rsplit_once-none c s h.1, rsplit_once) (rw h.0 refl)

pub rsplit_once-append : (c : ℕ) (s t : Text) → Lacks c t → rsplit_once (s ++ c ∷ t) c ≡ some (s, t)
unfolding rsplit_once
rsplit_once-append c [] t h = rw (rsplit_once-none c t h, rsplit_once) (ground arith)
rsplit_once-append c (d ∷ s) t h = rw (rsplit_once-append c s t h, rsplit_once) refl
