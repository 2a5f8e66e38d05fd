-- ===== src/Shared/Trimming.antt =====
-- Laws of `trim`.
use Prim.Native.Nat.{ℕ, ◌≤◌}
use mathlib.Core.Path.{◌≡◌, refl}
use mathlib.Core.Logic.{inl, inr}
use mathlib.Core.Bool.{false}
use mathlib.Core.List.{[], ◌∷◌, reverse, reverse-cons, reverse-reverse}
use native.Mathlib.Omega.{arith}
use kc_docker.Shared.Tests.{Bool-cases}
use kc_docker.Shared.Lists.{length, All, All-append, length-append}
use kc_docker.Shared.Strings.{Text, is_whitespace, trim_start, trim_end, trim}

pub length-reverse : (s : Text) → length (reverse s) ≡ length s
length-reverse [] = refl
length-reverse (c ∷ s) = rw (reverse-cons c s) (
    let a = length-append (reverse s) (c ∷ []) in let ih = length-reverse s in omega (arith, a, ih))

pub length-trim_start : (s : Text) → length (trim_start s) ≤ length s
unfolding trim_start
length-trim_start [] = omega arith
length-trim_start (c ∷ s) = elim (Bool-cases (is_whitespace c)) [
  | inl blank ↦ rw blank (let ih = length-trim_start s in omega (arith, ih))
  | inr solid ↦ rw solid (omega arith)
]

pub length-trim : (s : Text) → length (trim s) ≤ length s
unfolding trim trim_end
length-trim s =
    let a = length-trim_start s in
    let b = length-reverse (trim_start s) in
    let c = length-trim_start (reverse (trim_start s)) in
    let d = length-reverse (trim_start (reverse (trim_start s))) in omega (arith, a, b, c, d)

abbrev pub IsSolid : ℕ → Type 0
IsSolid c = is_whitespace c ≡ false

trim_start_solid : (s : Text) → All IsSolid s → trim_start s ≡ s
unfolding trim_start
trim_start_solid [] h = refl
trim_start_solid (c ∷ s) h = rw h.0 refl

All-reverse : (s : Text) → All IsSolid s → All IsSolid (reverse s)
All-reverse [] h = tt
All-reverse (c ∷ s) h =
    rw (reverse-cons c s) (All-append IsSolid (reverse s) (c ∷ []) (All-reverse s h.1) (h.0, tt))

pub trim_solid : (s : Text) → All IsSolid s → trim s ≡ s
unfolding trim trim_end
trim_solid s h =
    rw (trim_start_solid s h)
      (rw (trim_start_solid (reverse s) (All-reverse s h)) (reverse-reverse s))
