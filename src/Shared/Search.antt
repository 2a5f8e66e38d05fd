-- ===== src/Shared/Search.antt =====
-- Searching texts: `contains(&str)`, `strip_suffix`, and prefixes and suffixes of joined texts.
use mathlib.Core.Path.{◌≡◌, refl, ap, subst, ◌∙◌}
use mathlib.Core.Bool.{Bool, true, ◌||◌}
use mathlib.Core.Option.{Option, none, some}
use mathlib.Core.List.{[], ◌∷◌, ◌++◌, reverse, reverse-append, reverse-reverse}
use native.Mathlib.Omega.{arith}
use kc_docker.Shared.Tests.{==_refl}
use kc_docker.Shared.Strings.{Text, starts_with, strip_prefix, text_eq}

-- `contains(p)`.
unfoldable pub contains_text : Text → Text → Bool
contains_text [] p = starts_with [] p
contains_text (c ∷ s) p = starts_with (c ∷ s) p || contains_text s p

abbrev pub reversed : Option Text → Option Text
reversed none = none
reversed (some r) = some (reverse r)

-- `strip_suffix(p)`.
unfoldable pub strip_suffix : Text → Text → Option Text
strip_suffix s p = reversed (strip_prefix (reverse s) (reverse p))

-- A common beginning decides nothing.
pub starts_with_cancel : (p s t : Text) → starts_with (p ++ s) (p ++ t) ≡ starts_with s t
unfolding starts_with
starts_with_cancel [] s t = refl
starts_with_cancel (c ∷ p) s t = rw (==_refl c) (starts_with_cancel p s t)

pub text_eq_cancel : (p s t : Text) → text_eq (p ++ s) (p ++ t) ≡ text_eq s t
unfolding text_eq
text_eq_cancel [] s t = refl
text_eq_cancel (c ∷ p) s t = rw (==_refl c) (text_eq_cancel p s t)

pub starts_with-append : (p s : Text) → starts_with (p ++ s) p ≡ true
unfolding starts_with
starts_with-append [] [] = refl
starts_with-append [] (c ∷ s) = refl
starts_with-append (c ∷ p) s = rw (==_refl c) (starts_with-append p s)

pub contains_text-append : (a p s : Text) → contains_text (a ++ (p ++ s)) p ≡ true
unfolding contains_text
contains_text-append [] [] [] = starts_with-append [] []
contains_text-append [] [] (c ∷ s) = rw (starts_with-append [] (c ∷ s)) refl
contains_text-append [] (c ∷ p) s = rw (starts_with-append (c ∷ p) s) refl
contains_text-append (c ∷ a) p s = ground (arith, contains_text-append a p s)

pub strip_suffix-reversed :
    (s r p : Text) → reverse s ≡ r → strip_suffix s p ≡ reversed (strip_prefix r (reverse p))
unfolding strip_suffix
strip_suffix-reversed s r p e =
    subst (λ t. strip_suffix s p ≡ reversed (strip_prefix t (reverse p))) e refl

pub strip_prefix-append : (p s : Text) → strip_prefix (p ++ s) p ≡ some s
unfolding strip_prefix
strip_prefix-append [] [] = refl
strip_prefix-append [] (c ∷ s) = refl
strip_prefix-append (c ∷ p) s = rw (==_refl c) (strip_prefix-append p s)

pub strip_suffix-append : (s p : Text) → strip_suffix (s ++ p) p ≡ some s
strip_suffix-append s p =
    strip_suffix-reversed (s ++ p) (reverse p ++ reverse s) p (reverse-append s p)
    ∙ rw (strip_prefix-append (reverse p) (reverse s)) (ap some (reverse-reverse s))
