-- ===== src/Guardrails/Sizes/Units.antt =====
-- The units that `split_unit` knows, written behind a number.
use kc_docker.Shared.{
  ℕ, true, false, none, [], ◌∷◌, ◌++◌, ◌≡◌, refl, ap, subst, ◌∙◌, arith, Text, codes, is_digit,
  strip_prefix, All, All-append, append-nil,
}
use mathlib.Core.List.{reverse, reverse-append, reverse-cons, reverse-reverse}
use kc_docker.Shared.Search.{strip_suffix, reversed}
use kc_docker.Guardrails.Sizes.{split_unit, or_else, or_try, with_factor}

pub data SizeUnit : Type 0 where
  bare b k kb m mb g gb : SizeUnit

unfoldable pub suffix : SizeUnit → Text
suffix bare = []
suffix b = codes "b"
suffix k = codes "k"
suffix kb = codes "kb"
suffix m = codes "m"
suffix mb = codes "mb"
suffix g = codes "g"
suffix gb = codes "gb"

unfoldable pub factor : SizeUnit → ℕ
factor bare = 1
factor b = 1
factor k = 1024
factor kb = 1024
factor m = 1048576
factor mb = 1048576
factor g = 1073741824
factor gb = 1073741824

abbrev pub IsDigits : Text → Type 0
IsDigits s = All (λ c. is_digit c ≡ true) s

pub IsDigits-reverse : (s : Text) → IsDigits s → IsDigits (reverse s)
IsDigits-reverse [] h = tt
IsDigits-reverse (c ∷ s) h =
    rw (reverse-cons c s)
      (All-append (λ d. is_digit d ≡ true) (reverse s) (c ∷ []) (IsDigits-reverse s h.1) (h.0, tt))

-- No digit is the letter that ends a unit.
pub strip_prefix-digits :
    (s : Text) (c : ℕ) (p : Text) → IsDigits s → is_digit c ≡ false → strip_prefix s (c ∷ p) ≡ none
unfolding strip_prefix
strip_prefix-digits [] c p h letter = refl
strip_prefix-digits (d ∷ s) c p h letter = ground arith

-- `split_unit` of a text, by the reversed text.
abbrev by_end : Text → Text → Text × ℕ
by_end s r =
    or_else
      (or_try (with_factor 1073741824 (reversed (strip_prefix r (codes "g")))) (
        or_try (with_factor 1073741824 (reversed (strip_prefix r (codes "bg")))) (
          or_try (with_factor 1048576 (reversed (strip_prefix r (codes "m")))) (
            or_try (with_factor 1048576 (reversed (strip_prefix r (codes "bm")))) (
              or_try (with_factor 1024 (reversed (strip_prefix r (codes "k")))) (
                or_try (with_factor 1024 (reversed (strip_prefix r (codes "bk"))))
                  (with_factor 1 (reversed (strip_prefix r (codes "b"))))))))))
      (s, 1)

split_unit-by_end : (s r : Text) → reverse s ≡ r → split_unit s ≡ by_end s r
unfolding split_unit strip_suffix
split_unit-by_end s r e = subst (λ t. split_unit s ≡ by_end s t) e refl

pub split_unit-suffix :
    (s : Text) → IsDigits s → (u : SizeUnit) → split_unit (s ++ suffix u) ≡ (s, factor u)
unfolding suffix factor strip_prefix
split_unit-suffix s h bare =
    let r = IsDigits-reverse s h in
    rw (append-nil s) (
      split_unit-by_end s (reverse s) refl
      ∙ rw
          (
            strip_prefix-digits (reverse s) b'g' [] r refl,
            strip_prefix-digits (reverse s) b'b' (codes "g") r refl,
            strip_prefix-digits (reverse s) b'm' [] r refl,
            strip_prefix-digits (reverse s) b'b' (codes "m") r refl,
            strip_prefix-digits (reverse s) b'k' [] r refl,
            strip_prefix-digits (reverse s) b'b' (codes "k") r refl,
            strip_prefix-digits (reverse s) b'b' [] r refl,
          )
          refl)
split_unit-suffix s h b =
    let r = IsDigits-reverse s h in
    split_unit-by_end (s ++ codes "b") (b'b' ∷ reverse s) (reverse-append s (codes "b"))
    ∙ rw
        (
          strip_prefix-digits (reverse s) b'g' [] r refl,
          strip_prefix-digits (reverse s) b'm' [] r refl,
          strip_prefix-digits (reverse s) b'k' [] r refl,
        )
        (ap (λ t. (t, 1)) (reverse-reverse s))
split_unit-suffix s h k =
    split_unit-by_end (s ++ codes "k") (b'k' ∷ reverse s) (reverse-append s (codes "k"))
    ∙ ap (λ t. (t, 1024)) (reverse-reverse s)
split_unit-suffix s h kb =
    split_unit-by_end (s ++ codes "kb") (b'b' ∷ b'k' ∷ reverse s) (reverse-append s (codes "kb"))
    ∙ ap (λ t. (t, 1024)) (reverse-reverse s)
split_unit-suffix s h m =
    split_unit-by_end (s ++ codes "m") (b'm' ∷ reverse s) (reverse-append s (codes "m"))
    ∙ ap (λ t. (t, 1048576)) (reverse-reverse s)
split_unit-suffix s h mb =
    split_unit-by_end (s ++ codes "mb") (b'b' ∷ b'm' ∷ reverse s) (reverse-append s (codes "mb"))
    ∙ ap (λ t. (t, 1048576)) (reverse-reverse s)
split_unit-suffix s h g =
    split_unit-by_end (s ++ codes "g") (b'g' ∷ reverse s) (reverse-append s (codes "g"))
    ∙ ap (λ t. (t, 1073741824)) (reverse-reverse s)
split_unit-suffix s h gb =
    split_unit-by_end (s ++ codes "gb") (b'b' ∷ b'g' ∷ reverse s) (reverse-append s (codes "gb"))
    ∙ ap (λ t. (t, 1073741824)) (reverse-reverse s)
