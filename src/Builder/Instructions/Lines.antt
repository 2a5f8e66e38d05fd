-- ===== src/Builder/Instructions/Lines.antt =====
-- The recursion of `parse_line` and the loop over the flags of HEALTHCHECK.
use kc_docker.Shared.{
  ℕ, ◌∙◌, sym, zero, suc, ◌<◌, ◌≤◌, starts_with, true, false, Option, none, some, List, [], ◌∷◌,
  length, Text, codes, is_whitespace, trim, ◌≡◌, refl, arith, Bool-cases, Option-cases, inl, inr,
  text_eq,
}
use kc_docker.Shared.Trimming.{length-trim}
use kc_docker.Builder.Texts.{split_once_space}
use kc_docker.Builder.Instructions.{
  HealthConfig, apply_flag, read_flags, keyword_and_rest, parse_line,
}

length-split_once_space : (s a b : Text) → split_once_space s ≡ some (a, b) → length b < length s
unfolding split_once_space
length-split_once_space [] a b e = absurd (ground arith)
length-split_once_space (c ∷ s) a b e = elim (Option-cases (split_once_space s)) [
  | inl none_here ↦ elim (Bool-cases (is_whitespace c)) [
    | inl blank ↦ let same : s ≡ b = ground arith in rw (← same) (omega arith)
    | inr solid ↦ absurd (ground arith)
  ]
  | inr ((p, q), found) ↦
      let ih = length-split_once_space s p q found in
      elim (Bool-cases (is_whitespace c)) [
        | inl blank ↦ let same : s ≡ b = ground arith in rw (← same) (omega arith)
        | inr solid ↦ let same : q ≡ b = ground arith in rw (← same) (omega (arith, ih))
      ]
]

empty_is_no_keyword : text_eq [] (codes "ONBUILD") ≡ false
unfolding text_eq
empty_is_no_keyword = refl

split_once_space_nil : split_once_space [] ≡ none
unfolding split_once_space
split_once_space_nil = refl

-- What follows the keyword ONBUILD is shorter than the line.
onbuild_shorter :
    (trimmed : Text)
    → text_eq (keyword_and_rest trimmed).0 (codes "ONBUILD") ≡ true
    → length (keyword_and_rest trimmed).1 < length trimmed
onbuild_shorter [] h = absurd (ground (arith, empty_is_no_keyword, split_once_space_nil))
onbuild_shorter (k0 ∷ ks) h = elim (Option-cases (split_once_space (k0 ∷ ks))) [
  | inr ((k, r), found) ↦
      rw (found, keyword_and_rest)
        (let shorter = length-split_once_space (k0 ∷ ks) k r found in
          let t = length-trim r in omega (arith, shorter, t))
  | inl absent ↦ rw (absent, keyword_and_rest) (omega arith)
]

read_flags_end : (fuel : ℕ) (config : HealthConfig) → read_flags fuel [] config ≡ ([], config)
unfolding read_flags starts_with
read_flags_end zero config = refl
read_flags_end (suc fuel) config = refl

-- Every fuel from the length of the text on gives the same flags: each round drops a word.
pub read_flags-fuel :
    (fuel more : ℕ) (current : Text) (config : HealthConfig)
    → length current ≤ fuel
    → length current ≤ more
    → read_flags fuel current config ≡ read_flags more current config
unfolding read_flags
read_flags-fuel fuel more [] config h k =
    read_flags_end fuel config ∙ sym (read_flags_end more config)
read_flags-fuel zero more (c ∷ s) config h k = absurd (omega arith)
read_flags-fuel (suc fuel) zero (c ∷ s) config h k = absurd (omega arith)
read_flags-fuel (suc fuel) (suc more) (c ∷ s) config h k =
    elim (Option-cases (split_once_space (c ∷ s))) [
      | inl absent ↦ rw (absent, read_flags) refl
      | inr ((flag, rem), found) ↦
          let shorter = length-split_once_space (c ∷ s) flag rem found in
          let t = length-trim rem in
          rw (found, read_flags)
            (rw
              (read_flags-fuel fuel more (trim rem) (apply_flag flag config)
                (omega (arith, shorter, t)) (omega (arith, shorter, t)))
              refl)
    ]

module _ (from_json : Text → Option (List Text)) where
  -- Every fuel above the length of the line gives the same result, so ONBUILD may be nested at
  -- will.
  pub parse_line-fuel :
      (fuel more : ℕ) (line : Text)
      → length line < fuel
      → length line < more
      → parse_line from_json fuel line ≡ parse_line from_json more line
  unfolding parse_line
  parse_line-fuel zero more line h k = absurd (omega arith)
  parse_line-fuel (suc fuel) zero line h k = absurd (omega arith)
  parse_line-fuel (suc fuel) (suc more) line h k =
      let keyword = (keyword_and_rest (trim line)).0 in
      let rest = (keyword_and_rest (trim line)).1 in
      elim (Bool-cases (text_eq keyword (codes "ONBUILD"))) [
        | inr other ↦ rw other refl
        | inl nested ↦
            let shorter = onbuild_shorter (trim line) nested in
            let t = length-trim line in
            rw nested (
              rw
                (parse_line-fuel fuel more rest (omega (arith, shorter, t))
                  (omega (arith, shorter, t)))
                refl)
      ]
