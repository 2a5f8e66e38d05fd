-- ===== src/Builder/Wildcard/Meaning.antt =====
-- What a wildcard pattern means, and what the loop of `matches_wildcard` has found.
use kc_docker.Shared.{
  ℕ, zero, suc, Bool, true, none, some, [], ◌∷◌, Text, ◌==◌, ◌≡◌, refl, arith, Bool-cases, inl, inr,
  ◌⊎◌, ap,
}
use kc_docker.Builder.Wildcard.{
  only_stars, Head, fits, star, fails, head_of, rest_of, Star, act, retry, match_loop, rounds,
  matches_wildcard,
}

-- `?` stands for one character, `*` for any number of them, another character for itself.
pub data Matches : Text → Text → Type 0 where
  done : Matches [] []
  one : (d c : ℕ) (p t : Text) → (d ≡ b'?') ⊎ (d ≡ c) → Matches p t → Matches (d ∷ p) (c ∷ t)
  no_more : (p t : Text) → Matches p t → Matches (b'*' ∷ p) t
  one_more : (c : ℕ) (p t : Text) → Matches (b'*' ∷ p) t → Matches (b'*' ∷ p) (c ∷ t)

only_stars_sound : (p : Text) → only_stars p ≡ true → Matches p []
unfolding only_stars
only_stars_sound [] h = done
only_stars_sound (d ∷ p) h =
    let e : d ≡ b'*' = ground arith in rw e (no_more p [] (only_stars_sound p (ground arith)))

-- The rest of the text matches the rest of the pattern, or what follows the last star matches
-- somewhere behind the beginning of its match.
abbrev pub StarMatches : Star → Type 0
StarMatches none = ⊥
StarMatches (some (s, mt)) = Matches (b'*' ∷ s) mt

abbrev pub Reaches : Text → Text → Star → Type 0
Reaches p t last = Matches p t ⊎ StarMatches last

head_fits :
    (p : Text) (c : ℕ) (t : Text) → head_of p c ≡ fits → Matches (rest_of p) t → Matches p (c ∷ t)
head_fits [] c t e h = absurd (ground arith)
head_fits (d ∷ p) c t e h = elim (Bool-cases (d == b'?')) [
  | inl any ↦ one d c p t (inl (ground arith)) h
  | inr other ↦ elim (Bool-cases (d == c)) [
    | inl same ↦ one d c p t (inr (ground arith)) h
    | inr different ↦ absurd (ground arith)
  ]
]

head_star : (p : Text) (c : ℕ) → head_of p c ≡ star → p ≡ b'*' ∷ rest_of p
head_star [] c e = absurd (ground arith)
head_star (d ∷ p) c e = let same : d ≡ b'*' = ground arith in ap (λ k. k ∷ p) same

module _ (next : Text → Text → Star → Bool)
    (sound : (p t : Text) (last : Star) → next p t last ≡ true → Reaches p t last) where
  retry-StarMatches : (last : Star) → retry next last ≡ true → StarMatches last
  retry-StarMatches none h = absurd (ground arith)
  retry-StarMatches (some (s, [])) h = absurd (ground arith)
  retry-StarMatches (some (s, m ∷ mt)) h = elim (sound s mt (some (s, mt)) h) [
    | inl found ↦ one_more m s mt (no_more s mt found)
    | inr found ↦ one_more m s mt found
  ]

  act-Reaches :
      (p : Text) (c : ℕ) (t : Text) (last : Star) (k : Head)
      → head_of p c ≡ k
      → act next p c t last k ≡ true
      → Reaches p (c ∷ t) last
  act-Reaches p c t last fits e h = elim (sound (rest_of p) t last h) [
    | inl m ↦ inl (head_fits p c t e m)
    | inr m ↦ inr m
  ]
  act-Reaches p c t last star e h = elim (sound (rest_of p) (c ∷ t) (some (rest_of p, c ∷ t)) h) [
    | inl m ↦ inl (rw (head_star p c e) (no_more (rest_of p) (c ∷ t) m))
    | inr m ↦ inl (rw (head_star p c e) m)
  ]
  act-Reaches p c t last fails e h = inr (retry-StarMatches last h)

match_loop-Reaches :
    (fuel : ℕ) (p t : Text) (last : Star) → match_loop fuel p t last ≡ true → Reaches p t last
unfolding match_loop
match_loop-Reaches zero p t last h = absurd (ground arith)
match_loop-Reaches (suc fuel) p [] last h = inl (only_stars_sound p h)
match_loop-Reaches (suc fuel) p (c ∷ t) last h =
    act-Reaches (match_loop fuel) (match_loop-Reaches fuel) p c t last (head_of p c) refl h

-- Whatever the matcher accepts has the meaning of the pattern.
pub matches_wildcard-Matches :
    (pattern' text : Text) → matches_wildcard pattern' text ≡ true → Matches pattern' text
unfolding matches_wildcard
matches_wildcard-Matches pattern' text h =
    elim (match_loop-Reaches (rounds pattern' text) pattern' text none h) [
      | inl m ↦ m
      | inr nothing ↦ absurd nothing
    ]
