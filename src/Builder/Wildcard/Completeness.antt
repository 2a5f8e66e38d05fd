-- ===== src/Builder/Wildcard/Completeness.antt =====
-- `matches_wildcard` against the meaning of patterns: its rounds, and its return to the last star.
use kc_docker.Shared.{
  ℕ, zero, suc, ◌+◌, ◌*◌, ◌≤◌, ◌<◌, Bool, true, false, none, some, [], ◌∷◌, length, Text, ◌==◌, ◌≡◌,
  refl, arith, inl, inr, ◌↔◌, ap, subst, length-append,
}
use kc_docker.Shared.Splitting.{Lacks}
use kc_docker.Builder.Wildcard.{
  Head, fits, star, fails, head_of, Star, act, retry, match_loop, rounds, matches_wildcard,
}
use kc_docker.Builder.Wildcard.Meaning.{
  Matches, one, no_more, one_more, Reaches, matches_wildcard-Matches,
}
use kc_docker.Builder.Wildcard.Runs.{
  IsRun, only_stars_complete, drop_nil, pull_back, begins_later, IsRun-next, fails_no_match, extend,
  Runs,
}

fits_next :
    (d : ℕ) (p : Text) (c : ℕ) (t : Text)
    → (d == b'*') ≡ false
    → Matches (d ∷ p) (c ∷ t)
    → Matches p t
fits_next d p c t e (one _ _ _ _ h m) = m
fits_next _ p c t e (no_more _ _ m) = absurd (ground arith)
fits_next _ p c t e (one_more _ _ _ m) = absurd (ground arith)

-- The rounds that are left: `K` for each place where the match behind a star may still begin.
abbrev places : Star → Text → ℕ
places none t = length t + 1
places (some (s, mt)) t = length mt

abbrev IsWithin : ℕ → Star → Text → Text → Type 0
IsWithin K none p t = length p + length t < K
IsWithin K (some (s, mt)) p t = (length p + length t < K) × (length s + length mt ≤ K)

abbrev Complete : ℕ → ℕ → (Text → Text → Star → Bool) → Type 0
Complete K fuel next =
    (p t : Text) (last : Star)
    → Runs last p t
    → Lacks b'*' t
    → IsWithin K last p t
    → places last t * K + (length p + length t) < fuel
    → Reaches p t last
    → next p t last ≡ true

mul_mono : (m n K : ℕ) → m ≤ n → m * K ≤ n * K
mul_mono m n K h = grind arith

mul_suc : (m K : ℕ) → suc m * K ≡ m * K + K
mul_suc m K = grind arith

IsRun-short : (s mt p t : Text) → IsRun s mt p t → length t ≤ length mt
IsRun-short s mt p t run = let e = ap length run.text_is in omega (arith, e, length-append run.r t)

module _ (K fuel : ℕ) (next : Text → Text → Star → Bool) (ih : Complete K fuel next) where
  act_fits :
      (d c : ℕ) (p t : Text) (last : Star)
      → (d == b'*') ≡ false
      → Runs last (d ∷ p) (c ∷ t)
      → Lacks b'*' (c ∷ t)
      → IsWithin K last (d ∷ p) (c ∷ t)
      → places last (c ∷ t) * K + (length (d ∷ p) + length (c ∷ t)) < suc fuel
      → Reaches (d ∷ p) (c ∷ t) last
      → next p t last ≡ true
  act_fits d c p t none e runs lacks fit enough reaches =
      ih p t none tt lacks.1 (omega arith)
        (omega (arith, mul_mono (length t + 1) (suc (length t) + 1) K (omega arith)))
        (elim reaches [ inl m ↦ inl (fits_next d p c t e m) | inr nothing ↦ absurd nothing ])
  act_fits d c p t (some (s, mt)) e runs lacks fit enough reaches =
      ih p t (some (s, mt)) (IsRun-next s mt p t d c e runs.0, runs.1) lacks.1
        (omega (arith, fit.0), fit.1) (omega arith)
        (elim reaches [ inl m ↦ inl (fits_next d p c t e m) | inr m ↦ inr m ])

  star_reaches :
      (p t : Text) (last : Star)
      → Runs last (b'*' ∷ p) t
      → Reaches (b'*' ∷ p) t last
      → Matches (b'*' ∷ p) t
  star_reaches p t last runs (inl m) = m
  star_reaches p t none runs (inr nothing) = absurd nothing
  star_reaches p t (some (s, mt)) runs (inr m) =
      let (k, found) = pull_back s mt (b'*' ∷ p) t runs.0 m in extend k p t found

  places-le : (last : Star) (p t : Text) → Runs last p t → length t ≤ places last t
  places-le none p t runs = omega arith
  places-le (some (s, mt)) p t runs = IsRun-short s mt p t runs.0

  IsWithin-lt : (last : Star) (p t : Text) → IsWithin K last p t → length p + length t < K
  IsWithin-lt none p t fit = fit
  IsWithin-lt (some (s, mt)) p t fit = fit.0

  act_star :
      (p t : Text) (last : Star)
      → Runs last (b'*' ∷ p) t
      → Lacks b'*' t
      → IsWithin K last (b'*' ∷ p) t
      → places last t * K + (length (b'*' ∷ p) + length t) < suc fuel
      → Reaches (b'*' ∷ p) t last
      → next p t (some (p, t)) ≡ true
  act_star p t last runs lacks fit enough reaches =
      let small = IsWithin-lt last (b'*' ∷ p) t fit in
      let fewer = mul_mono (length t) (places last t) K (places-le last (b'*' ∷ p) t runs) in
      ih p t (some (p, t))
        (
          record {
            q = [];
            r = [];
            pattern_is = refl;
            text_is = refl;
            same_length = refl;
            plain = tt;
          },
          lacks,
        )
        lacks (omega (arith, small), omega (arith, small)) (omega (arith, fewer, enough))
        (inr (star_reaches p t last runs reaches))

  -- The match behind the star begins later, since the one that failed used up its beginning.
  retry_complete :
      (p t : Text) (last : Star)
      → ¬ Matches p t
      → Runs last p t
      → 0 < length t
      → IsWithin K last p t
      → places last t * K + (length p + length t) < suc fuel
      → Reaches p t last
      → retry next last ≡ true
  retry_complete p t last failed runs some_left fit enough (inl m) = absurd (failed m)
  retry_complete p t none failed runs some_left fit enough (inr nothing) = absurd nothing
  retry_complete p t (some (s, [])) failed runs some_left fit enough (inr m) =
      absurd (omega (arith, IsRun-short s [] p t runs.0))
  retry_complete p t (some (s, c ∷ mt)) failed runs some_left fit enough (inr m) =
      let more = mul_suc (length mt) K in
      ih s mt (some (s, mt))
        (
          record {
            q = [];
            r = [];
            pattern_is = refl;
            text_is = refl;
            same_length = refl;
            plain = tt;
          },
          runs.1.1,
        )
        runs.1.1 (omega (arith, fit.1), omega (arith, fit.1)) (omega (arith, more, fit.1))
        (begins_later s c mt p t failed runs.0 m)

  act_complete :
      (p : Text) (c : ℕ) (t : Text) (last : Star) (k : Head)
      → head_of p c ≡ k
      → Runs last p (c ∷ t)
      → Lacks b'*' (c ∷ t)
      → IsWithin K last p (c ∷ t)
      → places last (c ∷ t) * K + (length p + length (c ∷ t)) < suc fuel
      → Reaches p (c ∷ t) last
      → act next p c t last k ≡ true
  act_complete [] c t last fits e runs lacks fit enough reaches = absurd (ground arith)
  act_complete (d ∷ p) c t last fits e runs lacks fit enough reaches =
      act_fits d c p t last (ground (arith, lacks.0)) runs lacks fit enough reaches
  act_complete [] c t last star e runs lacks fit enough reaches = absurd (ground arith)
  act_complete (d ∷ p) c t last star e runs lacks fit enough reaches =
      let same : d ≡ b'*' = ground arith in
      act_star p (c ∷ t) last (subst (λ k. Runs last (k ∷ p) (c ∷ t)) same runs) lacks
        (subst (λ k. IsWithin K last (k ∷ p) (c ∷ t)) same fit) enough
        (subst (λ k. Reaches (k ∷ p) (c ∷ t) last) same reaches)
  act_complete p c t last fails e runs lacks fit enough reaches =
      retry_complete p (c ∷ t) last (fails_no_match p c t e) runs (omega arith) fit enough reaches

at_end : (last : Star) (p : Text) → Runs last p [] → Reaches p [] last → Matches p []
at_end last p runs (inl m) = m
at_end none p runs (inr nothing) = absurd nothing
at_end (some (s, mt)) p runs (inr m) =
    let (k, found) = pull_back s mt p [] runs.0 m in subst (λ x. Matches p x) (drop_nil k 0) found

enough_rounds :
    (pattern' text : Text)
    → (length text + 1) * (length pattern' + length text + 1) + (length pattern' + length text)
      < rounds pattern' text
enough_rounds pattern' text =
    let K = length pattern' + length text + 1 in
    let e : length text + 2 ≡ suc (length text + 1) = omega arith in
    rw e (omega (arith, mul_suc (length text + 1) K))

match_loop-Complete : (K fuel : ℕ) → Complete K fuel (match_loop fuel)
unfolding match_loop
match_loop-Complete K zero p t last runs lacks fit enough reaches = absurd (omega (arith, enough))
match_loop-Complete K (suc fuel) p [] last runs lacks fit enough reaches =
    only_stars_complete p (at_end last p runs reaches)
match_loop-Complete K (suc fuel) p (c ∷ t) last runs lacks fit enough reaches =
    act_complete K fuel (match_loop fuel) (match_loop-Complete K fuel) p c t last (head_of p c) refl
      runs lacks fit enough reaches

-- A text without a `*` is accepted exactly when it has the meaning of the pattern.
pub matches_wildcard_iff :
    (pattern' text : Text)
    → Lacks b'*' text
    → (matches_wildcard pattern' text ≡ true) ↔ Matches pattern' text
unfolding matches_wildcard
matches_wildcard_iff pattern' text lacks = (
  matches_wildcard-Matches pattern' text,
  λ m.
      match_loop-Complete (length pattern' + length text + 1) (rounds pattern' text) pattern' text
        none tt lacks (omega arith) (enough_rounds pattern' text) (inl m),
)
