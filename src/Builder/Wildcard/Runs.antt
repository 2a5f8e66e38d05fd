-- ===== src/Builder/Wildcard/Runs.antt =====
-- The match behind a star while `matches_wildcard` goes on.
use kc_docker.Shared.{
  ℕ, zero, suc, ◌+◌, ◌-◌, ◌≤◌, true, false, none, some, [], ◌∷◌, ◌++◌, length, drop, Text, ◌==◌,
  ◌≡◌, refl, arith, inl, inr, ◌⊎◌, ap, sym, subst, ◌∙◌, append_assoc, length-append, drop-append,
}
use kc_docker.Shared.Splitting.{Lacks}
use kc_docker.Builder.Wildcard.{only_stars, fails, head_of, Star}
use kc_docker.Builder.Wildcard.Meaning.{Matches, done, one, no_more, one_more}

pub only_stars_complete : (p : Text) → Matches p [] → only_stars p ≡ true
unfolding only_stars
only_stars_complete _ done = refl
only_stars_complete _ (no_more p _ h) = only_stars_complete p h

-- A part of the pattern without a star takes one character for each of its own.
strip_part :
    (q p u : Text)
    → Lacks b'*' q
    → Matches (q ++ p) u
    → (length q ≤ length u) × Matches p (drop (length q) u)
strip_part [] p u h m = (omega arith, m)
strip_part (d ∷ q) p _ h (one _ c _ t e m) =
    let (le, rest) = strip_part q p t h.1 m in (omega (arith, le), rest)
strip_part (_ ∷ q) p u h (no_more _ _ m) = absurd (ground (arith, h.0))
strip_part (_ ∷ q) p _ h (one_more c _ t m) = absurd (ground (arith, h.0))

-- What follows a star matches behind some characters.
after_star : (p t : Text) → Matches (b'*' ∷ p) t → (k : ℕ) × Matches p (drop k t)
after_star p t (no_more _ _ m) = (0, m)
after_star p _ (one_more c _ t m) = let (k, rest) = after_star p t m in (suc k, rest)
after_star p _ (one _ c _ t e m) = (1, m)

pub extend : (k : ℕ) (p t : Text) → Matches (b'*' ∷ p) (drop k t) → Matches (b'*' ∷ p) t
extend zero p t m = m
extend (suc k) p [] m = m
extend (suc k) p (c ∷ t) m = one_more c p t (extend k p t m)

-- How far the match behind the last star has come: `q` of the pattern took `r` of the text, one
-- character for one character.
pub record IsRun (s mt p t : Text) : Type 0 where
  pub q : Text
  pub r : Text
  pub pattern_is : s ≡ q ++ p
  pub text_is : mt ≡ r ++ t
  pub same_length : length q ≡ length r
  pub plain : Lacks b'*' q

abbrev pub Runs : Star → Text → Text → Type 0
Runs none p t = Unit
Runs (some (s, mt)) p t = IsRun s mt p t × Lacks b'*' mt

pub drop_nil : (k n : ℕ) → drop {A = ℕ} k [] ≡ drop n []
drop_nil zero zero = refl
drop_nil zero (suc n) = refl
drop_nil (suc k) zero = refl
drop_nil (suc k) (suc n) = refl

drop-drop : (k n : ℕ) (t : Text) → drop n (drop k t) ≡ drop (k + n) t
drop-drop zero n t = ap (λ j. drop j t) (omega arith)
drop-drop (suc k) n [] = drop_nil n (suc k + n)
drop-drop (suc k) n (c ∷ t) =
    let e : suc k + n ≡ suc (k + n) = omega arith in rw e (drop-drop k n t)

-- A match behind the last star is one of the rest of the pattern further on in the rest of the text.
pub pull_back :
    (s mt p t : Text) → IsRun s mt p t → Matches (b'*' ∷ s) mt → (k : ℕ) × Matches p (drop k t)
pull_back s mt p t run m =
    let (k, found) = after_star s mt m in
    let whole = subst (λ x. Matches x (drop k mt)) run.pattern_is found in
    let (le, rest) = strip_part run.q p (drop k mt) run.plain whole in
    let moved = subst (λ x. Matches p x) (drop-drop k (length run.q) mt) rest in
    let placed = subst (λ x. Matches p (drop (k + length run.q) x)) run.text_is moved in
    let skipped = drop-append (k + length run.q) run.r t (omega (arith, run.same_length)) in
    (k + length run.q - length run.r, subst (λ x. Matches p x) skipped placed)

Lacks-snoc : (q : Text) (d : ℕ) → Lacks b'*' q → (d == b'*') ≡ false → Lacks b'*' (q ++ d ∷ [])
Lacks-snoc [] d h e = (e, tt)
Lacks-snoc (c ∷ q) d h e = (h.0, Lacks-snoc q d h.1 e)

-- The match that has come so far, if it goes on to the end.
pub whole_match : (s mt p t : Text) → IsRun s mt p t → Matches s mt → Matches p t
whole_match s mt p t run m =
    let whole = subst (λ x. Matches x mt) run.pattern_is m in
    let (le, rest) = strip_part run.q p mt run.plain whole in
    let placed = subst (λ x. Matches p (drop (length run.q) x)) run.text_is rest in
    let skipped = drop-append (length run.q) run.r t (omega (arith, run.same_length)) in
    let nothing : length run.q - length run.r ≡ 0 = omega (arith, run.same_length) in
    subst (λ n. Matches p (drop n t)) nothing (subst (λ x. Matches p x) skipped placed)

pub begins_later :
    (s : Text) (c : ℕ) (mt p t : Text)
    → ¬ Matches p t
    → IsRun s (c ∷ mt) p t
    → Matches (b'*' ∷ s) (c ∷ mt)
    → Matches s mt ⊎ Matches (b'*' ∷ s) mt
begins_later s c mt p t failed run (one _ _ _ _ e m) = inl m
begins_later s c mt p t failed run (no_more _ _ m) =
    absurd (failed (whole_match s (c ∷ mt) p t run m))
begins_later s c mt p t failed run (one_more _ _ _ m) = inr m

-- A round on: one character on both sides.
pub IsRun-next :
    (s mt p t : Text) (d c : ℕ) → (d == b'*') ≡ false → IsRun s mt (d ∷ p) (c ∷ t) → IsRun s mt p t
IsRun-next s mt p t d c e run = record {
  q = run.q ++ d ∷ [];
  r = run.r ++ c ∷ [];
  pattern_is = run.pattern_is ∙ sym (append_assoc run.q (d ∷ []) p);
  text_is = run.text_is ∙ sym (append_assoc run.r (c ∷ []) t);
  same_length =
      omega (arith, run.same_length, length-append run.q (d ∷ []), length-append run.r (c ∷ []));
  plain = Lacks-snoc run.q d run.plain e;
}

pub fails_no_match : (p : Text) (c : ℕ) (t : Text) → head_of p c ≡ fails → ¬ Matches p (c ∷ t)
fails_no_match _ c t e (one d _ p _ h m) = elim h [
  | inl any ↦ absurd (ground arith)
  | inr same ↦ absurd (ground arith)
]
fails_no_match _ c t e (no_more p _ m) = absurd (ground arith)
fails_no_match _ c t e (one_more _ p _ m) = absurd (ground arith)
