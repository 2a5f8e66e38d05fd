-- ===== src/Builder/Wildcard.antt =====
-- `matches_wildcard`, src/builder/dockerignore.rs. The indexes `p`, `t` and `match_idx` are the
-- rests of the pattern and of the text from there on.
pub mod Meaning
pub mod Runs
pub mod Completeness
use kc_docker.Shared.{
  ℕ, zero, suc, ◌+◌, ◌*◌, Bool, true, false, ◌||◌, ◌&&◌, Option, none, some, [], ◌∷◌, if◌then◌else◌,
  length, Text, ◌==◌,
}

-- The loop over the stars that are left, and the last test.
unfoldable pub only_stars : Text → Bool
only_stars [] = true
only_stars (d ∷ p) = d == b'*' && only_stars p

-- What the head of the pattern is to the next character.
pub data Head : Type 0 where
  fits star fails : Head

abbrev pub head_of : Text → ℕ → Head
head_of [] c = fails
head_of (d ∷ p) c = if d == b'?' || d == c then fits else if d == b'*' then star else fails

abbrev pub rest_of : Text → Text
rest_of [] = []
rest_of (d ∷ p) = p

-- `star` with `match_idx`: the pattern behind the last star, and where its match begins.
abbrev pub Star : Type 0
Star = Option (Text × Text)

-- A character more for the last star.
abbrev pub retry : (Text → Text → Star → Bool) → Star → Bool
retry next none = false
retry next (some (s, [])) = false
retry next (some (s, m ∷ mt)) = next s mt (some (s, mt))

-- One round on a text that is not at its end.
abbrev pub act : (Text → Text → Star → Bool) → Text → ℕ → Text → Star → Head → Bool
act next p c t last fits = next (rest_of p) t last
act next p c t last star = next (rest_of p) (c ∷ t) (some (rest_of p, c ∷ t))
act next p c t last fails = retry next last

unfoldable pub match_loop : ℕ → Text → Text → Star → Bool
match_loop zero p t last = false
match_loop (suc fuel) p [] last = only_stars p
match_loop (suc fuel) p (c ∷ t) last = act (match_loop fuel) p c t last (head_of p c)

-- Enough rounds: each character of the text begins at most one match of what follows a star.
abbrev pub rounds : Text → Text → ℕ
rounds pattern' text = (length text + 2) * (length pattern' + length text + 1)

unfoldable pub matches_wildcard : Text → Text → Bool
matches_wildcard pattern' text = match_loop (rounds pattern' text) pattern' text none
