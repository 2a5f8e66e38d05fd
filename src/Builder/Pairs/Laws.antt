-- ===== src/Builder/Pairs/Laws.antt =====
-- The loop of `parse_key_value_pairs`: how much of the text each round reads.
use kc_docker.Shared.{
  ℕ, zero, suc, ◌≤◌, ◌<◌, Bool, true, false, ◌||◌, ◌&&◌, not, [], ◌∷◌, length, Text, ◌==◌,
  is_whitespace, is_empty, trim_start, contains_char, Option, some, List, if◌then◌else◌, ◌≡◌, refl,
  arith, Bool-cases, inl, inr, ◌⊎◌, subst, ◌∙◌,
}
use kc_docker.Builder.Pairs.{
  push, read_key, read_plain, read_quoted, read_value, skip_equals, read_pair, keep_pair,
  read_pairs, spaced_pair, parse_key_value_pairs,
}

length-trim_start : (s : Text) → length (trim_start s) ≤ length s
unfolding trim_start
length-trim_start [] = omega arith
length-trim_start (c ∷ s) = elim (Bool-cases (is_whitespace c)) [
  | inl blank ↦ rw blank (let ih = length-trim_start s in omega (arith, ih))
  | inr solid ↦ rw solid (omega arith)
]

-- A trimmed text is empty or starts with another character than whitespace.
trim_start-cases :
    (s : Text)
    → (trim_start s ≡ [])
      ⊎ ((c : ℕ) × (t : Text) × (trim_start s ≡ c ∷ t) × (is_whitespace c ≡ false))
unfolding trim_start
trim_start-cases [] = inl refl
trim_start-cases (c ∷ s) = elim (Bool-cases (is_whitespace c)) [
  | inl blank ↦ rw blank (trim_start-cases s)
  | inr solid ↦ rw solid (inr (c, s, refl, solid))
]

pub trim_start_nil : trim_start [] ≡ []
unfolding trim_start
trim_start_nil = refl

pub trim_start_solid : (c : ℕ) (s : Text) → is_whitespace c ≡ false → trim_start (c ∷ s) ≡ c ∷ s
unfolding trim_start
trim_start_solid c s h = rw h refl

length-read_key : (s : Text) → length (read_key s).1 ≤ length s
unfolding read_key
length-read_key [] = omega arith
length-read_key (c ∷ s) = elim (Bool-cases (c == b'=' || is_whitespace c)) [
  | inl stop ↦ rw stop (omega arith)
  | inr go ↦ rw go (let ih = length-read_key s in omega (arith, ih))
]

length-read_plain : (s : Text) → length (read_plain s).1 ≤ length s
unfolding read_plain
length-read_plain [] = omega arith
length-read_plain (c ∷ s) = elim (Bool-cases (is_whitespace c)) [
  | inl stop ↦ rw stop (omega arith)
  | inr go ↦ rw go (let ih = length-read_plain s in omega (arith, ih))
]

length-read_quoted :
    (quote : ℕ) (escaped : Bool) (s : Text) → length (read_quoted quote escaped s).1 ≤ length s
unfolding read_quoted
length-read_quoted quote escaped [] = omega arith
length-read_quoted quote escaped (c ∷ s) =
    let starts = not escaped && (c == 92 && not (is_empty s)) in
    let after_slash = length-read_quoted quote true s in
    let after_plain = length-read_quoted quote false s in
    elim (Bool-cases (not escaped && c == quote)) [
      | inl stop ↦ rw stop (omega arith)
      | inr go ↦ rw go (elim (Bool-cases starts) [
        | inl slash ↦ rw slash (omega (arith, after_slash))
        | inr plain ↦ rw plain (omega (arith, after_plain))
      ])
    ]

length-read_value : (s : Text) → length (read_value s).1 ≤ length s
unfolding read_value
length-read_value [] = omega arith
length-read_value (c ∷ s) = elim (Bool-cases (c == 34 || c == 39)) [
  | inl quoted ↦ rw quoted (let le = length-read_quoted c false s in omega (arith, le))
  | inr plain ↦ rw plain (length-read_plain (c ∷ s))
]

length-skip_equals : (s : Text) → length (skip_equals s) ≤ length s
length-skip_equals [] = omega arith
length-skip_equals (c ∷ s) = elim (Bool-cases (c == b'=')) [
  | inl here ↦ rw here (omega arith)
  | inr other ↦ rw other (omega arith)
]

read_key_stop :
    (c : ℕ) (s : Text) → (c == b'=' || is_whitespace c) ≡ true → read_key (c ∷ s) ≡ ([], c ∷ s)
unfolding read_key
read_key_stop c s h = rw h refl

read_key_go :
    (c : ℕ) (s : Text)
    → (c == b'=' || is_whitespace c) ≡ false
    → read_key (c ∷ s) ≡ push c (read_key s)
unfolding read_key
read_key_go c s h = rw h refl

-- A round of the loop consumes a character: the key's first one or the `=`.
read_pair_shorter :
    (c : ℕ) (s : Text) → is_whitespace c ≡ false → length (read_pair (c ∷ s)).2 < length (c ∷ s)
unfolding read_pair
read_pair_shorter c s solid = elim (Bool-cases (c == b'=')) [
  | inl equals ↦
      let word : read_key (c ∷ s) ≡ ([], c ∷ s) = read_key_stop c s (ground arith) in
      rw word (
        rw (trim_start_solid c s solid) (
          rw equals (
            let v = length-read_value (trim_start s) in
            let t = length-trim_start s in omega (arith, v, t))))
  | inr other ↦
      let word : read_key (c ∷ s) ≡ push c (read_key s) = read_key_go c s (ground arith) in
      rw word (
        let k = length-read_key s in
        let t = length-trim_start (read_key s).1 in
        let e = length-skip_equals (trim_start (read_key s).1) in
        let u = length-trim_start (skip_equals (trim_start (read_key s).1)) in
        let v = length-read_value (trim_start (skip_equals (trim_start (read_key s).1))) in
        omega (arith, k, t, e, u, v))
]

pub read_pairs_step :
    (fuel : ℕ) (s : Text) (c : ℕ) (t : Text)
    → trim_start s ≡ c ∷ t
    → read_pairs (suc fuel) s
      ≡ keep_pair
          (read_pair (c ∷ t)).0
          (read_pair (c ∷ t)).1
          (read_pairs fuel (read_pair (c ∷ t)).2)
unfolding read_pairs
read_pairs_step fuel s c t e = rw e refl

pub read_pairs_end : (fuel : ℕ) (s : Text) → trim_start s ≡ [] → read_pairs fuel s ≡ some []
unfolding read_pairs
read_pairs_end zero s e = rw e refl
read_pairs_end (suc fuel) s e = rw e refl

keep_pair_ends :
    (key value : Text) (m : Option (List (Text × Text))) {pairs : List (Text × Text)}
    → m ≡ some pairs
    → (kept : List (Text × Text)) × (keep_pair key value m ≡ some kept)
keep_pair_ends key value m {pairs} e =
    (if is_empty key then pairs else (key, value) ∷ pairs, rw e refl)

-- As many rounds as there are characters are enough: each round shortens the text.
read_pairs_ends :
    (fuel : ℕ) (s : Text)
    → length s ≤ fuel
    → (pairs : List (Text × Text)) × (read_pairs fuel s ≡ some pairs)
read_pairs_ends zero [] h = ([], read_pairs_end zero [] trim_start_nil)
read_pairs_ends zero (c ∷ s) h = absurd (omega arith)
read_pairs_ends (suc fuel) s h = elim (trim_start-cases s) [
  | inl blank ↦ ([], read_pairs_end (suc fuel) s blank)
  | inr (c, t, e, solid) ↦
      let shorter : length (read_pair (c ∷ t)).2 < length (c ∷ t) = read_pair_shorter c t solid in
      let trimmed : length (c ∷ t) ≤ length s =
        subst (λ l. length l ≤ length s) e (length-trim_start s) in
      let ih = read_pairs_ends fuel (read_pair (c ∷ t)).2 (omega arith) in
      let kept =
        keep_pair_ends (read_pair (c ∷ t)).0 (read_pair (c ∷ t)).1
          (read_pairs fuel (read_pair (c ∷ t)).2) ih.1 in
      (kept.0, read_pairs_step fuel s c t e ∙ kept.1)
]

-- `parse_key_value_pairs` returns on every text: its loop over the pairs ends within as many rounds
-- as the text has characters.
pub parse_key_value_pairs_ends :
    (rest : Text) → (pairs : List (Text × Text)) × (parse_key_value_pairs rest ≡ some pairs)
unfolding parse_key_value_pairs
parse_key_value_pairs_ends rest = elim (Bool-cases (contains_char rest b'=')) [
  | inl equals ↦ rw equals (read_pairs_ends (length rest) rest (omega arith))
  | inr spaced ↦ rw spaced (spaced_pair rest, refl)
]
