-- ===== src/Guardrails/Rotation/Laws.antt =====
-- Where each file stands after a rotation.
use kc_docker.Shared.{
  ℕ, zero, suc, ◌+◌, ◌-◌, ◌≤◌, ◌<◌, true, false, ◌&&◌, not, Option, none, some, List, [],
  if◌then◌else◌, length, ◌==◌, ltb, ◌≡◌, refl, arith, Bool-cases, Option-cases, inl, inr, ap, ◌∙◌,
}
use kc_docker.Guardrails.Rotation.{Files, rename, write, shift, rotate, rotate_if_needed}

abbrev pub or_else {ℓ} : {A : Type ℓ} → Option A → Option A → Option A
or_else none b = b
or_else (some a) b = some a

or_else-none : (a : Option (List ℕ)) → or_else a none ≡ a
or_else-none none = refl
or_else-none (some a) = refl

-- The backups `1 ..= n` each one further on; the last one replaces what stood there, if there is
-- one.
abbrev pub shifted : ℕ → Files → Files
shifted zero files k = files k
shifted (suc n) files k =
    if k == 1
    then none
    else if ltb k (n + 2) && not (k == 0)
    then files (k - 1)
    else if k == n + 2
    then or_else (files (n + 1)) (files (n + 2))
    else files k

-- One more round of the loop, where its file is missing and where it is moved.
shifted_absent :
    (n : ℕ) (files : Files) (k : ℕ)
    → files (suc (suc n)) ≡ none
    → shifted (suc n) files k ≡ shifted (suc (suc n)) files k
shifted_absent n files k absent = elim (Bool-cases (k == n + 2)) [
  | inl here ↦
      let e : k ≡ n + 2 = ground arith in
      let i : n + 2 - 1 ≡ n + 1 = omega arith in
      let j : n + 2 ≡ suc (suc n) = omega arith in
      let gone : files (n + 2) ≡ none = ap files j ∙ absent in
      let whole : or_else (files (n + 1)) none ≡ files (n + 1) = or_else-none (files (n + 1)) in
      rw e (rw i (ground (arith, gone, whole)))
  | inr other ↦ elim (Bool-cases (k == n + 3)) [
    | inl next ↦
        let e : k ≡ n + 3 = ground arith in
        let i : suc n + 1 ≡ suc (suc n) = omega arith in
        let j : suc n + 2 ≡ n + 3 = omega arith in rw e (rw (i, j) (rw absent (ground arith)))
    | inr far ↦ ground arith
  ]
]

shifted_moved :
    (n : ℕ) (files : Files) (k : ℕ) (content : List ℕ)
    → files (suc (suc n)) ≡ some content
    → shifted (suc n) (rename (suc (suc n)) (suc (suc n) + 1) files) k
      ≡ shifted (suc (suc n)) files k
shifted_moved n files k content there = elim (Bool-cases (k == n + 2)) [
  | inl here ↦
      let e : k ≡ n + 2 = ground arith in
      let i : n + 2 - 1 ≡ n + 1 = omega arith in
      let whole : or_else (files (n + 1)) none ≡ files (n + 1) = or_else-none (files (n + 1)) in
      rw e (rw i (ground (arith, whole)))
  | inr other ↦ elim (Bool-cases (k == n + 3)) [
    | inl next ↦
        let e : k ≡ n + 3 = ground arith in
        let i : suc n + 1 ≡ suc (suc n) = omega arith in rw e (rw i (rw there (ground arith)))
    | inr far ↦ ground arith
  ]
]

shift-shifted : (n : ℕ) (files : Files) (k : ℕ) → shift n files k ≡ shifted n files k
unfolding shift
shift-shifted zero files k = refl
shift-shifted (suc zero) files k = elim (Option-cases (files 1)) [
  | inl absent ↦ rw absent (ground arith)
  | inr (content, there) ↦ rw there (ground arith)
]
shift-shifted (suc (suc n)) files k = elim (Option-cases (files (suc (suc n)))) [
  | inl absent ↦ rw absent (shift-shifted (suc n) files k ∙ shifted_absent n files k absent)
  | inr (content, there) ↦ rw there (
      shift-shifted (suc n) (rename (suc (suc n)) (suc (suc n) + 1) files) k
      ∙ shifted_moved n files k content there)
]

-- What a rotation with `n + 1` backups leaves.
pub record IsRotated (n : ℕ) (before after : Files) : Type 0 where
  pub fresh : after 0 ≡ some []
  pub first : after 1 ≡ before 0
  pub later : (i : ℕ) → 0 < i → i < n → after (i + 1) ≡ before i
  pub last : 0 < n → after (n + 1) ≡ or_else (before n) (before (n + 1))
  pub beyond : (i : ℕ) → n + 1 < i → after i ≡ before i

shifted_log : (n : ℕ) (files : Files) → shifted n files 0 ≡ files 0
shifted_log zero files = refl
shifted_log (suc n) files = ground arith

shifted_later : (n : ℕ) (files : Files) (i : ℕ) → 0 < i → i < n → shifted n files (i + 1) ≡ files i
shifted_later zero files i low high = absurd (omega arith)
shifted_later (suc n) files i low high =
    let e : i + 1 - 1 ≡ i = omega arith in
    let a : (i + 1 == 1) ≡ false = ground arith in
    let b : ltb (i + 1) (n + 2) ≡ true = ground arith in
    let c : (i + 1 == 0) ≡ false = ground arith in rw (a, b, c) (rw e refl)

shifted_last :
    (n : ℕ) (files : Files) → 0 < n → shifted n files (n + 1) ≡ or_else (files n) (files (n + 1))
shifted_last zero files low = absurd (omega arith)
shifted_last (suc n) files low =
    let i : suc n + 1 ≡ n + 2 = omega arith in
    let j : suc n ≡ n + 1 = omega arith in rw i (rw j (ground arith))

shifted_beyond : (n : ℕ) (files : Files) (i : ℕ) → n + 1 < i → shifted n files i ≡ files i
shifted_beyond zero files i far = refl
shifted_beyond (suc n) files i far = ground arith

after_first : (files : Files) (k : ℕ) → 1 < k → write 0 [] (rename 0 1 files) k ≡ files k
after_first files k h = ground arith

rotate-IsRotated : (n : ℕ) (files : Files) → IsRotated n files (rotate (suc n) files)
rotate-IsRotated n files = record {
  fresh = refl;
  first = shift-shifted n files 0 ∙ shifted_log n files;
  later = λ i low high.
      after_first (shift n files) (i + 1) (omega arith)
      ∙ (shift-shifted n files (i + 1) ∙ shifted_later n files i low high);
  last = λ low.
      after_first (shift n files) (n + 1) (omega arith)
      ∙ (shift-shifted n files (n + 1) ∙ shifted_last n files low);
  beyond = λ i far.
      after_first (shift n files) i (omega arith)
      ∙ (shift-shifted n files i ∙ shifted_beyond n files i far);
}

-- A log of at least `max_bytes` bytes becomes the first backup and is started anew; the backups
-- move one further on, the last one taking the place of one that is there, and no other file
-- changes.
pub rotate_if_needed-IsRotated :
    (max_bytes n : ℕ) (files : Files) (content : List ℕ)
    → files 0 ≡ some content
    → max_bytes ≤ length content
    → ((rotate_if_needed max_bytes (suc n) files).0 ≡ true)
      × IsRotated n files (rotate_if_needed max_bytes (suc n) files).1
unfolding rotate_if_needed
rotate_if_needed-IsRotated max_bytes n files content there full =
    let big : ltb (length content) max_bytes ≡ false = ground arith in
    rw (there, rotate_if_needed) (rw big (refl, rotate-IsRotated n files))
