-- ===== src/UserNet/Packets/Checksum/Internet.antt =====
-- The Internet checksum as RFC 1071 defines it, and that `compute_checksum` computes it: the code
-- adds the words in 32 bits and folds the carries at the end.
use kc_docker.Shared.{
  ℕ, ◌+◌, ◌-◌, ◌<◌, List, [], ◌∷◌, ◌≡◌, refl, arith, ltb, if◌then◌else◌, be16, Bool-cases, inl, inr,
  IsBytes, ◌∙◌, ap, subst,
}
use kc_docker.UserNet.Packets.Checksum.{compute_checksum}
use kc_docker.UserNet.Packets.Checksum.Verify.{total, IsFolded, IsSegment, checksum_of_total}

-- The data as 16-bit words, a zero byte behind a last odd one.
abbrev pub words : List ℕ → List ℕ
words [] = []
words (b ∷ []) = be16 b 0 ∷ []
words (b ∷ c ∷ rest) = be16 b c ∷ words rest

-- One's complement addition: the carry out of 16 bits is added at the low end.
abbrev pub ones_add : ℕ → ℕ → ℕ
ones_add a b = if ltb (a + b) 65536 then a + b else a + b - 65535

abbrev pub ones_sum : List ℕ → ℕ
ones_sum [] = 0
ones_sum (w ∷ ws) = ones_add w (ones_sum ws)

ones_add-IsFolded :
    (w sum f : ℕ)
    → w < 65536
    → IsFolded sum f
    → f < 65536
    → IsFolded (w + sum) (ones_add w f) × (ones_add w f < 65536)
ones_add-IsFolded w sum f small h lt = elim (Bool-cases (ltb (w + f) 65536)) [
  | inl fits ↦ rw fits (
    record {
      moved = h.moved;
      residue = omega (arith, h.residue);
      positive = λ p. elim (Bool-cases (ltb 0 sum)) [
        | inl some_sum ↦ let q = h.positive (ground arith) in omega arith
        | inr no_sum ↦ ground (arith, h.residue)
      ];
    },
    ground arith,
  )
  | inr carry ↦ rw carry (
    record {
      moved = h.moved + 1;
      residue = ground (arith, h.residue);
      positive = λ p. ground arith;
    },
    ground arith,
  )
]

ones_sum-IsFolded :
    (bytes : List ℕ)
    → IsBytes bytes
    → IsFolded (total bytes) (ones_sum (words bytes)) × (ones_sum (words bytes) < 65536)
unfolding total
ones_sum-IsFolded [] h = (record { moved = 0; residue = refl; positive = λ p. p }, omega arith)
ones_sum-IsFolded (b ∷ []) h =
    subst (λ t. IsFolded t (ones_add (be16 b 0) 0) × (ones_add (be16 b 0) 0 < 65536))
      {x = be16 b 0 + 0} (omega arith)
      (ones_add-IsFolded (be16 b 0) 0 0 (omega arith) nothing (omega arith))
  where
    nothing : IsFolded 0 0
    nothing = record { moved = 0; residue = refl; positive = λ p. p }
ones_sum-IsFolded (b ∷ c ∷ rest) h =
    let (folded, small) = ones_sum-IsFolded rest h.1.1 in
    ones_add-IsFolded (be16 b c) (total rest) (ones_sum (words rest)) (omega arith) folded small

-- Only one number below 2^16 is left of a sum.
folded_once : (sum f g : ℕ) → IsFolded sum f → IsFolded sum g → f < 65536 → g < 65536 → f ≡ g
folded_once sum f g hf hg lf lg = elim (Bool-cases (ltb 0 sum)) [
  | inl some_sum ↦
      let (pf, pg) : (0 < f) × (0 < g) = (hf.positive (ground arith), hg.positive (ground arith)) in
      omega (arith, hf.residue, hg.residue)
  | inr no_sum ↦ ground (arith, hf.residue, hg.residue)
]

-- On up to 131070 bytes `compute_checksum` is the complement of the one's complement sum of the
-- data's 16-bit words, where a last odd byte is the high half of a word.
pub compute_checksum-ones_sum :
    (bytes : List ℕ) → IsSegment bytes → compute_checksum bytes ≡ 65535 - ones_sum (words bytes)
compute_checksum-ones_sum bytes h =
    let (f, is, lt, folded) = checksum_of_total bytes h in
    let (g, small) = ones_sum-IsFolded bytes h.0 in
    is
    ∙ ap (λ k. 65535 - k) (folded_once (total bytes) f (ones_sum (words bytes)) folded g lt small)
