-- ===== src/UserNet/Packets/Checksum/Verify.antt =====
-- `compute_checksum` as a one's complement sum, and the receiver's test.
use kc_docker.Shared.{
  ℕ, zero, suc, ◌+◌, ◌-◌, ◌*◌, ◌^◌, ◌≤◌, ◌<◌, List, [], ◌∷◌, ◌++◌, ◌≡◌, refl, arith, ltb, length,
  u32, be16, shr, low_bits, to_be16, IsByte, IsBytes, IsWord, Bool-cases, inl, inr, length-append,
  All-append,
}
use kc_docker.UserNet.Packets.Checksum.{sum_words, fold_carries, compute_checksum}

-- On every u32 the folding loop has ended by its own test after three rounds.
pub fold_carries_done : (sum : ℕ) → sum < 2 ^ 32 → fold_carries 3 sum < 65536
unfolding fold_carries
fold_carries_done sum h = ground arith

-- A round moves a multiple of 65535, and never reaches zero from elsewhere.
pub record IsFolded (sum folded : ℕ) : Type 0 where
  pub moved : ℕ
  pub residue : sum ≡ folded + 65535 * moved
  pub positive : 0 < sum → 0 < folded

pub fold_carries-IsFolded : (fuel sum : ℕ) → IsFolded sum (fold_carries fuel sum)
unfolding fold_carries
fold_carries-IsFolded zero sum = record { moved = 0; residue = omega arith; positive = λ h. h }
fold_carries-IsFolded (suc fuel) sum = elim (Bool-cases (ltb 0 (shr sum 16))) [
  | inl more ↦
      let ih = fold_carries-IsFolded fuel (low_bits sum 16 + shr sum 16) in
      rw more (record {
        moved = ih.moved + shr sum 16;
        residue = omega (arith, ih.residue);
        positive = λ h. ih.positive (omega arith);
      })
  | inr done ↦ rw done (record { moved = 0; residue = omega arith; positive = λ h. h })
]

-- The sum of the words with no wrap-around.
unfoldable pub total : List ℕ → ℕ
total [] = 0
total (b ∷ []) = b * 256
total (b ∷ c ∷ rest) = be16 b c + total rest

sum_words-eq-total :
    (sum : ℕ) (bytes : List ℕ)
    → sum + total bytes < 2 ^ 32
    → sum_words sum bytes ≡ sum + total bytes
unfolding sum_words total
sum_words-eq-total sum [] h = omega arith
sum_words-eq-total sum (b ∷ []) h = omega arith
sum_words-eq-total sum (b ∷ c ∷ rest) h =
    let step : u32 (sum + be16 b c) ≡ sum + be16 b c = omega arith in
    rw step (omega (arith, sum_words-eq-total (sum + be16 b c) rest (omega arith)))

-- Up to 131070 bytes the u32 accumulator cannot wrap.
pub total-le : (bytes : List ℕ) → IsBytes bytes → total bytes ≤ 32768 * (length bytes + 1)
unfolding total
total-le [] h = omega arith
total-le (b ∷ []) h = omega arith
total-le (b ∷ c ∷ rest) h = omega (arith, total-le rest h.1.1)

abbrev pub IsSegment : List ℕ → Type 0
IsSegment bytes = IsBytes bytes × (length bytes < 131071)

abbrev pub HasEvenLength : List ℕ → Type 0
HasEvenLength [] = Unit
HasEvenLength (b ∷ []) = ⊥
HasEvenLength (b ∷ c ∷ rest) = HasEvenLength rest

total-append :
    (front back : List ℕ) → HasEvenLength front → total (front ++ back) ≡ total front + total back
unfolding total
total-append [] back h = omega arith
total-append (b ∷ []) back h = absurd h
total-append (b ∷ c ∷ rest) back h = omega (arith, total-append rest back h)

-- What the function returns, in terms of the exact sum.
pub checksum_of_total :
    (bytes : List ℕ)
    → IsSegment bytes
    → (f : ℕ) × (compute_checksum bytes ≡ 65535 - f) × (f < 65536) × IsFolded (total bytes) f
unfolding compute_checksum
checksum_of_total bytes (h, n) =
    let small : total bytes < 2 ^ 32 = omega (arith, total-le bytes h) in
    let exact : sum_words 0 bytes ≡ total bytes =
      omega (arith, sum_words-eq-total 0 bytes (omega arith)) in
    let f = fold_carries 3 (total bytes) in
    (
      f,
      rw exact (omega (arith, fold_carries_done (total bytes) small)),
      fold_carries_done (total bytes) small,
      fold_carries-IsFolded 3 (total bytes),
    )

total_pair : (b c : ℕ) (back : List ℕ) → total (b ∷ c ∷ back) ≡ be16 b c + total back
unfolding total
total_pair b c back = refl

total_stored : (c : ℕ) (back : List ℕ) → IsWord c → total (to_be16 c ++ back) ≡ c + total back
unfolding total
total_stored c back h = omega arith

IsBytes-tail : (front back : List ℕ) → IsBytes (front ++ back) → IsBytes front × IsBytes back
IsBytes-tail [] back h = (tt, h)
IsBytes-tail (b ∷ front) back h = let ih = IsBytes-tail front back h.1 in ((h.0, ih.0), ih.1)

IsSegment-stored :
    (front back : List ℕ) (c : ℕ)
    → IsSegment (front ++ 0 ∷ 0 ∷ back)
    → IsSegment (front ++ (to_be16 c ++ back))
IsSegment-stored front back c (h, n) =
    let (a, b) = IsBytes-tail front (0 ∷ 0 ∷ back) h in
    (
      All-append IsByte front (to_be16 c ++ back) a (omega arith, (omega arith, b.1.1)),
      omega (arith, length-append front (0 ∷ 0 ∷ back), length-append front (to_be16 c ++ back)),
    )

-- With the checksum of the zeroed data stored at an even offset, the data's checksum is zero:
-- the test that a receiver makes.
pub checksum_verifies :
    (front back : List ℕ)
    → HasEvenLength front
    → IsSegment (front ++ 0 ∷ 0 ∷ back)
    → compute_checksum (front ++ (to_be16 (compute_checksum (front ++ 0 ∷ 0 ∷ back)) ++ back)) ≡ 0
checksum_verifies front back even seg =
    let zeroed = front ++ 0 ∷ 0 ∷ back in
    let c = compute_checksum zeroed in
    let stored = front ++ (to_be16 c ++ back) in
    let (f, c_is, f_lt, folded) = checksum_of_total zeroed seg in
    let (g, d_is, g_lt, refolded) = checksum_of_total stored (IsSegment-stored front back c seg) in
    let before : total zeroed ≡ total front + total back =
      omega (arith, total-append front (0 ∷ 0 ∷ back) even, total_pair 0 0 back) in
    let after : total stored ≡ total front + (c + total back) =
      omega
        (arith, total-append front (to_be16 c ++ back) even, total_stored c back (omega arith)) in
    omega (arith, folded.residue, refolded.residue, refolded.positive)

pub compute_checksum-IsWord : (bytes : List ℕ) → IsWord (compute_checksum bytes)
unfolding compute_checksum
compute_checksum-IsWord bytes = omega arith
