-- ===== src/Storage/Images/Spelling.antt =====
-- Which texts name one image, and that `refs_equivalent` tells it.
use kc_docker.Shared.{
  true, false, Option, none, some, ◌≡◌, ◌↔◌, refl, arith, Text, [], text_eq, text_eq_iff, trim,
  is_empty, Bool-cases, Option-cases, inl, inr, ap, sym, ◌∷◌,
}
use kc_docker.Oci.Reference.{ImageReference, parse}
use kc_docker.Storage.Images.{refs_equivalent, same_digest}

-- The image that a text names: the one of a digest, or the one of a registry, a repository and a
-- tag; a blank text names none.
pub data ImageName : Type 0 where
  unnamed : ImageName
  pinned : Text → ImageName
  tagged : Text → Text → Text → ImageName

abbrev pub by_digest_or : ImageReference → Option Text → ImageName
by_digest_or r (some digest) = pinned digest
by_digest_or r none = tagged r.registry r.repository r.tag

abbrev pub named_by : Option ImageReference → ImageName
named_by none = unnamed
named_by (some r) = by_digest_or r r.digest

abbrev pub image_named : Text → ImageName
image_named s = named_by (parse s)

abbrev digest_of : ImageName → Text
digest_of unnamed = []
digest_of (pinned d) = d
digest_of (tagged g r t) = []

abbrev parts_of : ImageName → Text × Text × Text
parts_of unnamed = ([], [], [])
parts_of (pinned d) = ([], [], [])
parts_of (tagged g r t) = (g, r, t)

same_digest_iff :
    (ra rb : ImageReference) (da db : Option Text)
    → (same_digest ra rb da db ≡ true) ↔ (by_digest_or ra da ≡ by_digest_or rb db)
same_digest_iff ra rb (some da) (some db) =
    (λ h. ap pinned ((text_eq_iff da db).0 h), λ e. (text_eq_iff da db).1 (ap digest_of e))
same_digest_iff ra rb (some da) none = (λ h. absurd (ground arith), λ e. absurd (ground arith))
same_digest_iff ra rb none (some db) = (λ h. absurd (ground arith), λ e. absurd (ground arith))
same_digest_iff ra rb none none = (
  λ h.
      rw
        (
          (text_eq_iff ra.registry rb.registry).0 (ground arith),
          (text_eq_iff ra.repository rb.repository).0 (ground arith),
          (text_eq_iff ra.tag rb.tag).0 (ground arith),
        )
        refl,
  λ e.
      rw
        (
          (text_eq_iff ra.registry rb.registry).1 (ap (λ n. (parts_of n).0) e),
          (text_eq_iff ra.repository rb.repository).1 (ap (λ n. (parts_of n).1) e),
          (text_eq_iff ra.tag rb.tag).1 (ap (λ n. (parts_of n).2) e),
        )
        refl,
)

by_digest-not_unnamed : (r : ImageReference) (d : Option Text) → ¬ (by_digest_or r d ≡ unnamed)
by_digest-not_unnamed r (some d) e = absurd (ground arith)
by_digest-not_unnamed r none e = absurd (ground arith)

blank_unparsed : (s : Text) → parse s ≡ none → is_empty (trim s) ≡ true
unfolding parse
blank_unparsed s e = elim (Bool-cases (is_empty (trim s))) [
  | inl blank ↦ blank
  | inr filled ↦ absurd (ground arith)
]

filled_parsed : (s : Text) {r : ImageReference} → parse s ≡ some r → is_empty (trim s) ≡ false
unfolding parse
filled_parsed s e = elim (Bool-cases (is_empty (trim s))) [
  | inl blank ↦ absurd (ground arith)
  | inr filled ↦ filled
]

blank_same : (s t : Text) → is_empty s ≡ true → is_empty t ≡ true → text_eq s t ≡ true
unfolding text_eq
blank_same [] [] h k = refl
blank_same [] (c ∷ t) h k = absurd (ground arith)
blank_same (c ∷ s) t h k = absurd (ground arith)

blank_apart : (s t : Text) → is_empty s ≡ true → is_empty t ≡ false → text_eq s t ≡ false
unfolding text_eq
blank_apart [] [] h k = absurd (ground arith)
blank_apart [] (c ∷ t) h k = refl
blank_apart (c ∷ s) t h k = absurd (ground arith)

-- `refs_equivalent` holds exactly of the texts that name the same image, so it is an equivalence
-- relation on all texts.
pub refs_equivalent_iff :
    (a b : Text) → (refs_equivalent a b ≡ true) ↔ (image_named a ≡ image_named b)
unfolding refs_equivalent
refs_equivalent_iff a b = elim (Option-cases (parse a)) [
  | inl na ↦ elim (Option-cases (parse b)) [
    | inl nb ↦
        rw (na, nb)
          (λ h. refl, λ e. blank_same (trim a) (trim b) (blank_unparsed a na) (blank_unparsed b nb))
    | inr (rb, pb) ↦
        let apart = blank_apart (trim a) (trim b) (blank_unparsed a na) (filled_parsed b pb) in
        rw (na, pb)
          (λ h. absurd (ground arith), λ e. absurd (by_digest-not_unnamed rb rb.digest (sym e)))
  ]
  | inr (ra, pa) ↦ elim (Option-cases (parse b)) [
    | inl nb ↦
        let apart = blank_apart (trim b) (trim a) (blank_unparsed b nb) (filled_parsed a pa) in
        rw (pa, nb)
          (
            λ h.
                absurd
                  (ground (arith, text_eq_iff (trim a) (trim b), text_eq_iff (trim b) (trim a))),
            λ e. absurd (by_digest-not_unnamed ra ra.digest e),
          )
    | inr (rb, pb) ↦ rw (pa, pb) (same_digest_iff ra rb ra.digest rb.digest)
  ]
]
