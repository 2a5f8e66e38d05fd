-- ===== src/Storage/Images/Rootfs.antt =====
-- Where the images have their root file systems, and that the clean-up of one spares the others.
use kc_docker.Shared.{
  Bool, true, false, some, List, [], ◌∷◌, ◌++◌, ◌≡◌, ◌≢◌, refl, arith, Text, codes, text_eq,
  text_eq_iff, text_eq_refl, starts_with, rsplit_once, Bool-cases, inl, inr, ap, sym, subst,
  append_assoc, append-nil, not, ◌&&◌,
}
use kc_docker.Shared.Search.{starts_with-append, starts_with_cancel, text_eq_cancel}
use kc_docker.Shared.Splitting.{Lacks, rsplit_once-append}
use kc_docker.Shared.Maps.{contains}
use kc_docker.Storage.Images.Store.{is_within, remove_dir_all, clean_up}

abbrev pub images_dir : Text → Text
images_dir home = home ++ codes "/images/"

-- `home.join("images").join(id).join("rootfs")`, as pull, build and commit lay it out.
abbrev pub rootfs_of : Text → Text → Text
rootfs_of home id = images_dir home ++ (id ++ codes "/rootfs")

-- Up to the first slash both texts are the same.
same_first :
    (a b t u : Text)
    → Lacks b'/' a
    → Lacks b'/' b
    → starts_with (b ++ b'/' ∷ t) (a ++ b'/' ∷ u) ≡ true
    → a ≡ b
unfolding starts_with
same_first [] [] t u ha hb h = refl
same_first [] (d ∷ b) t u ha hb h = absurd (ground (arith, hb.0))
same_first (c ∷ a) [] t u ha hb h = absurd (ground (arith, ha.0))
same_first (c ∷ a) (d ∷ b) t u ha hb h =
    let same : c ≡ d = ground arith in
    rw same (ap (◌∷◌ d) (same_first a b t u ha.1 hb.1 (ground arith)))

lacks_slash : (b t : Text) → Lacks b'/' (b ++ b'/' ∷ t) → ⊥
lacks_slash [] t h = absurd (ground (arith, h.0))
lacks_slash (c ∷ b) t h = lacks_slash b t h.1

module _ (p a b : Text) (ha : Lacks b'/' a) (hb : Lacks b'/' b) where
  -- The root file system of `b` lies in the directory of `a` only if they are one.
  pub within_image : is_within (p ++ a) (p ++ (b ++ codes "/rootfs")) ≡ true → a ≡ b
  within_image h =
      let below : starts_with (p ++ (b ++ codes "/rootfs")) ((p ++ a) ++ codes "/")
          ≡ starts_with (b ++ codes "/rootfs") (a ++ codes "/") =
        rw (append_assoc p a (codes "/"))
          (starts_with_cancel p (b ++ codes "/rootfs") (a ++ codes "/")) in
      elim (Bool-cases (text_eq (b ++ codes "/rootfs") a)) [
        | inl same ↦
            let e = (text_eq_iff (b ++ codes "/rootfs") a).0 same in
            absurd (lacks_slash b (codes "rootfs") (subst (Lacks b'/') (sym e) ha))
        | inr other ↦
            same_first a b (codes "rootfs") [] ha hb
              (ground (arith, h, below, text_eq_cancel p (b ++ codes "/rootfs") a))
      ]

  pub within_rootfs :
      is_within (p ++ (a ++ codes "/rootfs")) (p ++ (b ++ codes "/rootfs")) ≡ true → a ≡ b
  within_rootfs h =
      let below : starts_with (p ++ (b ++ codes "/rootfs"))
            ((p ++ (a ++ codes "/rootfs")) ++ codes "/")
          ≡ starts_with (b ++ codes "/rootfs") (a ++ codes "/rootfs/") =
        rw
          (
            append_assoc p (a ++ codes "/rootfs") (codes "/"),
            append_assoc a (codes "/rootfs") (codes "/"),
          )
          (starts_with_cancel p (b ++ codes "/rootfs") (a ++ codes "/rootfs/")) in
      elim (Bool-cases (text_eq (b ++ codes "/rootfs") (a ++ codes "/rootfs"))) [
        | inl same ↦
            let e = (text_eq_iff (b ++ codes "/rootfs") (a ++ codes "/rootfs")).0 same in
            same_first a b (codes "rootfs") (codes "rootfs") ha hb (
              rw e (
                subst (λ r. starts_with r (a ++ codes "/rootfs") ≡ true)
                  (append-nil (a ++ codes "/rootfs"))
                  (starts_with-append (a ++ codes "/rootfs") [])))
        | inr other ↦ same_first a b (codes "rootfs") (codes "rootfs/") ha hb (
            ground
              (arith, h, below, text_eq_cancel p (b ++ codes "/rootfs") (a ++ codes "/rootfs")))
      ]

contains-remove_dir_all :
    (dir path : Text) (dirs : List Text)
    → is_within dir path ≡ false
    → contains dirs path ≡ true
    → contains (remove_dir_all dir dirs) path ≡ true
unfolding remove_dir_all
contains-remove_dir_all dir path [] apart h = h
contains-remove_dir_all dir path (d ∷ dirs) apart h = elim (Bool-cases (text_eq d path)) [
  | inl same ↦
      let e : d ≡ path = (text_eq_iff d path).0 same in
      rw e (rw apart (rw (← e) (rw (text_eq_refl d) refl)))
  | inr other ↦
      let later = contains-remove_dir_all dir path dirs apart (ground arith) in
      elim (Bool-cases (is_within dir d)) [
        | inl goes ↦ rw goes later
        | inr stays ↦ rw stays (rw other later)
      ]
]

module _ (home a b : Text) (ha : Lacks b'/' a) (hb : Lacks b'/' b) (apart : a ≢ b) where
  not_within : (q : Bool) → (q ≡ true → a ≡ b) → q ≡ false
  not_within false h = refl
  not_within true h = absurd (apart (h refl))

  -- Cleaning up after one image leaves the root file system of another one.
  pub contains-clean_up :
      (dirs : List Text)
      → contains dirs (rootfs_of home b) ≡ true
      → contains (clean_up home (rootfs_of home a) dirs) (rootfs_of home b) ≡ true
  unfolding clean_up
  contains-clean_up dirs h =
      let p = images_dir home in
      let image : is_within (p ++ a) (rootfs_of home b) ≡ false =
        not_within (is_within (p ++ a) (rootfs_of home b)) (within_image p a b ha hb) in
      let own : is_within (rootfs_of home a) (rootfs_of home b) ≡ false =
        not_within (is_within (rootfs_of home a) (rootfs_of home b)) (within_rootfs p a b ha hb) in
      let left = remove_dir_all (rootfs_of home a) dirs in
      let kept = contains-remove_dir_all (rootfs_of home a) (rootfs_of home b) dirs own h in
      let parent : rsplit_once (rootfs_of home a) b'/' ≡ some (p ++ a, codes "rootfs") =
        subst (λ s. rsplit_once s b'/' ≡ some (p ++ a, codes "rootfs"))
          (append_assoc p a (codes "/rootfs"))
          (rsplit_once-append b'/' (p ++ a) (codes "rootfs")
            (refl, (refl, (refl, (refl, (refl, (refl, tt))))))) in
      rw parent (elim (Bool-cases (contains left (p ++ a) && not (text_eq (p ++ a) home))) [
        | inl goes ↦ rw goes (contains-remove_dir_all (p ++ a) (rootfs_of home b) left image kept)
        | inr stays ↦ rw stays kept
      ])
