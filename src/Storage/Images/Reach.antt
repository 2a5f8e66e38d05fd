-- ===== src/Storage/Images/Reach.antt =====
-- The stores of images that the operations reach: one entry for each name and platform, and every
-- image with its root file system.
use kc_docker.Shared.{
  Bool, true, false, List, [], ◌∷◌, ◌++◌, ◌≡◌, ◌≢◌, refl, arith, Text, text_eq, text_eq_iff, trim,
  is_empty, Bool-cases, Option-cases, inl, inr, subst, All, All-append,
}
use kc_docker.Shared.Splitting.{Lacks}
use kc_docker.Shared.Maps.{contains}
use kc_docker.Shared.Records.{find_first, remove_first, All-remove_first, All-find_first}
use kc_docker.Storage.Images.{ImageRecord, query_matches_image}
use kc_docker.Storage.Images.Store.{
  ImageStore, same_entry, without_entry, add, is_shared, clean_up, remove, remove_metadata_only,
}
use kc_docker.Storage.Images.Rootfs.{rootfs_of, contains-clean_up}

module _ {Rest : Type 0} where
  abbrev pub IsApart : ImageRecord Rest → ImageRecord Rest → Type 0
  IsApart a b = same_entry b a ≡ false

  -- No two entries have one registry, reference, tag, architecture and system.
  abbrev pub Distinct : List (ImageRecord Rest) → Type 0
  Distinct [] = Unit
  Distinct (a ∷ images) = All (IsApart a) images × Distinct images

  -- The root file system is where it is laid out, and it is there.
  pub record IsRooted (home : Text) (dirs : List Text) (img : ImageRecord Rest) : Type 0 where
    pub dir : Text
    pub plain : Lacks b'/' dir
    pub placed : img.rootfs_path ≡ rootfs_of home dir
    pub present : contains dirs img.rootfs_path ≡ true

  pub record IsComplete (s : ImageStore Rest) : Type 0 where
    pub distinct : Distinct s.images
    pub rooted : All (IsRooted s.home s.dirs) s.images

  -- Pull, build, load, commit and tag add a record when its root file system is there.
  pub data Step (s : ImageStore Rest) : ImageStore Rest → Type 0 where
    dir_made : (path : Text) → Step s (record s { dirs = path ∷ s.dirs })
    added : (new : ImageRecord Rest) → IsRooted s.home s.dirs new → Step s (add new s)
    removed : (query : Text) → Step s (remove query s).0
    forgotten : (query : Text) → Step s (remove_metadata_only query s).0

  pub data Reach (home : Text) : ImageStore Rest → Type 0 where
    start : (dirs : List Text) → Reach home (record { images = []; home = home; dirs = dirs })
    after : {s t : ImageStore Rest} → Reach home s → Step s t → Reach home t

  All-without_entry :
      (P : ImageRecord Rest → Type 0) (new : ImageRecord Rest) (images : List (ImageRecord Rest))
      → All P images
      → All P (without_entry new images)
  All-without_entry P new [] h = tt
  All-without_entry P new (a ∷ images) h = elim (Bool-cases (same_entry new a)) [
    | inl same ↦ rw same (All-without_entry P new images h.1)
    | inr other ↦ rw other (h.0, All-without_entry P new images h.1)
  ]

  IsApart-of_new :
      (new : ImageRecord Rest) (images : List (ImageRecord Rest))
      → All (λ a. IsApart a new) (without_entry new images)
  IsApart-of_new new [] = tt
  IsApart-of_new new (a ∷ images) = elim (Bool-cases (same_entry new a)) [
    | inl same ↦ rw same (IsApart-of_new new images)
    | inr other ↦ rw other (other, IsApart-of_new new images)
  ]

  Distinct-without_entry :
      (new : ImageRecord Rest) (images : List (ImageRecord Rest))
      → Distinct images
      → Distinct (without_entry new images)
  Distinct-without_entry new [] h = tt
  Distinct-without_entry new (a ∷ images) h = elim (Bool-cases (same_entry new a)) [
    | inl same ↦ rw same (Distinct-without_entry new images h.1)
    | inr other ↦
        rw other
          (All-without_entry (IsApart a) new images h.0, Distinct-without_entry new images h.1)
  ]

  Distinct-snoc :
      (images : List (ImageRecord Rest)) (new : ImageRecord Rest)
      → Distinct images
      → All (λ a. IsApart a new) images
      → Distinct (images ++ new ∷ [])
  Distinct-snoc [] new h apart = (tt, tt)
  Distinct-snoc (a ∷ images) new h apart = (
    All-append (IsApart a) images (new ∷ []) h.0 (apart.0, tt),
    Distinct-snoc images new h.1 apart.1,
  )

  Distinct-remove_first :
      (test : ImageRecord Rest → Bool) (images : List (ImageRecord Rest))
      → Distinct images
      → Distinct (remove_first test images)
  Distinct-remove_first test [] h = tt
  Distinct-remove_first test (a ∷ images) h = elim (Bool-cases (test a)) [
    | inl hit ↦ rw hit h.1
    | inr miss ↦
        rw miss
          (All-remove_first test (IsApart a) images h.0, Distinct-remove_first test images h.1)
  ]

  add-IsComplete :
      (new : ImageRecord Rest) (s : ImageStore Rest)
      → IsRooted s.home s.dirs new
      → IsComplete s
      → IsComplete (add new s)
  unfolding add
  add-IsComplete new s r h = record {
    distinct =
        Distinct-snoc (without_entry new s.images) new
          (Distinct-without_entry new s.images h.distinct) (IsApart-of_new new s.images);
    rooted =
        All-append (IsRooted s.home s.dirs) (without_entry new s.images) (new ∷ [])
          (All-without_entry (IsRooted s.home s.dirs) new s.images h.rooted) (r, tt);
  }

  module _ (home : Text) (dirs : List Text) (gone : ImageRecord Rest)
      (g : IsRooted home dirs gone) where
    spared :
        (img : ImageRecord Rest)
        → text_eq img.rootfs_path gone.rootfs_path ≡ false
        → IsRooted home dirs img
        → IsRooted home (clean_up home gone.rootfs_path dirs) img
    spared img other h =
        let apart : g.dir ≢ h.dir = λ e.
          let same : img.rootfs_path ≡ gone.rootfs_path = rw (h.placed, g.placed, e) refl in
          absurd (ground (arith, other, (text_eq_iff img.rootfs_path gone.rootfs_path).1 same)) in
        record {
          dir = h.dir;
          plain = h.plain;
          placed = h.placed;
          present =
              rw (h.placed, g.placed)
                (contains-clean_up home g.dir h.dir g.plain h.plain apart dirs
                  (subst (λ p. contains dirs p ≡ true) h.placed h.present));
        }

    All-spared :
        (images : List (ImageRecord Rest))
        → is_shared gone images ≡ false
        → All (IsRooted home dirs) images
        → All (IsRooted home (clean_up home gone.rootfs_path dirs)) images
    All-spared [] apart h = tt
    All-spared (img ∷ images) apart h =
        (spared img (ground arith) h.0, All-spared images (ground arith) h.1)

  remove-IsComplete :
      (query : Text) (s : ImageStore Rest) → IsComplete s → IsComplete (remove query s).0
  unfolding remove
  remove-IsComplete query s h = elim (Bool-cases (is_empty (trim query))) [
    | inl blank ↦ rw blank h
    | inr filled ↦
        let test : ImageRecord Rest → Bool = λ img. query_matches_image img (trim query) in
        rw filled (elim (Option-cases (find_first test s.images)) [
          | inl missing ↦ rw missing h
          | inr (gone, there) ↦
              let left = remove_first test s.images in
              let rooted = All-remove_first test (IsRooted s.home s.dirs) s.images h.rooted in
              let g = All-find_first test (IsRooted s.home s.dirs) s.images gone there h.rooted in
              rw there (elim (Bool-cases (is_shared gone left)) [
                | inl shared ↦ rw shared (record {
                  distinct = Distinct-remove_first test s.images h.distinct;
                  rooted = rooted;
                })
                | inr own ↦ rw own (record {
                  distinct = Distinct-remove_first test s.images h.distinct;
                  rooted = All-spared s.home s.dirs gone g left own rooted;
                })
              ])
        ])
  ]

  remove_metadata_only-IsComplete :
      (query : Text) (s : ImageStore Rest)
      → IsComplete s
      → IsComplete (remove_metadata_only query s).0
  unfolding remove_metadata_only
  remove_metadata_only-IsComplete query s h =
      let test : ImageRecord Rest → Bool = λ img. query_matches_image img (trim query) in
      elim (Option-cases (find_first test s.images)) [
        | inl missing ↦ rw missing h
        | inr (gone, there) ↦ rw there (record {
          distinct = Distinct-remove_first test s.images h.distinct;
          rooted = All-remove_first test (IsRooted s.home s.dirs) s.images h.rooted;
        })
      ]

  All-more :
      (home path : Text) (dirs : List Text) (images : List (ImageRecord Rest))
      → All (IsRooted home dirs) images
      → All (IsRooted home (path ∷ dirs)) images
  All-more home path dirs [] h = tt
  All-more home path dirs (img ∷ images) h = (
    record {
      dir = h.0.dir;
      plain = h.0.plain;
      placed = h.0.placed;
      present = rw h.0.present (ground arith);
    },
    All-more home path dirs images h.1,
  )

  Step-IsComplete : {s t : ImageStore Rest} → Step s t → IsComplete s → IsComplete t
  Step-IsComplete {s} (dir_made path) h = record {
    distinct = h.distinct;
    rooted = All-more s.home path s.dirs s.images h.rooted;
  }
  Step-IsComplete {s} (added new r) h = add-IsComplete new s r h
  Step-IsComplete {s} (removed query) h = remove-IsComplete query s h
  Step-IsComplete {s} (forgotten query) h = remove_metadata_only-IsComplete query s h

  -- In every store that the operations reach, where a record is added only when its root file
  -- system is laid out and there, no two records have one name and platform, and every record's
  -- root file system is still there: removing an image deletes no other one's.
  pub Reach-IsComplete : (home : Text) (s : ImageStore Rest) → Reach home s → IsComplete s
  Reach-IsComplete home _ (start dirs) = record { distinct = tt; rooted = tt }
  Reach-IsComplete home _ (after {s} {t} reached step) =
      Step-IsComplete step (Reach-IsComplete home s reached)
