-- ===== src/Secret/Kept.antt =====
-- Secrets and their data files under `create`, `read_data` and `remove`.
use kc_docker.Shared.{
  ℕ, Bool, true, false, not, ◌||◌, ◌&&◌, Option, some, List, [], ◌∷◌, ◌++◌, ◌≡◌, refl, sym, subst,
  arith, All, All-append, length, Text, codes, text_eq, text_eq_iff, text_eq_refl, text_eq_sound,
  trim, is_empty, contains_char, Bool-cases, Option-cases, inl, inr,
}
use kc_docker.Shared.Maps.{get, insert, get-insert, get-remove}
use kc_docker.Shared.Maps
use kc_docker.Shared.Records.{find_first, any, remove_first, All-find_first}
use kc_docker.Shared.Naming.{
  IsApart, Distinct, All-IsApart_comm, All-of_any, Distinct-snoc, Distinct-remove_first,
}
use kc_docker.Shared.Result.{ok}
use kc_docker.Secret.{SecretRecord, SecretStore, matches_query, secret_name, create, remove}

abbrev pub name_of : SecretRecord → Text
name_of r = r.name

-- A name that is one component of a path.
abbrev pub is_plain : Text → Bool
is_plain n =
    not (is_empty n)
    && (not (contains_char n b'/') && not (text_eq n (codes ".") || text_eq n (codes "..")))

module _ (dir_of : Text → Text) where
  -- The data file is there, with as many bytes as the record says.
  pub record IsKept (files : List (Text × List ℕ)) (r : SecretRecord) : Type 0 where
    pub bytes : List ℕ
    pub there : get files (dir_of r.name) ≡ some bytes
    pub sized : length bytes ≡ r.size
    pub plain : is_plain r.name ≡ true

  pub record IsReadable (s : SecretStore) : Type 0 where
    pub distinct : Distinct name_of s.secrets
    pub kept : All (IsKept s.files) s.secrets

  -- One successful operation, with plain names.
  pub data Step (s t : SecretStore) : Type 0 where
    created :
        (now : ℕ) (random : Text) (name : Option Text) (bytes : List ℕ)
        (labels : List (Text × Text)) (r : SecretRecord)
        → is_plain (secret_name name random) ≡ true
        → create dir_of now random name bytes labels s ≡ ok (r, t)
        → Step s t
    removed : (query : Text) (r : SecretRecord) → remove dir_of query s ≡ ok (r, t) → Step s t

  pub data Reach : SecretStore → Type 0 where
    start : Reach (record { secrets = []; files = [] })
    after : {s t : SecretStore} → Reach s → Step s t → Reach t

  module _
      (resolves : (m n : Text)
        → is_plain m ≡ true
        → is_plain n ≡ true
        → dir_of m ≡ dir_of n
        → m ≡ n) where
    -- Another name's directory is another directory.
    dir_apart :
        (m n : Text)
        → is_plain m ≡ true
        → is_plain n ≡ true
        → text_eq m n ≡ false
        → text_eq (dir_of m) (dir_of n) ≡ false
    dir_apart m n pm pn other = elim (Bool-cases (text_eq (dir_of m) (dir_of n))) [
      | inr apart ↦ apart
      | inl same ↦
          let e : m ≡ n = resolves m n pm pn (text_eq_sound (dir_of m) (dir_of n) same) in
          absurd (ground (arith, text_eq_iff m n))
    ]

    All-insert :
        (n : Text) (bytes : List ℕ) (files : List (Text × List ℕ)) (l : List SecretRecord)
        → is_plain n ≡ true
        → All (λ r. text_eq r.name n ≡ false) l
        → All (IsKept files) l
        → All (IsKept (insert (dir_of n) bytes files)) l
    All-insert n bytes files [] pn apart h = tt
    All-insert n bytes files (r ∷ l) pn apart h =
        let other : text_eq n r.name ≡ false =
          ground (arith, apart.0, text_eq_iff n r.name, text_eq_iff r.name n) in
        (
          record {
            bytes = h.0.bytes;
            there =
                rw (get-insert (dir_of n) (dir_of r.name) bytes files)
                  (rw (dir_apart n r.name pn h.0.plain other) h.0.there);
            sized = h.0.sized;
            plain = h.0.plain;
          },
          All-insert n bytes files l pn apart.1 h.1,
        )

    All-dropped :
        (r : SecretRecord) (files : List (Text × List ℕ)) (l : List SecretRecord)
        → is_plain r.name ≡ true
        → All (IsApart name_of r) l
        → All (IsKept files) l
        → All (IsKept (Maps.remove (dir_of r.name) files)) l
    All-dropped r files [] pr apart h = tt
    All-dropped r files (q ∷ l) pr apart h = (
      record {
        bytes = h.0.bytes;
        there =
            rw (get-remove (dir_of r.name) (dir_of q.name) files)
              (rw (dir_apart r.name q.name pr h.0.plain apart.0) h.0.there);
        sized = h.0.sized;
        plain = h.0.plain;
      },
      All-dropped r files l pr apart.1 h.1,
    )

    create-IsReadable :
        (now : ℕ) (random : Text) (name : Option Text) (bytes : List ℕ)
        (labels : List (Text × Text)) (r : SecretRecord) (s t : SecretStore)
        → is_plain (secret_name name random) ≡ true
        → create dir_of now random name bytes labels s ≡ ok (r, t)
        → IsReadable s
        → IsReadable t
    unfolding create
    create-IsReadable now random name bytes labels r s t plain e h =
        let n = secret_name name random in
        elim (Bool-cases (any (λ q. text_eq q.name n) s.secrets)) [
          | inl taken ↦ absurd (ground arith)
          | inr free ↦
              let apart = All-of_any name_of n s.secrets free in
              let new : (s.secrets ++ r ∷ [] ≡ t.secrets)
                  × (insert (dir_of n) bytes s.files ≡ t.files)
                  × (r.name ≡ n)
                  × (r.size ≡ length bytes) =
                ground arith in
              record {
                distinct = rw (← new.0) (
                    Distinct-snoc name_of s.secrets r h.distinct (
                      subst (λ m. All (λ q. text_eq q.name m ≡ false) s.secrets) (sym new.2)
                        apart));
                kept =
                    subst (λ fs. All (IsKept fs) t.secrets) new.1
                      (rw (← new.0) (
                        All-append (IsKept (insert (dir_of n) bytes s.files)) s.secrets (r ∷ [])
                          (All-insert n bytes s.files s.secrets plain apart h.kept)
                          (
                            record {
                              bytes = bytes;
                              there = rw new.2 (
                                  rw (get-insert (dir_of n) (dir_of n) bytes s.files)
                                    (rw (text_eq_refl (dir_of n)) refl));
                              sized = sym (new.3);
                              plain = rw new.2 plain;
                            },
                            tt,
                          )));
              }
        ]

    -- Dropping the first hit with its directory.
    All-taken_out :
        (test : SecretRecord → Bool) (files : List (Text × List ℕ)) (l : List SecretRecord)
        (found : SecretRecord)
        → find_first test l ≡ some found
        → Distinct name_of l
        → All (IsKept files) l
        → All (IsKept (Maps.remove (dir_of found.name) files)) (remove_first test l)
    All-taken_out test files [] found e d h = tt
    All-taken_out test files (r ∷ l) found e d h = elim (Bool-cases (test r)) [
      | inl hit ↦
          let same : r ≡ found = ground arith in
          rw hit (rw (← same) (All-dropped r files l h.0.plain d.0 h.1))
      | inr miss ↦
          let later : find_first test l ≡ some found = ground arith in
          let kept = All-find_first test (IsKept files) l found later h.1 in
          let other : text_eq found.name r.name ≡ false =
            All-find_first test (λ q. text_eq q.name r.name ≡ false) l found later
              (All-IsApart_comm name_of r l d.0) in
          rw miss (
            record {
              bytes = h.0.bytes;
              there =
                  rw (get-remove (dir_of found.name) (dir_of r.name) files)
                    (rw (dir_apart found.name r.name kept.plain h.0.plain other) h.0.there);
              sized = h.0.sized;
              plain = h.0.plain;
            },
            All-taken_out test files l found later d.1 h.1,
          )
    ]

    remove-IsReadable :
        (query : Text) (r : SecretRecord) (s t : SecretStore)
        → remove dir_of query s ≡ ok (r, t)
        → IsReadable s
        → IsReadable t
    unfolding remove
    remove-IsReadable query r s t e h =
        let test = matches_query (trim query) in
        elim (Option-cases (find_first test s.secrets)) [
          | inl missing ↦ absurd (ground arith)
          | inr (found, there) ↦
              let new : (remove_first test s.secrets ≡ t.secrets)
                  × (Maps.remove (dir_of found.name) s.files ≡ t.files) =
                ground arith in
              record {
                distinct = rw (← new.0) (Distinct-remove_first name_of test s.secrets h.distinct);
                kept =
                    subst (λ fs. All (IsKept fs) t.secrets) new.1
                      (rw (← new.0)
                        (All-taken_out test s.files s.secrets found there h.distinct h.kept));
              }
        ]

    -- In every store that `create` with plain names and `remove` reach, no two secrets have one
    -- name, and every secret's data file is there with the recorded number of bytes; different
    -- plain names lead to different directories.
    pub Reach-IsReadable : (s : SecretStore) → Reach s → IsReadable s
    Reach-IsReadable _ start = record { distinct = tt; kept = tt }
    Reach-IsReadable _ (after {s} {t} reached (created now random name bytes labels r plain e)) =
        create-IsReadable now random name bytes labels r s t plain e (Reach-IsReadable s reached)
    Reach-IsReadable _ (after {s} {t} reached (removed query r e)) =
        remove-IsReadable query r s t e (Reach-IsReadable s reached)
