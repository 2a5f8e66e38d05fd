-- ===== src/Secret/Queries.antt =====
-- `read_data` after `create`, and a blank query.
use kc_docker.Shared.{
  ℕ, Bool, true, false, Option, none, some, List, [], ◌∷◌, ◌++◌, ◌≡◌, refl, arith, Text, text_eq,
  text_eq_refl, trim, is_empty, starts_with, Bool-cases, inl, inr,
}
use kc_docker.Shared.Maps.{insert, get-insert}
use kc_docker.Shared.Maps
use kc_docker.Shared.Records.{find_first, any}
use kc_docker.Shared.Result.{ok}
use kc_docker.Secret.{
  SecretRecord, SecretStore, matches_query, find, secret_name, create, read_data, remove,
}

find_first-snoc :
    (test : SecretRecord → Bool) (l : List SecretRecord) (new : SecretRecord)
    → any test l ≡ false
    → test new ≡ true
    → find_first test (l ++ new ∷ []) ≡ some new
find_first-snoc test [] new h hit = rw hit refl
find_first-snoc test (r ∷ l) new h hit = ground (arith, find_first-snoc test l new)

-- The bytes given to a successful `create` are read back by every query that means the new
-- secret and none of those before it.
pub read_data-create :
    (dir_of : Text → Text) (now : ℕ) (random : Text) (name : Option Text) (bytes : List ℕ)
    (labels : List (Text × Text)) (s t : SecretStore) (r : SecretRecord) (query : Text)
    → create dir_of now random name bytes labels s ≡ ok (r, t)
    → is_empty (trim query) ≡ false
    → matches_query (trim query) r ≡ true
    → any (matches_query (trim query)) s.secrets ≡ false
    → read_data dir_of query t ≡ ok bytes
unfolding create read_data find
read_data-create dir_of now random name bytes labels s t r query e filled hit others =
    let n = secret_name name random in
    elim (Bool-cases (any (λ q. text_eq q.name n) s.secrets)) [
      | inl taken ↦ absurd (ground arith)
      | inr free ↦
          let new : (s.secrets ++ r ∷ [] ≡ t.secrets)
              × (insert (dir_of n) bytes s.files ≡ t.files)
              × (r.name ≡ n) =
            ground arith in
          rw filled (
            rw (← new.0) (
              rw (find_first-snoc (matches_query (trim query)) s.secrets r others hit) (
                rw (← new.1) (
                  rw new.2 (
                    rw (get-insert (dir_of n) (dir_of n) bytes s.files)
                      (rw (text_eq_refl (dir_of n)) refl))))))
    ]

starts_with_nil : (s : Text) → starts_with s [] ≡ true
unfolding starts_with
starts_with_nil [] = refl
starts_with_nil (c ∷ s) = refl

nil_of_empty : (s : Text) → is_empty s ≡ true → s ≡ []
nil_of_empty [] h = refl
nil_of_empty (c ∷ s) h = absurd (ground arith)

-- A blank query finds no secret, and yet `remove` takes it for the first stored secret, which it
-- deletes.
pub remove_blank :
    (dir_of : Text → Text) (query : Text) (s : SecretStore) (r : SecretRecord)
    (rest : List SecretRecord)
    → is_empty (trim query) ≡ true
    → s.secrets ≡ r ∷ rest
    → (find s query ≡ none)
      × (remove dir_of query s
          ≡ ok (r, record { secrets = rest; files = Maps.remove (dir_of r.name) s.files }))
unfolding find remove
remove_blank dir_of query s r rest blank stored =
    let hit : matches_query (trim query) r ≡ true =
      rw (nil_of_empty (trim query) blank) (rw (starts_with_nil r.id) (ground arith)) in
    (rw blank refl, rw stored (rw hit refl))
