-- ===== src/Secret.antt =====
-- Secrets, src/secret/mod.rs. The state is what `secrets.json` holds and the data files, each
-- under the directory that its secret's name leads to: `dir_of` stands for how the file system
-- resolves the name below the secrets' directory. Writing files succeeds.
pub mod Kept
pub mod Queries
mod Tests
use kc_docker.Shared.{
  ℕ, Bool, ◌||◌, Option, none, some, List, [], ◌∷◌, ◌++◌, if◌then◌else◌, take, length, Text, codes,
  text_eq, starts_with, trim, is_empty,
}
use kc_docker.Shared.Maps.{get, insert}
use kc_docker.Shared.Maps
use kc_docker.Shared.Records.{find_first, any, remove_first}
use kc_docker.Shared.Result.{Result, ok, err, ◌>>=◌, ok_or}

pub record SecretRecord : Type 0 where
  pub id : Text
  pub name : Text
  pub created_at : ℕ
  pub labels : List (Text × Text)
  pub driver : Text
  pub size : ℕ

pub record SecretStore : Type 0 where
  pub secrets : List SecretRecord
  pub files : List (Text × List ℕ)

pub data SecretError : Type 0 where
  name_in_use not_found unreadable : SecretError

-- `s.id == q || s.id.starts_with(q) || s.name == q`.
abbrev pub matches_query : Text → SecretRecord → Bool
matches_query q s = text_eq s.id q || (starts_with s.id q || text_eq s.name q)

unfoldable pub find : SecretStore → Text → Option SecretRecord
find s query =
    if is_empty (trim query) then none else find_first (matches_query (trim query)) s.secrets

abbrev pub generated : Text → Text
generated random = codes "secret-" ++ take 8 random

-- The trimmed name, or a generated one where that is empty or missing.
abbrev pub secret_name : Option Text → Text → Text
secret_name none random = generated random
secret_name (some n) random = if is_empty (trim n) then generated random else trim n

module _ (dir_of : Text → Text) where
  unfoldable pub create :
      ℕ
      → Text
      → Option Text
      → List ℕ
      → List (Text × Text)
      → SecretStore
      → Result SecretError (SecretRecord × SecretStore)
  create now random name bytes labels s =
      let new_name = secret_name name random in
      let new : SecretRecord = record {
        id = take 12 random;
        name = new_name;
        created_at = now;
        labels = labels;
        driver = codes "file";
        size = length bytes;
      } in
      if any (λ r. text_eq r.name new_name) s.secrets
      then err name_in_use
      else ok (
        new,
        record { secrets = s.secrets ++ new ∷ []; files = insert (dir_of new_name) bytes s.files },
      )

  unfoldable pub read_data : Text → SecretStore → Result SecretError (List ℕ)
  read_data query s = do
    r ← ok_or (find s query) not_found
    ok_or (get s.files (dir_of r.name)) unreadable

  unfoldable pub remove : Text → SecretStore → Result SecretError (SecretRecord × SecretStore)
  remove query s = do
    removed ← ok_or (find_first (matches_query (trim query)) s.secrets) not_found
    ok (
      removed,
      record {
        secrets = remove_first (matches_query (trim query)) s.secrets;
        files = Maps.remove (dir_of removed.name) s.files;
      },
    )
