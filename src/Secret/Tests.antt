-- ===== src/Secret/Tests.antt =====
-- Two secrets, the second of which has a name that the first one's id begins with.
use kc_docker.Shared.{
  ℕ, none, some, [], ◌∷◌, ◌≡◌, refl, Text, codes, text_eq, trim, trim_end, trim_start, starts_with,
}
use kc_docker.Shared.Maps.{get, insert}
use kc_docker.Shared.Maps
use kc_docker.Shared.Result.{ok}
use kc_docker.Secret.{SecretRecord, SecretStore, find, create, read_data, remove}
use kc_docker.Secret.Kept.{IsReadable, start, after, created, Reach-IsReadable}
use kc_docker.Secret.Queries.{read_data-create, remove_blank}

abbrev secret : Text → Text → ℕ → SecretRecord
secret id name size = record {
  id = id;
  name = name;
  created_at = 1;
  labels = [];
  driver = codes "file";
  size = size;
}

abbrev same : Text → Text
same name = name

abbrev nothing : SecretStore
nothing = record { secrets = []; files = [] }

abbrev one : SecretStore
one = record {
  secrets = secret (codes "ab34567890ab") (codes "token") 2 ∷ [];
  files = (codes "token", 7 ∷ 8 ∷ []) ∷ [];
}

one_created :
    create same 1 (codes "ab34567890abcdef") (some (codes " token")) (7 ∷ 8 ∷ []) [] nothing
    ≡ ok (secret (codes "ab34567890ab") (codes "token") 2, one)
unfolding create text_eq trim trim_end trim_start insert
one_created = refl

Reach-IsReadable_example : IsReadable same one
unfolding text_eq trim trim_end trim_start
Reach-IsReadable_example =
    Reach-IsReadable same (λ m n pm pn e. e) one
      (after start (
        created 1 (codes "ab34567890abcdef") (some (codes " token")) (7 ∷ 8 ∷ []) []
          (secret (codes "ab34567890ab") (codes "token") 2) refl one_created))

read_data-create_example : read_data same (codes "token ") one ≡ ok (7 ∷ 8 ∷ [])
unfolding text_eq trim trim_end trim_start starts_with
read_data-create_example =
    read_data-create same 1 (codes "ab34567890abcdef") (some (codes " token")) (7 ∷ 8 ∷ []) []
      nothing one (secret (codes "ab34567890ab") (codes "token") 2) (codes "token ") one_created
      refl refl refl

remove_blank_example :
    (find one (codes " ") ≡ none)
    × (remove same (codes " ") one
        ≡ ok (
          secret (codes "ab34567890ab") (codes "token") 2,
          record { secrets = []; files = Maps.remove (codes "token") one.files },
        ))
unfolding trim trim_end trim_start
remove_blank_example =
    remove_blank same (codes " ") one (secret (codes "ab34567890ab") (codes "token") 2) [] refl refl

-- The query `ab` is the second secret's name, and means the first one by its id.
abbrev two : SecretStore
two = record {
  secrets =
      secret (codes "ab34567890ab") (codes "token") 2
      ∷ secret (codes "cd34567890ab") (codes "ab") 1
      ∷ [];
  files = (codes "token", 7 ∷ 8 ∷ []) ∷ (codes "ab", 9 ∷ []) ∷ [];
}

name_behind_id : read_data same (codes "ab") two ≡ ok (7 ∷ 8 ∷ [])
unfolding read_data find get text_eq trim trim_end trim_start starts_with
name_behind_id = refl
