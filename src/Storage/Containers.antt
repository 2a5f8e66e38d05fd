-- ===== src/Storage/Containers.antt =====
-- `ContainerStore`. The state is what `containers.json` holds; each operation is one step on it,
-- under the index lock. `remove` also ends the processes of the bundle and deletes it, which
-- leaves the record that it returns as it is.
use kc_docker.Shared.{
  ℕ, Bool, true, ◌||◌, ◌&&◌, not, Option, none, List, [], ◌∷◌, ◌++◌, if◌then◌else◌, Text, text_eq,
  starts_with, trim, is_empty, ◌==◌, leb,
}
use kc_docker.Shared.Records.{find_first, any, remove_first, update_first}
use kc_docker.Shared.Result.{Result, ok, err, ◌>>=◌, ok_or}
use kc_docker.Storage.{ContainerStatus, HealthStatus, ContainerRecord}

abbrev pub ContainerStoreData : Type 0
ContainerStoreData = List ContainerRecord

pub data StoreError : Type 0 where
  invalid_name name_in_use not_found : StoreError

-- `c.id == q || c.id.starts_with(q) || c.name == q`.
abbrev pub matches_query : Text → ContainerRecord → Bool
matches_query q c = text_eq c.id q || (starts_with c.id q || text_eq c.name q)

abbrev pub has_id : Text → ContainerRecord → Bool
has_id id c = text_eq c.id id

-- `c.name == name && c.id != id`.
abbrev pub has_name_elsewhere : Text → Text → ContainerRecord → Bool
has_name_elsewhere name id c = text_eq c.name name && not (text_eq c.id id)

-- `char::is_alphanumeric` on ASCII, `_`, `-` and `.`.
abbrev pub is_name_char : ℕ → Bool
is_name_char c =
    (leb b'0' c && leb c b'9')
    || ((leb b'A' c && leb c b'Z')
        || ((leb b'a' c && leb c b'z') || (c == b'_' || (c == b'-' || c == b'.'))))

abbrev pub all_name_chars : Text → Bool
all_name_chars [] = true
all_name_chars (c ∷ s) = is_name_char c && all_name_chars s

abbrev pub is_valid_name : Text → Bool
is_valid_name name = not (is_empty name) && all_name_chars name

unfoldable pub find : ContainerStoreData → Text → Option ContainerRecord
find containers query =
    if is_empty (trim query) then none else find_first (matches_query (trim query)) containers

-- `retain(|c| c.id != id)`.
abbrev pub without_id : Text → ContainerStoreData → ContainerStoreData
without_id id [] = []
without_id id (c ∷ containers) =
    let rest = without_id id containers in if text_eq c.id id then rest else c ∷ rest

unfoldable pub add : ContainerRecord → ContainerStoreData → Result StoreError ContainerStoreData
add record' containers =
    if not (is_valid_name (trim record'.name))
    then err invalid_name
    else if any (has_name_elsewhere record'.name record'.id) containers
    then err name_in_use
    else ok (without_id record'.id containers ++ record' ∷ [])

abbrev pub set_status : ContainerStatus → ContainerRecord → ContainerRecord
set_status status c = record c { status = status }

abbrev pub set_health : HealthStatus → ContainerRecord → ContainerRecord
set_health status c = record c { health_status = status }

abbrev pub set_name : Text → ContainerRecord → ContainerRecord
set_name name c = record c { name = name }

unfoldable pub update_status :
    Text → ContainerStatus → ContainerStoreData → Result StoreError ContainerStoreData
update_status id_or_name status containers = do
  _ ← ok_or (find_first (matches_query id_or_name) containers) not_found
  ok (update_first (matches_query id_or_name) (set_status status) containers)

unfoldable pub update_health_status :
    Text → HealthStatus → ContainerStoreData → Result StoreError ContainerStoreData
update_health_status id_or_name status containers = do
  _ ← ok_or (find_first (matches_query id_or_name) containers) not_found
  ok (update_first (matches_query id_or_name) (set_health status) containers)

unfoldable pub rename : Text → Text → ContainerStoreData → Result StoreError ContainerStoreData
rename old_query new_name containers =
    if not (is_valid_name (trim new_name)) then err invalid_name else do
      old ← ok_or (find_first (matches_query old_query) containers) not_found
      if text_eq old.name (trim new_name)
          then ok containers
          else if any (has_name_elsewhere (trim new_name) old.id) containers
          then err name_in_use
          else ok (update_first (has_id old.id) (set_name (trim new_name)) containers)

unfoldable pub remove :
    Text → ContainerStoreData → Result StoreError (ContainerRecord × ContainerStoreData)
remove query containers = if is_empty (trim query) then err not_found else do
  removed ← ok_or (find_first (matches_query (trim query)) containers) not_found
  ok (removed, remove_first (matches_query (trim query)) containers)
