-- ===== src/Network/Store.antt =====
-- `NetworkStore`. The state is what `networks.json` holds; each operation loads it, works on it
-- and saves it under the index lock, so an operation is one step from file to file.
use kc_docker.Shared.{
  ℕ, ◌+◌, Bool, true, false, ◌||◌, ◌&&◌, not, Option, none, some, List, [], ◌∷◌, ◌++◌,
  if◌then◌else◌, length, Text, codes, text_eq, starts_with, trim, is_empty, split_once, ◌==◌, leb,
}
use kc_docker.Shared.Maps.{contains, discard, insert, remove}
use kc_docker.Shared.Records.{find_first, any, remove_first, update_first}
use kc_docker.Shared.Decimal.{print_uint}
use kc_docker.Shared.Result.{Result, ok, err, ◌>>=◌, ok_or}
use kc_docker.Network.Ipam.{NetworkEndpoint, IpError}

pub record NetworkRecord : Type 0 where
  pub id : Text
  pub name : Text
  pub driver : Text
  pub subnet : Text
  pub gateway : Text
  pub internal : Bool
  pub attachable : Bool
  pub labels : List (Text × Text)
  pub dns_servers : List Text
  pub created_at : ℕ
  pub containers : List (Text × NetworkEndpoint)

abbrev pub NetworkStoreData : Type 0
NetworkStoreData = List NetworkRecord

pub data NetworkError : Type 0 where
  invalid_name already_exists not_found empty_name default_network active_endpoints not_connected :
      NetworkError
  ip_error : IpError → NetworkError

abbrev pub default_network_name : Text
default_network_name = codes "boxr0"

abbrev pub default_network_id : Text
default_network_id = codes "boxr00000000"

-- `n.id == q || n.id.starts_with(q) || n.name == q`.
abbrev pub matches_query : Text → NetworkRecord → Bool
matches_query q n = text_eq n.id q || (starts_with n.id q || text_eq n.name q)

-- `n.name == network_name || n.id.starts_with(network_name)`.
abbrev pub matches_name : Text → NetworkRecord → Bool
matches_name q n = text_eq n.name q || starts_with n.id q

abbrev pub has_name : Text → NetworkRecord → Bool
has_name name n = text_eq n.name name

abbrev pub default_record : ℕ → NetworkRecord
default_record now = record {
  id = default_network_id;
  name = default_network_name;
  driver = codes "bridge";
  subnet = codes "172.28.0.0/16";
  gateway = codes "172.28.0.1";
  internal = false;
  attachable = false;
  labels = [];
  dns_servers = [];
  created_at = now;
  containers = [];
}

unfoldable pub ensure_default_network : ℕ → NetworkStoreData → NetworkStoreData
ensure_default_network now networks =
    if any (has_name default_network_name) networks
    then networks
    else networks ++ default_record now ∷ []

unfoldable pub find : NetworkStoreData → Text → Option NetworkRecord
find networks query =
    if is_empty (trim query) then none else find_first (matches_query (trim query)) networks

-- `char::is_alphanumeric` on ASCII, `_` and `-`.
abbrev pub is_name_char : ℕ → Bool
is_name_char c =
    (leb b'0' c && leb c b'9')
    || ((leb b'A' c && leb c b'Z') || ((leb b'a' c && leb c b'z') || (c == b'_' || c == b'-')))

abbrev pub all_name_chars : Text → Bool
all_name_chars [] = true
all_name_chars (c ∷ s) = is_name_char c && all_name_chars s

abbrev or_default : Option Text → Text → Text
or_default none text = text
or_default (some chosen) text = chosen

unfoldable pub default_subnet : ℕ → Text
default_subnet count = codes "172." ++ (print_uint (29 + count) ++ codes ".0.0/16")

unfoldable pub default_gateway : ℕ → Text
default_gateway count = codes "172." ++ (print_uint (29 + count) ++ codes ".0.1")

-- The arguments of `create_with_options`.
pub record CreateOptions : Type 0 where
  pub name : Text
  pub driver : Text
  pub subnet : Option Text
  pub gateway : Option Text
  pub internal : Bool
  pub attachable : Bool
  pub labels : List (Text × Text)

abbrev pub new_record : CreateOptions → Text → ℕ → ℕ → NetworkRecord
new_record options id now count = record {
  id = id;
  name = trim options.name;
  driver = options.driver;
  subnet = or_default options.subnet (default_subnet count);
  gateway = or_default options.gateway (default_gateway count);
  internal = options.internal;
  attachable = options.attachable;
  labels = options.labels;
  dns_servers = [];
  created_at = now;
  containers = [];
}

-- The random id and the time come from outside.
unfoldable pub create_with_options :
    CreateOptions
    → Text
    → ℕ
    → NetworkStoreData
    → Result NetworkError (NetworkRecord × NetworkStoreData)
create_with_options options id now networks =
    if is_empty (trim options.name) || not (all_name_chars (trim options.name))
    then err invalid_name
    else if any (has_name (trim options.name)) networks
    then err already_exists
    else ok (
      new_record options id now (length networks),
      networks ++ new_record options id now (length networks) ∷ [],
    )

unfoldable pub create :
    Text
    → Option Text
    → Option Text
    → Text
    → ℕ
    → NetworkStoreData
    → Result NetworkError (NetworkRecord × NetworkStoreData)
create name subnet gateway = create_with_options (record {
  name = name;
  driver = codes "bridge";
  subnet = subnet;
  gateway = gateway;
  internal = false;
  attachable = false;
  labels = [];
})

-- The four loops of `update`.
unfoldable pub add_dns : List Text → List Text → List Text
add_dns [] servers = servers
add_dns (dns ∷ more) servers =
    add_dns more (if contains servers dns then servers else servers ++ dns ∷ [])

unfoldable pub drop_dns : List Text → List Text → List Text
drop_dns [] servers = servers
drop_dns (dns ∷ more) servers = drop_dns more (discard dns servers)

abbrev label_of : Text → Option (Text × Text) → Text × Text
label_of l none = (l, [])
label_of l (some (k, v)) = (k, v)

unfoldable pub add_labels : List Text → List (Text × Text) → List (Text × Text)
add_labels [] labels = labels
add_labels (l ∷ more) labels =
    let (k, v) = label_of l (split_once l b'=') in add_labels more (insert k v labels)

unfoldable pub drop_labels : List Text → List (Text × Text) → List (Text × Text)
drop_labels [] labels = labels
drop_labels (k ∷ more) labels = drop_labels more (remove k labels)

abbrev pub updated : List Text → List Text → List Text → List Text → NetworkRecord → NetworkRecord
updated dns_add dns_drop label_add label_drop net = record net {
  labels = drop_labels label_drop (add_labels label_add net.labels);
  dns_servers = drop_dns dns_drop (add_dns dns_add net.dns_servers);
}

unfoldable pub update :
    Text
    → List Text
    → List Text
    → List Text
    → List Text
    → NetworkStoreData
    → Result NetworkError (NetworkRecord × NetworkStoreData)
update query dns_add dns_drop label_add label_drop networks =
    if is_empty (trim query) then err empty_name else do
      net ← ok_or (find_first (matches_query (trim query)) networks) not_found
      ok (
        updated dns_add dns_drop label_add label_drop net,
        update_first (matches_query (trim query)) (updated dns_add dns_drop label_add label_drop)
            networks,
      )

unfoldable pub remove_with_force :
    Text → Bool → NetworkStoreData → Result NetworkError (NetworkRecord × NetworkStoreData)
remove_with_force query force networks =
    if is_empty (trim query)
    then err not_found
    else if text_eq (trim query) default_network_name
    then err default_network
    else do
      net ← ok_or (find_first (matches_query (trim query)) networks) not_found
      if not force && not (is_empty net.containers)
          then err active_endpoints
          else ok (net, remove_first (matches_query (trim query)) networks)
