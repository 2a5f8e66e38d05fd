-- ===== src/Network/Endpoints.antt =====
-- Containers on a network: `connect_container`, `disconnect_container`, `generate_hosts_file`.
use kc_docker.Shared.{
  ℕ, ◌+◌, ◌/◌, ◌%◌, Option, none, some, List, [], ◌∷◌, ◌++◌, if◌then◌else◌, length, take, min, Text,
  codes, text_eq, ltb,
}
use kc_docker.Shared.Maps.{get, insert, remove}
use kc_docker.Shared.Records.{find_first, update_first}
use kc_docker.Shared.Result.{Result, ok, err, ◌>>=◌, ok_or}
use kc_docker.UserNet.Packets.{Ipv4Addr}
use kc_docker.Network.Addresses.{print_ip}
use kc_docker.Network.Ipam.{NetworkEndpoint, IpError, allocate_ip_in_subnet}
use kc_docker.Network.Store.{
  NetworkRecord, NetworkStoreData, NetworkError, ip_error, not_found, not_connected, matches_name,
}

-- `{:02x}` of a byte.
abbrev hex_digit : ℕ → ℕ
hex_digit d = if ltb d 10 then b'0' + d else 87 + d

abbrev hex_byte : ℕ → Text
hex_byte b = hex_digit (b / 16 % 16) ∷ hex_digit (b % 16) ∷ []

unfoldable pub mac_of_ip : Ipv4Addr → Text
mac_of_ip ip =
    codes "02:42:"
    ++ (hex_byte ip.o0
        ++ b':' ∷ (hex_byte ip.o1 ++ b':' ∷ (hex_byte ip.o2 ++ b':' ∷ hex_byte ip.o3)))

abbrev pub endpoint_of : Text → Text → Ipv4Addr → NetworkEndpoint
endpoint_of container_id container_name ip = record {
  container_id = container_id;
  container_name = container_name;
  ipv4_address = print_ip ip;
  mac_address = mac_of_ip ip;
}

abbrev pub ip_result : Result IpError Ipv4Addr → Result NetworkError Ipv4Addr
ip_result (ok ip) = ok ip
ip_result (err e) = err (ip_error e)

abbrev pub attach : Text → NetworkEndpoint → NetworkRecord → NetworkRecord
attach container_id endpoint net = record net {
  containers = insert container_id endpoint net.containers;
}

-- The part behind the lookup of the network: an endpoint that is there is returned as it is.
unfoldable pub connect_to :
    Text
    → Text
    → Text
    → NetworkStoreData
    → NetworkRecord
    → Result NetworkError (NetworkEndpoint × NetworkStoreData)
connect_to network_name container_id container_name networks net =
    elim (get net.containers container_id) [
      | some endpoint ↦ ok (endpoint, networks)
      | none ↦ do
        ip ← ip_result (allocate_ip_in_subnet net.subnet net.gateway net.containers)
        ok (
          endpoint_of container_id container_name ip,
          update_first (matches_name network_name)
              (attach container_id (endpoint_of container_id container_name ip)) networks,
        )
    ]

unfoldable pub connect_container :
    Text → Text → Text → NetworkStoreData → Result NetworkError (NetworkEndpoint × NetworkStoreData)
connect_container network_name container_id container_name networks = do
  net ← ok_or (find_first (matches_name network_name) networks) not_found
  connect_to network_name container_id container_name networks net

-- `iter().find(|(_, ep)| ep.container_name == container_id)`.
unfoldable pub key_of_name : Text → List (Text × NetworkEndpoint) → Option Text
key_of_name name [] = none
key_of_name name ((k, endpoint) ∷ rest) =
    if text_eq endpoint.container_name name then some k else key_of_name name rest

abbrev pub detach : Text → NetworkRecord → NetworkRecord
detach key net = record net { containers = remove key net.containers }

-- The key to remove: the id, or the first endpoint of that name.
abbrev pub key_to_remove : Text → NetworkRecord → Option Text
key_to_remove container_id net = elim (get net.containers container_id) [
  | some endpoint ↦ some container_id
  | none ↦ key_of_name container_id net.containers
]

unfoldable pub disconnect_container :
    Text → Text → NetworkStoreData → Result NetworkError NetworkStoreData
disconnect_container network_name container_id networks = do
  net ← ok_or (find_first (matches_name network_name) networks) not_found
  key ← ok_or (key_to_remove container_id net) not_connected
  ok (update_first (matches_name network_name) (detach key) networks)

abbrev host_line : Text × NetworkEndpoint → Text
host_line (cid, endpoint) =
    endpoint.ipv4_address ++ 9 ∷ (endpoint.container_name ++ 9 ∷ take (min 12 (length cid)) cid)

abbrev host_lines : List (Text × NetworkEndpoint) → Text
host_lines [] = []
host_lines (entry ∷ rest) = 10 ∷ (host_line entry ++ host_lines rest)

-- `lines.join("\n") + "\n"`.
unfoldable pub generate_hosts_file : Text → NetworkStoreData → Text
generate_hosts_file network_name networks =
    (codes "127.0.0.1" ++ 9 ∷ codes "localhost")
    ++ 10
      ∷ ((codes "::1" ++ 9 ∷ codes "localhost ip6-localhost ip6-loopback")
          ++ (elim (find_first (matches_name network_name) networks) [
            | none ↦ []
            | some net ↦ host_lines net.containers
          ]
              ++ 10 ∷ []))
