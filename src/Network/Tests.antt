-- ===== src/Network/Tests.antt =====
-- A small store of networks for the theorems on `NetworkStore`.
use kc_docker.Shared.{
  false, none, some, List, [], ◌∷◌, ◌++◌, ◌≡◌, ◌↔◌, refl, Text, codes, split_once, split,
  parse_uint, parse_digits, text_eq, starts_with, trim, trim_end, trim_start,
}
use kc_docker.Shared.Maps.{get, insert}
use kc_docker.Shared.Decimal.{print_uint}
use kc_docker.Shared.Records.{find_first}
use kc_docker.Shared.Result.{ok, err}
use kc_docker.UserNet.Packets.{ipv4}
use kc_docker.Network.Addresses.{parse_ip, print_ip, parse_octet}
use kc_docker.Network.Ports.{
  PortMapping, unequal_length, parse_all, map_parts, pair_ports, zip_ports, parse_port_or_range,
}
use kc_docker.Network.Ports.Laws.{parse_all_iff}
use kc_docker.Network.Ports.Ranges.{IsPublished}
use kc_docker.Network.Ipam.{
  NetworkEndpoint, exhausted, used_ips, first_free, search_hosts, allocate_ip_in_subnet,
}
use kc_docker.Network.Ipam.Laws.{
  IsAllocated, IsFull, allocate_ip_in_subnet-IsAllocated, allocate_ip_in_subnet-IsFull,
}
use kc_docker.Network.Store.{
  NetworkRecord, NetworkStoreData, CreateOptions, new_record, create_with_options,
  remove_with_force, ensure_default_network, default_record, matches_name,
}
use kc_docker.Network.Endpoints.{mac_of_ip, connect_to, connect_container, disconnect_container}
use kc_docker.Network.Invariant.{created, connected, Reach, start, after, IsValid}
use kc_docker.Network.Reach.{Reach-IsValid}
use kc_docker.Network.Connections.{disconnect-connect_container}

abbrev lan_options : CreateOptions
lan_options = record {
  name = codes "lan";
  driver = codes "bridge";
  subnet = some (codes "10.1.0.0/29");
  gateway = some (codes "10.1.0.1");
  internal = false;
  attachable = false;
  labels = [];
}

abbrev lan : NetworkRecord
lan = record {
  id = codes "1d";
  name = codes "lan";
  driver = codes "bridge";
  subnet = codes "10.1.0.0/29";
  gateway = codes "10.1.0.1";
  internal = false;
  attachable = false;
  labels = [];
  dns_servers = [];
  created_at = 5;
  containers = [];
}

abbrev web_endpoint : NetworkEndpoint
web_endpoint = record {
  container_id = codes "c1";
  container_name = codes "web";
  ipv4_address = codes "10.1.0.2";
  mac_address = codes "02:42:0a:01:00:02";
}

abbrev lan_store : NetworkStoreData
lan_store = lan ∷ []

abbrev web_store : NetworkStoreData
web_store = record lan { containers = (codes "c1", web_endpoint) ∷ [] } ∷ []

lan_created : create_with_options lan_options (codes "1d") 5 [] ≡ ok (lan, lan_store)
unfolding create_with_options text_eq trim trim_end trim_start
lan_created = refl

first_host_is :
    allocate_ip_in_subnet (codes "10.1.0.0/29") (codes "10.1.0.1") [] ≡ ok (ipv4 10 1 0 2)
unfolding allocate_ip_in_subnet split_once split parse_ip parse_octet parse_uint parse_digits
    search_hosts first_free used_ips
first_host_is = refl

web_connected :
    connect_container (codes "lan") (codes "c1") (codes "web") lan_store
    ≡ ok (web_endpoint, web_store)
unfolding connect_container connect_to text_eq starts_with get insert mac_of_ip print_ip print_uint
    allocate_ip_in_subnet split_once split parse_ip parse_octet parse_uint parse_digits search_hosts
    first_free used_ips
web_connected = refl

web_reached : Reach web_store
web_reached =
    after (after start (created [] lan_store lan_options (codes "1d") 5 lan lan_created)) (
      connected lan_store web_store (codes "lan") (codes "c1") (codes "web") web_endpoint
        web_connected)

Reach-IsValid_example : IsValid web_store
Reach-IsValid_example = Reach-IsValid web_store web_reached

lan_found : find_first (matches_name (codes "lan")) lan_store ≡ some lan
unfolding text_eq starts_with
lan_found = refl

nobody_there : get lan.containers (codes "c1") ≡ none
unfolding get
nobody_there = refl

disconnect-connect_container_example :
    disconnect_container (codes "lan") (codes "c1") web_store ≡ ok lan_store
disconnect-connect_container_example =
    disconnect-connect_container (codes "lan") (codes "c1") (codes "web") lan_store web_store
      web_endpoint lan lan_found nobody_there web_connected

allocate_ip_in_subnet-IsAllocated_example :
    IsAllocated (codes "10.1.0.0/29") (codes "10.1.0.1") [] (ipv4 10 1 0 2)
allocate_ip_in_subnet-IsAllocated_example =
    allocate_ip_in_subnet-IsAllocated (codes "10.1.0.0/29") (codes "10.1.0.1") [] (ipv4 10 1 0 2)
      first_host_is

abbrev taken : List (Text × NetworkEndpoint)
taken = (codes "c1", web_endpoint) ∷ []

nothing_left : allocate_ip_in_subnet (codes "10.1.0.0/30") (codes "10.1.0.1") taken ≡ err exhausted
unfolding allocate_ip_in_subnet split_once split parse_ip parse_octet parse_uint parse_digits
    search_hosts first_free used_ips
nothing_left = refl

allocate_ip_in_subnet-IsFull_example : IsFull (codes "10.1.0.0/30") (codes "10.1.0.1") taken
allocate_ip_in_subnet-IsFull_example =
    allocate_ip_in_subnet-IsFull (codes "10.1.0.0/30") (codes "10.1.0.1") taken nothing_left

abbrev two_ports : List PortMapping
two_ports =
    record { host_ip = none; host_port = 8000; container_port = 80; protocol = codes "udp" }
    ∷ record { host_ip = none; host_port = 8001; container_port = 81; protocol = codes "udp" }
    ∷ []

two_ports_parsed : parse_all (codes "8000-8001:80-81/UDP") ≡ ok two_ports
unfolding parse_all map_parts pair_ports zip_ports parse_port_or_range split_once split parse_uint
    parse_digits
two_ports_parsed = refl

parse_all_iff_example :
    (parse_all (codes "8000-8001:80-81/UDP") ≡ ok two_ports)
    ↔ IsPublished (codes "8000-8001:80-81/UDP") two_ports
parse_all_iff_example = parse_all_iff (codes "8000-8001:80-81/UDP") two_ports

unequal_ranges_refused : parse_all (codes "8000-8005:80") ≡ err unequal_length
unfolding parse_all map_parts pair_ports zip_ports parse_port_or_range split split_once parse_uint
    parse_digits
unequal_ranges_refused = refl

-- The default network is guarded by its name alone: the beginning of its id removes it.
default_network_by_id :
    remove_with_force (codes "boxr00") false (ensure_default_network 0 [])
    ≡ ok (default_record 0, [])
unfolding remove_with_force ensure_default_network text_eq starts_with trim trim_end trim_start
default_network_by_id = refl

-- The default subnet is numbered by the count of networks, so it is given twice when one of the
-- networks between is removed: of the default network, `a` and `b`, `a` goes and `c` comes.
abbrev plain : Text → CreateOptions
plain name = record {
  name = name;
  driver = codes "bridge";
  subnet = none;
  gateway = none;
  internal = false;
  attachable = false;
  labels = [];
}

abbrev b_store : NetworkStoreData
b_store = default_record 0 ∷ new_record (plain (codes "b")) (codes "22") 2 2 ∷ []

b_left :
    remove_with_force (codes "a") false (
      default_record 0
      ∷ new_record (plain (codes "a")) (codes "11") 1 1
      ∷ new_record (plain (codes "b")) (codes "22") 2 2
      ∷ [])
    ≡ ok (new_record (plain (codes "a")) (codes "11") 1 1, b_store)
unfolding remove_with_force text_eq starts_with trim trim_end trim_start
b_left = refl

c_created :
    create_with_options (plain (codes "c")) (codes "33") 3 b_store
    ≡ ok (
      new_record (plain (codes "c")) (codes "33") 3 2,
      b_store ++ new_record (plain (codes "c")) (codes "33") 3 2 ∷ [],
    )
unfolding create_with_options text_eq trim trim_end trim_start
c_created = refl

subnet_given_twice :
    (new_record (plain (codes "c")) (codes "33") 3 2).subnet
    ≡ (new_record (plain (codes "b")) (codes "22") 2 2).subnet
subnet_given_twice = refl
