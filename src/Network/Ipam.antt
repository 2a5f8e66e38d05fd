-- ===== src/Network/Ipam.antt =====
-- `allocate_ip_in_subnet`.
pub mod Search
pub mod Ranges
pub mod Laws
use kc_docker.Shared.{
  ℕ, zero, suc, ◌+◌, ◌-◌, ◌*◌, ◌/◌, ◌^◌, Bool, false, ◌||◌, ◌&&◌, not, Option, none, some, List, [],
  ◌∷◌, if◌then◌else◌, Text, ltb, split_once, parse_uint,
}
use kc_docker.Shared.Result.{Result, err, ◌>>=◌, ok_or}
use kc_docker.UserNet.Packets.{Ipv4Addr, ip_eq}
use kc_docker.Network.Addresses.{parse_ip, ip_to_u32, ip_of_u32}

pub record NetworkEndpoint : Type 0 where
  pub container_id : Text
  pub container_name : Text
  pub ipv4_address : Text
  pub mac_address : Text

pub data IpError : Type 0 where
  invalid_cidr invalid_address invalid_prefix unsupported_prefix exhausted : IpError

-- `existing.values().filter_map(|e| e.ipv4_address.parse().ok())`.
unfoldable pub used_ips : List (Text × NetworkEndpoint) → List Ipv4Addr
used_ips [] = []
used_ips ((k, endpoint) ∷ rest) = elim (parse_ip endpoint.ipv4_address) [
  | none ↦ used_ips rest
  | some ip ↦ ip ∷ used_ips rest
]

abbrev pub contains_ip : List Ipv4Addr → Ipv4Addr → Bool
contains_ip [] ip = false
contains_ip (x ∷ xs) ip = ip_eq x ip || contains_ip xs ip

-- `base & mask` and `base | !mask` for the mask of `32 - bits` leading ones, as arithmetic.
abbrev pub network_of : ℕ → ℕ → ℕ
network_of bits n = n / 2 ^ bits * 2 ^ bits

abbrev pub broadcast_of : ℕ → ℕ → ℕ
broadcast_of bits n = network_of bits n + (2 ^ bits - 1)

-- The loop over `host_int`, with the number of candidates left.
unfoldable pub first_free : Ipv4Addr → List Ipv4Addr → ℕ → ℕ → Option Ipv4Addr
first_free gateway used zero host_int = none
first_free gateway used (suc left) host_int =
    let rest = first_free gateway used left (host_int + 1) in
    if not (ip_eq (ip_of_u32 host_int) gateway) && not (contains_ip used (ip_of_u32 host_int))
    then some (ip_of_u32 host_int)
    else rest

-- `start_host..=end_host`, from one after the network address to one before the broadcast.
unfoldable pub search_hosts : ℕ → ℕ → Ipv4Addr → List Ipv4Addr → Option Ipv4Addr
search_hosts bits base gateway used =
    let start_host = network_of bits base + 1 in
    let end_host = broadcast_of bits base - 1 in
    first_free gateway used (end_host + 1 - start_host) start_host

unfoldable pub allocate_ip_in_subnet :
    Text → Text → List (Text × NetworkEndpoint) → Result IpError Ipv4Addr
allocate_ip_in_subnet subnet_str gateway_str existing = do
  (ip_part, mask_part) ← ok_or (split_once subnet_str b'/') invalid_cidr
  base_ip ← ok_or (parse_ip ip_part) invalid_address
  prefix_len ← ok_or (parse_uint 4294967295 mask_part) invalid_prefix
  gateway ← ok_or (parse_ip gateway_str) invalid_address
  if ltb 30 prefix_len || ltb prefix_len 8
      then err unsupported_prefix
      else ok_or (search_hosts (32 - prefix_len) (ip_to_u32 base_ip) gateway (used_ips existing))
          exhausted
