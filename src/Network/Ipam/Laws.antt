-- ===== src/Network/Ipam/Laws.antt =====
-- What `allocate_ip_in_subnet` gives: the addresses of a subnet, in use or free.
use kc_docker.Shared.{
  ℕ, ◌+◌, ◌-◌, ◌^◌, ◌≤◌, ◌<◌, false, ◌||◌, Option, none, some, List, Text, ltb, ◌≡◌, ◌≢◌, arith,
  Bool-cases, inl, inr, split_once, parse_uint, Option-cases, ap, subst, ◌∙◌,
}
use kc_docker.Shared.Result.{Result, ok, err, ok_or}
use kc_docker.UserNet.Packets.{Ipv4Addr}
use kc_docker.UserNet.Packets.Ipv4.Laws.{IsAddr}
use kc_docker.Network.Addresses.{
  parse_ip, ip_to_u32, ip_of_u32, parse_ip-IsAddr, ip_to_u32_of_u32, ip_of_u32-IsAddr,
}
use kc_docker.Network.Ipam.{
  NetworkEndpoint, IpError, exhausted, used_ips, network_of, broadcast_of, allocate_ip_in_subnet,
}
use kc_docker.Network.Ipam.Search.{IsFree, IsFirstFree, FirstFree, search_hosts-FirstFree}
use kc_docker.Network.Ipam.Ranges.{network_bound, same_network}

-- What the two texts say: a CIDR subnet with `32 - bits` leading mask bits, and an address.
pub record Reads (subnet_str gateway_str : Text) (base : Ipv4Addr) (bits : ℕ) (gateway : Ipv4Addr)
    : Type 0 where
  pub ip_part : Text
  pub mask_part : Text
  pub subnet_is : split_once subnet_str b'/' ≡ some (ip_part, mask_part)
  pub base_is : parse_ip ip_part ≡ some base
  pub prefix_is : parse_uint 4294967295 mask_part ≡ some (32 - bits)
  pub gateway_is : parse_ip gateway_str ≡ some gateway
  pub bits_min : 2 ≤ bits
  pub bits_max : bits ≤ 24

-- What the allocator promises about the address that it returns.
pub record IsAllocated (subnet_str gateway_str : Text) (existing : List (Text × NetworkEndpoint))
    (ip : Ipv4Addr) : Type 0 where
  pub base : Ipv4Addr
  pub bits : ℕ
  pub gateway : Ipv4Addr
  pub reads : Reads subnet_str gateway_str base bits gateway
  pub octets_fit : IsAddr ip
  pub in_subnet : network_of bits (ip_to_u32 ip) ≡ network_of bits (ip_to_u32 base)
  pub not_network : ip_to_u32 ip ≢ network_of bits (ip_to_u32 base)
  pub not_broadcast : ip_to_u32 ip ≢ broadcast_of bits (ip_to_u32 base)
  pub free : IsFree gateway (used_ips existing) ip
  pub lowest :
      (n : ℕ)
      → network_of bits (ip_to_u32 base) < n
      → n < ip_to_u32 ip
      → ¬ IsFree gateway (used_ips existing) (ip_of_u32 n)

-- Every host address of the subnet is the gateway's or in use.
pub record IsFull (subnet_str gateway_str : Text) (existing : List (Text × NetworkEndpoint))
    : Type 0 where
  pub base : Ipv4Addr
  pub bits : ℕ
  pub gateway : Ipv4Addr
  pub reads : Reads subnet_str gateway_str base bits gateway
  pub all_taken :
      (n : ℕ)
      → network_of bits (ip_to_u32 base) < n
      → n < broadcast_of bits (ip_to_u32 base)
      → ¬ IsFree gateway (used_ips existing) (ip_of_u32 n)

abbrev Allocates : Text → Text → List (Text × NetworkEndpoint) → Result IpError Ipv4Addr → Type 0
Allocates subnet_str gateway_str existing (ok ip) = IsAllocated subnet_str gateway_str existing ip
Allocates subnet_str gateway_str existing (err exhausted) = IsFull subnet_str gateway_str existing
Allocates subnet_str gateway_str existing (err e) = Unit

module _ (subnet_str gateway_str : Text) (existing : List (Text × NetworkEndpoint))
    (base gateway : Ipv4Addr) (bits : ℕ) (r : Reads subnet_str gateway_str base bits gateway) where
  first_IsAllocated :
      (ip : Ipv4Addr)
      → IsFirstFree gateway
          (used_ips existing)
          (network_of bits (ip_to_u32 base) + 1)
          (broadcast_of bits (ip_to_u32 base))
          ip
      → IsAllocated subnet_str gateway_str existing ip
  first_IsAllocated ip f =
      let b = ip_to_u32 base in
      let base_fits : IsAddr base = parse_ip-IsAddr r.ip_part base r.base_is in
      let bound : network_of bits b + 2 ^ bits ≤ 2 ^ 32 =
        network_bound bits b (omega (arith, r.bits_max)) (omega (arith, base_fits)) in
      let host_is : ip_to_u32 ip ≡ f.host =
        ap ip_to_u32 f.ip_is ∙ ip_to_u32_of_u32 f.host (omega (arith, f.below)) in
      record {
        base = base;
        bits = bits;
        gateway = gateway;
        reads = r;
        octets_fit = rw f.ip_is (ip_of_u32-IsAddr f.host);
        in_subnet =
            rw host_is
              (same_network bits b f.host (omega (arith, f.above)) (omega (arith, f.below)));
        not_network = omega (arith, f.above);
        not_broadcast = omega (arith, f.below);
        free = f.free;
        lowest = λ n low lt. f.earlier n (omega arith) (omega arith);
      }

  search_Allocates :
      (found : Option Ipv4Addr)
      → FirstFree gateway
          (used_ips existing)
          (network_of bits (ip_to_u32 base) + 1)
          (broadcast_of bits (ip_to_u32 base))
          found
      → Allocates subnet_str gateway_str existing (ok_or found exhausted)
  search_Allocates none all = record {
    base = base;
    bits = bits;
    gateway = gateway;
    reads = r;
    all_taken = λ n low lt. all n (omega arith) lt;
  }
  search_Allocates (some ip) f = first_IsAllocated ip f

prefix_of_range : (n : ℕ) → (ltb 30 n || ltb n 8) ≡ false → n ≡ 32 - (32 - n)
prefix_of_range n h = ground arith

allocate-Allocates :
    (subnet_str gateway_str : Text) (existing : List (Text × NetworkEndpoint))
    → Allocates subnet_str gateway_str existing
        (allocate_ip_in_subnet subnet_str gateway_str existing)
unfolding allocate_ip_in_subnet
allocate-Allocates subnet_str gateway_str existing =
    elim (Option-cases (split_once subnet_str b'/')) [
      | inl no_slash ↦ rw no_slash tt
      | inr ((ip_part, mask_part), slash) ↦ rw slash (elim (Option-cases (parse_ip ip_part)) [
        | inl bad_base ↦ rw bad_base tt
        | inr (base, base_is) ↦ rw base_is (elim (Option-cases (parse_uint 4294967295 mask_part)) [
          | inl bad_mask ↦ rw bad_mask tt
          | inr (prefix_len, mask_is) ↦ rw mask_is (elim (Option-cases (parse_ip gateway_str)) [
            | inl bad_gateway ↦ rw bad_gateway tt
            | inr (gateway, gateway_is) ↦
                rw gateway_is (elim (Bool-cases (ltb 30 prefix_len || ltb prefix_len 8)) [
                  | inl unsupported ↦ rw unsupported tt
                  | inr good ↦ rw good (
                      search_Allocates subnet_str gateway_str existing base gateway
                        (32 - prefix_len)
                        (record {
                          ip_part = ip_part;
                          mask_part = mask_part;
                          subnet_is = slash;
                          base_is = base_is;
                          prefix_is = mask_is ∙ ap some (prefix_of_range prefix_len good);
                          gateway_is = gateway_is;
                          bits_min = ground arith;
                          bits_max = ground arith;
                        })
                        _
                        (search_hosts-FirstFree (32 - prefix_len) (ip_to_u32 base) gateway
                          (used_ips existing) (ground arith)))
                ])
          ])
        ])
      ])
    ]

-- An allocated address is a host address of the subnet, not the network's and not the broadcast
-- address, not the gateway's and not in use, and it is the lowest such address.
pub allocate_ip_in_subnet-IsAllocated :
    (subnet_str gateway_str : Text) (existing : List (Text × NetworkEndpoint)) (ip : Ipv4Addr)
    → allocate_ip_in_subnet subnet_str gateway_str existing ≡ ok ip
    → IsAllocated subnet_str gateway_str existing ip
allocate_ip_in_subnet-IsAllocated subnet_str gateway_str existing ip e =
    subst (Allocates subnet_str gateway_str existing) e
      (allocate-Allocates subnet_str gateway_str existing)

-- The allocator says that the subnet is exhausted only where no host address is left.
pub allocate_ip_in_subnet-IsFull :
    (subnet_str gateway_str : Text) (existing : List (Text × NetworkEndpoint))
    → allocate_ip_in_subnet subnet_str gateway_str existing ≡ err exhausted
    → IsFull subnet_str gateway_str existing
allocate_ip_in_subnet-IsFull subnet_str gateway_str existing e =
    subst (Allocates subnet_str gateway_str existing) e
      (allocate-Allocates subnet_str gateway_str existing)
