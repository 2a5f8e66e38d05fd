-- ===== src/UserNet/Packets.antt =====
-- Packet formats, src/network/usernet/packets.rs: constants, headers, parsers and writers.
-- A slice is the list of its bytes, `out: &mut Vec<u8>` is returned as the list that is appended.
pub mod Ethernet
pub mod Arp
pub mod Udp
pub mod Checksum
pub mod Ipv4
pub mod Tcp
use kc_docker.Shared.{
  ℕ, ◌+◌, Bool, ◌&&◌, List, [], ◌∷◌, ◌==◌, length, ltb, if◌then◌else◌, Option, none, some, byte_at,
  be16, be32,
}

-- `Ipv4Addr` by its octets.
pub record Ipv4Addr : Type 0 where
  pub o0 : ℕ
  pub o1 : ℕ
  pub o2 : ℕ
  pub o3 : ℕ

abbrev pub ipv4 : ℕ → ℕ → ℕ → ℕ → Ipv4Addr
ipv4 a b c d = record { o0 = a; o1 = b; o2 = c; o3 = d }

abbrev pub octets : Ipv4Addr → List ℕ
octets ip = ip.o0 ∷ ip.o1 ∷ ip.o2 ∷ ip.o3 ∷ []

abbrev pub ip_eq : Ipv4Addr → Ipv4Addr → Bool
ip_eq a b = a.o0 == b.o0 && (a.o1 == b.o1 && (a.o2 == b.o2 && a.o3 == b.o3))

-- `[u8; 6]`.
pub record MacAddr : Type 0 where
  pub m0 : ℕ
  pub m1 : ℕ
  pub m2 : ℕ
  pub m3 : ℕ
  pub m4 : ℕ
  pub m5 : ℕ

abbrev pub mac : ℕ → ℕ → ℕ → ℕ → ℕ → ℕ → MacAddr
mac a b c d e f = record { m0 = a; m1 = b; m2 = c; m3 = d; m4 = e; m5 = f }

abbrev pub mac_bytes : MacAddr → List ℕ
mac_bytes m = m.m0 ∷ m.m1 ∷ m.m2 ∷ m.m3 ∷ m.m4 ∷ m.m5 ∷ []

-- `copy_from_slice(&buf[i..i + 6])` and `Ipv4Addr::new(buf[i], …, buf[i + 3])`.
abbrev pub mac_at : List ℕ → ℕ → MacAddr
mac_at buf i =
    mac (byte_at buf i) (byte_at buf (i + 1)) (byte_at buf (i + 2)) (byte_at buf (i + 3))
      (byte_at buf (i + 4)) (byte_at buf (i + 5))

abbrev pub ip_at : List ℕ → ℕ → Ipv4Addr
ip_at buf i = ipv4 (byte_at buf i) (byte_at buf (i + 1)) (byte_at buf (i + 2)) (byte_at buf (i + 3))

abbrev pub u16_at : List ℕ → ℕ → ℕ
u16_at buf i = be16 (byte_at buf i) (byte_at buf (i + 1))

abbrev pub u32_at : List ℕ → ℕ → ℕ
u32_at buf i =
    be32 (byte_at buf i) (byte_at buf (i + 1)) (byte_at buf (i + 2)) (byte_at buf (i + 3))

-- The first `n` bytes of `buf` are read before `next`; a shorter `buf` is a panic.
abbrev pub within {ℓ} : {A : Type ℓ} → A → List ℕ → ℕ → A → A
within panicked buf n next = if ltb (length buf) n then panicked else next

-- What a caller makes of a parser's answer.
abbrev pub answer {ℓ} : {A : Type ℓ} {B : Type 0} → A → (B → A) → Option B → A
answer refused next none = refused
answer refused next (some b) = next b

abbrev pub default_container_ip : Ipv4Addr
default_container_ip = ipv4 10 0 2 15

abbrev pub default_gateway_ip : Ipv4Addr
default_gateway_ip = ipv4 10 0 2 2

abbrev pub default_dns_ip : Ipv4Addr
default_dns_ip = ipv4 10 0 2 3

abbrev pub virtual_gateway_mac : MacAddr
virtual_gateway_mac = mac 0x02 0x00 0x0a 0x00 0x02 0x02

abbrev pub ethertype_ipv4 : ℕ
ethertype_ipv4 = 0x0800

abbrev pub ethertype_arp : ℕ
ethertype_arp = 0x0806

abbrev pub ip_proto_icmp : ℕ
ip_proto_icmp = 1

abbrev pub ip_proto_tcp : ℕ
ip_proto_tcp = 6

abbrev pub ip_proto_udp : ℕ
ip_proto_udp = 17

pub record EthernetHeader : Type 0 where
  pub dst_mac : MacAddr
  pub src_mac : MacAddr
  pub ethertype : ℕ

pub record ArpPacket : Type 0 where
  pub htype : ℕ
  pub ptype : ℕ
  pub hlen : ℕ
  pub plen : ℕ
  pub opcode : ℕ
  pub sender_mac : MacAddr
  pub sender_ip : Ipv4Addr
  pub target_mac : MacAddr
  pub target_ip : Ipv4Addr

pub record Ipv4Header : Type 0 where
  pub ihl : ℕ
  pub tos : ℕ
  pub total_length : ℕ
  pub id : ℕ
  pub flags_and_frag : ℕ
  pub ttl : ℕ
  pub protocol : ℕ
  pub checksum : ℕ
  pub src_ip : Ipv4Addr
  pub dst_ip : Ipv4Addr

pub record UdpHeader : Type 0 where
  pub src_port : ℕ
  pub dst_port : ℕ
  pub length : ℕ
  pub checksum : ℕ

pub record TcpHeader : Type 0 where
  pub src_port : ℕ
  pub dst_port : ℕ
  pub seq_num : ℕ
  pub ack_num : ℕ
  pub data_offset : ℕ
  pub flags : ℕ
  pub window_size : ℕ
  pub checksum : ℕ
  pub urgent_ptr : ℕ
