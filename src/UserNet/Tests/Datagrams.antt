-- ===== src/UserNet/Tests/Datagrams.antt =====
-- Concrete ARP packets, echo requests and DNS queries.
use kc_docker.Shared.{ℕ, none, some, List, [], ◌∷◌, ◌++◌, drop, ◌≡◌, refl, arith, inl, inr}
use kc_docker.UserNet.Packets.{
  Ipv4Addr, ipv4, mac, ArpPacket, UdpHeader, ethertype_ipv4, ethertype_arp,
}
use kc_docker.UserNet.Packets.Ethernet
use kc_docker.UserNet.Packets.Arp
use kc_docker.UserNet.Packets.Ipv4
use kc_docker.UserNet.Packets.Udp
use kc_docker.UserNet.Engine.{handle_incoming_frame, forward_dns_query, ask_targets, read_into}
use kc_docker.UserNet.Engine.Resolution.{IsArpFrame, IsOurs}
use kc_docker.UserNet.Engine.Datagrams.{IsIpFrame, IsEchoRequest}
use kc_docker.UserNet.Engine.Dns.{IsQuery, IsDnsReply, handle_incoming_frame-dns}
use kc_docker.UserNet.Tests.{host, offline, engine, container_eth, eth_bytes, ip_header, ip_bytes}

abbrev asked : Ipv4Addr → ArpPacket
asked target = record {
  htype = 1;
  ptype = 0x0800;
  hlen = 6;
  plen = 4;
  opcode = 1;
  sender_mac = mac 2 0 10 0 2 15;
  sender_ip = ipv4 10 0 2 15;
  target_mac = mac 0 0 0 0 0 0;
  target_ip = target;
}

abbrev arp_frame : Ipv4Addr → List ℕ
arp_frame target =
    eth_bytes 6
    ++ 0 ∷ 1 ∷ 8 ∷ 0 ∷ 6 ∷ 4 ∷ 0 ∷ 1 ∷ 2 ∷ 0 ∷ 10 ∷ 0 ∷ 2 ∷ 15 ∷ 10 ∷ 0 ∷ 2 ∷ 15 ∷ 0 ∷ 0 ∷ 0 ∷ 0 ∷ 0
      ∷ 0 ∷ target.o0 ∷ target.o1 ∷ target.o2 ∷ target.o3 ∷ []

gateway_asked :
    IsArpFrame (arp_frame (ipv4 10 0 2 2)) (container_eth ethertype_arp) (asked (ipv4 10 0 2 2))
unfolding Ethernet.parse Arp.parse
gateway_asked = record {
  packet = drop 14 (arp_frame (ipv4 10 0 2 2));
  is_bytes = omega arith;
  reads_eth = refl;
  is_arp = refl;
  reads_arp = refl;
}

other_asked :
    IsArpFrame (arp_frame (ipv4 10 0 2 9)) (container_eth ethertype_arp) (asked (ipv4 10 0 2 9))
unfolding Ethernet.parse Arp.parse
other_asked = record {
  packet = drop 14 (arp_frame (ipv4 10 0 2 9));
  is_bytes = omega arith;
  reads_eth = refl;
  is_arp = refl;
  reads_arp = refl;
}

other-IsOurs : ¬ IsOurs engine (ipv4 10 0 2 9)
other-IsOurs (inl e) = absurd (ground arith)
other-IsOurs (inr e) = absurd (ground arith)

-- Type 8, code 0, identifier 1, sequence number 2, two bytes of data.
abbrev ping : List ℕ
ping = 8 ∷ 0 ∷ 1 ∷ 2 ∷ 0 ∷ 1 ∷ 0 ∷ 2 ∷ 65 ∷ 66 ∷ []

abbrev gateway : Ipv4Addr
gateway = ipv4 10 0 2 2

abbrev ping_frame : List ℕ
ping_frame = eth_bytes 0 ++ (ip_bytes 30 1 gateway ++ ping)

ping_is_frame : IsIpFrame ping_frame (container_eth ethertype_ipv4) (ip_header 30 1 gateway) ping
unfolding Ethernet.parse Ipv4.parse
ping_is_frame = record {
  packet = ip_bytes 30 1 gateway ++ ping;
  is_bytes = omega arith;
  reads_eth = refl;
  is_ipv4 = refl;
  reads_ip = refl;
}

ping_is_request : IsEchoRequest ping
ping_is_request = record { long_enough = omega arith; type_8 = refl; code_0 = refl }

-- From port 40000 to port 53.
abbrev query_datagram : List ℕ
query_datagram = 156 ∷ 64 ∷ 0 ∷ 53 ∷ 0 ∷ 10 ∷ 0 ∷ 0 ∷ 1 ∷ 2 ∷ []

abbrev query_udp : UdpHeader
query_udp = record { src_port = 40000; dst_port = 53; length = 10; checksum = 0 }

abbrev query_frame : List ℕ
query_frame = eth_bytes 0 ++ (ip_bytes 30 17 gateway ++ query_datagram)

query_is_frame :
    IsIpFrame query_frame (container_eth ethertype_ipv4) (ip_header 30 17 gateway) query_datagram
unfolding Ethernet.parse Ipv4.parse
query_is_frame = record {
  packet = ip_bytes 30 17 gateway ++ query_datagram;
  is_bytes = omega arith;
  reads_eth = refl;
  is_ipv4 = refl;
  reads_ip = refl;
}

datagram-IsQuery : IsQuery query_datagram query_udp (1 ∷ 2 ∷ [])
unfolding Udp.parse
datagram-IsQuery = record { reads_udp = refl; to_dns = refl }

resolver_answers : forward_dns_query host (1 ∷ 2 ∷ []) ≡ some (7 ∷ 9 ∷ [])
unfolding forward_dns_query ask_targets read_into
resolver_answers = refl

no_resolver : forward_dns_query offline (1 ∷ 2 ∷ []) ≡ none
unfolding forward_dns_query ask_targets
no_resolver = refl

handle_incoming_frame-dns_example :
    IsDnsReply
      (container_eth ethertype_ipv4)
      (ip_header 30 17 gateway)
      query_udp
      (7 ∷ 9 ∷ [])
      (handle_incoming_frame host engine query_frame)
handle_incoming_frame-dns_example =
    handle_incoming_frame-dns query_is_frame host engine datagram-IsQuery (7 ∷ 9 ∷ []) refl
      (inl refl) resolver_answers
