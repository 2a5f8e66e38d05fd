-- ===== src/UserNet/Engine/Replies.antt =====
-- Every IPv4 reply of the engine, as a receiver reads it.
use kc_docker.Shared.{
  ℕ, ◌+◌, ◌≤◌, some, List, [], ◌++◌, length, take, length-take, ◌≡◌, refl, arith, append-nil,
  length-append, IsWord, IsByte, u16,
}
use kc_docker.UserNet.Packets.{
  Ipv4Addr, EthernetHeader, Ipv4Header, ethertype_ipv4, virtual_gateway_mac,
}
use kc_docker.UserNet.Packets.Checksum.{compute_checksum}
use kc_docker.UserNet.Packets.Checksum.Verify.{compute_checksum-IsWord}
use kc_docker.UserNet.Packets.Ethernet
use kc_docker.UserNet.Packets.Ipv4
use kc_docker.UserNet.Packets.Ipv4.{header_bytes}
use kc_docker.UserNet.Packets.Ipv4.Laws.{
  IsPlain, IsAddr, stored_checksum, write_to_plain, parse-header_bytes, header_bytes_verifies,
}
use kc_docker.UserNet.Engine.{Outcome, frame, send_ipv4, read_into, reply_ip}

-- What the sender of `eth` and `ip` waits for: packets from the gateway's link address and from the
-- address that it sent to, back to its own.
abbrev pub back_eth : EthernetHeader → EthernetHeader
back_eth eth = record {
  dst_mac = eth.src_mac;
  src_mac = virtual_gateway_mac;
  ethertype = ethertype_ipv4;
}

abbrev pub back_ip : Ipv4Header → ℕ → ℕ → ℕ → Ipv4Header
back_ip ip total_length flags_and_frag protocol = record {
  ihl = 5;
  tos = 0;
  total_length = total_length;
  id = u16 (ip.id + 1);
  flags_and_frag = flags_and_frag;
  ttl = 64;
  protocol = protocol;
  checksum = 0;
  src_ip = ip.dst_ip;
  dst_ip = ip.src_ip;
}

-- The outcome is a frame that reads as the Ethernet header `eth`, an IPv4 header `ip` whose
-- checksum verifies, and `body`, with nothing before or after.
pub record Carries (eth : EthernetHeader) (ip : Ipv4Header) (body : List ℕ) (o : Outcome)
    : Type 0 where
  pub bytes : List ℕ
  pub packet : List ℕ
  pub checksum : ℕ
  pub is_frame : o ≡ frame bytes
  pub reads_eth : Ethernet.parse bytes ≡ some (eth, packet)
  pub reads_ip : Ipv4.parse packet ≡ some (record ip { checksum = checksum }, body)
  pub header_sums : compute_checksum (take 20 packet) ≡ 0
  pub exact_length : length bytes ≡ 14 + ip.total_length

length-header_bytes : (h : Ipv4Header) (c : ℕ) → length (header_bytes h c) ≡ 20
unfolding header_bytes
length-header_bytes h c = refl

length-ethernet : (h : EthernetHeader) → length (Ethernet.write_to h) ≡ 14
unfolding Ethernet.write_to
length-ethernet h = refl

take-header :
    (h : Ipv4Header) (c : ℕ) (body : List ℕ) → take 20 (header_bytes h c ++ body) ≡ header_bytes h c
unfolding header_bytes
take-header h c body = refl

pub send_ipv4_plain :
    (eth : EthernetHeader) (ip : Ipv4Header) (body : List ℕ)
    → ip.ihl ≡ 5
    → send_ipv4 eth ip body
      ≡ frame (Ethernet.write_to eth ++ (header_bytes ip (stored_checksum ip) ++ body))
unfolding send_ipv4
send_ipv4_plain eth ip body e = rw (write_to_plain ip e, send_ipv4)

pub send_ipv4-Carries :
    (eth : EthernetHeader) (ip : Ipv4Header) (body : List ℕ)
    → IsWord eth.ethertype
    → IsPlain ip
    → ip.total_length ≡ 20 + length body
    → Carries eth ip body (send_ipv4 eth ip body)
send_ipv4-Carries eth ip body w v e = record {
  bytes = Ethernet.write_to eth ++ (header ++ body);
  packet = header ++ body;
  checksum = c;
  is_frame = sends;
  reads_eth = Ethernet.parse-write_to_frame eth (header ++ body) w;
  reads_ip =
      let r = parse-header_bytes ip c body [] v (compute_checksum-IsWord (header_bytes ip 0)) e in
      rw append-nil at r;
  header_sums = rw (take-header ip c body) (header_bytes_verifies ip v);
  exact_length = omega (
    arith,
    length-append (Ethernet.write_to eth) (header ++ body),
    length-append header body,
    length-ethernet eth,
    length-header_bytes ip c,
  );
}
  where
    c : ℕ
    c = stored_checksum ip

    header : List ℕ
    header = header_bytes ip c

    sends : send_ipv4 eth ip body ≡ frame (Ethernet.write_to eth ++ (header ++ body))
    sends = send_ipv4_plain eth ip body v.no_options

pub reply_ip-IsPlain :
    (ip : Ipv4Header) (total flags proto : ℕ) (src : Ipv4Addr)
    → IsWord total
    → IsWord flags
    → IsByte proto
    → IsAddr src
    → IsAddr ip.src_ip
    → IsPlain (reply_ip ip total flags proto src)
reply_ip-IsPlain ip total flags proto src t f p s d = record {
  no_options = refl;
  tos_fits = omega arith;
  length_fits = t;
  id_fits = omega arith;
  flags_fit = f;
  ttl_fits = omega arith;
  protocol_fits = p;
  src_fits = s;
  dst_fits = d;
}

pub length-read_into : (limit : ℕ) (received : List ℕ) → length (read_into limit received) ≤ limit
unfolding read_into
length-read_into limit received = omega (arith, length-take limit received)
