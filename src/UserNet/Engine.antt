-- ===== src/UserNet/Engine.antt =====
-- `UserNetEngine`, src/network/usernet/engine.rs: the frame handlers and the DNS forwarder.
-- The host's sockets are the parameter `Host`.
pub mod Replies
pub mod Resolution
pub mod Segments
pub mod Handshake
pub mod Datagrams
pub mod Dns
pub mod Frames
use kc_docker.Shared.{
  ℕ, ◌+◌, ◌≤◌, ◌<◌, ◌≡◌, arith, ◌==◌, Bool, true, Option, none, some, List, [], ◌∷◌, ◌++◌, ltb,
  if◌then◌else◌, length, take, set, not, ◌||◌, ◌&&◌, Text, codes, u16, u32, bit_at, byte_at,
  is_empty, ◌/◌, ◌%◌,
}
use kc_docker.Network.Ports.{PortMapping}
use kc_docker.UserNet.Packets.{
  Ipv4Addr, ip_eq, default_container_ip, default_gateway_ip, default_dns_ip, virtual_gateway_mac,
  ethertype_arp, ethertype_ipv4, ip_proto_icmp, ip_proto_tcp, ip_proto_udp, EthernetHeader,
  Ipv4Header, UdpHeader, TcpHeader,
}
use kc_docker.UserNet.Packets.Checksum.{compute_checksum, compute_tcp_checksum}
use kc_docker.UserNet.Packets.Ethernet
use kc_docker.UserNet.Packets.Arp
use kc_docker.UserNet.Packets.Ipv4
use kc_docker.UserNet.Packets.Udp
use kc_docker.UserNet.Packets.Tcp

-- What the operating system's sockets answer: `bind` and `set_read_timeout` of the DNS socket,
-- `send_to` and `recv_from` for a target, `connect_timeout`, and the read after a write.
pub record Host : Type 0 where
  pub binds : Bool
  pub sets_timeout : Bool
  pub sends_to : Text → List ℕ → Bool
  pub receives : Text → List ℕ → Option (List ℕ)
  pub connects : Ipv4Addr → ℕ → Bool
  pub reads : Ipv4Addr → ℕ → List ℕ → Option (List ℕ)

pub record UserNetEngine : Type 0 where
  pub container_ip : Ipv4Addr
  pub gateway_ip : Ipv4Addr
  pub dns_ip : Ipv4Addr
  pub ports : List PortMapping
  pub running : Bool

abbrev pub new : List PortMapping → UserNetEngine
new ports = record {
  container_ip = default_container_ip;
  gateway_ip = default_gateway_ip;
  dns_ip = default_dns_ip;
  ports = ports;
  running = true;
}

-- A handler's `Option<Vec<u8>>`, and the panic of an index or a slice out of range.
pub data Outcome : Type 0 where
  silent : Outcome
  frame : List ℕ → Outcome
  panic : Outcome

-- The first `n` bytes of `buf` are written before `outcome`; a shorter `buf` is a panic.
unfoldable pub in_range : List ℕ → ℕ → Outcome → Outcome
in_range buf n outcome = if ltb (length buf) n then panic else outcome

-- `buf[i]`, and what is done with it.
unfoldable pub index : List ℕ → ℕ → (ℕ → Outcome) → Outcome
index buf i next = if ltb i (length buf) then next (byte_at buf i) else panic

-- `buf[i..i + 2].copy_from_slice(&v.to_be_bytes())`.
abbrev pub store16 : List ℕ → ℕ → ℕ → List ℕ
store16 buf i v = set (set buf i (v / 256 % 256)) (i + 1) (v % 256)

-- `reply_eth.write_to`, `reply_ip.write_to`, and the bytes that follow.
unfoldable pub send_ipv4 : EthernetHeader → Ipv4Header → List ℕ → Outcome
send_ipv4 eth ip body = elim (Ipv4.write_to ip) [
  | none ↦ panic
  | some header ↦ frame (Ethernet.write_to eth ++ (header ++ body))
]

-- The Ethernet header of every reply.
abbrev pub reply_eth : EthernetHeader → ℕ → EthernetHeader
reply_eth eth ethertype = record {
  dst_mac = eth.src_mac;
  src_mac = virtual_gateway_mac;
  ethertype = ethertype;
}

-- The IPv4 header of every reply to `ip`; what differs is listed.
abbrev pub reply_ip : Ipv4Header → ℕ → ℕ → ℕ → Ipv4Addr → Ipv4Header
reply_ip ip total_length flags_and_frag protocol src_ip = record {
  ihl = 5;
  tos = 0;
  total_length = total_length;
  id = u16 (ip.id + 1);
  flags_and_frag = flags_and_frag;
  ttl = 64;
  protocol = protocol;
  checksum = 0;
  src_ip = src_ip;
  dst_ip = ip.src_ip;
}

-- The TCP header of every reply to `tcp`.
abbrev pub reply_tcp : TcpHeader → ℕ → ℕ → ℕ → TcpHeader
reply_tcp tcp seq_num ack_num flags = record {
  src_port = tcp.dst_port;
  dst_port = tcp.src_port;
  seq_num = seq_num;
  ack_num = ack_num;
  data_offset = 20;
  flags = flags;
  window_size = 65535;
  checksum = 0;
  urgent_ptr = 0;
}

-- The segment with its checksum stored at offset 16.
unfoldable pub with_tcp_checksum : Ipv4Header → List ℕ → List ℕ
with_tcp_checksum ip segment =
    store16 segment 16 (compute_tcp_checksum ip.src_ip ip.dst_ip ip_proto_tcp segment)

unfoldable pub send_tcp : EthernetHeader → Ipv4Header → TcpHeader → List ℕ → Outcome
send_tcp eth ip tcp payload =
    let segment = Tcp.write_to tcp ++ payload in
    in_range segment 18 (send_ipv4 (reply_eth eth ethertype_ipv4) ip (with_tcp_checksum ip segment))

abbrev upstream_targets : List Text
upstream_targets =
    codes "127.0.0.53:53" ∷ codes "192.168.64.1:53" ∷ codes "1.1.1.1:53" ∷ codes "8.8.8.8:53" ∷ []

-- The request with type 0 and its checksum field cleared, then with the new checksum.
unfoldable pub echo_reply : List ℕ → List ℕ
echo_reply payload =
    let cleared = set (set (set payload 0 0) 2 0) 3 0 in
    store16 cleared 2 (compute_checksum cleared)

-- A read into a buffer of `limit` bytes.
unfoldable pub read_into : ℕ → List ℕ → List ℕ
read_into limit received = take limit received

module _ (host : Host) where
  -- The loop over the resolvers; a datagram is cut at the buffer's 4096 bytes.
  unfoldable pub ask_targets : List ℕ → List Text → Option (List ℕ)
  ask_targets query [] = none
  ask_targets query (target ∷ targets) =
      let others = ask_targets query targets in
      if host.sends_to target query
      then elim (host.receives target query) [
        | some reply ↦ some (read_into 4096 reply)
        | none ↦ others
      ]
      else others

  unfoldable pub forward_dns_query : List ℕ → Option (List ℕ)
  forward_dns_query query =
      if host.binds && host.sets_timeout then ask_targets query upstream_targets else none

  -- A write and a read of at most 16384 bytes; an empty read is no reply.
  unfoldable pub exchange : Ipv4Addr → ℕ → List ℕ → Option (List ℕ)
  exchange dst port bytes =
      if host.connects dst port
      then elim (host.reads dst port bytes) [
        | none ↦ none
        | some response ↦ if is_empty response then none else some (read_into 16384 response)
      ]
      else none

  module _ (engine : UserNetEngine) where
    unfoldable pub handle_arp : EthernetHeader → List ℕ → Outcome
    handle_arp eth payload =
        Arp.parse_with silent panic
          (λ arp.
            if not (arp.opcode == 1)
            then silent
            else if ip_eq arp.target_ip engine.gateway_ip || ip_eq arp.target_ip engine.dns_ip
            then frame (
                Ethernet.write_to (reply_eth eth ethertype_arp)
                ++ Arp.write_reply arp virtual_gateway_mac)
            else silent)
          payload

    unfoldable pub answer_data : EthernetHeader → Ipv4Header → TcpHeader → List ℕ → Outcome
    answer_data eth ip tcp bytes =
        if is_empty bytes then silent else elim (exchange ip.dst_ip tcp.dst_port bytes) [
          | none ↦ silent
          | some response ↦
              send_tcp eth
                (reply_ip ip (u16 (20 + 20 + length response)) 0x4000 ip_proto_tcp ip.dst_ip)
                (reply_tcp tcp tcp.ack_num (u32 (tcp.seq_num + u32 (length bytes))) 0x18) response
        ]

    -- SYN, then FIN, then data.
    unfoldable pub handle_tcp : EthernetHeader → Ipv4Header → List ℕ → Outcome
    handle_tcp eth ip payload =
        Tcp.parse_with silent panic
          (λ tcp bytes.
            if bit_at tcp.flags 1 == 1
            then send_tcp eth (reply_ip ip 40 0x4000 ip_proto_tcp ip.dst_ip)
                (reply_tcp tcp 1000 (u32 (tcp.seq_num + 1)) 0x12) []
            else if bit_at tcp.flags 0 == 1
            then send_tcp eth (reply_ip ip 40 0 ip_proto_tcp ip.dst_ip)
                (reply_tcp tcp tcp.ack_num (u32 (tcp.seq_num + 1)) 0x11) []
            else answer_data eth ip tcp bytes)
          payload

    unfoldable pub handle_icmp : EthernetHeader → Ipv4Header → List ℕ → Outcome
    handle_icmp eth ip payload =
        if ltb (length payload) 8
        then silent
        else index payload 0 (λ kind.
          if not (kind == 8)
          then silent
          else index payload 1 (λ code.
            if not (code == 0)
            then silent
            else if ip_eq ip.dst_ip engine.gateway_ip
            then in_range payload 4 (
                send_ipv4 (reply_eth eth ethertype_ipv4)
                  (reply_ip ip (u16 (20 + u16 (length (echo_reply payload)))) 0 ip_proto_icmp
                    engine.gateway_ip)
                  (echo_reply payload))
            else silent))

    unfoldable pub handle_udp : EthernetHeader → Ipv4Header → List ℕ → Outcome
    handle_udp eth ip payload =
        Udp.parse_with silent panic
          (λ udp query.
            if (ip_eq ip.dst_ip engine.gateway_ip || ip_eq ip.dst_ip engine.dns_ip)
              && udp.dst_port == 53
            then elim (forward_dns_query query) [
              | none ↦ silent
              | some reply ↦
                  let udp_reply : UdpHeader = record {
                    src_port = 53;
                    dst_port = udp.src_port;
                    length = u16 (8 + length reply);
                    checksum = 0;
                  } in
                  send_ipv4 (reply_eth eth ethertype_ipv4)
                    (reply_ip ip (u16 (20 + 8 + length reply)) 0 ip_proto_udp ip.dst_ip)
                    (Udp.write_to udp_reply ++ reply)
            ]
            else silent)
          payload

    unfoldable pub handle_ipv4 : EthernetHeader → List ℕ → Outcome
    handle_ipv4 eth payload =
        Ipv4.parse_with silent panic
          (λ ip body.
            if ip.protocol == ip_proto_icmp
            then handle_icmp eth ip body
            else if ip.protocol == ip_proto_udp
            then handle_udp eth ip body
            else if ip.protocol == ip_proto_tcp
            then handle_tcp eth ip body
            else silent)
          payload

    unfoldable pub handle_incoming_frame : List ℕ → Outcome
    handle_incoming_frame bytes =
        Ethernet.parse_with silent panic
          (λ eth payload.
            if eth.ethertype == ethertype_arp
            then handle_arp eth payload
            else if eth.ethertype == ethertype_ipv4
            then handle_ipv4 eth payload
            else silent)
          bytes

pub in_range-enough :
    {n : ℕ} {outcome : Outcome} (buf : List ℕ) → n ≤ length buf → in_range buf n outcome ≡ outcome
unfolding in_range
in_range-enough {n = n} buf h = ground (arith, h)

pub index-enough :
    (buf : List ℕ) (i : ℕ) (next : ℕ → Outcome)
    → i < length buf
    → index buf i next ≡ next (byte_at buf i)
unfolding index
index-enough buf i next h = ground (arith, h)
