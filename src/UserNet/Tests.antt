-- ===== src/UserNet/Tests.antt =====
-- Concrete frames for the theorems on the packet formats and on the engine.
mod Datagrams
use kc_docker.Shared.{
  ℕ, ◌-◌, ◌+◌, true, false, none, some, List, [], ◌∷◌, ◌++◌, length, ◌≡◌, refl, arith,
}
use kc_docker.UserNet.Packets.{
  Ipv4Addr, ipv4, mac, EthernetHeader, Ipv4Header, TcpHeader, virtual_gateway_mac, ethertype_ipv4,
}
use kc_docker.UserNet.Packets.Checksum.{compute_checksum}
use kc_docker.UserNet.Packets.Checksum.Internet.{words, ones_sum, compute_checksum-ones_sum}
use kc_docker.UserNet.Packets.Ethernet
use kc_docker.UserNet.Packets.Arp
use kc_docker.UserNet.Packets.Ipv4
use kc_docker.UserNet.Packets.Ipv4.Laws.{IsPlain}
use kc_docker.UserNet.Packets.Udp
use kc_docker.UserNet.Packets.Tcp
use kc_docker.UserNet.Engine.{Host, UserNetEngine, new, handle_incoming_frame, exchange, read_into}
use kc_docker.UserNet.Engine.Handshake.{
  back_tcp, IsTcpFrame, IsTcpReply, handle_incoming_frame-syn, handle_incoming_frame-data,
}
use kc_docker.UserNet.Engine.Replies.{back_ip}
use kc_docker.UserNet.Engine.Frames.{IsReplyTo, handle_incoming_frame-IsReplyTo}

-- A host whose sockets all answer with the same two bytes.
abbrev pub host : Host
host = record {
  binds = true;
  sets_timeout = true;
  sends_to = λ target query. true;
  receives = λ target query. some (7 ∷ 9 ∷ []);
  connects = λ ip port. true;
  reads = λ ip port bytes. some (7 ∷ 9 ∷ []);
}

-- A host without a network.
abbrev pub offline : Host
offline = record {
  binds = true;
  sets_timeout = true;
  sends_to = λ target query. false;
  receives = λ target query. none;
  connects = λ ip port. false;
  reads = λ ip port bytes. none;
}

abbrev pub engine : UserNetEngine
engine = new []

abbrev pub container_eth : ℕ → EthernetHeader
container_eth ethertype = record {
  dst_mac = virtual_gateway_mac;
  src_mac = mac 2 0 10 0 2 15;
  ethertype = ethertype;
}

abbrev pub eth_bytes : ℕ → List ℕ
eth_bytes low = 2 ∷ 0 ∷ 10 ∷ 0 ∷ 2 ∷ 2 ∷ 2 ∷ 0 ∷ 10 ∷ 0 ∷ 2 ∷ 15 ∷ 8 ∷ low ∷ []

abbrev pub ip_header : ℕ → ℕ → Ipv4Addr → Ipv4Header
ip_header size protocol dst = record {
  ihl = 5;
  tos = 0;
  total_length = size;
  id = 7;
  flags_and_frag = 0;
  ttl = 64;
  protocol = protocol;
  checksum = 0;
  src_ip = ipv4 10 0 2 15;
  dst_ip = dst;
}

abbrev pub ip_bytes : ℕ → ℕ → Ipv4Addr → List ℕ
ip_bytes size protocol dst =
    0x45 ∷ 0 ∷ 0 ∷ size ∷ 0 ∷ 7 ∷ 0 ∷ 0 ∷ 64 ∷ protocol ∷ 0 ∷ 0 ∷ 10 ∷ 0 ∷ 2 ∷ 15 ∷ dst.o0 ∷ dst.o1
    ∷ dst.o2 ∷ dst.o3 ∷ []

abbrev web_server : Ipv4Addr
web_server = ipv4 93 184 216 34

abbrev tcp_header : ℕ → TcpHeader
tcp_header flags = record {
  src_port = 40000;
  dst_port = 80;
  seq_num = 100;
  ack_num = 1001;
  data_offset = 20;
  flags = flags;
  window_size = 512;
  checksum = 0;
  urgent_ptr = 0;
}

-- 40000 is 156 * 256 + 64 and 1001 is 3 * 256 + 233.
abbrev tcp_bytes : ℕ → List ℕ
tcp_bytes flags =
    156 ∷ 64 ∷ 0 ∷ 80 ∷ 0 ∷ 0 ∷ 0 ∷ 100 ∷ 0 ∷ 0 ∷ 3 ∷ 233 ∷ 0x50 ∷ flags ∷ 2 ∷ 0 ∷ 0 ∷ 0 ∷ 0 ∷ 0
    ∷ []

abbrev tcp_frame : ℕ → List ℕ → List ℕ
tcp_frame flags payload =
    eth_bytes 0 ++ (ip_bytes (40 + length payload) 6 web_server ++ (tcp_bytes flags ++ payload))

syn_frame :
    IsTcpFrame
      (tcp_frame 2 [])
      (container_eth ethertype_ipv4)
      (ip_header 40 6 web_server)
      (tcp_header 2)
      []
unfolding Ethernet.parse Ipv4.parse Tcp.parse
syn_frame = record {
  packet = ip_bytes 40 6 web_server ++ tcp_bytes 2;
  segment = tcp_bytes 2;
  is_bytes = omega arith;
  reads_eth = refl;
  is_ipv4 = refl;
  reads_ip = refl;
  is_tcp = refl;
  reads_tcp = refl;
}

fin_frame :
    IsTcpFrame
      (tcp_frame 1 [])
      (container_eth ethertype_ipv4)
      (ip_header 40 6 web_server)
      (tcp_header 1)
      []
unfolding Ethernet.parse Ipv4.parse Tcp.parse
fin_frame = record {
  packet = ip_bytes 40 6 web_server ++ tcp_bytes 1;
  segment = tcp_bytes 1;
  is_bytes = omega arith;
  reads_eth = refl;
  is_ipv4 = refl;
  reads_ip = refl;
  is_tcp = refl;
  reads_tcp = refl;
}

data_frame :
    IsTcpFrame
      (tcp_frame 0x18 (71 ∷ 10 ∷ []))
      (container_eth ethertype_ipv4)
      (ip_header 42 6 web_server)
      (tcp_header 0x18)
      (71 ∷ 10 ∷ [])
unfolding Ethernet.parse Ipv4.parse Tcp.parse
data_frame = record {
  packet = ip_bytes 42 6 web_server ++ (tcp_bytes 0x18 ++ 71 ∷ 10 ∷ []);
  segment = tcp_bytes 0x18 ++ 71 ∷ 10 ∷ [];
  is_bytes = omega arith;
  reads_eth = refl;
  is_ipv4 = refl;
  reads_ip = refl;
  is_tcp = refl;
  reads_tcp = refl;
}

host_answers : exchange host web_server 80 (71 ∷ 10 ∷ []) ≡ some (7 ∷ 9 ∷ [])
unfolding exchange read_into
host_answers = refl

handle_incoming_frame-IsReplyTo_example :
    IsReplyTo (container_eth ethertype_ipv4) (handle_incoming_frame host engine (tcp_frame 2 []))
handle_incoming_frame-IsReplyTo_example =
    handle_incoming_frame-IsReplyTo host engine (tcp_frame 2 []) syn_frame.packet
      (container_eth ethertype_ipv4) syn_frame.reads_eth

handle_incoming_frame-syn_example :
    IsTcpReply
      (container_eth ethertype_ipv4)
      (back_ip (ip_header 40 6 web_server) 40 0x4000 6)
      (back_tcp (tcp_header 2) 1000 101 0x12)
      []
      (handle_incoming_frame host engine (tcp_frame 2 []))
handle_incoming_frame-syn_example = handle_incoming_frame-syn syn_frame host engine refl

handle_incoming_frame-data_example :
    IsTcpReply
      (container_eth ethertype_ipv4)
      (back_ip (ip_header 42 6 web_server) 42 0x4000 6)
      (back_tcp (tcp_header 0x18) 1001 102 0x18)
      (7 ∷ 9 ∷ [])
      (handle_incoming_frame host engine (tcp_frame 0x18 (71 ∷ 10 ∷ [])))
handle_incoming_frame-data_example =
    handle_incoming_frame-data data_frame host engine (7 ∷ 9 ∷ []) refl refl
      (λ e. absurd (ground arith)) host_answers (omega arith)

no_answer : exchange offline web_server 80 (71 ∷ 10 ∷ []) ≡ none
unfolding exchange
no_answer = refl

ip-IsPlain : IsPlain (ip_header 22 6 web_server)
ip-IsPlain = record {
  no_options = refl;
  tos_fits = omega arith;
  length_fits = omega arith;
  id_fits = omega arith;
  flags_fit = omega arith;
  ttl_fits = omega arith;
  protocol_fits = omega arith;
  src_fits = omega arith;
  dst_fits = omega arith;
}

compute_checksum-ones_sum_example :
    compute_checksum (1 ∷ 2 ∷ 3 ∷ []) ≡ 65535 - ones_sum (words (1 ∷ 2 ∷ 3 ∷ []))
compute_checksum-ones_sum_example =
    compute_checksum-ones_sum (1 ∷ 2 ∷ 3 ∷ []) (omega arith, omega arith)

tcp-IsValid : Tcp.IsValid (tcp_header 2)
tcp-IsValid = record {
  src_fits = omega arith;
  dst_fits = omega arith;
  seq_fits = omega arith;
  ack_fits = omega arith;
  offset_words = refl;
  offset_min = omega arith;
  offset_max = omega arith;
  flags_fit = omega arith;
  window_fits = omega arith;
  checksum_fits = omega arith;
  urgent_fits = omega arith;
}
