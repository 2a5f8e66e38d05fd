-- ===== src/UserNet/Engine/Datagrams.antt =====
-- `handle_icmp`: the echo reply.
use kc_docker.Shared.{
  ℕ, ◌+◌, ◌≤◌, true, false, some, List, [], ◌∷◌, ltb, length, drop, byte_at, u16, ◌≡◌, refl, arith,
  ◌∙◌, IsBytes,
}
use kc_docker.UserNet.Packets.{
  ip_eq, EthernetHeader, Ipv4Header, ethertype_ipv4, ip_proto_udp, ip_proto_icmp,
}
use kc_docker.UserNet.Packets.Checksum.{compute_checksum}
use kc_docker.UserNet.Packets.Checksum.Verify.{checksum_verifies}
use kc_docker.UserNet.Packets.Ethernet
use kc_docker.UserNet.Packets.Ipv4
use kc_docker.UserNet.Packets.Ipv4.Laws.{IsReceived, parse-IsReceived, parse_with-parse}
use kc_docker.UserNet.Engine.{
  send_ipv4, reply_eth, reply_ip, echo_reply, handle_icmp, handle_udp, handle_ipv4,
  handle_incoming_frame, Host, UserNetEngine, silent, panic, in_range-enough, index-enough,
}
use kc_docker.UserNet.Engine.Replies.{Carries, send_ipv4-Carries, reply_ip-IsPlain}
use kc_docker.UserNet.Engine.Resolution.{ip_eq_refl}

-- The bytes are an Ethernet frame with an IPv4 packet with this payload.
pub record IsIpFrame (bytes : List ℕ) (eth : EthernetHeader) (ip : Ipv4Header) (payload : List ℕ)
    : Type 0 where
  pub packet : List ℕ
  pub is_bytes : IsBytes bytes
  pub reads_eth : Ethernet.parse bytes ≡ some (eth, packet)
  pub is_ipv4 : eth.ethertype ≡ ethertype_ipv4
  pub reads_ip : Ipv4.parse packet ≡ some (ip, payload)

-- An ICMP echo request: type 8, code 0, with its identifier and sequence number.
pub record IsEchoRequest (payload : List ℕ) : Type 0 where
  pub long_enough : 8 ≤ length payload
  pub type_8 : byte_at payload 0 ≡ 8
  pub code_0 : byte_at payload 1 ≡ 0

-- The echo reply to `payload`: type 0, code 0, a checksum that verifies, and all that follows
-- the checksum field unchanged.
pub record IsEchoReply (payload reply : List ℕ) : Type 0 where
  pub type_0 : byte_at reply 0 ≡ 0
  pub code_0 : byte_at reply 1 ≡ 0
  pub sums : compute_checksum reply ≡ 0
  pub same_length : length reply ≡ length payload
  pub same_rest : drop 4 reply ≡ drop 4 payload

echo_reply-IsEchoReply :
    (payload : List ℕ)
    → IsEchoRequest payload
    → IsBytes payload
    → length payload ≤ 65515
    → IsEchoReply payload (echo_reply payload)
unfolding echo_reply
echo_reply-IsEchoReply [] r b n = absurd (omega (arith, r.long_enough))
echo_reply-IsEchoReply (p ∷ []) r b n = absurd (omega (arith, r.long_enough))
echo_reply-IsEchoReply (p ∷ q ∷ []) r b n = absurd (omega (arith, r.long_enough))
echo_reply-IsEchoReply (p ∷ q ∷ s ∷ []) r b n = absurd (omega (arith, r.long_enough))
echo_reply-IsEchoReply (p ∷ q ∷ s ∷ t ∷ rest) r b n = record {
  type_0 = refl;
  code_0 = r.code_0;
  sums =
      checksum_verifies (0 ∷ q ∷ []) rest tt
        ((omega arith, (b.1.0, (omega arith, (omega arith, b.1.1.1.1)))), omega arith);
  same_length = refl;
  same_rest = refl;
}

module _ {bytes : List ℕ} {eth : EthernetHeader} {ip : Ipv4Header} {payload : List ℕ}
    (request : IsIpFrame bytes eth ip payload) (host : Host) (engine : UserNetEngine) where
  pub received : IsReceived ip payload
  received =
      parse-IsReceived request.packet payload ip
        (Ethernet.parse-IsBytes bytes request.packet eth request.is_bytes request.reads_eth)
        request.reads_ip

  reaches_handle_ipv4 :
      handle_incoming_frame host engine bytes ≡ handle_ipv4 host engine eth request.packet
  unfolding handle_incoming_frame
  reaches_handle_ipv4 =
      rw (Ethernet.parse_with-parse silent panic _ bytes)
        (rw request.reads_eth (rw request.is_ipv4 refl))

  reaches_handle_icmp :
      ip.protocol ≡ ip_proto_icmp
      → handle_incoming_frame host engine bytes ≡ handle_icmp host engine eth ip payload
  unfolding handle_ipv4
  reaches_handle_icmp p =
      reaches_handle_ipv4
      ∙ rw (parse_with-parse silent panic _ request.packet) (rw request.reads_ip (rw p refl))

  pub reaches_handle_udp :
      ip.protocol ≡ ip_proto_udp
      → handle_incoming_frame host engine bytes ≡ handle_udp host engine eth ip payload
  unfolding handle_ipv4
  reaches_handle_udp p =
      reaches_handle_ipv4
      ∙ rw (parse_with-parse silent panic _ request.packet) (rw request.reads_ip (rw p refl))

  echoes :
      IsEchoRequest payload
      → ip.dst_ip ≡ engine.gateway_ip
      → handle_icmp host engine eth ip payload
        ≡ send_ipv4
            (reply_eth eth ethertype_ipv4)
            (reply_ip ip
              (u16 (20 + u16 (length (echo_reply payload))))
              0
              ip_proto_icmp
              engine.gateway_ip)
            (echo_reply payload)
  unfolding handle_icmp
  echoes r d =
      let long : ltb (length payload) 8 ≡ false = ground (arith, r.long_enough) in
      let pinged : ip_eq ip.dst_ip engine.gateway_ip ≡ true = rw d (ip_eq_refl engine.gateway_ip) in
      rw long (
        rw (index-enough payload 0 _ (omega (arith, r.long_enough))) (
          rw r.type_8 (
            rw (index-enough payload 1 _ (omega (arith, r.long_enough))) (
              rw r.code_0 (
                rw pinged
                  (rw (in_range-enough {n = 4} payload (omega (arith, r.long_enough))) refl))))))

  -- An echo request to the gateway is answered by the gateway with the echo reply; the total
  -- length does not wrap at 16 bits.
  pub handle_incoming_frame-echo :
      ip.protocol ≡ ip_proto_icmp
      → IsEchoRequest payload
      → ip.dst_ip ≡ engine.gateway_ip
      → Carries
          (reply_eth eth ethertype_ipv4)
          (reply_ip ip (20 + length payload) 0 ip_proto_icmp engine.gateway_ip)
          (echo_reply payload)
          (handle_incoming_frame host engine bytes)
        × IsEchoReply payload (echo_reply payload)
  handle_incoming_frame-echo p r d =
      let n = received.payload_length in
      let reply = echo_reply-IsEchoReply payload r received.payload_bytes n in
      let total : u16 (20 + u16 (length (echo_reply payload))) ≡ 20 + length payload =
        omega (arith, reply.same_length) in
      (
        rw (reaches_handle_icmp p ∙ echoes r d) (
            rw total (
              send_ipv4-Carries (reply_eth eth ethertype_ipv4)
                (reply_ip ip (20 + length payload) 0 ip_proto_icmp engine.gateway_ip)
                (echo_reply payload) (omega arith)
                (reply_ip-IsPlain ip (20 + length payload) 0 ip_proto_icmp engine.gateway_ip
                  (omega arith) (omega arith) (omega arith) (rw d at received.dst_bytes)
                  received.src_bytes)
                (omega (arith, reply.same_length)))),
        reply,
      )
