-- ===== src/UserNet/Engine/Handshake.antt =====
-- `handle_tcp` on received frames: the replies to SYN, to FIN and to data.
use kc_docker.Shared.{
  ℕ, ◌+◌, ◌≤◌, ◌<◌, ◌^◌, false, none, some, List, [], ◌∷◌, ◌++◌, length, u16, u32, bit_at, is_empty,
  ◌≡◌, ◌≢◌, refl, arith, ◌∙◌, IsBytes, inl, inr, Option-cases, ◌⊎◌, IsWord,
}
use kc_docker.UserNet.Packets.{
  Ipv4Addr, EthernetHeader, Ipv4Header, TcpHeader, ethertype_ipv4, ip_proto_tcp,
}
use kc_docker.UserNet.Packets.Ethernet
use kc_docker.UserNet.Packets.Ipv4
use kc_docker.UserNet.Packets.Ipv4.Laws.{IsReceived, parse-IsReceived, parse_with-parse}
use kc_docker.UserNet.Packets.Tcp
use kc_docker.UserNet.Engine.{
  Outcome, silent, panic, send_tcp, reply_eth, reply_ip, reply_tcp, with_tcp_checksum, handle_tcp,
  handle_ipv4, handle_incoming_frame, answer_data, exchange, Host, UserNetEngine, in_range-enough,
}
use kc_docker.UserNet.Engine.Replies.{
  Carries, back_eth, back_ip, send_ipv4-Carries, reply_ip-IsPlain, length-read_into,
}
use kc_docker.UserNet.Engine.Segments.{IsTcpSegment, with_tcp_checksum-IsTcpSegment}

-- The TCP header from the port that was asked back to the one that asks.
abbrev pub back_tcp : TcpHeader → ℕ → ℕ → ℕ → TcpHeader
back_tcp tcp seq_num ack_num flags = record {
  src_port = tcp.dst_port;
  dst_port = tcp.src_port;
  seq_num = seq_num;
  ack_num = ack_num;
  data_offset = 20;
  flags = flags;
  window_size = 65535;
  checksum = 0;
  urgent_ptr = 0;
}

-- The outcome is a frame from the gateway to the sender of `eth`, with the IPv4 header `ip`, the
-- TCP header `tcp` and `payload`, both checksums verifying.
pub record IsTcpReply (eth : EthernetHeader) (ip : Ipv4Header) (tcp : TcpHeader) (payload : List ℕ)
    (o : Outcome) : Type 0 where
  pub segment : List ℕ
  pub carries : Carries (back_eth eth) ip segment o
  pub is_segment : IsTcpSegment ip tcp payload segment

-- The bytes are an Ethernet frame with an IPv4 packet with a TCP segment.
pub record IsTcpFrame (bytes : List ℕ) (eth : EthernetHeader) (ip : Ipv4Header) (tcp : TcpHeader)
    (payload : List ℕ) : Type 0 where
  pub packet : List ℕ
  pub segment : List ℕ
  pub is_bytes : IsBytes bytes
  pub reads_eth : Ethernet.parse bytes ≡ some (eth, packet)
  pub is_ipv4 : eth.ethertype ≡ ethertype_ipv4
  pub reads_ip : Ipv4.parse packet ≡ some (ip, segment)
  pub is_tcp : ip.protocol ≡ ip_proto_tcp
  pub reads_tcp : Tcp.parse segment ≡ some (tcp, payload)

-- The read buffer bounds an answer.
exchange-le :
    (host : Host) (dst : Ipv4Addr) (port : ℕ) (sent response : List ℕ)
    → exchange host dst port sent ≡ some response
    → length response ≤ 16384
unfolding exchange
exchange-le host dst port sent response e = elim (Option-cases (host.reads dst port sent)) [
  | inl no_read ↦ absurd (ground arith)
  | inr (answer, read) ↦ ground (arith, length-read_into 16384 answer)
]

is_empty_of_ne : (xs : List ℕ) → xs ≢ [] → is_empty xs ≡ false
is_empty_of_ne [] ne = absurd (ne refl)
is_empty_of_ne (x ∷ xs) ne = refl

module _ {bytes : List ℕ} {eth : EthernetHeader} {ip : Ipv4Header} {tcp : TcpHeader}
    {payload : List ℕ} (request : IsTcpFrame bytes eth ip tcp payload) where
  ip_received : IsReceived ip request.segment
  ip_received =
      parse-IsReceived request.packet request.segment ip
        (Ethernet.parse-IsBytes bytes request.packet eth request.is_bytes request.reads_eth)
        request.reads_ip

  tcp_received : Tcp.IsReceived tcp payload
  tcp_received =
      Tcp.parse-IsReceived request.segment payload tcp ip_received.payload_bytes request.reads_tcp

  send_tcp-IsTcpReply :
      (total frag seq ack flags : ℕ) (response : List ℕ)
      → total ≡ 40 + length response
      → IsWord total
      → IsWord frag
      → seq < 2 ^ 32
      → ack < 2 ^ 32
      → flags < 256
      → IsBytes response
      → IsTcpReply eth (back_ip ip total frag ip_proto_tcp) (back_tcp tcp seq ack flags) response (
          send_tcp eth
            (reply_ip ip total frag ip_proto_tcp ip.dst_ip)
            (reply_tcp tcp seq ack flags)
            response)
  unfolding send_tcp
  send_tcp-IsTcpReply total frag seq ack flags response len total_fits frag_fits s a f b =
      let ip' = reply_ip ip total frag ip_proto_tcp ip.dst_ip in
      let tcp' = reply_tcp tcp seq ack flags in
      let seg : IsTcpSegment ip' tcp' response
          (with_tcp_checksum ip' (Tcp.write_to tcp' ++ response)) =
        with_tcp_checksum-IsTcpSegment ip' tcp' response ip_received.dst_bytes ip_received.src_bytes
          b (omega arith)
          (record {
            src_fits = tcp_received.dst_fits;
            dst_fits = tcp_received.src_fits;
            seq_fits = s;
            ack_fits = a;
            offset_words = omega arith;
            offset_min = omega arith;
            offset_max = omega arith;
            flags_fit = f;
            window_fits = omega arith;
            checksum_fits = omega arith;
            urgent_fits = omega arith;
          })
          refl in
      let long : 18 ≤ length (Tcp.write_to tcp' ++ response) =
        omega (arith, Tcp.length-write_to tcp' response) in
      rw (in_range-enough (Tcp.write_to tcp' ++ response) long) (record {
        segment = with_tcp_checksum ip' (Tcp.write_to tcp' ++ response);
        carries =
            send_ipv4-Carries (reply_eth eth ethertype_ipv4) ip' _ (omega arith)
              (reply_ip-IsPlain ip total frag ip_proto_tcp ip.dst_ip total_fits frag_fits
                (omega arith) ip_received.dst_bytes ip_received.src_bytes)
              (omega (arith, seg.segment_length));
        is_segment = seg;
      })

  module _ (host : Host) (engine : UserNetEngine) where
    reaches_handle_tcp :
        handle_incoming_frame host engine bytes ≡ handle_tcp host engine eth ip request.segment
    unfolding handle_incoming_frame handle_ipv4
    reaches_handle_tcp = rw (Ethernet.parse_with-parse silent panic _ bytes) (
        rw request.reads_eth (
          rw request.is_ipv4 (
            rw (parse_with-parse silent panic _ request.packet)
              (rw request.reads_ip (rw request.is_tcp refl)))))

    syn_lem :
        bit_at tcp.flags 1 ≡ 1
        → handle_tcp host engine eth ip request.segment
          ≡ send_tcp eth
              (reply_ip ip 40 0x4000 ip_proto_tcp ip.dst_ip)
              (reply_tcp tcp 1000 (u32 (tcp.seq_num + 1)) 0x12)
              []
    unfolding handle_tcp
    syn_lem syn =
        rw (Tcp.parse_with-parse silent panic _ request.segment)
          (rw request.reads_tcp (rw syn refl))

    -- A SYN is answered by the SYN|ACK of the handshake: ports and addresses swapped, sequence
    -- number 1000, acknowledging the SYN, no data, with both checksums right.
    pub handle_incoming_frame-syn :
        bit_at tcp.flags 1 ≡ 1
        → IsTcpReply eth
            (back_ip ip 40 0x4000 ip_proto_tcp)
            (back_tcp tcp 1000 (u32 (tcp.seq_num + 1)) 0x12)
            []
            (handle_incoming_frame host engine bytes)
    handle_incoming_frame-syn syn = rw (reaches_handle_tcp ∙ syn_lem syn) (
        send_tcp-IsTcpReply 40 0x4000 1000 (u32 (tcp.seq_num + 1)) 0x12 [] refl (omega arith)
          (omega arith) (omega arith) (omega arith) (omega arith) tt)

    fin_lem :
        bit_at tcp.flags 1 ≡ 0
        → bit_at tcp.flags 0 ≡ 1
        → handle_tcp host engine eth ip request.segment
          ≡ send_tcp eth
              (reply_ip ip 40 0 ip_proto_tcp ip.dst_ip)
              (reply_tcp tcp tcp.ack_num (u32 (tcp.seq_num + 1)) 0x11)
              []
    unfolding handle_tcp
    fin_lem no_syn fin =
        rw (Tcp.parse_with-parse silent panic _ request.segment)
          (rw request.reads_tcp (rw no_syn (rw fin refl)))

    -- A FIN with no SYN is answered by FIN|ACK: the sequence number is the one that the peer
    -- expects, and the FIN is acknowledged; ports and addresses swapped, both checksums right.
    pub handle_incoming_frame-fin :
        bit_at tcp.flags 1 ≡ 0
        → bit_at tcp.flags 0 ≡ 1
        → IsTcpReply eth
            (back_ip ip 40 0 ip_proto_tcp)
            (back_tcp tcp tcp.ack_num (u32 (tcp.seq_num + 1)) 0x11)
            []
            (handle_incoming_frame host engine bytes)
    handle_incoming_frame-fin no_syn fin = rw (reaches_handle_tcp ∙ fin_lem no_syn fin) (
        send_tcp-IsTcpReply 40 0 tcp.ack_num (u32 (tcp.seq_num + 1)) 0x11 [] refl (omega arith)
          (omega arith) tcp_received.ack_fits (omega arith) (omega arith) tt)

    data_lem :
        bit_at tcp.flags 1 ≡ 0
        → bit_at tcp.flags 0 ≡ 0
        → handle_tcp host engine eth ip request.segment ≡ answer_data host engine eth ip tcp payload
    unfolding handle_tcp
    data_lem no_syn no_fin =
        rw (Tcp.parse_with-parse silent panic _ request.segment)
          (rw request.reads_tcp (rw no_syn (rw no_fin refl)))

    answer_lem :
        (response : List ℕ)
        → payload ≢ []
        → exchange host ip.dst_ip tcp.dst_port payload ≡ some response
        → answer_data host engine eth ip tcp payload
          ≡ send_tcp eth
              (reply_ip ip (u16 (20 + 20 + length response)) 0x4000 ip_proto_tcp ip.dst_ip)
              (reply_tcp tcp tcp.ack_num (u32 (tcp.seq_num + u32 (length payload))) 0x18)
              response
    unfolding answer_data
    answer_lem response ne e =
        rw (is_empty_of_ne payload ne, answer_data) (rw (e, answer_data) refl)

    no_answer_lem :
        (payload ≡ []) ⊎ (exchange host ip.dst_ip tcp.dst_port payload ≡ none)
        → answer_data host engine eth ip tcp payload ≡ silent
    unfolding answer_data
    no_answer_lem (inl e) = ground arith
    no_answer_lem (inr e) = ground arith

    -- Data that the host answers is acknowledged to its last byte, and the answer is the
    -- payload of the reply, with the lengths and both checksums right.
    pub handle_incoming_frame-data :
        (response : List ℕ)
        → bit_at tcp.flags 1 ≡ 0
        → bit_at tcp.flags 0 ≡ 0
        → payload ≢ []
        → exchange host ip.dst_ip tcp.dst_port payload ≡ some response
        → IsBytes response
        → IsTcpReply eth
            (back_ip ip (40 + length response) 0x4000 ip_proto_tcp)
            (back_tcp tcp tcp.ack_num (u32 (tcp.seq_num + length payload)) 0x18)
            response
            (handle_incoming_frame host engine bytes)
    handle_incoming_frame-data response no_syn no_fin ne e b =
        let short : length response ≤ 16384 =
          exchange-le host ip.dst_ip tcp.dst_port payload response e in
        let total : u16 (20 + 20 + length response) ≡ 40 + length response = omega arith in
        let ack : u32 (tcp.seq_num + u32 (length payload)) ≡ u32 (tcp.seq_num + length payload) =
          omega arith in
        rw (reaches_handle_tcp ∙ data_lem no_syn no_fin ∙ answer_lem response ne e) (
          rw (total, ack)
            (send_tcp-IsTcpReply (40 + length response) 0x4000 tcp.ack_num
              (u32 (tcp.seq_num + length payload)) 0x18 response refl (omega arith) (omega arith)
              tcp_received.ack_fits (omega arith) (omega arith) b))

    -- A segment with neither flag and nothing to forward, or that the host does not answer, is
    -- dropped.
    pub handle_incoming_frame-no_data :
        bit_at tcp.flags 1 ≡ 0
        → bit_at tcp.flags 0 ≡ 0
        → (payload ≡ []) ⊎ (exchange host ip.dst_ip tcp.dst_port payload ≡ none)
        → handle_incoming_frame host engine bytes ≡ silent
    handle_incoming_frame-no_data no_syn no_fin h =
        reaches_handle_tcp ∙ data_lem no_syn no_fin ∙ no_answer_lem h
