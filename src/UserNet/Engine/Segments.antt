-- ===== src/UserNet/Engine/Segments.antt =====
-- TCP segments as the engine sends them: checksum stored over the pseudo header.
use kc_docker.Shared.{
  ℕ, ◌+◌, ◌*◌, ◌≤◌, some, List, ◌∷◌, ◌++◌, length, drop, u8, u16, to_be16, to_be32, ◌≡◌, refl,
  arith, ◌∙◌, IsByte, IsBytes, ap, ◌/◌, All-append, low_bits,
}
use kc_docker.UserNet.Packets.{Ipv4Header, TcpHeader, octets, ip_proto_tcp}
use kc_docker.UserNet.Packets.Checksum.{compute_tcp_checksum}
use kc_docker.UserNet.Packets.Checksum.Verify.{checksum_verifies, compute_checksum-IsWord}
use kc_docker.UserNet.Packets.Tcp
use kc_docker.UserNet.Packets.Ipv4.Laws.{IsAddr}
use kc_docker.UserNet.Engine.{with_tcp_checksum}

-- The segment reads as `tcp` with a checksum that verifies, and `payload`.
pub record IsTcpSegment (ip : Ipv4Header) (tcp : TcpHeader) (payload segment : List ℕ)
    : Type 0 where
  pub checksum : ℕ
  pub reads_tcp : Tcp.parse segment ≡ some (record tcp { checksum = checksum }, payload)
  pub segment_sums : compute_tcp_checksum ip.src_ip ip.dst_ip ip_proto_tcp segment ≡ 0
  pub segment_length : length segment ≡ 20 + length payload

-- `tcp` with its checksum still clear.
abbrev cleared : TcpHeader → TcpHeader
cleared tcp = record tcp { checksum = 0 }

module _ (ip : Ipv4Header) (tcp : TcpHeader) (payload : List ℕ) where
  abbrev stored : ℕ
  stored =
      compute_tcp_checksum ip.src_ip ip.dst_ip ip_proto_tcp (Tcp.write_to (cleared tcp) ++ payload)

  with_tcp_checksum_lem :
      with_tcp_checksum ip (Tcp.write_to (cleared tcp) ++ payload)
      ≡ Tcp.write_to (record tcp { checksum = stored }) ++ payload
  unfolding with_tcp_checksum Tcp.write_to
  with_tcp_checksum_lem = refl

  segment_sums_lem :
      IsAddr ip.src_ip
      → IsAddr ip.dst_ip
      → IsBytes payload
      → length payload ≤ 65515
      → compute_tcp_checksum ip.src_ip ip.dst_ip ip_proto_tcp
          (Tcp.write_to (record tcp { checksum = stored }) ++ payload)
        ≡ 0
  unfolding compute_tcp_checksum Tcp.write_to
  segment_sums_lem s d b n =
      let front =
        octets ip.src_ip
        ++ (octets ip.dst_ip
            ++ (0 ∷ ip_proto_tcp ∷ to_be16 (u16 (length (Tcp.write_to (cleared tcp) ++ payload)))
                ++ (to_be16 tcp.src_port
                    ++ (to_be16 tcp.dst_port
                        ++ (to_be32 tcp.seq_num
                            ++ (to_be32 tcp.ack_num
                                ++ (u8 (tcp.data_offset / 4 * 16)
                                    ∷ low_bits tcp.flags 8
                                    ∷ to_be16 tcp.window_size))))))) in
      let back = to_be16 tcp.urgent_ptr ++ payload in
      let bytes : IsBytes (front ++ 0 ∷ 0 ∷ back) =
        All-append IsByte (front ++ 0 ∷ 0 ∷ to_be16 tcp.urgent_ptr) payload (omega arith) b in
      checksum_verifies front back tt (bytes, omega arith)

  with_checksum : Tcp.IsValid (cleared tcp) → Tcp.IsValid (record tcp { checksum = stored })
  unfolding compute_tcp_checksum
  with_checksum v = record {
    src_fits = v.src_fits;
    dst_fits = v.dst_fits;
    seq_fits = v.seq_fits;
    ack_fits = v.ack_fits;
    offset_words = v.offset_words;
    offset_min = v.offset_min;
    offset_max = v.offset_max;
    flags_fit = v.flags_fit;
    window_fits = v.window_fits;
    checksum_fits = compute_checksum-IsWord _;
    urgent_fits = v.urgent_fits;
  }

  pub with_tcp_checksum-IsTcpSegment :
      IsAddr ip.src_ip
      → IsAddr ip.dst_ip
      → IsBytes payload
      → length payload ≤ 65515
      → Tcp.IsValid (cleared tcp)
      → tcp.data_offset ≡ 20
      → IsTcpSegment ip tcp payload (with_tcp_checksum ip (Tcp.write_to (cleared tcp) ++ payload))
  with_tcp_checksum-IsTcpSegment s d b n v e = rw with_tcp_checksum_lem (record {
    checksum = stored;
    reads_tcp =
        Tcp.parse-write_to (record tcp { checksum = stored }) payload (with_checksum v)
          (omega arith)
        ∙ ap (λ k. some (record tcp { checksum = stored }, drop k payload)) {y = 0} (omega arith);
    segment_sums = segment_sums_lem s d b n;
    segment_length = omega (arith, Tcp.length-write_to (record tcp { checksum = stored }) payload);
  })
