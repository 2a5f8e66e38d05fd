-- ===== src/UserNet/Engine/Frames.antt =====
-- `handle_incoming_frame` on any bytes at all.
use kc_docker.Shared.{
  ℕ, ◌≤◌, ◌<◌, ◌++◌, length, ltb, byte_at, Bool-cases, ◌==◌, bit_at, Bool, true, false, some, List,
  if◌then◌else◌, ◌≡◌, refl, arith, Option-cases, inl, inr, ◌⊎◌,
}
use kc_docker.UserNet.Packets.{
  EthernetHeader, Ipv4Header, TcpHeader, ethertype_arp, ethertype_ipv4, virtual_gateway_mac,
}
use kc_docker.UserNet.Packets.Ethernet
use kc_docker.UserNet.Packets.Arp
use kc_docker.UserNet.Packets.Ipv4
use kc_docker.UserNet.Packets.Ipv4.Laws.{parse_with-parse}
use kc_docker.UserNet.Packets.Udp
use kc_docker.UserNet.Packets.Tcp
use kc_docker.UserNet.Engine.{
  Outcome, silent, frame, panic, reply_eth, send_ipv4, send_tcp, handle_arp, handle_tcp,
  answer_data, exchange, handle_icmp, handle_udp, handle_ipv4, handle_incoming_frame,
  forward_dns_query, Host, UserNetEngine, in_range, index, in_range-enough, index-enough,
}
use kc_docker.UserNet.Engine.Replies.{send_ipv4_plain}

-- The outcome is no panic, and a frame goes from the virtual gateway to the sender of `eth`,
-- with ARP or IPv4 inside.
pub data IsReplyTo (eth : EthernetHeader) : Outcome → Type 0 where
  dropped : IsReplyTo eth silent
  replied :
      {bytes : List ℕ} (ethertype : ℕ) (packet : List ℕ)
      → (ethertype ≡ ethertype_arp) ⊎ (ethertype ≡ ethertype_ipv4)
      → Ethernet.parse bytes
        ≡ some (
          record { dst_mac = eth.src_mac; src_mac = virtual_gateway_mac; ethertype = ethertype },
          packet,
        )
      → IsReplyTo eth (frame bytes)

module _ (eth : EthernetHeader) where
  on_if :
      (b : Bool) {x y : Outcome}
      → IsReplyTo eth x
      → IsReplyTo eth y
      → IsReplyTo eth (if b then x else y)
  on_if true hx hy = hx
  on_if false hx hy = hy

  on_range :
      (buf : List ℕ) (n : ℕ) {o : Outcome}
      → n ≤ length buf
      → IsReplyTo eth o
      → IsReplyTo eth (in_range buf n o)
  on_range buf n h r = rw (in_range-enough buf h) r

  on_index :
      (buf : List ℕ) (i : ℕ) (next : ℕ → Outcome)
      → i < length buf
      → IsReplyTo eth (next (byte_at buf i))
      → IsReplyTo eth (index buf i next)
  on_index buf i next h r = rw (index-enough buf i next h) r

  send_ipv4-IsReplyTo :
      (ip : Ipv4Header) (body : List ℕ)
      → ip.ihl ≡ 5
      → IsReplyTo eth (send_ipv4 (reply_eth eth ethertype_ipv4) ip body)
  send_ipv4-IsReplyTo ip body e = rw (send_ipv4_plain (reply_eth eth ethertype_ipv4) ip body e) (
      replied ethertype_ipv4 _ (inr refl)
        (Ethernet.parse-write_to_frame (reply_eth eth ethertype_ipv4) _ (omega arith)))

  send_tcp-IsReplyTo :
      (ip : Ipv4Header) (tcp : TcpHeader) (payload : List ℕ)
      → ip.ihl ≡ 5
      → IsReplyTo eth (send_tcp eth ip tcp payload)
  unfolding send_tcp
  send_tcp-IsReplyTo ip tcp payload e =
      let long : 18 ≤ length (Tcp.write_to tcp ++ payload) =
        omega (arith, Tcp.length-write_to tcp payload) in
      rw (in_range-enough (Tcp.write_to tcp ++ payload) long) (send_ipv4-IsReplyTo ip _ e)

  module _ (host : Host) (engine : UserNetEngine) where
    handle_arp-IsReplyTo : (payload : List ℕ) → IsReplyTo eth (handle_arp host engine eth payload)
    unfolding handle_arp
    handle_arp-IsReplyTo payload =
        rw (Arp.parse_with-parse silent panic _ payload) (elim (Option-cases (Arp.parse payload)) [
          | inl bad ↦ rw bad dropped
          | inr (arp, good) ↦ rw good (
              on_if _ dropped (
                on_if _
                  (replied ethertype_arp _ (inl refl)
                    (Ethernet.parse-write_to_frame (reply_eth eth ethertype_arp) _ (omega arith)))
                  dropped))
        ])

    answer_data-IsReplyTo :
        (ip : Ipv4Header) (tcp : TcpHeader) (bytes : List ℕ)
        → IsReplyTo eth (answer_data host engine eth ip tcp bytes)
    unfolding answer_data
    answer_data-IsReplyTo ip tcp bytes =
        elim (Option-cases (exchange host ip.dst_ip tcp.dst_port bytes)) [
          | inl bad ↦ rw (bad, answer_data) (on_if _ dropped dropped)
          | inr (response, good) ↦
              rw (good, answer_data) (on_if _ dropped (send_tcp-IsReplyTo _ _ _ refl))
        ]

    handle_tcp-IsReplyTo :
        (ip : Ipv4Header) (payload : List ℕ) → IsReplyTo eth (handle_tcp host engine eth ip payload)
    unfolding handle_tcp
    handle_tcp-IsReplyTo ip payload =
        rw (Tcp.parse_with-parse silent panic _ payload) (elim (Option-cases (Tcp.parse payload)) [
          | inl bad ↦ rw bad dropped
          | inr ((tcp, bytes), good) ↦ rw good (
              on_if (bit_at tcp.flags 1 == 1) (send_tcp-IsReplyTo _ _ _ refl) (
                on_if (bit_at tcp.flags 0 == 1) (send_tcp-IsReplyTo _ _ _ refl)
                  (answer_data-IsReplyTo ip tcp bytes)))
        ])

    handle_icmp-IsReplyTo :
        (ip : Ipv4Header) (payload : List ℕ)
        → IsReplyTo eth (handle_icmp host engine eth ip payload)
    unfolding handle_icmp
    handle_icmp-IsReplyTo ip payload = elim (Bool-cases (ltb (length payload) 8)) [
      | inl short ↦ rw short dropped
      | inr long ↦
          let n : 8 ≤ length payload = ground arith in
          rw long (
            on_index payload 0 _ (omega (arith, n)) (
              on_if _ dropped (
                on_index payload 1 _ (omega (arith, n)) (
                  on_if _ dropped (
                    on_if _ (on_range payload 4 (omega (arith, n)) (send_ipv4-IsReplyTo _ _ refl))
                      dropped)))))
    ]

    handle_udp-IsReplyTo :
        (ip : Ipv4Header) (payload : List ℕ) → IsReplyTo eth (handle_udp host engine eth ip payload)
    unfolding handle_udp
    handle_udp-IsReplyTo ip payload =
        rw (Udp.parse_with-parse silent panic _ payload) (elim (Option-cases (Udp.parse payload)) [
          | inl bad ↦ rw bad dropped
          | inr ((udp, query), good) ↦ rw good (elim (Option-cases (forward_dns_query host query)) [
            | inl bad ↦ rw (bad, handle_udp) (on_if _ dropped dropped)
            | inr (reply, answered) ↦
                rw (answered, handle_udp) (on_if _ (send_ipv4-IsReplyTo _ _ refl) dropped)
          ])
        ])

    handle_ipv4-IsReplyTo : (payload : List ℕ) → IsReplyTo eth (handle_ipv4 host engine eth payload)
    unfolding handle_ipv4
    handle_ipv4-IsReplyTo payload =
        rw (parse_with-parse silent panic _ payload) (elim (Option-cases (Ipv4.parse payload)) [
          | inl bad ↦ rw bad dropped
          | inr ((ip, body), good) ↦ rw good (
              on_if (ip.protocol == 1) (handle_icmp-IsReplyTo ip body) (
                on_if (ip.protocol == 17) (handle_udp-IsReplyTo ip body)
                  (on_if (ip.protocol == 6) (handle_tcp-IsReplyTo ip body) dropped)))
        ])

-- Whatever bytes arrive, whatever the host's sockets do: a frame that has a header is dropped or
-- answered by one frame from the virtual gateway to its sender. There is no
-- panic: the indices, the slices and the stores of parsers, handlers and writers are in range.
pub handle_incoming_frame-IsReplyTo :
    (host : Host) (engine : UserNetEngine) (bytes packet : List ℕ) (eth : EthernetHeader)
    → Ethernet.parse bytes ≡ some (eth, packet)
    → IsReplyTo eth (handle_incoming_frame host engine bytes)
unfolding handle_incoming_frame
handle_incoming_frame-IsReplyTo host engine bytes packet eth e =
    rw (Ethernet.parse_with-parse silent panic _ bytes) (
      rw e (
        on_if eth (eth.ethertype == ethertype_arp) (handle_arp-IsReplyTo eth host engine packet) (
          on_if eth (eth.ethertype == ethertype_ipv4) (handle_ipv4-IsReplyTo eth host engine packet)
            dropped)))
