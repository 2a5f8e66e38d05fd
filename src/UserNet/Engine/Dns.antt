-- ===== src/UserNet/Engine/Dns.antt =====
-- `handle_udp` and `forward_dns_query`: which datagrams are forwarded, and the reply.
use kc_docker.Shared.{
  ℕ, ◌+◌, ◌≤◌, true, false, Option, none, some, List, [], ◌∷◌, ◌++◌, length, u16, ◌≡◌, refl, arith,
  ◌∙◌, Bool-cases, inl, inr, Option-cases, ◌⊎◌, append-nil, Text,
}
use kc_docker.UserNet.Packets.{EthernetHeader, Ipv4Header, UdpHeader, ethertype_ipv4, ip_proto_udp}
use kc_docker.UserNet.Packets.Udp
use kc_docker.UserNet.Engine.{
  Outcome, silent, panic, send_ipv4, reply_eth, reply_ip, handle_udp, handle_incoming_frame,
  forward_dns_query, ask_targets, upstream_targets, read_into, Host, UserNetEngine,
}
use kc_docker.UserNet.Engine.Replies.{
  Carries, send_ipv4-Carries, back_eth, back_ip, reply_ip-IsPlain, length-read_into,
}
use kc_docker.UserNet.Engine.Resolution.{IsOurs, is_ours, not_ours}
use kc_docker.UserNet.Engine.Datagrams.{IsIpFrame, received, reaches_handle_udp}

-- The reply of the first target that takes the query and answers it, in order.
data FirstAnswer (host : Host) (query : List ℕ) : List Text → Option (List ℕ) → Type 0 where
  nobody : FirstAnswer host query [] none
  skip :
      {target : Text} {targets : List Text} {answer : Option (List ℕ)}
      → (host.sends_to target query ≡ false) ⊎ (host.receives target query ≡ none)
      → FirstAnswer host query targets answer
      → FirstAnswer host query (target ∷ targets) answer
  answers :
      {target : Text} {targets : List Text} {reply : List ℕ}
      → host.sends_to target query ≡ true
      → host.receives target query ≡ some reply
      → FirstAnswer host query (target ∷ targets) (some (read_into 4096 reply))

ask_targets-FirstAnswer :
    (host : Host) (query : List ℕ) (targets : List Text)
    → FirstAnswer host query targets (ask_targets host query targets)
unfolding ask_targets
ask_targets-FirstAnswer host query [] = nobody
ask_targets-FirstAnswer host query (target ∷ targets) =
    let ih = ask_targets-FirstAnswer host query targets in
    elim (Bool-cases (host.sends_to target query)) [
      | inr unsent ↦ rw (unsent, ask_targets) (skip (inl unsent) ih)
      | inl sent ↦
          rw (sent, ask_targets)
            (elim (Option-cases (host.receives target query)) [
              | inl no_reply ↦ rw (no_reply, ask_targets) (skip (inr no_reply) ih)
              | inr (reply, received) ↦ rw (received, ask_targets) (answers sent received)
            ])
    ]

FirstAnswer-le :
    {host : Host} {query : List ℕ} {targets : List Text} {answer : Option (List ℕ)}
    → FirstAnswer host query targets answer
    → (reply : List ℕ) → answer ≡ some reply
    → length reply ≤ 4096
FirstAnswer-le nobody reply e = absurd (ground arith)
FirstAnswer-le (skip h later) reply e = FirstAnswer-le later reply e
FirstAnswer-le (answers {reply = found} s r) reply e = ground (arith, length-read_into 4096 found)

forward_dns_query-le :
    (host : Host) (query reply : List ℕ)
    → forward_dns_query host query ≡ some reply
    → length reply ≤ 4096
unfolding forward_dns_query
forward_dns_query-le host query reply e =
    FirstAnswer-le (ask_targets-FirstAnswer host query upstream_targets) reply (ground arith)

-- The datagram: header and payload.
pub record IsQuery (payload : List ℕ) (udp : UdpHeader) (query : List ℕ) : Type 0 where
  pub reads_udp : Udp.parse payload ≡ some (udp, query)
  pub to_dns : udp.dst_port ≡ 53

abbrev pub dns_header : UdpHeader → List ℕ → UdpHeader
dns_header udp reply = record {
  src_port = 53;
  dst_port = udp.src_port;
  length = 8 + length reply;
  checksum = 0;
}

-- A frame from the gateway carries the answer back to the port that asked.
pub record IsDnsReply (eth : EthernetHeader) (ip : Ipv4Header) (udp : UdpHeader) (reply : List ℕ)
    (o : Outcome) : Type 0 where
  pub datagram : List ℕ
  pub carries : Carries (back_eth eth) (back_ip ip (28 + length reply) 0 ip_proto_udp) datagram o
  pub reads_udp : Udp.parse datagram ≡ some (dns_header udp reply, reply)

module _ {bytes : List ℕ} {eth : EthernetHeader} {ip : Ipv4Header} {payload : List ℕ}
    (request : IsIpFrame bytes eth ip payload) (host : Host) (engine : UserNetEngine)
    {udp : UdpHeader} {query : List ℕ} (asks : IsQuery payload udp query) where
  forwards :
      (reply : List ℕ)
      → IsOurs engine ip.dst_ip
      → forward_dns_query host query ≡ some reply
      → handle_udp host engine eth ip payload
        ≡ send_ipv4
            (reply_eth eth ethertype_ipv4)
            (reply_ip ip (u16 (20 + 8 + length reply)) 0 ip_proto_udp ip.dst_ip)
            (Udp.write_to (record {
              src_port = 53;
              dst_port = udp.src_port;
              length = u16 (8 + length reply);
              checksum = 0;
            })
              ++ reply)
  unfolding handle_udp
  forwards reply ours e = rw (Udp.parse_with-parse silent panic _ payload) (
      rw asks.reads_udp
        (rw (is_ours engine ip.dst_ip ours) (rw asks.to_dns (rw (e, handle_udp) refl))))

  -- A query to port 53 of the gateway or the resolver that some upstream answers comes back as
  -- one datagram with that answer, its two length fields exact.
  pub handle_incoming_frame-dns :
      (reply : List ℕ)
      → ip.protocol ≡ ip_proto_udp
      → IsOurs engine ip.dst_ip
      → forward_dns_query host query ≡ some reply
      → IsDnsReply eth ip udp reply (handle_incoming_frame host engine bytes)
  handle_incoming_frame-dns reply p ours e =
      let got = received request host engine in
      let short = forward_dns_query-le host query reply e in
      let total : u16 (20 + 8 + length reply) ≡ 28 + length reply = omega arith in
      let inner : u16 (8 + length reply) ≡ 8 + length reply = omega arith in
      let header = dns_header udp reply in
      let r =
        Udp.parse-write_to_payload header reply []
          (record {
            src_fits = omega arith;
            dst_fits = Udp.parse-src_port payload query udp got.payload_bytes asks.reads_udp;
            length_fits = omega arith;
            checksum_fits = omega arith;
          })
          refl in
      record {
        datagram = Udp.write_to header ++ reply;
        carries = rw (reaches_handle_udp request host engine p ∙ forwards reply ours e) (
            rw (total, inner)
              (send_ipv4-Carries (reply_eth eth ethertype_ipv4)
                (reply_ip ip (28 + length reply) 0 ip_proto_udp ip.dst_ip)
                (Udp.write_to header ++ reply) (omega arith)
                (reply_ip-IsPlain ip (28 + length reply) 0 ip_proto_udp ip.dst_ip (omega arith)
                  (omega arith) (omega arith) got.dst_bytes got.src_bytes)
                (omega (arith, Udp.length-write_to header reply))));
        reads_udp = rw append-nil at r;
      }

  -- A datagram to another address, and a query that no upstream answers, get no reply.
  pub handle_incoming_frame-dns_silent :
      ip.protocol ≡ ip_proto_udp
      → (¬ IsOurs engine ip.dst_ip) ⊎ (forward_dns_query host query ≡ none)
      → handle_incoming_frame host engine bytes ≡ silent
  unfolding handle_udp
  handle_incoming_frame-dns_silent p (inl other) =
      reaches_handle_udp request host engine p
      ∙ rw (Udp.parse_with-parse silent panic _ payload)
          (rw asks.reads_udp (rw (not_ours engine ip.dst_ip other) refl))
  handle_incoming_frame-dns_silent p (inr e) =
      reaches_handle_udp request host engine p
      ∙ rw (Udp.parse_with-parse silent panic _ payload)
          (rw asks.reads_udp (rw asks.to_dns (rw (e, handle_udp) (ground arith))))
