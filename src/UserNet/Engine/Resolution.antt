-- ===== src/UserNet/Engine/Resolution.antt =====
-- `handle_arp`: who is answered, and what the answer says.
use kc_docker.Shared.{
  ℕ, true, false, some, List, [], ◌++◌, ◌||◌, ◌≡◌, ◌≢◌, refl, arith, ◌∙◌, IsBytes, Bool-cases, inl,
  inr, ==_refl, append-nil, ◌⊎◌,
}
use kc_docker.UserNet.Packets.{
  Ipv4Addr, ip_eq, EthernetHeader, ArpPacket, ethertype_arp, virtual_gateway_mac,
}
use kc_docker.UserNet.Packets.Ethernet
use kc_docker.UserNet.Packets.Arp
use kc_docker.UserNet.Engine.{
  Outcome, silent, frame, reply_eth, handle_arp, handle_incoming_frame, Host, UserNetEngine, panic,
}

pub ip_eq_refl : (a : Ipv4Addr) → ip_eq a a ≡ true
ip_eq_refl a = rw (==_refl a.o0, ==_refl a.o1, ==_refl a.o2, ==_refl a.o3)

pub ip_eq_sound : (a b : Ipv4Addr) → ip_eq a b ≡ true → a ≡ b
ip_eq_sound a b h = ground arith

-- The bytes are an Ethernet frame with an ARP packet.
pub record IsArpFrame (bytes : List ℕ) (eth : EthernetHeader) (arp : ArpPacket) : Type 0 where
  pub packet : List ℕ
  pub is_bytes : IsBytes bytes
  pub reads_eth : Ethernet.parse bytes ≡ some (eth, packet)
  pub is_arp : eth.ethertype ≡ ethertype_arp
  pub reads_arp : Arp.parse packet ≡ some arp

-- The outcome is a frame from the gateway to the sender of `eth` with the ARP packet `arp`.
pub record IsArpReply (eth : EthernetHeader) (arp : ArpPacket) (o : Outcome) : Type 0 where
  pub bytes : List ℕ
  pub packet : List ℕ
  pub is_frame : o ≡ frame bytes
  pub reads_eth : Ethernet.parse bytes ≡ some (reply_eth eth ethertype_arp, packet)
  pub reads_arp : Arp.parse packet ≡ some arp

-- The engine answers for the gateway and for the resolver.
abbrev pub IsOurs : UserNetEngine → Ipv4Addr → Type 0
IsOurs engine ip = (ip ≡ engine.gateway_ip) ⊎ (ip ≡ engine.dns_ip)

pub is_ours :
    (engine : UserNetEngine) (ip : Ipv4Addr)
    → IsOurs engine ip
    → (ip_eq ip engine.gateway_ip || ip_eq ip engine.dns_ip) ≡ true
is_ours engine ip (inl e) = rw e (rw (ip_eq_refl engine.gateway_ip))
is_ours engine ip (inr e) = rw e (ground (arith, ip_eq_refl engine.dns_ip))

pub not_ours :
    (engine : UserNetEngine) (ip : Ipv4Addr)
    → ¬ IsOurs engine ip
    → (ip_eq ip engine.gateway_ip || ip_eq ip engine.dns_ip) ≡ false
not_ours engine ip ne = elim (Bool-cases (ip_eq ip engine.gateway_ip)) [
  | inl gateway ↦ absurd (ne (inl (ip_eq_sound ip engine.gateway_ip gateway)))
  | inr other ↦ rw other (elim (Bool-cases (ip_eq ip engine.dns_ip)) [
    | inl dns ↦ absurd (ne (inr (ip_eq_sound ip engine.dns_ip dns)))
    | inr none_of_both ↦ none_of_both
  ])
]

module _ {bytes : List ℕ} {eth : EthernetHeader} {arp : ArpPacket}
    (request : IsArpFrame bytes eth arp) (host : Host) (engine : UserNetEngine) where
  reaches_handle_arp :
      handle_incoming_frame host engine bytes ≡ handle_arp host engine eth request.packet
  unfolding handle_incoming_frame
  reaches_handle_arp =
      rw (Ethernet.parse_with-parse silent panic _ bytes)
        (rw request.reads_eth (rw request.is_arp refl))

  answers :
      arp.opcode ≡ 1
      → IsOurs engine arp.target_ip
      → handle_arp host engine eth request.packet
        ≡ frame (
            Ethernet.write_to (reply_eth eth ethertype_arp)
            ++ Arp.write_reply arp virtual_gateway_mac)
  unfolding handle_arp
  answers op ours =
      rw (Arp.parse_with-parse silent panic _ request.packet)
        (rw request.reads_arp (rw op (rw (is_ours engine arp.target_ip ours) refl)))

  -- An ARP request for the gateway's or the resolver's address is answered to its sender: the
  -- reply has opcode 2, tells the virtual gateway's MAC address for the address asked for, and
  -- has the requester as its target.
  pub handle_incoming_frame-arp_request :
      arp.opcode ≡ 1
      → IsOurs engine arp.target_ip
      → IsArpReply eth
          (Arp.reply_of arp virtual_gateway_mac)
          (handle_incoming_frame host engine bytes)
  handle_incoming_frame-arp_request op ours =
      let e = reply_eth eth ethertype_arp in
      let packet = Arp.write_reply arp virtual_gateway_mac in
      let (htype_fits, ptype_fits) =
        Arp.parse-types request.packet arp
          (Ethernet.parse-IsBytes bytes request.packet eth request.is_bytes request.reads_eth)
          request.reads_arp in
      record {
        bytes = Ethernet.write_to e ++ packet;
        packet = packet;
        is_frame = reaches_handle_arp ∙ answers op ours;
        reads_eth = Ethernet.parse-write_to_frame e packet (omega arith);
        reads_arp =
            let r = Arp.parse-write_reply arp [] htype_fits ptype_fits virtual_gateway_mac in
            rw append-nil at r;
      }

  -- Nothing else is answered: not a reply, and not a request for another address.
  pub handle_incoming_frame-arp_silent :
      (arp.opcode ≢ 1) ⊎ (¬ IsOurs engine arp.target_ip)
      → handle_incoming_frame host engine bytes ≡ silent
  unfolding handle_arp
  handle_incoming_frame-arp_silent (inl ne) =
      reaches_handle_arp
      ∙ rw (Arp.parse_with-parse silent panic _ request.packet)
          (rw request.reads_arp (ground arith))
  handle_incoming_frame-arp_silent (inr ne) =
      reaches_handle_arp
      ∙ rw (Arp.parse_with-parse silent panic _ request.packet)
          (rw request.reads_arp (rw (not_ours engine arp.target_ip ne) (ground arith)))
