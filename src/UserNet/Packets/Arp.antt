-- ===== src/UserNet/Packets/Arp.antt =====
-- `ArpPacket::parse`, `write_request` and `write_reply`.
use kc_docker.Shared.{
  ℕ, Option, none, some, List, ◌∷◌, ◌++◌, ltb, if◌then◌else◌, length, to_be16, IsWord, IsBytes, ◌≡◌,
  arith, byte_at-IsByte, byte_at,
}
use kc_docker.UserNet.Packets.{
  answer, within, ArpPacket, MacAddr, mac_at, mac_bytes, ip_at, octets, u16_at,
}

-- The parser in full: a caller says what becomes of `None`, of a panic, and of the result.
unfoldable pub parse_with {ℓ} : {A : Type ℓ} → A → A → (ArpPacket → A) → List ℕ → A
parse_with refused panicked next buf =
    if ltb (length buf) 28
    then refused
    else within panicked buf 28 (
        next (record {
          htype = u16_at buf 0;
          ptype = u16_at buf 2;
          hlen = byte_at buf 4;
          plen = byte_at buf 5;
          opcode = u16_at buf 6;
          sender_mac = mac_at buf 8;
          sender_ip = ip_at buf 14;
          target_mac = mac_at buf 18;
          target_ip = ip_at buf 24;
        }))

unfoldable pub parse : List ℕ → Option ArpPacket
unfolding parse_with
parse buf = parse_with none none (λ p. some p) buf

unfoldable pub write_request : ArpPacket → List ℕ
write_request p =
    to_be16 p.htype
    ++ (to_be16 p.ptype
        ++ (p.hlen ∷ p.plen ∷ to_be16 1
            ++ (mac_bytes p.sender_mac
                ++ (octets p.sender_ip ++ (mac_bytes p.target_mac ++ octets p.target_ip)))))

unfoldable pub write_reply : ArpPacket → MacAddr → List ℕ
write_reply p reply_mac =
    to_be16 p.htype
    ++ (to_be16 p.ptype
        ++ (p.hlen ∷ p.plen ∷ to_be16 2
            ++ (mac_bytes reply_mac
                ++ (octets p.target_ip ++ (mac_bytes p.sender_mac ++ octets p.sender_ip)))))

abbrev pub request_of : ArpPacket → ArpPacket
request_of p = record p { opcode = 1 }

-- The reply to `p` from the owner of `reply_mac`: both ends swapped.
abbrev pub reply_of : ArpPacket → MacAddr → ArpPacket
reply_of p reply_mac = record p {
  opcode = 2;
  sender_mac = reply_mac;
  sender_ip = p.target_ip;
  target_mac = p.sender_mac;
  target_ip = p.sender_ip;
}

module _ (p : ArpPacket) (rest : List ℕ) (hw : IsWord p.htype) (pw : IsWord p.ptype) where
  -- A written request is read back with opcode 1.
  pub parse-write_request : parse (write_request p ++ rest) ≡ some (request_of p)
  unfolding parse parse_with write_request
  parse-write_request = ground arith

  -- A written reply is read back as the swapped packet.
  pub parse-write_reply :
      (reply_mac : MacAddr) → parse (write_reply p reply_mac ++ rest) ≡ some (reply_of p reply_mac)
  unfolding parse parse_with write_reply
  parse-write_reply reply_mac = ground arith

-- The two type fields of a packet read from bytes are words.
pub parse-types :
    (buf : List ℕ) (p : ArpPacket)
    → IsBytes buf
    → parse buf ≡ some p
    → IsWord p.htype × IsWord p.ptype
unfolding parse parse_with
parse-types buf p b e =
    let at = λ (i : ℕ). byte_at-IsByte buf i b in
    let fields : (p.htype ≡ u16_at buf 0) × (p.ptype ≡ u16_at buf 2) = ground arith in
    (omega (arith, fields, at 0, at 1), omega (arith, fields, at 2, at 3))

-- A parser's reads are within its buffer, whatever the bytes.
pub parse_with-parse :
    {A : Type 0} (refused panicked : A) (next : ArpPacket → A) (buf : List ℕ)
    → parse_with refused panicked next buf ≡ answer refused next (parse buf)
unfolding parse parse_with
parse_with-parse refused panicked next buf = ground arith
