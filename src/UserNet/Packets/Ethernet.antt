-- ===== src/UserNet/Packets/Ethernet.antt =====
-- `EthernetHeader::parse` and `write_to`.
use kc_docker.Shared.{
  ℕ, Option, none, some, List, ◌++◌, ltb, if◌then◌else◌, length, drop, to_be16, IsWord, IsBytes,
  ◌≡◌, arith, byte_at, be16, All-drop, IsByte,
}
use kc_docker.UserNet.Packets.{answer, within, EthernetHeader, mac_at, mac_bytes}

-- The parser in full: a caller says what becomes of `None`, of a panic, and of the result.
unfoldable pub parse_with {ℓ} : {A : Type ℓ} → A → A → (EthernetHeader → List ℕ → A) → List ℕ → A
parse_with refused panicked next buf =
    if ltb (length buf) 14
    then refused
    else within panicked buf 14 (
        next
          (record {
            dst_mac = mac_at buf 0;
            src_mac = mac_at buf 6;
            ethertype = be16 (byte_at buf 12) (byte_at buf 13);
          })
          (drop 14 buf))

unfoldable pub parse : List ℕ → Option (EthernetHeader × List ℕ)
unfolding parse_with
parse buf = parse_with none none (λ h rest. some (h, rest)) buf

unfoldable pub write_to : EthernetHeader → List ℕ
write_to h = mac_bytes h.dst_mac ++ mac_bytes h.src_mac ++ to_be16 h.ethertype

-- What is written is read back, with whatever follows as the payload.
pub parse-write_to_frame :
    (h : EthernetHeader) (rest : List ℕ)
    → IsWord h.ethertype
    → parse (write_to h ++ rest) ≡ some (h, rest)
unfolding parse parse_with write_to
parse-write_to_frame h rest w = ground arith

-- A frame that parses is the header written again, then the payload.
pub write_to-parse :
    (buf rest : List ℕ) (h : EthernetHeader)
    → IsBytes buf
    → parse buf ≡ some (h, rest)
    → write_to h ++ rest ≡ buf
unfolding parse parse_with write_to
write_to-parse buf rest h b e = ground arith

-- The payload of a frame of bytes is bytes.
pub parse-IsBytes :
    (buf rest : List ℕ) (h : EthernetHeader)
    → IsBytes buf
    → parse buf ≡ some (h, rest)
    → IsBytes rest
unfolding parse parse_with
parse-IsBytes buf rest h b e =
    let cut : rest ≡ drop 14 buf = ground arith in rw cut (All-drop IsByte 14 buf b)

-- A parser's reads are within its buffer, whatever the bytes.
pub parse_with-parse :
    {A : Type 0} (refused panicked : A) (next : EthernetHeader → List ℕ → A) (buf : List ℕ)
    → parse_with refused panicked next buf ≡ answer refused (λ p. next p.0 p.1) (parse buf)
unfolding parse parse_with
parse_with-parse refused panicked next buf = ground arith
