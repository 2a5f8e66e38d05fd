-- ===== src/UserNet/Packets/Udp.antt =====
-- `UdpHeader::parse` and `write_to`.
use kc_docker.Shared.{
  ℕ, ◌+◌, ◌-◌, min, Option, none, some, List, ◌++◌, ltb, if◌then◌else◌, length, take, to_be16,
  IsWord, IsBytes, ◌≡◌, arith, byte_at-IsByte, IsBytes, ap, ◌∙◌, length-append, take-append, slice,
}
use kc_docker.UserNet.Packets.{answer, within, UdpHeader, u16_at}

-- The parser in full: a caller says what becomes of `None`, of a panic, and of the result.
unfoldable pub parse_with {ℓ} : {A : Type ℓ} → A → A → (UdpHeader → List ℕ → A) → List ℕ → A
parse_with refused panicked next buf =
    let len = u16_at buf 4 in
    let payload_len = len - 8 in
    let end = min (8 + payload_len) (length buf) in
    if ltb (length buf) 8
    then refused
    else within panicked buf 8 (
        if ltb end 8
        then panicked
        else within panicked buf end (
            next
              (record {
                src_port = u16_at buf 0;
                dst_port = u16_at buf 2;
                length = len;
                checksum = u16_at buf 6;
              })
              (slice buf 8 end)))

unfoldable pub parse : List ℕ → Option (UdpHeader × List ℕ)
unfolding parse_with
parse buf = parse_with none none (λ h payload. some (h, payload)) buf

unfoldable pub write_to : UdpHeader → List ℕ
write_to h = to_be16 h.src_port ++ (to_be16 h.dst_port ++ (to_be16 h.length ++ to_be16 h.checksum))

pub record IsValid (h : UdpHeader) : Type 0 where
  pub src_fits : IsWord h.src_port
  pub dst_fits : IsWord h.dst_port
  pub length_fits : IsWord h.length
  pub checksum_fits : IsWord h.checksum

parse-write_to_slice :
    (h : UdpHeader) (rest : List ℕ)
    → IsValid h
    → parse (write_to h ++ rest)
      ≡ some (h, take (min (8 + (h.length - 8)) (8 + length rest) - 8) rest)
unfolding parse parse_with write_to
parse-write_to_slice h rest v = ground arith

-- A written datagram is read back; its payload stops at the header's length, so what follows
-- the datagram in the buffer is not read.
pub parse-write_to_payload :
    (h : UdpHeader) (payload rest : List ℕ)
    → IsValid h
    → h.length ≡ 8 + length payload
    → parse (write_to h ++ (payload ++ rest)) ≡ some (h, payload)
parse-write_to_payload h payload rest v e =
    let n = min (8 + (h.length - 8)) (8 + length (payload ++ rest)) - 8 in
    let whole : n ≡ length payload = omega (arith, length-append payload rest) in
    parse-write_to_slice h (payload ++ rest) v
    ∙ ap (λ k. some (h, k)) (ap (λ k. take k (payload ++ rest)) whole ∙ take-append payload rest)

-- The source port read from bytes is a word.
pub parse-src_port :
    (buf payload : List ℕ) (h : UdpHeader)
    → IsBytes buf
    → parse buf ≡ some (h, payload)
    → IsWord h.src_port
unfolding parse parse_with
parse-src_port buf payload h b e =
    let field : h.src_port ≡ u16_at buf 0 = ground arith in
    omega (arith, byte_at-IsByte buf 0 b, byte_at-IsByte buf 1 b)

pub length-write_to :
    (h : UdpHeader) (payload : List ℕ) → length (write_to h ++ payload) ≡ 8 + length payload
unfolding write_to
length-write_to h payload = omega arith

-- A parser's reads are within its buffer, whatever the bytes.
pub parse_with-parse :
    {A : Type 0} (refused panicked : A) (next : UdpHeader → List ℕ → A) (buf : List ℕ)
    → parse_with refused panicked next buf ≡ answer refused (λ p. next p.0 p.1) (parse buf)
unfolding parse parse_with
parse_with-parse refused panicked next buf = ground arith
