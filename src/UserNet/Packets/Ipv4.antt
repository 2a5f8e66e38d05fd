-- ===== src/UserNet/Packets/Ipv4.antt =====
-- `Ipv4Header::parse` and `write_to`.
pub mod Laws
use kc_docker.Shared.{
  ℕ, ◌+◌, ◌-◌, ◌*◌, min, Option, none, some, List, ◌∷◌, ◌++◌, ltb, if◌then◌else◌, length, take,
  to_be16, not, ◌||◌, ◌==◌, shr, low_bits, byte_at, slice,
}
use kc_docker.UserNet.Packets.{within, Ipv4Header, u16_at, ip_at, octets}
use kc_docker.UserNet.Packets.Checksum.{compute_checksum}

-- The parser in full: a caller says what becomes of `None`, of a panic, and of the result.
unfoldable pub parse_with {ℓ} : {A : Type ℓ} → A → A → (Ipv4Header → List ℕ → A) → List ℕ → A
parse_with refused panicked next buf =
    let ver = shr (byte_at buf 0) 4 in
    let ihl = low_bits (byte_at buf 0) 4 in
    let header_len = ihl * 4 in
    let total_length = u16_at buf 2 in
    let payload_len = total_length - header_len in
    let end = min (header_len + payload_len) (length buf) in
    if ltb (length buf) 20
    then refused
    else within panicked buf 1 (
        if not (ver == 4) || ltb ihl 5
        then refused
        else if ltb (length buf) header_len
        then refused
        else within panicked buf 20 (
            if ltb end header_len
            then panicked
            else within panicked buf end (
                next
                  (record {
                    ihl = ihl;
                    tos = byte_at buf 1;
                    total_length = total_length;
                    id = u16_at buf 4;
                    flags_and_frag = u16_at buf 6;
                    ttl = byte_at buf 8;
                    protocol = byte_at buf 9;
                    checksum = u16_at buf 10;
                    src_ip = ip_at buf 12;
                    dst_ip = ip_at buf 16;
                  })
                  (slice buf header_len end))))

unfoldable pub parse : List ℕ → Option (Ipv4Header × List ℕ)
unfolding parse_with
parse buf = parse_with none none (λ h payload. some (h, payload)) buf

-- The twenty bytes that `write_to` pushes, `csum` in the place of the checksum.
unfoldable pub header_bytes : Ipv4Header → ℕ → List ℕ
header_bytes h csum =
    (64 + low_bits h.ihl 4) ∷ h.tos ∷ to_be16 h.total_length
    ++ (to_be16 h.id
        ++ (to_be16 h.flags_and_frag
            ++ (h.ttl ∷ h.protocol ∷ to_be16 csum ++ (octets h.src_ip ++ octets h.dst_ip))))

-- The checksum is taken over `out[start..start + ihl * 4]` and stored at `start + 10`. Past the
-- twenty bytes that were pushed the slice is out of range: `none` is that panic.
unfoldable pub write_to : Ipv4Header → Option (List ℕ)
unfolding header_bytes
write_to h =
    let out = header_bytes h 0 in
    if ltb (length out) (h.ihl * 4)
    then none
    else some (header_bytes h (compute_checksum (take (h.ihl * 4) out)))
