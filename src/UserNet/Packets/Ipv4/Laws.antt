-- ===== src/UserNet/Packets/Ipv4/Laws.antt =====
-- Written IPv4 headers: reading them back, their checksum, the panic of `write_to`.
use kc_docker.Shared.{
  ℕ, ◌+◌, ◌-◌, ◌*◌, ◌≤◌, ◌<◌, min, none, some, List, ◌∷◌, [], ◌++◌, length, drop, take, to_be16,
  IsWord, IsBytes, IsByte, low_bits, ◌≡◌, arith, length-append, take-append, slice, ap, ◌∙◌,
  byte_at-IsByte, All-take, All-drop, length-take,
}
use kc_docker.UserNet.Packets.{answer, Ipv4Header, Ipv4Addr, u16_at, ip_at, octets}
use kc_docker.UserNet.Packets.Checksum.{compute_checksum}
use kc_docker.UserNet.Packets.Checksum.Verify.{checksum_verifies}
use kc_docker.UserNet.Packets.Ipv4.{parse, parse_with, header_bytes, write_to}

abbrev pub IsAddr : Ipv4Addr → Type 0
IsAddr ip = IsByte ip.o0 × IsByte ip.o1 × IsByte ip.o2 × IsByte ip.o3

-- The fields fit their widths, and there are no options.
pub record IsPlain (h : Ipv4Header) : Type 0 where
  pub no_options : h.ihl ≡ 5
  pub tos_fits : IsByte h.tos
  pub length_fits : IsWord h.total_length
  pub id_fits : IsWord h.id
  pub flags_fit : IsWord h.flags_and_frag
  pub ttl_fits : IsByte h.ttl
  pub protocol_fits : IsByte h.protocol
  pub src_fits : IsAddr h.src_ip
  pub dst_fits : IsAddr h.dst_ip

-- The checksum that `write_to` stores.
abbrev pub stored_checksum : Ipv4Header → ℕ
stored_checksum h = compute_checksum (header_bytes h 0)

pub write_to_plain :
    (h : Ipv4Header) → h.ihl ≡ 5 → write_to h ≡ some (header_bytes h (stored_checksum h))
unfolding write_to header_bytes
write_to_plain h e = ground arith

parse-header_bytes_slice :
    (h : Ipv4Header) (c : ℕ) (rest : List ℕ)
    → IsPlain h
    → IsWord c
    → parse (header_bytes h c ++ rest)
      ≡ some (
        record h { checksum = c },
        take (min (20 + (h.total_length - 20)) (20 + length rest) - 20) rest,
      )
unfolding parse parse_with header_bytes
parse-header_bytes_slice h c rest v w = ground arith

-- A written header is read back with the checksum in place. The payload ends where the total
-- length says.
pub parse-header_bytes :
    (h : Ipv4Header) (c : ℕ) (payload rest : List ℕ)
    → IsPlain h
    → IsWord c
    → h.total_length ≡ 20 + length payload
    → parse (header_bytes h c ++ (payload ++ rest)) ≡ some (record h { checksum = c }, payload)
parse-header_bytes h c payload rest v w e =
    let n = min (20 + (h.total_length - 20)) (20 + length (payload ++ rest)) - 20 in
    let whole : n ≡ length payload = omega (arith, length-append payload rest) in
    parse-header_bytes_slice h c (payload ++ rest) v w
    ∙ ap (λ k. some (record h { checksum = c }, k))
        (ap (λ k. take k (payload ++ rest)) whole ∙ take-append payload rest)

-- The header with its checksum sums to zero, as a receiver checks.
pub header_bytes_verifies :
    (h : Ipv4Header) → IsPlain h → compute_checksum (header_bytes h (stored_checksum h)) ≡ 0
unfolding header_bytes
header_bytes_verifies h v =
    checksum_verifies
      ((64 + low_bits h.ihl 4) ∷ h.tos ∷ to_be16 h.total_length
        ++ (to_be16 h.id ++ (to_be16 h.flags_and_frag ++ h.ttl ∷ h.protocol ∷ [])))
      (octets h.src_ip ++ octets h.dst_ip) tt (omega arith)

-- `write_to` panics exactly on a header with options.
pub write_to_panics :
    (h : Ipv4Header) → (write_to h ≡ none → 5 < h.ihl) × (5 < h.ihl → write_to h ≡ none)
unfolding write_to header_bytes
write_to_panics h = (λ e. ground arith, λ e. ground arith)

-- What a header read from bytes satisfies, and its payload.
pub record IsReceived (ip : Ipv4Header) (payload : List ℕ) : Type 0 where
  pub src_bytes : IsAddr ip.src_ip
  pub dst_bytes : IsAddr ip.dst_ip
  pub payload_bytes : IsBytes payload
  pub payload_length : length payload ≤ 65515

parse_fields :
    (buf payload : List ℕ) (ip : Ipv4Header)
    → parse buf ≡ some (ip, payload)
    → (ip.src_ip ≡ ip_at buf 12)
      × (ip.dst_ip ≡ ip_at buf 16)
      × (payload
          ≡ slice buf (ip.ihl * 4) (min (ip.ihl * 4 + (ip.total_length - ip.ihl * 4)) (length buf)))
      × (ip.total_length ≡ u16_at buf 2)
      × (5 ≤ ip.ihl)
unfolding parse parse_with
parse_fields buf payload ip e = ground arith

-- A payload of a packet of bytes has at most 65515 of them, and the addresses are bytes.
pub parse-IsReceived :
    (buf payload : List ℕ) (ip : Ipv4Header)
    → IsBytes buf
    → parse buf ≡ some (ip, payload)
    → IsReceived ip payload
parse-IsReceived buf payload ip b e =
    let (src, dst, body, total, five) = parse_fields buf payload ip e in
    let start = ip.ihl * 4 in
    let end = min (start + (ip.total_length - start)) (length buf) in
    record {
      src_bytes = rw src (
        byte_at-IsByte buf 12 b,
        byte_at-IsByte buf 13 b,
        byte_at-IsByte buf 14 b,
        byte_at-IsByte buf 15 b,
      );
      dst_bytes = rw dst (
        byte_at-IsByte buf 16 b,
        byte_at-IsByte buf 17 b,
        byte_at-IsByte buf 18 b,
        byte_at-IsByte buf 19 b,
      );
      payload_bytes = rw body (All-take IsByte (end - start) _ (All-drop IsByte start buf b));
      payload_length = omega (
        arith,
        ap length body,
        length-take (end - start) (drop start buf),
        byte_at-IsByte buf 2 b,
        byte_at-IsByte buf 3 b,
      );
    }

-- A parser's reads are within its buffer, whatever the bytes.
pub parse_with-parse :
    {A : Type 0} (refused panicked : A) (next : Ipv4Header → List ℕ → A) (buf : List ℕ)
    → parse_with refused panicked next buf ≡ answer refused (λ p. next p.0 p.1) (parse buf)
unfolding parse parse_with
parse_with-parse refused panicked next buf = ground arith
