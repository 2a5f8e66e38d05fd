-- ===== src/UserNet/Packets/Tcp.antt =====
-- `TcpHeader::parse` and `write_to`.
use kc_docker.Shared.{
  ℕ, ◌+◌, ◌-◌, ◌*◌, ◌≤◌, ◌<◌, Option, none, some, List, ◌∷◌, ◌++◌, ltb, if◌then◌else◌, length, drop,
  to_be16, to_be32, IsWord, IsBytes, IsByte, ◌||◌, u8, shr, low_bits, ◌^◌, ◌%◌, ◌/◌, ◌≡◌, arith,
  byte_at, be16, byte_at-IsByte, All-drop, drop-append,
}
use kc_docker.UserNet.Packets.{answer, within, TcpHeader, u16_at, u32_at}

-- The parser in full: a caller says what becomes of `None`, of a panic, and of the result.
unfoldable pub parse_with {ℓ} : {A : Type ℓ} → A → A → (TcpHeader → List ℕ → A) → List ℕ → A
parse_with refused panicked next buf =
    let data_offset = shr (byte_at buf 12) 4 * 4 in
    if ltb (length buf) 20
    then refused
    else within panicked buf 20 (
        if ltb data_offset 20 || ltb (length buf) data_offset
        then refused
        else within panicked buf data_offset (
            next
              (record {
                src_port = u16_at buf 0;
                dst_port = u16_at buf 2;
                seq_num = u32_at buf 4;
                ack_num = u32_at buf 8;
                data_offset = data_offset;
                flags = be16 (low_bits (byte_at buf 12) 1) (byte_at buf 13);
                window_size = u16_at buf 14;
                checksum = u16_at buf 16;
                urgent_ptr = u16_at buf 18;
              })
              (drop data_offset buf)))

unfoldable pub parse : List ℕ → Option (TcpHeader × List ℕ)
unfolding parse_with
parse buf = parse_with none none (λ h payload. some (h, payload)) buf

unfoldable pub write_to : TcpHeader → List ℕ
write_to h =
    to_be16 h.src_port
    ++ (to_be16 h.dst_port
        ++ (to_be32 h.seq_num
            ++ (to_be32 h.ack_num
                ++ (u8 (h.data_offset / 4 * 16) ∷ low_bits h.flags 8 ∷ to_be16 h.window_size
                    ++ (to_be16 h.checksum ++ to_be16 h.urgent_ptr)))))

-- The header fits its fields; bit 8 of the flags, which `write_to` does not write, is clear.
pub record IsValid (h : TcpHeader) : Type 0 where
  pub src_fits : IsWord h.src_port
  pub dst_fits : IsWord h.dst_port
  pub seq_fits : h.seq_num < 2 ^ 32
  pub ack_fits : h.ack_num < 2 ^ 32
  pub offset_words : h.data_offset % 4 ≡ 0
  pub offset_min : 20 ≤ h.data_offset
  pub offset_max : h.data_offset ≤ 60
  pub flags_fit : h.flags < 256
  pub window_fits : IsWord h.window_size
  pub checksum_fits : IsWord h.checksum
  pub urgent_fits : IsWord h.urgent_ptr

-- A written segment is read back; the options that fill up the data offset are skipped.
pub parse-write_to :
    (h : TcpHeader) (rest : List ℕ)
    → IsValid h
    → h.data_offset ≤ 20 + length rest
    → parse (write_to h ++ rest) ≡ some (h, drop (h.data_offset - 20) rest)
unfolding parse parse_with write_to
parse-write_to h rest v n =
    ground (arith, drop-append h.data_offset (write_to h) rest (omega arith))

-- The ranges of what is read from bytes.
pub record IsReceived (h : TcpHeader) (payload : List ℕ) : Type 0 where
  pub src_fits : IsWord h.src_port
  pub dst_fits : IsWord h.dst_port
  pub seq_fits : h.seq_num < 2 ^ 32
  pub ack_fits : h.ack_num < 2 ^ 32
  pub payload_bytes : IsBytes payload

parse_fields :
    (buf payload : List ℕ) (h : TcpHeader)
    → parse buf ≡ some (h, payload)
    → (h.src_port ≡ u16_at buf 0)
      × (h.dst_port ≡ u16_at buf 2)
      × (h.seq_num ≡ u32_at buf 4)
      × (h.ack_num ≡ u32_at buf 8)
      × (payload ≡ drop h.data_offset buf)
unfolding parse parse_with
parse_fields buf payload h e = ground arith

-- A header that is read from bytes fits its fields.
pub parse-IsReceived :
    (buf payload : List ℕ) (h : TcpHeader)
    → IsBytes buf
    → parse buf ≡ some (h, payload)
    → IsReceived h payload
parse-IsReceived buf payload h b e =
    let (src, dst, seq, ack, body) = parse_fields buf payload h e in
    let at = λ (i : ℕ). byte_at-IsByte buf i b in
    record {
      src_fits = omega (arith, at 0, at 1);
      dst_fits = omega (arith, at 2, at 3);
      seq_fits = omega (arith, at 4, at 5, at 6, at 7);
      ack_fits = omega (arith, at 8, at 9, at 10, at 11);
      payload_bytes = rw body (All-drop IsByte h.data_offset buf b);
    }

pub length-write_to :
    (h : TcpHeader) (payload : List ℕ) → length (write_to h ++ payload) ≡ 20 + length payload
unfolding write_to
length-write_to h payload = omega arith

-- A parser's reads are within its buffer, whatever the bytes.
pub parse_with-parse :
    {A : Type 0} (refused panicked : A) (next : TcpHeader → List ℕ → A) (buf : List ℕ)
    → parse_with refused panicked next buf ≡ answer refused (λ p. next p.0 p.1) (parse buf)
unfolding parse parse_with
parse_with-parse refused panicked next buf = ground arith
