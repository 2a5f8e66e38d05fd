-- ===== src/UserNet/Packets/Checksum.antt =====
-- `compute_checksum` (RFC 1071) and `compute_tcp_checksum`.
pub mod Verify
pub mod Internet
use kc_docker.Shared.{
  ℕ, zero, suc, ◌+◌, ◌-◌, ◌*◌, List, [], ◌∷◌, ◌++◌, ltb, if◌then◌else◌, length, u16, u32, be16, shr,
  low_bits, to_be16,
}
use kc_docker.UserNet.Packets.{Ipv4Addr, octets}

-- The summing loop: `sum` is a u32, the words are read two bytes at a time, and a last odd
-- byte is the high half of a word.
unfoldable pub sum_words : ℕ → List ℕ → ℕ
sum_words sum [] = sum
sum_words sum (b ∷ []) = u32 (sum + b * 256)
sum_words sum (b ∷ c ∷ rest) = sum_words (u32 (sum + be16 b c)) rest

-- `while (sum >> 16) > 0 { sum = (sum & 0xffff) + (sum >> 16) }` with fuel.
unfoldable pub fold_carries : ℕ → ℕ → ℕ
fold_carries zero sum = sum
fold_carries (suc fuel) sum =
    let rest = fold_carries fuel (low_bits sum 16 + shr sum 16) in
    if ltb 0 (shr sum 16) then rest else sum

-- Three rounds end the loop on any u32: see `fold_carries_done`.
unfoldable pub compute_checksum : List ℕ → ℕ
unfolding sum_words fold_carries
compute_checksum bytes = 65535 - u16 (fold_carries 3 (sum_words 0 bytes))

unfoldable pub compute_tcp_checksum : Ipv4Addr → Ipv4Addr → ℕ → List ℕ → ℕ
compute_tcp_checksum src_ip dst_ip proto segment =
    compute_checksum
      (octets src_ip ++ (octets dst_ip ++ (0 ∷ proto ∷ to_be16 (u16 (length segment)) ++ segment)))
