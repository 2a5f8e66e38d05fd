-- ===== src/Shared/Words.antt =====
-- Bytes and big-endian machine words as native numbers: `u16::from_be_bytes`, `to_be_bytes`,
-- shifts and masks.
use Prim.Native.Nat.{ℕ, zero, suc, ◌+◌, ◌-◌, ◌*◌, ◌/◌, ◌%◌, ◌^◌, ◌<◌}
use mathlib.Core.List.{List, [], ◌∷◌}
use native.Mathlib.Omega.{arith}
use kc_docker.Shared.Lists.{get_or, All}
use kc_docker.Shared.Tests.{ltb, if◌then◌else◌}

-- A signed integer over the native numbers: `pos n` is n and `negsuc n` is -(n + 1).
pub data ℤ : Type 0 where
  pos negsuc : ℕ → ℤ

abbrev pub u8 : ℕ → ℕ
u8 n = n % 2 ^ 8

abbrev pub u16 : ℕ → ℕ
u16 n = n % 2 ^ 16

abbrev pub u32 : ℕ → ℕ
u32 n = n % 2 ^ 32

abbrev pub u64 : ℕ → ℕ
u64 n = n % 2 ^ 64

-- The `i64` with the bits of a number below 2^64.
abbrev pub i64_of_bits : ℕ → ℤ
i64_of_bits n = if ltb n (2 ^ 63) then pos n else negsuc (2 ^ 64 - 1 - n)

-- `x >> k` and `x & (2^k - 1)`.
abbrev pub shr : ℕ → ℕ → ℕ
shr x k = x / 2 ^ k

abbrev pub low_bits : ℕ → ℕ → ℕ
low_bits x k = x % 2 ^ k

-- The bit of weight 2^k, `(x >> k) & 1`.
abbrev pub bit_at : ℕ → ℕ → ℕ
bit_at x k = x / 2 ^ k % 2

-- `u16::from_be_bytes([hi, lo])` and `u32::from_be_bytes`.
abbrev pub be16 : ℕ → ℕ → ℕ
be16 hi lo = hi * 256 + lo

abbrev pub be32 : ℕ → ℕ → ℕ → ℕ → ℕ
be32 a b c d = a * 16777216 + b * 65536 + c * 256 + d

-- `to_be_bytes` of a u16 and of a u32.
abbrev pub to_be16 : ℕ → List ℕ
to_be16 v = v / 256 % 256 ∷ v % 256 ∷ []

abbrev pub to_be32 : ℕ → List ℕ
to_be32 v = v / 16777216 % 256 ∷ v / 65536 % 256 ∷ v / 256 % 256 ∷ v % 256 ∷ []

-- A read of `buf[i]` that the caller's length test keeps in bounds.
abbrev pub byte_at : List ℕ → ℕ → ℕ
byte_at buf i = get_or buf i 0

abbrev pub IsByte : ℕ → Type 0
IsByte b = b < 256

abbrev pub IsWord : ℕ → Type 0
IsWord w = w < 65536

abbrev pub IsBytes : List ℕ → Type 0
IsBytes buf = All IsByte buf

pub byte_at-IsByte : (buf : List ℕ) (i : ℕ) → IsBytes buf → IsByte (byte_at buf i)
byte_at-IsByte [] i b = omega arith
byte_at-IsByte (x ∷ buf) zero b = b.0
byte_at-IsByte (x ∷ buf) (suc i) b = byte_at-IsByte buf i b.1
