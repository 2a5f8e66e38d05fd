-- ===== src/Network/Addresses.antt =====
-- `Ipv4Addr` as text and as a u32: `parse`, `to_string`, `u32::from`, `Ipv4Addr::from`.
use kc_docker.Shared.{
  ℕ, zero, suc, ◌/◌, ◌%◌, ◌<◌, ◌^◌, Bool, true, false, ◌&&◌, not, Option, none, some, List, [], ◌∷◌,
  ◌++◌, if◌then◌else◌, Text, ◌≡◌, refl, arith, ◌==◌, IsByte, be32, split, parse_uint, is_digit,
  ◌>>=◌, All, parse_uint-le, subst,
}
use kc_docker.Shared.Decimal.{print_uint, parse_uint-print_uint, print_uint-IsDigits}
use kc_docker.Shared.Splitting.{Lacks, split-append, split_whole}
use kc_docker.UserNet.Packets.{Ipv4Addr, ipv4}
use kc_docker.UserNet.Packets.Ipv4.Laws.{IsAddr}

-- A leading zero before further digits, or a `+`: refused in an address, accepted in a number.
abbrev is_plain_number : Text → Bool
is_plain_number [] = false
is_plain_number (c ∷ []) = is_digit c
is_plain_number (c ∷ d ∷ s) = is_digit c && not (c == b'0')

unfoldable pub parse_octet : Text → Option ℕ
parse_octet s = if is_plain_number s then parse_uint 255 s else none

abbrev parse_octets : List Text → Option Ipv4Addr
parse_octets (a ∷ b ∷ c ∷ d ∷ []) = do
  o0 ← parse_octet a
  o1 ← parse_octet b
  o2 ← parse_octet c
  o3 ← parse_octet d
  some (ipv4 o0 o1 o2 o3)
parse_octets _ = none

-- `str::parse::<Ipv4Addr>`.
unfoldable pub parse_ip : Text → Option Ipv4Addr
parse_ip s = parse_octets (split s b'.')

-- `Ipv4Addr::to_string`.
unfoldable pub print_ip : Ipv4Addr → Text
print_ip ip =
    print_uint ip.o0
    ++ b'.' ∷ (print_uint ip.o1 ++ b'.' ∷ (print_uint ip.o2 ++ b'.' ∷ print_uint ip.o3))

-- `u32::from(ip)` and `Ipv4Addr::from(n)`.
abbrev pub ip_to_u32 : Ipv4Addr → ℕ
ip_to_u32 ip = be32 ip.o0 ip.o1 ip.o2 ip.o3

abbrev pub ip_of_u32 : ℕ → Ipv4Addr
ip_of_u32 n = ipv4 (n / 16777216 % 256) (n / 65536 % 256) (n / 256 % 256) (n % 256)

pub ip_of_u32-IsAddr : (n : ℕ) → IsAddr (ip_of_u32 n)
ip_of_u32-IsAddr n = omega arith

pub ip_to_u32_of_u32 : (n : ℕ) → n < 2 ^ 32 → ip_to_u32 (ip_of_u32 n) ≡ n
ip_to_u32_of_u32 n h = omega arith

pub ip_of_u32_to_u32 : (ip : Ipv4Addr) → IsAddr ip → ip_of_u32 (ip_to_u32 ip) ≡ ip
ip_of_u32_to_u32 ip h = ground arith

-- A test of the numbers below a bound, for laws that evaluation checks.
holds_below : (ℕ → Bool) → ℕ → Bool
holds_below test zero = true
holds_below test (suc bound) = holds_below test bound && test bound

holds_below_at :
    (test : ℕ → Bool) (bound k : ℕ) → k < bound → holds_below test bound ≡ true → test k ≡ true
unfolding holds_below
holds_below_at test zero k lt h = absurd (omega arith)
holds_below_at test (suc bound) k lt h = ground (arith, holds_below_at test bound k)

plain_table : holds_below (λ n. is_plain_number (print_uint n)) 256 ≡ true
unfolding holds_below print_uint
plain_table = refl

parse_octet-print_uint : (n : ℕ) → IsByte n → parse_octet (print_uint n) ≡ some n
unfolding parse_octet
parse_octet-print_uint n h =
    rw (holds_below_at (λ k. is_plain_number (print_uint k)) 256 n h plain_table)
      (parse_uint-print_uint 255 n (omega arith))

digits_lack_dot : (s : Text) → All (λ c. is_digit c ≡ true) s → Lacks b'.' s
digits_lack_dot [] h = tt
digits_lack_dot (c ∷ s) h = (ground arith, digits_lack_dot s h.1)

print_uint-Lacks_dot : (n : ℕ) → Lacks b'.' (print_uint n)
print_uint-Lacks_dot n = digits_lack_dot (print_uint n) (print_uint-IsDigits n)

-- An address is read back from its text.
pub parse_ip-print_ip : (ip : Ipv4Addr) → IsAddr ip → parse_ip (print_ip ip) ≡ some ip
unfolding parse_ip print_ip
parse_ip-print_ip ip h =
    let s2 = print_uint ip.o2 ++ b'.' ∷ print_uint ip.o3 in
    let s1 = print_uint ip.o1 ++ b'.' ∷ s2 in
    rw (split-append b'.' (print_uint ip.o0) s1 (print_uint-Lacks_dot ip.o0)) (
      rw (split-append b'.' (print_uint ip.o1) s2 (print_uint-Lacks_dot ip.o1)) (
        rw (split-append b'.' (print_uint ip.o2) (print_uint ip.o3) (print_uint-Lacks_dot ip.o2)) (
          rw (split_whole b'.' (print_uint ip.o3) (print_uint-Lacks_dot ip.o3)) (
            rw
              (
                parse_octet-print_uint ip.o0 h.0,
                parse_octet-print_uint ip.o1 h.1,
                parse_octet-print_uint ip.o2 h.2,
                parse_octet-print_uint ip.o3 h.3,
              )
              refl))))

parse_octet-IsByte : (s : Text) (n : ℕ) → parse_octet s ≡ some n → IsByte n
unfolding parse_octet
parse_octet-IsByte s n e =
    let read : parse_uint 255 s ≡ some n = ground arith in omega (arith, parse_uint-le 255 s read)

>>=-eq-some {ℓ κ} :
    {A : Type ℓ} {B : Type κ} (m : Option A) (f : A → Option B) {b : B}
    → (m >>= f) ≡ some b
    → (a : A) × (m ≡ some a) × (f a ≡ some b)
>>=-eq-some none f e = absurd (ground arith)
>>=-eq-some (some a) f e = (a, refl, e)

parse_octets-IsAddr : (parts : List Text) (ip : Ipv4Addr) → parse_octets parts ≡ some ip → IsAddr ip
parse_octets-IsAddr (a ∷ b ∷ c ∷ d ∷ []) ip e =
    let (o0, e0, r0) = >>=-eq-some (parse_octet a) _ e in
    let (o1, e1, r1) = >>=-eq-some (parse_octet b) _ r0 in
    let (o2, e2, r2) = >>=-eq-some (parse_octet c) _ r1 in
    let (o3, e3, r3) = >>=-eq-some (parse_octet d) _ r2 in
    let same : ipv4 o0 o1 o2 o3 ≡ ip = ground arith in
    subst IsAddr same (
      parse_octet-IsByte a o0 e0,
      parse_octet-IsByte b o1 e1,
      parse_octet-IsByte c o2 e2,
      parse_octet-IsByte d o3 e3,
    )
parse_octets-IsAddr _ ip e = absurd (ground arith)

-- The octets of a parsed address are bytes.
pub parse_ip-IsAddr : (s : Text) (ip : Ipv4Addr) → parse_ip s ≡ some ip → IsAddr ip
unfolding parse_ip
parse_ip-IsAddr s ip e = parse_octets-IsAddr (split s b'.') ip e
