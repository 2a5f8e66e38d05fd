-- ===== src/Network/Ipam/Ranges.antt =====
-- The numbers of the addresses of a subnet, as `allocate_ip_in_subnet` computes them.
use kc_docker.Shared.{ℕ, zero, suc, ◌+◌, ◌-◌, ◌*◌, ◌/◌, ◌^◌, ◌≤◌, ◌<◌, ◌≡◌, arith, ap, sym, ◌∙◌}
use native.Mathlib.Nat.{
  pow-suc, add-suc, add-zero, mul-one, mul_assoc, mul_comm, div-lt_iff_lt-mul, one-le-pow,
  div-eq_of_lt-le,
}
use kc_docker.Network.Ipam.{network_of}

pow-add : (a b : ℕ) → 2 ^ (a + b) ≡ 2 ^ a * 2 ^ b
pow-add a zero = rw add-zero (sym (mul-one (2 ^ a)))
pow-add a (suc b) =
    rw (add-suc a b)
      (rw (pow-suc 2 (a + b)) (rw (pow-suc 2 b) (rw (pow-add a b) (mul_assoc (2 ^ a) (2 ^ b) 2))))

bound_of_quotient : (q d e : ℕ) → q < e → 2 ^ 32 ≡ d * e → q * d + d ≤ 2 ^ 32
bound_of_quotient q d e lt product = grind arith

-- The host addresses of a network of `2 ^ bits` addresses are 32-bit numbers of that network.
pub network_bound :
    (bits base : ℕ) → bits ≤ 32 → base < 2 ^ 32 → network_of bits base + 2 ^ bits ≤ 2 ^ 32
network_bound bits base le lt =
    let d = 2 ^ bits in
    let e = 2 ^ (32 - bits) in
    let whole : bits + (32 - bits) ≡ 32 = omega arith in
    let product : 2 ^ 32 ≡ d * e = ap (λ k. 2 ^ k) (sym whole) ∙ pow-add bits (32 - bits) in
    let positive : 0 < d = one-le-pow bits 2 (omega arith) in
    let quotient : base / d < e =
      (div-lt_iff_lt-mul positive).1 (omega (arith, product, mul_comm d e)) in
    bound_of_quotient (base / d) d e quotient product

pub same_network :
    (bits base host : ℕ)
    → network_of bits base ≤ host
    → host < network_of bits base + 2 ^ bits
    → network_of bits host ≡ network_of bits base
same_network bits base host low high =
    let d = 2 ^ bits in ap (λ q. q * d) (div-eq_of_lt-le d low (omega arith))
