-- ===== src/Network/Ipam/Search.antt =====
-- The loop of `allocate_ip_in_subnet` over the host addresses: the first free one, if any.
use kc_docker.Shared.{
  ℕ, zero, suc, ◌+◌, ◌-◌, ◌^◌, ◌≤◌, ◌<◌, Bool, true, false, ◌&&◌, not, Option, none, some, List,
  if◌then◌else◌, ltb, ◌≡◌, refl, arith, Bool-cases, inl, inr, subst,
}
use native.Mathlib.Nat.{pow-le-pow_right}
use kc_docker.UserNet.Packets.{Ipv4Addr, ip_eq}
use kc_docker.Network.Addresses.{ip_of_u32}
use kc_docker.Network.Ipam.{contains_ip, network_of, broadcast_of, first_free, search_hosts}

-- Neither the gateway nor in use.
abbrev pub IsFree : Ipv4Addr → List Ipv4Addr → Ipv4Addr → Type 0
IsFree gateway used ip = (ip_eq ip gateway ≡ false) × (contains_ip used ip ≡ false)

-- `ip` is the first free address from `low`, below `high`.
pub record IsFirstFree (gateway : Ipv4Addr) (used : List Ipv4Addr) (low high : ℕ) (ip : Ipv4Addr)
    : Type 0 where
  pub host : ℕ
  pub ip_is : ip ≡ ip_of_u32 host
  pub above : low ≤ host
  pub below : host < high
  pub free : IsFree gateway used ip
  pub earlier : (n : ℕ) → low ≤ n → n < host → ¬ IsFree gateway used (ip_of_u32 n)

abbrev pub FirstFree : Ipv4Addr → List Ipv4Addr → ℕ → ℕ → Option Ipv4Addr → Type 0
FirstFree gateway used low high none =
    (n : ℕ) → low ≤ n → n < high → ¬ IsFree gateway used (ip_of_u32 n)
FirstFree gateway used low high (some ip) = IsFirstFree gateway used low high ip

module _ (gateway : Ipv4Addr) (used : List Ipv4Addr) where
  is_free : ℕ → Bool
  is_free n = not (ip_eq (ip_of_u32 n) gateway) && not (contains_ip used (ip_of_u32 n))

  is_free_sound : (n : ℕ) → is_free n ≡ true → IsFree gateway used (ip_of_u32 n)
  unfolding is_free
  is_free_sound n h = ground arith

  is_free_complete : (n : ℕ) → is_free n ≡ false → ¬ IsFree gateway used (ip_of_u32 n)
  unfolding is_free
  is_free_complete n h (g, u) = ground arith

  first_free_step :
      (left n : ℕ)
      → first_free gateway used (suc left) n
        ≡ (if is_free n then some (ip_of_u32 n) else first_free gateway used left (n + 1))
  unfolding first_free is_free
  first_free_step left n = refl

  FirstFree-later :
      (n high : ℕ) (r : Option Ipv4Addr)
      → ¬ IsFree gateway used (ip_of_u32 n)
      → FirstFree gateway used (n + 1) high r
      → FirstFree gateway used n high r
  FirstFree-later n high none taken h = λ m low lt. elim (Bool-cases (ltb n m)) [
    | inl later ↦ h m (ground arith) lt
    | inr here ↦ let e : m ≡ n = ground arith in rw e taken
  ]
  FirstFree-later n high (some ip) taken h = record {
    host = h.host;
    ip_is = h.ip_is;
    above = omega (arith, h.above);
    below = h.below;
    free = h.free;
    earlier = λ m low lt. elim (Bool-cases (ltb n m)) [
      | inl later ↦ h.earlier m (ground arith) lt
      | inr here ↦ let e : m ≡ n = ground arith in rw e taken
    ];
  }

  first_free-FirstFree :
      (left n : ℕ) → FirstFree gateway used n (n + left) (first_free gateway used left n)
  unfolding first_free
  first_free-FirstFree zero n = λ m low lt. absurd (omega arith)
  first_free-FirstFree (suc left) n = rw (first_free_step left n) (elim (Bool-cases (is_free n)) [
    | inl free ↦ rw free (record {
      host = n;
      ip_is = refl;
      above = omega arith;
      below = omega arith;
      free = is_free_sound n free;
      earlier = λ m low lt. absurd (omega arith);
    })
    | inr taken ↦
        let e : n + suc left ≡ n + 1 + left = omega arith in
        rw (taken, e)
          (FirstFree-later n (n + 1 + left) (first_free gateway used left (n + 1))
            (is_free_complete n taken) (first_free-FirstFree left (n + 1)))
  ])

pub search_hosts-FirstFree :
    (bits base : ℕ) (gateway : Ipv4Addr) (used : List Ipv4Addr)
    → 2 ≤ bits
    → FirstFree gateway used
        (network_of bits base + 1)
        (broadcast_of bits base)
        (search_hosts bits base gateway used)
unfolding search_hosts
search_hosts-FirstFree bits base gateway used two =
    let n = network_of bits base in
    let four : 4 ≤ 2 ^ bits = pow-le-pow_right {n = 2} (omega arith) {i = 2} two in
    let e : n + 1 + (broadcast_of bits base - 1 + 1 - (n + 1)) ≡ broadcast_of bits base =
      omega arith in
    subst (λ h. FirstFree gateway used (n + 1) h (search_hosts bits base gateway used)) e
      (first_free-FirstFree gateway used (broadcast_of bits base - 1 + 1 - (n + 1)) (n + 1))
