-- ===== src/Network/Members.antt =====
-- The endpoints of one network: the addresses of `containers` under `insert` and `remove`.
use kc_docker.Shared.{
  ℕ, true, false, ◌||◌, none, some, List, [], ◌∷◌, ◌++◌, Text, text_eq, ◌≡◌, ◌≢◌, refl, arith,
  Bool-cases, inl, inr, Option-cases, ap, subst, All, All-append, text_eq_refl,
}
use kc_docker.Shared.Maps.{get, insert, remove}
use kc_docker.UserNet.Packets.{Ipv4Addr, ip_eq}
use kc_docker.UserNet.Packets.Ipv4.Laws.{IsAddr}
use kc_docker.Network.Addresses.{parse_ip, print_ip, ip_to_u32, parse_ip-print_ip}
use kc_docker.Network.Ipam.{NetworkEndpoint, used_ips, contains_ip, network_of, broadcast_of}
use kc_docker.Network.Ipam.Laws.{Reads, IsAllocated}
use kc_docker.Network.Endpoints.{mac_of_ip, endpoint_of}

-- The endpoint has a host address of the subnet, which is not the gateway's, and the hardware
-- address made of it.
pub record IsMember (subnet gateway : Text) (endpoint : NetworkEndpoint) : Type 0 where
  pub address : Ipv4Addr
  pub octets_fit : IsAddr address
  pub text_is : endpoint.ipv4_address ≡ print_ip address
  pub mac_is : endpoint.mac_address ≡ mac_of_ip address
  pub base : Ipv4Addr
  pub bits : ℕ
  pub gateway_address : Ipv4Addr
  pub reads : Reads subnet gateway base bits gateway_address
  pub in_subnet : network_of bits (ip_to_u32 address) ≡ network_of bits (ip_to_u32 base)
  pub not_network : ip_to_u32 address ≢ network_of bits (ip_to_u32 base)
  pub not_broadcast : ip_to_u32 address ≢ broadcast_of bits (ip_to_u32 base)
  pub not_gateway : ip_eq address gateway_address ≡ false

abbrev pub IsMemberEntry : Text → Text → Text × NetworkEndpoint → Type 0
IsMemberEntry subnet gateway (k, endpoint) = IsMember subnet gateway endpoint

-- No address twice.
abbrev pub Distinct : List Ipv4Addr → Type 0
Distinct [] = Unit
Distinct (ip ∷ ips) = (contains_ip ips ip ≡ false) × Distinct ips

contains_ip-append :
    (xs ys : List Ipv4Addr) (ip : Ipv4Addr)
    → contains_ip (xs ++ ys) ip ≡ (contains_ip xs ip || contains_ip ys ip)
contains_ip-append [] ys ip = refl
contains_ip-append (x ∷ xs) ys ip = ground (arith, contains_ip-append xs ys ip)

ip_eq_comm : (a b : Ipv4Addr) → ip_eq a b ≡ ip_eq b a
ip_eq_comm a b = ground arith

Distinct-snoc :
    (xs : List Ipv4Addr) (ip : Ipv4Addr)
    → contains_ip xs ip ≡ false
    → Distinct xs
    → Distinct (xs ++ ip ∷ [])
Distinct-snoc [] ip h d = (refl, tt)
Distinct-snoc (x ∷ xs) ip h d = (
  rw (contains_ip-append xs (ip ∷ []) x, d.0) (ground (arith, ip_eq_comm ip x)),
  Distinct-snoc xs ip (ground arith) d.1,
)

pub insert_absent :
    (k : Text) (e : NetworkEndpoint) (m : List (Text × NetworkEndpoint))
    → get m k ≡ none
    → insert k e m ≡ m ++ (k, e) ∷ []
unfolding get insert
insert_absent k e [] h = refl
insert_absent k e ((j, w) ∷ m) h = elim (Bool-cases (text_eq j k)) [
  | inl same ↦ absurd (ground arith)
  | inr other ↦ rw other (ap (◌∷◌ (j, w)) (insert_absent k e m (ground arith)))
]

pub remove_last :
    (k : Text) (e : NetworkEndpoint) (m : List (Text × NetworkEndpoint))
    → get m k ≡ none
    → remove k (m ++ (k, e) ∷ []) ≡ m
unfolding get remove
remove_last k e [] h = rw (text_eq_refl k) refl
remove_last k e ((j, w) ∷ m) h = elim (Bool-cases (text_eq j k)) [
  | inl same ↦ absurd (ground arith)
  | inr other ↦ rw other (ap (◌∷◌ (j, w)) (remove_last k e m (ground arith)))
]

used_ips_cons :
    (k : Text) (e : NetworkEndpoint) (m : List (Text × NetworkEndpoint)) (ip : Ipv4Addr)
    → parse_ip e.ipv4_address ≡ some ip
    → used_ips ((k, e) ∷ m) ≡ ip ∷ used_ips m
unfolding used_ips
used_ips_cons k e m ip h = rw (h, used_ips) refl

used_ips_skip :
    (k : Text) (e : NetworkEndpoint) (m : List (Text × NetworkEndpoint))
    → parse_ip e.ipv4_address ≡ none
    → used_ips ((k, e) ∷ m) ≡ used_ips m
unfolding used_ips
used_ips_skip k e m h = rw (h, used_ips) refl

used_ips_nil : used_ips [] ≡ []
unfolding used_ips
used_ips_nil = refl

used_ips-append :
    (m : List (Text × NetworkEndpoint)) (k : Text) (e : NetworkEndpoint) (ip : Ipv4Addr)
    → parse_ip e.ipv4_address ≡ some ip
    → used_ips (m ++ (k, e) ∷ []) ≡ used_ips m ++ ip ∷ []
used_ips-append [] k e ip h = rw (used_ips_cons k e [] ip h, used_ips_nil) refl
used_ips-append ((j, w) ∷ m) k e ip h = elim (Option-cases (parse_ip w.ipv4_address)) [
  | inl unread ↦
      rw (used_ips_skip j w (m ++ (k, e) ∷ []) unread, used_ips_skip j w m unread)
        (used_ips-append m k e ip h)
  | inr (a, read) ↦
      rw (used_ips_cons j w (m ++ (k, e) ∷ []) a read, used_ips_cons j w m a read)
        (ap (◌∷◌ a) (used_ips-append m k e ip h))
]

remove_cons_same :
    (j k : Text) (w : NetworkEndpoint) (m : List (Text × NetworkEndpoint))
    → text_eq j k ≡ true
    → remove k ((j, w) ∷ m) ≡ remove k m
unfolding remove
remove_cons_same j k w m h = rw h refl

remove_cons_other :
    (j k : Text) (w : NetworkEndpoint) (m : List (Text × NetworkEndpoint))
    → text_eq j k ≡ false
    → remove k ((j, w) ∷ m) ≡ (j, w) ∷ remove k m
unfolding remove
remove_cons_other j k w m h = rw h refl

remove_nil : (k : Text) → remove {V = NetworkEndpoint} k [] ≡ []
unfolding remove
remove_nil k = refl

contains_ip-remove :
    (k : Text) (m : List (Text × NetworkEndpoint)) (ip : Ipv4Addr)
    → contains_ip (used_ips m) ip ≡ false
    → contains_ip (used_ips (remove k m)) ip ≡ false
contains_ip-remove k [] ip h = rw (remove_nil k) h
contains_ip-remove k ((j, w) ∷ m) ip h = elim (Option-cases (parse_ip w.ipv4_address)) [
  | inl unread ↦
      let skip = used_ips_skip j w m unread in
      let ih = contains_ip-remove k m ip (subst (λ l. contains_ip l ip ≡ false) skip h) in
      elim (Bool-cases (text_eq j k)) [
        | inl same ↦ rw (remove_cons_same j k w m same) ih
        | inr other ↦
            rw (remove_cons_other j k w m other) (rw (used_ips_skip j w (remove k m) unread) ih)
      ]
  | inr (a, read) ↦
      let cons = used_ips_cons j w m a read in
      let here = subst (λ l. contains_ip l ip ≡ false) cons h in
      let ih = contains_ip-remove k m ip (ground arith) in
      elim (Bool-cases (text_eq j k)) [
        | inl same ↦ rw (remove_cons_same j k w m same) ih
        | inr other ↦
            rw (remove_cons_other j k w m other)
              (rw (used_ips_cons j w (remove k m) a read) (ground arith))
      ]
]

Distinct-remove :
    (k : Text) (m : List (Text × NetworkEndpoint))
    → Distinct (used_ips m)
    → Distinct (used_ips (remove k m))
Distinct-remove k [] d = rw (remove_nil k) d
Distinct-remove k ((j, w) ∷ m) d = elim (Option-cases (parse_ip w.ipv4_address)) [
  | inl unread ↦
      let rest : Distinct (used_ips m) = subst Distinct (used_ips_skip j w m unread) d in
      elim (Bool-cases (text_eq j k)) [
        | inl same ↦ rw (remove_cons_same j k w m same) (Distinct-remove k m rest)
        | inr other ↦
            rw (remove_cons_other j k w m other)
              (rw (used_ips_skip j w (remove k m) unread) (Distinct-remove k m rest))
      ]
  | inr (a, read) ↦
      let rest : Distinct (a ∷ used_ips m) = subst Distinct (used_ips_cons j w m a read) d in
      elim (Bool-cases (text_eq j k)) [
        | inl same ↦ rw (remove_cons_same j k w m same) (Distinct-remove k m rest.1)
        | inr other ↦ rw (remove_cons_other j k w m other) (
            rw (used_ips_cons j w (remove k m) a read)
              (contains_ip-remove k m a rest.0, Distinct-remove k m rest.1))
      ]
]

-- What is kept of a network's endpoints.
pub record AreMembers (subnet gateway : Text) (m : List (Text × NetworkEndpoint)) : Type 0 where
  pub members : All (IsMemberEntry subnet gateway) m
  pub distinct : Distinct (used_ips m)

pub AreMembers-nil : (subnet gateway : Text) → AreMembers subnet gateway []
AreMembers-nil subnet gateway = record { members = tt; distinct = rw used_ips_nil tt }

All-remove :
    (subnet gateway k : Text) (m : List (Text × NetworkEndpoint))
    → All (IsMemberEntry subnet gateway) m
    → All (IsMemberEntry subnet gateway) (remove k m)
unfolding remove
All-remove subnet gateway k [] h = tt
All-remove subnet gateway k ((j, w) ∷ m) h = elim (Bool-cases (text_eq j k)) [
  | inl same ↦ rw same (All-remove subnet gateway k m h.1)
  | inr other ↦ rw other (h.0, All-remove subnet gateway k m h.1)
]

pub AreMembers-remove :
    (subnet gateway k : Text) (m : List (Text × NetworkEndpoint))
    → AreMembers subnet gateway m
    → AreMembers subnet gateway (remove k m)
AreMembers-remove subnet gateway k m h = record {
  members = All-remove subnet gateway k m h.members;
  distinct = Distinct-remove k m h.distinct;
}

-- The endpoint of an allocated address joins.
pub AreMembers-insert :
    (subnet gateway id name : Text) (m : List (Text × NetworkEndpoint)) (ip : Ipv4Addr)
    → get m id ≡ none
    → IsAllocated subnet gateway m ip
    → AreMembers subnet gateway m
    → AreMembers subnet gateway (insert id (endpoint_of id name ip) m)
AreMembers-insert subnet gateway id name m ip absent a h =
    let e = endpoint_of id name ip in
    let member : IsMember subnet gateway e = record {
      address = ip;
      octets_fit = a.octets_fit;
      text_is = refl;
      mac_is = refl;
      base = a.base;
      bits = a.bits;
      gateway_address = a.gateway;
      reads = a.reads;
      in_subnet = a.in_subnet;
      not_network = a.not_network;
      not_broadcast = a.not_broadcast;
      not_gateway = a.free.0;
    } in
    rw (insert_absent id e m absent) (record {
      members = All-append (IsMemberEntry subnet gateway) m ((id, e) ∷ []) h.members (member, tt);
      distinct =
          rw (used_ips-append m id e ip (parse_ip-print_ip ip a.octets_fit))
            (Distinct-snoc (used_ips m) ip a.free.1 h.distinct);
    })
