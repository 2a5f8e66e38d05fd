-- ===== src/Network/Ports/Laws.antt =====
-- `PortMapping::parse_all`: what a port specification expands to.
use kc_docker.Shared.{
  ℕ, suc, ◌==◌, Option, none, some, List, [], ◌∷◌, if◌then◌else◌, length, Text, codes, split_once,
  split, to_lowercase, not, ◌≡◌, ◌↔◌, true, sym, refl, arith, Bool-cases, inl, inr, Option-cases,
  ap, ==_iff, subst, ◌∙◌,
}
use kc_docker.Shared.Result.{Result, ok, err, ◌>>=◌}
use kc_docker.Network.Ports.{
  PortMapping, PortError, parse_port_or_range, range_from, zip_ports, pair_ports, map_parts,
  parse_all,
}
use kc_docker.Network.Ports.Ranges.{
  IsPortText, IsPaired, IsParts, IsPublished, IsRange, OnOk, parse_port_or_range-IsRange,
  parse_port_or_range-ok, zip_ranges, length-range_from, zip_ports-expansion, one_port, two_ports,
  with_ip, plain, with_protocol,
}

-- The ranges of a successful parse, to carry `OnOk` through a bind.
OnOk->>= {κ} :
    {A B : Type 0} {P : A → Type κ} (Q : B → Type 0) (m : Result PortError A)
    (f : A → Result PortError B)
    → OnOk P m
    → ((a : A) → P a → OnOk Q (f a))
    → OnOk Q (m >>= f)
OnOk->>= Q (ok a) f p step = step a p
OnOk->>= Q (err e) f p step = tt

IsPaired-equal :
    (ip : Option Text) (proto s t : Text) (hs cs : List ℕ)
    → IsRange s hs
    → IsRange t cs
    → OnOk (IsPaired ip proto s t) (
        if not (length hs == length cs)
        then err PortError.unequal_length
        else ok (zip_ports ip proto hs cs))
IsPaired-equal ip proto s t hs cs h c = elim (Bool-cases (length hs == length cs)) [
  | inr other ↦ rw other tt
  | inl same ↦
      let equal : length hs ≡ length cs = (==_iff (length hs) (length cs)).0 same in
      let lh : length hs ≡ suc h.count =
        ap length h.ranges ∙ length-range_from h.start (suc h.count) in
      let lc : length cs ≡ suc c.count =
        ap length c.ranges ∙ length-range_from c.start (suc c.count) in
      let counts : h.count ≡ c.count = omega (arith, equal, lh, lc) in
      rw same (record {
        host_start = h.start;
        container_start = c.start;
        count = h.count;
        host_text = h.text;
        container_text = subst (IsPortText t c.start) (sym counts) c.text;
        expands = zip_ports-expansion ip proto s t hs cs h c counts;
      })
]

pair_ports-IsPaired :
    (ip : Option Text) (proto host container : Text)
    → OnOk (IsPaired ip proto host container) (pair_ports ip proto host container)
unfolding pair_ports
pair_ports-IsPaired ip proto host container =
    OnOk->>= (IsPaired ip proto host container) (parse_port_or_range host) _
      (parse_port_or_range-IsRange host)
      λ hs h.
        OnOk->>= (IsPaired ip proto host container) (parse_port_or_range container) _
          (parse_port_or_range-IsRange container)
          λ cs c. IsPaired-equal ip proto host container hs cs h c

OnOk-map {κ μ} :
    {A : Type 0} {P : A → Type κ} {Q : A → Type μ} (m : Result PortError A)
    → ((a : A) → P a → Q a)
    → OnOk P m
    → OnOk Q m
OnOk-map (ok a) f p = f a p
OnOk-map (err e) f p = tt

map_parts-IsParts :
    (proto : Text) (parts : List Text) → OnOk (λ ms. IsParts proto ms parts) (map_parts proto parts)
unfolding map_parts
map_parts-IsParts proto [] = tt
map_parts-IsParts proto (s ∷ []) =
    OnOk->>= (λ ms. IsParts proto ms (s ∷ [])) (parse_port_or_range s) _
      (parse_port_or_range-IsRange s)
      λ ps h. one_port h.start h.count h.text (zip_ports-expansion none proto s s ps ps h h refl)
map_parts-IsParts proto (host ∷ container ∷ []) =
    OnOk-map (pair_ports none proto host container) (λ ms h. two_ports h)
      (pair_ports-IsPaired none proto host container)
map_parts-IsParts proto (ip ∷ host ∷ container ∷ []) =
    OnOk-map (pair_ports (some ip) proto host container) (λ ms h. with_ip h)
      (pair_ports-IsPaired (some ip) proto host container)
map_parts-IsParts proto (a ∷ b ∷ c ∷ d ∷ parts) = tt

parse_all-IsPublished : (spec : Text) → OnOk (IsPublished spec) (parse_all spec)
unfolding parse_all
parse_all-IsPublished spec = elim (Option-cases (split_once spec b'/')) [
  | inl none_here ↦
      rw (none_here, parse_all)
        (OnOk-map (map_parts (codes "tcp") (split spec b':')) (λ ms h. plain none_here h)
          (map_parts-IsParts (codes "tcp") (split spec b':')))
  | inr ((ports, proto), slash) ↦
      rw (slash, parse_all)
        (OnOk-map (map_parts (to_lowercase proto) (split ports b':'))
          (λ ms h. with_protocol ports proto slash h)
          (map_parts-IsParts (to_lowercase proto) (split ports b':')))
]

pair_ports-ok :
    (ip : Option Text) (proto host container : Text) (ms : List PortMapping)
    → IsPaired ip proto host container ms
    → pair_ports ip proto host container ≡ ok ms
unfolding pair_ports
pair_ports-ok ip proto host container ms h =
    let hs = range_from h.host_start (suc h.count) in
    let cs = range_from h.container_start (suc h.count) in
    let same : (length hs == length cs) ≡ true = (==_iff (length hs) (length cs)).1 (
      length-range_from h.host_start (suc h.count)
      ∙ sym (length-range_from h.container_start (suc h.count))) in
    rw (parse_port_or_range-ok host h.host_start h.count h.host_text) (
      rw (parse_port_or_range-ok container h.container_start h.count h.container_text) (
        rw same
          (ap ok (zip_ranges ip proto h.host_start h.container_start h.count ∙ sym h.expands))))

map_parts-ok :
    (proto : Text) (ms : List PortMapping) (parts : List Text)
    → IsParts proto ms parts
    → map_parts proto parts ≡ ok ms
unfolding map_parts
map_parts-ok proto ms _ (one_port {s} start count text e) =
    rw (parse_port_or_range-ok s start count text)
      (ap ok (zip_ranges none proto start start count ∙ sym e))
map_parts-ok proto ms _ (two_ports {host} {container} h) =
    pair_ports-ok none proto host container ms h
map_parts-ok proto ms _ (with_ip {ip} {host} {container} h) =
    pair_ports-ok (some ip) proto host container ms h

parse_all-ok : (spec : Text) (ms : List PortMapping) → IsPublished spec ms → parse_all spec ≡ ok ms
unfolding parse_all
parse_all-ok spec ms (plain none_here h) =
    rw (none_here, parse_all) (map_parts-ok (codes "tcp") ms (split spec b':') h)
parse_all-ok spec ms (with_protocol ports proto slash h) =
    rw (slash, parse_all) (map_parts-ok (to_lowercase proto) ms (split ports b':') h)

-- A specification parses to some mappings exactly when it publishes them: one port, or a host and a
-- container side that are ports or ranges of one length with their ends in order, each port with
-- its own one on the other side, under the host address and the protocol that are written.
pub parse_all_iff :
    (spec : Text) (ms : List PortMapping) → (parse_all spec ≡ ok ms) ↔ IsPublished spec ms
parse_all_iff spec ms =
    (λ e. subst (OnOk (IsPublished spec)) e (parse_all-IsPublished spec), parse_all-ok spec ms)
