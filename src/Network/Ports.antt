-- ===== src/Network/Ports.antt =====
-- Published ports: `PortMapping::parse_port_or_range`, `parse_all` and `parse`.
pub mod Ranges
pub mod Laws
use kc_docker.Shared.{
  ℕ, zero, suc, ◌+◌, ◌-◌, ◌==◌, Option, none, some, List, [], ◌∷◌, ltb, if◌then◌else◌, length, Text,
  codes, split_once, split, to_lowercase, parse_uint, not,
}
use kc_docker.Shared.Result.{Result, ok, err, ◌>>=◌, ok_or}

pub record PortMapping : Type 0 where
  pub host_ip : Option Text
  pub host_port : ℕ
  pub container_port : ℕ
  pub protocol : Text

pub data PortError : Type 0 where
  invalid_number invalid_range unequal_length invalid_spec not_single : PortError

-- `parse::<u16>()`.
abbrev parse_u16 : Text → Result PortError ℕ
parse_u16 s = ok_or (parse_uint 65535 s) invalid_number

-- `(start..).take(n)`; the range `start..=end` has `end + 1 - start` elements.
abbrev pub range_from : ℕ → ℕ → List ℕ
range_from start zero = []
range_from start (suc n) = start ∷ range_from (start + 1) n

unfoldable pub parse_port_or_range : Text → Result PortError (List ℕ)
unfolding parse_uint split_once
parse_port_or_range s = elim (split_once s b'-') [
  | some (first, last) ↦ do
    start ← parse_u16 first
    end ← parse_u16 last
    if ltb end start then err invalid_range else ok (range_from start (end + 1 - start))
  | none ↦ do port ← parse_u16 s; ok (port ∷ [])
]

-- `zip` and `map` into mappings.
unfoldable pub zip_ports : Option Text → Text → List ℕ → List ℕ → List PortMapping
zip_ports ip proto [] cs = []
zip_ports ip proto (h ∷ hs) [] = []
zip_ports ip proto (h ∷ hs) (c ∷ cs) =
    record { host_ip = ip; host_port = h; container_port = c; protocol = proto }
    ∷ zip_ports ip proto hs cs

-- The cases of two and of three parts, which differ in the host address.
unfoldable pub pair_ports : Option Text → Text → Text → Text → Result PortError (List PortMapping)
unfolding parse_port_or_range zip_ports
pair_ports ip proto host container = do
  host_ports ← parse_port_or_range host
  container_ports ← parse_port_or_range container
  if not (length host_ports == length container_ports)
      then err unequal_length
      else ok (zip_ports ip proto host_ports container_ports)

unfoldable pub map_parts : Text → List Text → Result PortError (List PortMapping)
unfolding pair_ports
map_parts proto [] = err invalid_spec
map_parts proto (port ∷ []) = do
  ports ← parse_port_or_range port
  ok (zip_ports none proto ports ports)
map_parts proto (host ∷ container ∷ []) = pair_ports none proto host container
map_parts proto (ip ∷ host ∷ container ∷ []) = pair_ports (some ip) proto host container
map_parts proto (a ∷ b ∷ c ∷ d ∷ parts) = err invalid_spec

unfoldable pub parse_all : Text → Result PortError (List PortMapping)
unfolding map_parts split split_once
parse_all spec = elim (split_once spec b'/') [
  | some (ports, proto) ↦ map_parts (to_lowercase proto) (split ports b':')
  | none ↦ map_parts (codes "tcp") (split spec b':')
]

abbrev single : List PortMapping → Result PortError PortMapping
single [] = err not_single
single (m ∷ []) = ok m
single (m ∷ n ∷ ms) = err not_single

unfoldable pub parse : Text → Result PortError PortMapping
unfolding parse_all
parse spec = parse_all spec >>= single
