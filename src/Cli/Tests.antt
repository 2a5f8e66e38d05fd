-- ===== src/Cli/Tests.antt =====
-- Concrete flags.
use kc_docker.Shared.{
  ℕ, true, false, Option, none, some, List, [], ◌∷◌, ◌≡◌, ◌↔◌, refl, Text, codes, text_eq, trim,
  trim_end, trim_start, split, split_once, strip_prefix, parse_digits, parse_uint,
}
use kc_docker.Shared.Search.{strip_suffix}
use kc_docker.Shared.Result.{ok, err}
use kc_docker.Network.Ports.{
  PortMapping, parse_all, map_parts, pair_ports, zip_ports, parse_port_or_range,
}
use kc_docker.Cli.{
  already_allocated, same_key, check_ports, validate_no_duplicate_ports, parse_each, parse_ports,
  parse_duration_flag, parse_pod_share, validate_ps_filter_key, validate_image_filter_key,
  validate_pull_option, invalid_filter, invalid_value, parse_signal,
}
use kc_docker.Cli.Ports.{IsParsed, AllApart, parse_ports_iff}

abbrev specs : List Text
specs = codes "8080:80" ∷ codes "9090" ∷ []

abbrev mapping : Option Text → ℕ → ℕ → PortMapping
mapping ip host container = record {
  host_ip = ip;
  host_port = host;
  container_port = container;
  protocol = codes "tcp";
}

parse_ports_iff_example :
    (parse_ports specs ≡ ok (mapping none 8080 80 ∷ mapping none 9090 9090 ∷ [])) ↔ (
      IsParsed specs (mapping none 8080 80 ∷ mapping none 9090 9090 ∷ [])
      × AllApart (mapping none 8080 80 ∷ mapping none 9090 9090 ∷ []))
parse_ports_iff_example = parse_ports_iff specs (mapping none 8080 80 ∷ mapping none 9090 9090 ∷ [])

two_read : parse_ports specs ≡ ok (mapping none 8080 80 ∷ mapping none 9090 9090 ∷ [])
unfolding parse_ports parse_each validate_no_duplicate_ports check_ports same_key parse_all
    map_parts pair_ports zip_ports parse_port_or_range split split_once parse_uint parse_digits
    text_eq
two_read = refl

same_port_refused : parse_ports (codes "80:80" ∷ codes "80:81" ∷ []) ≡ err (already_allocated 80)
unfolding parse_ports parse_each validate_no_duplicate_ports check_ports same_key parse_all
    map_parts pair_ports zip_ports parse_port_or_range split split_once parse_uint parse_digits
    text_eq
same_port_refused = refl

-- Any address and 0.0.0.0 are two keys, though they bind the same port.
wildcard_not_compared :
    validate_no_duplicate_ports (mapping none 80 80 ∷ mapping (some (codes "0.0.0.0")) 80 81 ∷ [])
    ≡ ok tt
unfolding validate_no_duplicate_ports check_ports same_key text_eq
wildcard_not_compared = refl

minutes_read : parse_duration_flag (codes " 5m") ≡ ok 300
unfolding parse_duration_flag strip_suffix strip_prefix parse_uint parse_digits trim trim_end
    trim_start
minutes_read = refl

-- The suffix `s` is tried before `ms`.
milliseconds_refused : parse_duration_flag (codes "500ms") ≡ err invalid_value
unfolding parse_duration_flag strip_suffix strip_prefix parse_uint parse_digits trim trim_end
    trim_start
milliseconds_refused = refl

term_is_15 : parse_signal (codes " sigterm") ≡ ok 15
unfolding parse_signal strip_prefix text_eq trim trim_end trim_start
term_is_15 = refl

sharing : parse_pod_share (codes "net, IPC") ≡ (true, true, false, false)
unfolding parse_pod_share split text_eq trim trim_end trim_start
sharing = refl

filters_checked :
    (validate_ps_filter_key (codes "before") ≡ err invalid_filter)
    × (validate_image_filter_key (codes "before") ≡ ok tt)
    × (validate_pull_option (codes "never") ≡ ok tt)
unfolding validate_ps_filter_key validate_image_filter_key validate_pull_option text_eq
filters_checked = (refl, refl, refl)
