-- ===== src/Cli.antt =====
-- The checks of lib.rs on flags, and `ContainerKiller::parse_signal` of runtime/kill.rs.
pub mod Ports
pub mod Durations
pub mod Signals
mod Tests
use kc_docker.Shared.{
  ℕ, ◌*◌, ◌/◌, ◌-◌, ◌^◌, Bool, true, false, ◌&&◌, ◌||◌, Option, none, some, List, [], ◌∷◌, ◌++◌,
  if◌then◌else◌, ◌==◌, leb, Text, codes, text_eq, trim, is_empty, split, to_lowercase, to_uppercase,
  strip_prefix, parse_uint, u64, ℤ, pos, negsuc, map,
}
use kc_docker.Shared.Maps.{contains}
use kc_docker.Shared.Search.{strip_suffix}
use kc_docker.Shared.Signed.{parse_int}
use kc_docker.Shared.Result.{Result, ok, err, ◌>>=◌, ok_or}
use kc_docker.Guardrails.Sizes.{or_else}
use kc_docker.Network.Ports.{PortMapping, PortError, parse_all}

pub data FlagError : Type 0 where
  invalid_value invalid_filter unknown_signal signal_out_of_range : FlagError
  already_allocated : ℕ → FlagError
  invalid_port : PortError → FlagError

abbrev pub same_ip : Option Text → Option Text → Bool
same_ip none none = true
same_ip none (some b) = false
same_ip (some a) none = false
same_ip (some a) (some b) = text_eq a b

-- Equal keys `(host_ip, host_port, protocol)`.
unfoldable pub same_key : PortMapping → PortMapping → Bool
same_key p q =
    same_ip p.host_ip q.host_ip && (p.host_port == q.host_port && text_eq p.protocol q.protocol)

-- `!seen.insert(key)`, where `seen` holds the keys of these mappings.
abbrev pub is_seen : PortMapping → List PortMapping → Bool
is_seen p [] = false
is_seen p (q ∷ seen) = same_key q p || is_seen p seen

unfoldable pub check_ports : List PortMapping → List PortMapping → Result {0, 0} FlagError Unit
check_ports seen [] = ok tt
check_ports seen (p ∷ ports) =
    let rest = check_ports (p ∷ seen) ports in
    if is_seen p seen then err (already_allocated p.host_port) else rest

unfoldable pub validate_no_duplicate_ports : List PortMapping → Result {0, 0} FlagError Unit
validate_no_duplicate_ports ports = check_ports [] ports

abbrev pub extended :
    List PortMapping → Result PortError (List PortMapping) → Result FlagError (List PortMapping)
extended parsed (err e) = err (invalid_port e)
extended parsed (ok more) = ok (parsed ++ more)

-- The loop of `parse_ports`.
unfoldable pub parse_each : List PortMapping → List Text → Result FlagError (List PortMapping)
parse_each parsed [] = ok parsed
parse_each parsed (spec ∷ specs) = elim (extended parsed (parse_all spec)) [
  | err e ↦ err e
  | ok more ↦ parse_each more specs
]

abbrev pub checked :
    List PortMapping → Result {0, 0} FlagError Unit → Result FlagError (List PortMapping)
checked parsed (err e) = err e
checked parsed (ok fine) = ok parsed

unfoldable pub parse_ports : List Text → Result FlagError (List PortMapping)
parse_ports specs =
    parse_each [] specs >>= λ parsed. checked parsed (validate_no_duplicate_ports parsed)

abbrev pub u64_max : ℕ
u64_max = 2 ^ 64 - 1

abbrev pub number : Text → Result FlagError ℕ
number s = ok_or (parse_uint u64_max s) invalid_value

abbrev pub times : ℕ → Result FlagError ℕ → Result FlagError ℕ
times factor (err e) = err e
times factor (ok n) = ok (u64 (n * factor))

abbrev pub thousandth : Result FlagError ℕ → Result FlagError ℕ
thousandth (err e) = err e
thousandth (ok n) = ok (n / 1000)

abbrev pub by_suffix {ℓ} : {A : Type ℓ} → Option Text → (Text → A) → A → A
by_suffix none found other = other
by_suffix (some num) found other = found num

unfoldable pub parse_duration_flag : Text → Result FlagError ℕ
parse_duration_flag value =
    let t = trim value in
    if is_empty t
    then err invalid_value
    else by_suffix (strip_suffix t (codes "s")) number (
        by_suffix (strip_suffix t (codes "ms")) (λ num. thousandth (number num))
          (by_suffix (strip_suffix t (codes "m")) (λ num. times 60 (number num))
            (by_suffix (strip_suffix t (codes "h")) (λ num. times 3600 (number num)) (number t))))

abbrev lowered_parts : Text → List Text
lowered_parts share = map (λ s. to_lowercase (trim s)) (split share b',')

-- Whether ipc, net, uts and pid are shared.
unfoldable pub parse_pod_share : Text → Bool × Bool × Bool × Bool
parse_pod_share share =
    let parts = lowered_parts share in
    (
      contains parts (codes "ipc"),
      contains parts (codes "net"),
      contains parts (codes "uts"),
      contains parts (codes "pid"),
    )

abbrev allowed : List Text → FlagError → Text → Result {0, 0} FlagError Unit
allowed valid e key = if contains valid key then ok tt else err e

unfoldable pub validate_ps_filter_key : Text → Result {0, 0} FlagError Unit
validate_ps_filter_key =
    allowed
      (codes "status"
        ∷ codes "name"
        ∷ codes "ancestor"
        ∷ codes "id"
        ∷ codes "label"
        ∷ codes "publish"
        ∷ codes "expose"
        ∷ codes "network"
        ∷ codes "volume"
        ∷ [])
      invalid_filter

unfoldable pub validate_image_filter_key : Text → Result {0, 0} FlagError Unit
validate_image_filter_key =
    allowed
      (codes "reference"
        ∷ codes "name"
        ∷ codes "id"
        ∷ codes "label"
        ∷ codes "dangling"
        ∷ codes "before"
        ∷ codes "since"
        ∷ [])
      invalid_filter

unfoldable pub validate_pull_option : Text → Result {0, 0} FlagError Unit
validate_pull_option = allowed (codes "always" ∷ codes "missing" ∷ codes "never" ∷ []) invalid_value

-- The names and the numbers that the source's `match` lists.
abbrev pub known_signals : List (Text × Text × ℕ)
known_signals =
    (codes "HUP", codes "1", 1)
    ∷ (codes "INT", codes "2", 2)
    ∷ (codes "QUIT", codes "3", 3)
    ∷ (codes "KILL", codes "9", 9)
    ∷ (codes "USR1", codes "10", 10)
    ∷ (codes "USR2", codes "12", 12)
    ∷ (codes "TERM", codes "15", 15)
    ∷ (codes "CONT", codes "18", 18)
    ∷ (codes "STOP", codes "19", 19)
    ∷ []

abbrev pub find_signal : Text → List (Text × Text × ℕ) → Option ℕ
find_signal s [] = none
find_signal s ((name, digits, number') ∷ signals) =
    if text_eq s name || text_eq s digits then some number' else find_signal s signals

abbrev pub i32_max : ℕ
i32_max = 2 ^ 31 - 1

abbrev pub in_signal_range : Option ℤ → Result FlagError ℕ
in_signal_range none = err unknown_signal
in_signal_range (some (negsuc n)) = err signal_out_of_range
in_signal_range (some (pos n)) = if leb 1 n && leb n 64 then ok n else err signal_out_of_range

abbrev pub signal_or : Result FlagError ℕ → Option ℕ → Result FlagError ℕ
signal_or other none = other
signal_or other (some n) = ok n

unfoldable pub parse_signal : Text → Result FlagError ℕ
parse_signal s =
    let upper = to_uppercase (trim s) in
    let stripped = or_else (strip_prefix upper (codes "SIG")) upper in
    signal_or (in_signal_range (parse_int i32_max stripped)) (find_signal stripped known_signals)
