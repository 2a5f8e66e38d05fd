-- ===== src/Builder/Instructions.antt =====
-- `Instruction` and `DockerfileParser`. `from_json` stands for `serde_json::from_str` into a vector
-- of strings.
pub mod Lines
use kc_docker.Shared.{
  ℕ, zero, suc, ◌+◌, ◌||◌, ◌&&◌, Option, none, some, List, [], ◌∷◌, ◌++◌, map, if◌then◌else◌,
  length, Text, codes, is_empty, trim, text_eq, starts_with, ends_with, strip_prefix, split_once,
  split, to_uppercase, parse_uint,
}
use kc_docker.Shared.Result.{Result, ok, err, ◌>>=◌, ok_or}
use kc_docker.Builder.Texts.{
  split_once_space, split_whitespace, trim_matches, trim_end_matches, strip_last, eq_ignore_case,
  lines,
}
use kc_docker.Builder.Pairs.{parse_key_value_pairs}

-- `HealthConfig` of src/health/mod.rs.
pub record HealthConfig : Type 0 where
  pub test : List Text
  pub interval_secs : ℕ
  pub timeout_secs : ℕ
  pub start_period_secs : ℕ
  pub retries : ℕ

pub data Instruction : Type 0 where
  from : Text → Option Text → Instruction
  run : Text → Instruction
  copy : Option Text → List Text → Text → Instruction
  add : List Text → Text → Instruction
  workdir : Text → Instruction
  env : Text → Text → Instruction
  cmd : List Text → Instruction
  entrypoint : List Text → Instruction
  expose : ℕ → Instruction
  label : Text → Text → Instruction
  healthcheck : HealthConfig → Instruction
  arg : Text → Option Text → Instruction
  user : Text → Instruction
  volume : List Text → Instruction
  stop_signal : Text → Instruction
  shell : List Text → Instruction
  on_build : Instruction → Instruction

pub data ParseError : Type 0 where
  from_without_image invalid_copy_from copy_without_source add_without_source invalid_port
        invalid_port_number not_one_instruction out_of_fuel :
      ParseError
  unsupported : Text → ParseError

abbrev default_health : HealthConfig
default_health = record {
  test = [];
  interval_secs = 30;
  timeout_secs = 30;
  start_period_secs = 0;
  retries = 3;
}

unfoldable pub parse_words : Text → List Text
parse_words s = map (trim_matches 34) (split_whitespace s)

-- Up to the first whitespace, and the rest trimmed.
abbrev pub keyword_and_rest : Text → Text × Text
keyword_and_rest trimmed = elim (split_once_space trimmed) [
  | some (k, r) ↦ (to_uppercase k, trim r)
  | none ↦ (to_uppercase trimmed, [])
]

abbrev pub from_of_words : List Text → Result ParseError (List Instruction)
from_of_words [] = err from_without_image
from_of_words (image ∷ second ∷ third ∷ rest) =
    ok (from image (if eq_ignore_case second (codes "AS") then some third else none) ∷ [])
from_of_words (image ∷ rest) = ok (from image none ∷ [])

-- `parts.last()` and `parts[..parts.len() - 1]`.
abbrev split_last : Text → List Text → List Text × Text
split_last x [] = ([], x)
split_last x (y ∷ ys) = let (front, last) = split_last y ys in (x ∷ front, last)

abbrev pub sources_and_dest : List Text → Option (List Text × Text)
sources_and_dest [] = none
sources_and_dest (x ∷ []) = none
sources_and_dest (x ∷ y ∷ ys) = some (split_last x (y ∷ ys))

abbrev first_part : List Text → Option Text
first_part [] = none
first_part (p ∷ ps) = elim (split p b'/') [ [] ↦ none | (part ∷ parts) ↦ some part ]

unfoldable pub parse_expose : Text → Result ParseError (List Instruction)
parse_expose rest = do
  text ← ok_or (first_part (parse_words rest)) invalid_port
  port ← ok_or (parse_uint 65535 text) invalid_port_number
  ok (expose port ∷ [])

unfoldable pub parse_arg : Text → List Instruction
parse_arg rest = elim (split_once rest b'=') [
  | some (name, default) ↦ arg (trim name) (some (trim default)) ∷ []
  | none ↦ arg (trim rest) none ∷ []
]

abbrev pub envs : List (Text × Text) → List Instruction
envs [] = []
envs ((k, v) ∷ pairs) = env k v ∷ envs pairs

abbrev pub labels : List (Text × Text) → List Instruction
labels [] = []
labels ((k, v) ∷ pairs) = label k v ∷ labels pairs

-- `val.trim_end_matches('s').parse::<u64>()`, or the value from before.
abbrev seconds : Text → ℕ → ℕ
seconds val before = elim (parse_uint 18446744073709551615 (trim_end_matches b's' val)) [
  | some secs ↦ secs
  | none ↦ before
]

abbrev set_flag : Text → Text → HealthConfig → HealthConfig
set_flag name val config =
    if text_eq name (codes "--interval")
    then record config { interval_secs = seconds val config.interval_secs }
    else if text_eq name (codes "--timeout")
    then record config { timeout_secs = seconds val config.timeout_secs }
    else if text_eq name (codes "--start-period")
    then record config { start_period_secs = seconds val config.start_period_secs }
    else if text_eq name (codes "--retries")
    then record config {
      retries = elim (parse_uint 4294967295 val) [ some r ↦ r | none ↦ config.retries ];
    }
    else config

abbrev pub apply_flag : Text → HealthConfig → HealthConfig
apply_flag flag config = elim (split_once flag b'=') [
  | some (name, val) ↦ set_flag name val config
  | none ↦ config
]

-- The loop over the flags, on fuel: each round drops one word.
unfoldable pub read_flags : ℕ → Text → HealthConfig → Text × HealthConfig
read_flags zero current config = (current, config)
read_flags (suc fuel) current config =
    if starts_with current (codes "--")
    then elim (split_once_space current) [
      | some (flag, rem) ↦ read_flags fuel (trim rem) (apply_flag flag config)
      | none ↦ (current, config)
    ]
    else (current, config)

module _ (from_json : Text → Option (List Text)) where
  unfoldable pub parse_array_or_words : Text → List Text
  parse_array_or_words s =
      if starts_with s (codes "[") && ends_with s (codes "]")
      then elim (from_json s) [ some vec ↦ vec | none ↦ parse_words s ]
      else parse_words s

  unfoldable pub parse_copy : Text → Result ParseError (List Instruction)
  parse_copy rest = do
    (from_stage, remainder) ← elim (strip_prefix rest (codes "--from=")) [
      | some stripped ↦ do
        (stage, rem) ← ok_or (split_once_space stripped) invalid_copy_from
        ok (some stage, trim rem)
      | none ↦ ok (none, rest)
    ]
    (src, dest) ← ok_or (sources_and_dest (parse_array_or_words remainder)) copy_without_source
    ok (copy from_stage src dest ∷ [])

  unfoldable pub parse_add : Text → Result ParseError (List Instruction)
  parse_add rest = do
    (src, dest) ← ok_or (sources_and_dest (parse_array_or_words rest)) add_without_source
    ok (add src dest ∷ [])

  unfoldable pub health_command : Text → List Text
  health_command current = elim (strip_prefix current (codes "CMD ")) [
    | some stripped ↦ parse_array_or_words (trim stripped)
    | none ↦ parse_array_or_words current
  ]

  unfoldable pub parse_healthcheck : Text → List Instruction
  parse_healthcheck rest =
      if eq_ignore_case (trim rest) (codes "NONE")
      then healthcheck default_health ∷ []
      else let (current, config) = read_flags (length (trim rest)) (trim rest) default_health in
        healthcheck (record config { test = health_command current }) ∷ []

  abbrev pub only_one : List Instruction → Result ParseError (List Instruction)
  only_one (inst ∷ []) = ok (on_build inst ∷ [])
  only_one _ = err not_one_instruction

  -- The keywords other than ONBUILD.
  unfoldable pub parse_keyword : Text → Text → Result ParseError (List Instruction)
  parse_keyword keyword rest =
      if text_eq keyword (codes "FROM")
      then from_of_words (split_whitespace rest)
      else if text_eq keyword (codes "RUN")
      then ok (run rest ∷ [])
      else if text_eq keyword (codes "COPY")
      then parse_copy rest
      else if text_eq keyword (codes "ADD")
      then parse_add rest
      else if text_eq keyword (codes "WORKDIR")
      then ok (workdir rest ∷ [])
      else if text_eq keyword (codes "ENV")
      then ok_or (parse_key_value_pairs rest) out_of_fuel >>= (λ pairs. ok (envs pairs))
      else if text_eq keyword (codes "ARG")
      then ok (parse_arg rest)
      else if text_eq keyword (codes "CMD")
      then ok (cmd (parse_array_or_words rest) ∷ [])
      else if text_eq keyword (codes "ENTRYPOINT")
      then ok (entrypoint (parse_array_or_words rest) ∷ [])
      else if text_eq keyword (codes "EXPOSE")
      then parse_expose rest
      else if text_eq keyword (codes "LABEL")
      then ok_or (parse_key_value_pairs rest) out_of_fuel >>= (λ pairs. ok (labels pairs))
      else if text_eq keyword (codes "HEALTHCHECK")
      then ok (parse_healthcheck rest)
      else if text_eq keyword (codes "USER")
      then ok (user rest ∷ [])
      else if text_eq keyword (codes "VOLUME")
      then ok (volume (parse_array_or_words rest) ∷ [])
      else if text_eq keyword (codes "STOPSIGNAL")
      then ok (stop_signal rest ∷ [])
      else if text_eq keyword (codes "SHELL")
      then ok (shell (parse_array_or_words rest) ∷ [])
      else err (unsupported keyword)

  -- One logical line, on fuel: ONBUILD parses the shorter line behind it.
  unfoldable pub parse_line : ℕ → Text → Result ParseError (List Instruction)
  parse_line zero line = err out_of_fuel
  parse_line (suc fuel) line =
      let (keyword, rest) = keyword_and_rest (trim line) in
      let inner = parse_line fuel rest in
      if text_eq keyword (codes "ONBUILD") then inner >>= only_one else parse_keyword keyword rest

  -- The loop over the lines, with `current_line`.
  unfoldable pub parse_lines : List Text → Text → Result ParseError (List Instruction)
  parse_lines [] current_line = ok []
  parse_lines (raw_line ∷ more) current_line =
      let line = trim raw_line in
      if is_empty line || starts_with line (codes "#")
      then parse_lines more current_line
      else elim (strip_last 92 line) [
        | some stripped ↦ parse_lines more (current_line ++ (trim stripped ++ 32 ∷ []))
        | none ↦
            let full_line = trim (current_line ++ line) in
            if is_empty full_line then parse_lines more [] else do
              insts ← parse_line (length full_line + 1) full_line
              rest ← parse_lines more []
              ok (insts ++ rest)
      ]

  unfoldable pub parse_str : Text → Result ParseError (List Instruction)
  parse_str content = parse_lines (lines content) []
