-- ===== src/Builder/Tests.antt =====
-- Concrete lines of Dockerfiles.
use kc_docker.Shared.{
  some, true, false, split, strip_prefix, All, ◌⊎◌, ◌↔◌, ends_with, Option, none, List, [], ◌∷◌,
  ◌++◌, ◌≡◌, refl, arith, Text, codes, text_eq, trim, trim_end, trim_start, starts_with,
}
use kc_docker.Shared.Result.{ok}
use kc_docker.Builder.Texts.{trim_end_matches, split_once_space, split_whitespace, strip_last}
use kc_docker.Builder.Ignore.{pattern_matches, apply_rules, is_ignored}
use kc_docker.Builder.Ignore.Rules.{IsDecided, rule_matches, is_ignored-IsDecided}
use kc_docker.Builder.Wildcard.{only_stars, match_loop, matches_wildcard}
use kc_docker.Builder.Wildcard.Meaning.{Matches}
use kc_docker.Builder.Wildcard.Completeness.{matches_wildcard_iff}
use kc_docker.Builder.Pairs.{
  parse_key_value_pairs, read_pairs, read_pair, read_key, read_value, read_quoted, read_plain,
}
use kc_docker.Builder.Pairs.Laws.{parse_key_value_pairs_ends}
use kc_docker.Builder.Pairs.Quoting.{print_pairs, parse_key_value_pairs-print_pairs}
use kc_docker.Builder.Instructions.{
  from, run, env, on_build, parse_keyword, parse_line, parse_lines, HealthConfig,
}

abbrev no_json : Text → Option (List Text)
no_json s = none

-- The value of the first pair is `say "hi"`.
abbrev greeting : List (Text × Text)
greeting =
    (codes "GREETING", codes "say " ++ 34 ∷ codes "hi" ++ 34 ∷ []) ∷ (codes "N", codes "1") ∷ []

parse_key_value_pairs-print_pairs_example :
    parse_key_value_pairs (print_pairs greeting) ≡ some greeting
parse_key_value_pairs-print_pairs_example =
    parse_key_value_pairs-print_pairs (codes "GREETING", codes "say " ++ 34 ∷ codes "hi" ++ 34 ∷ [])
      ((codes "N", codes "1") ∷ []) (ground arith)

parse_key_value_pairs_ends_example :
    (pairs : List (Text × Text)) × (parse_key_value_pairs (codes "=A B=2") ≡ some pairs)
parse_key_value_pairs_ends_example = parse_key_value_pairs_ends (codes "=A B=2")

onbuild_parsed :
    parse_line no_json 17 (codes "ONBUILD RUN make") ≡ ok (on_build (run (codes "make")) ∷ [])
unfolding parse_line parse_keyword split_once_space text_eq trim trim_end trim_start
onbuild_parsed = refl

two_envs :
    parse_line no_json 12 (codes "env A=1 B=2")
    ≡ ok (env (codes "A") (codes "1") ∷ env (codes "B") (codes "2") ∷ [])
unfolding parse_line parse_keyword split_once_space text_eq trim trim_end trim_start
    parse_key_value_pairs read_pairs read_pair read_key read_value read_quoted read_plain
two_envs = refl

-- A file that ends in a continued line loses it.
continued_end_is_lost :
    parse_lines no_json (codes "FROM alpine" ∷ (codes "RUN make " ++ 92 ∷ []) ∷ []) []
    ≡ ok (from (codes "alpine") none ∷ [])
unfolding parse_lines parse_line parse_keyword split_once_space split_whitespace text_eq trim
    trim_end trim_start strip_last starts_with
continued_end_is_lost = refl

abbrev health : HealthConfig
health = record {
  test = [];
  interval_secs = 30;
  timeout_secs = 30;
  start_period_secs = 0;
  retries = 3;
}

abbrev rules : List Text
rules = codes "*.log" ∷ codes "!keep.log" ∷ []

is_ignored-IsDecided_example :
    (All (λ r. rule_matches (codes "keep.log") r ≡ false) rules
      × (is_ignored rules (codes "keep.log") ≡ false))
    ⊎ IsDecided (codes "keep.log") rules (is_ignored rules (codes "keep.log"))
is_ignored-IsDecided_example = is_ignored-IsDecided rules (codes "keep.log")

last_rule_wins : is_ignored rules (codes "keep.log") ≡ false
unfolding is_ignored apply_rules pattern_matches text_eq starts_with ends_with split strip_prefix
    trim_end_matches
last_rule_wins = refl

matches_wildcard_iff_example :
    (matches_wildcard (codes "a*b?") (codes "axxbc") ≡ true)
    ↔ Matches (codes "a*b?") (codes "axxbc")
matches_wildcard_iff_example = matches_wildcard_iff (codes "a*b?") (codes "axxbc") (ground arith)

-- A `*` of the pattern is taken for itself where the text has one too.
star_in_text_is_refused : matches_wildcard (codes "*") (codes "*a") ≡ false
unfolding matches_wildcard match_loop only_stars
star_in_text_is_refused = refl
