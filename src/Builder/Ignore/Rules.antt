-- ===== src/Builder/Ignore/Rules.antt =====
-- The verdict of `is_ignored` by its rules.
use kc_docker.Shared.{
  Bool, true, false, not, none, some, List, [], ◌∷◌, ◌++◌, if◌then◌else◌, Text, codes, strip_prefix,
  ◌≡◌, refl, Bool-cases, Option-cases, inl, inr, ◌⊎◌, ap, ◌∙◌, All,
}
use kc_docker.Builder.Ignore.{pattern_matches, apply_rules, is_ignored}

-- What a line says: an exception or not, and its pattern.
abbrev pub is_exception : Text → Bool
is_exception rule = elim (strip_prefix rule (codes "!")) [ some exception ↦ true | none ↦ false ]

abbrev pub rule_matches : Text → Text → Bool
rule_matches path rule = elim (strip_prefix rule (codes "!")) [
  | some exception ↦ pattern_matches exception path
  | none ↦ pattern_matches rule path
]

-- `rule` is the last of the patterns that matches, and gives the verdict.
pub record IsDecided (path : Text) (patterns : List Text) (ignored : Bool) : Type 0 where
  pub before : List Text
  pub rule : Text
  pub later : List Text
  pub patterns_are : patterns ≡ before ++ rule ∷ later
  pub matches : rule_matches path rule ≡ true
  pub none_later : All (λ r. rule_matches path r ≡ false) later
  pub verdict : ignored ≡ not (is_exception rule)

module _ (path : Text) where
  abbrev NoneMatches : List Text → Type 0
  NoneMatches patterns = All (λ r. rule_matches path r ≡ false) patterns

  -- `ignored` after one rule.
  abbrev step : Text → Bool → Bool
  step p ignored = if rule_matches path p then not (is_exception p) else ignored

  apply_rules-step :
      (p : Text) (patterns : List Text) (ignored : Bool)
      → apply_rules path (p ∷ patterns) ignored ≡ apply_rules path patterns (step p ignored)
  unfolding apply_rules strip_prefix pattern_matches
  apply_rules-step p patterns ignored = elim (Option-cases (strip_prefix p (codes "!"))) [
    | inl plain ↦ rw (plain, apply_rules) refl
    | inr (exception, bang) ↦ rw (bang, apply_rules) refl
  ]

  apply_rules_nil : (ignored : Bool) → apply_rules path [] ignored ≡ ignored
  unfolding apply_rules
  apply_rules_nil ignored = refl

  apply_rules-cases :
      (patterns : List Text) (ignored : Bool)
      → (NoneMatches patterns × (apply_rules path patterns ignored ≡ ignored))
        ⊎ IsDecided path patterns (apply_rules path patterns ignored)
  apply_rules-cases [] ignored = inl (tt, apply_rules_nil ignored)
  apply_rules-cases (p ∷ patterns) ignored =
      rw (apply_rules-step p patterns ignored) (elim (apply_rules-cases patterns (step p ignored)) [
        | inr d ↦ inr (record {
          before = p ∷ d.before;
          rule = d.rule;
          later = d.later;
          patterns_are = ap (◌∷◌ p) d.patterns_are;
          matches = d.matches;
          none_later = d.none_later;
          verdict = d.verdict;
        })
        | inl (free, e) ↦ elim (Bool-cases (rule_matches path p)) [
          | inl hit ↦ inr (record {
            before = [];
            rule = p;
            later = patterns;
            patterns_are = refl;
            matches = hit;
            none_later = free;
            verdict = rw e (rw hit refl);
          })
          | inr miss ↦ inl ((miss, free), e ∙ rw miss refl)
        ]
      ])

-- A path that no rule matches is not ignored; any other path is ignored just when the last rule
-- that matches it is no exception.
pub is_ignored-IsDecided :
    (patterns : List Text) (path : Text)
    → (All (λ r. rule_matches path r ≡ false) patterns × (is_ignored patterns path ≡ false))
      ⊎ IsDecided path patterns (is_ignored patterns path)
unfolding is_ignored
is_ignored-IsDecided patterns path = apply_rules-cases path patterns false
