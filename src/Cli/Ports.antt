-- ===== src/Cli/Ports.antt =====
-- `parse_ports` and `validate_no_duplicate_ports` against the mappings' keys.
use kc_docker.Shared.{
  false, List, [], ◌∷◌, ◌++◌, ◌≡◌, ◌↔◌, refl, sym, ap, subst, ◌∙◌, arith, All, Text, Bool-cases,
  inl, inr, append_assoc, append-nil,
}
use kc_docker.Shared.Result.{ok, err, Result-cases}
use kc_docker.Network.Ports.{PortMapping, PortError, parse_all}
use kc_docker.Cli.{
  FlagError, invalid_port, same_key, is_seen, check_ports, validate_no_duplicate_ports, checked,
  parse_each, parse_ports,
}

-- No two mappings have one key of host address, host port and protocol.
abbrev pub AllApart : List PortMapping → Type 0
AllApart [] = Unit
AllApart (p ∷ ports) = All (λ q. same_key p q ≡ false) ports × AllApart ports

abbrev Unseen : List PortMapping → List PortMapping → Type 0
Unseen seen ports = All (λ p. is_seen p seen ≡ false) ports

Unseen-cons :
    (q : PortMapping) (seen ports : List PortMapping)
    → All (λ p. same_key q p ≡ false) ports
    → Unseen seen ports
    → Unseen (q ∷ seen) ports
Unseen-cons q seen [] a u = tt
Unseen-cons q seen (p ∷ ports) a u = (rw (a.0) u.0, Unseen-cons q seen ports a.1 u.1)

Unseen-tail :
    (q : PortMapping) (seen ports : List PortMapping)
    → Unseen (q ∷ seen) ports
    → All (λ p. same_key q p ≡ false) ports × Unseen seen ports
Unseen-tail q seen [] u = (tt, tt)
Unseen-tail q seen (p ∷ ports) u =
    let rest = Unseen-tail q seen ports u.1 in ((ground arith, rest.0), (ground arith, rest.1))

check_ports-ok :
    (seen ports : List PortMapping)
    → Unseen seen ports
    → AllApart ports
    → check_ports seen ports ≡ ok tt
unfolding check_ports
check_ports-ok seen [] u a = refl
check_ports-ok seen (p ∷ ports) u a =
    rw (u.0) (check_ports-ok (p ∷ seen) ports (Unseen-cons p seen ports a.0 u.1) a.1)

check_ports-Unseen :
    (seen ports : List PortMapping)
    → check_ports seen ports ≡ ok tt
    → Unseen seen ports × AllApart ports
unfolding check_ports
check_ports-Unseen seen [] e = (tt, tt)
check_ports-Unseen seen (p ∷ ports) e = elim (Bool-cases (is_seen p seen)) [
  | inl dup ↦ absurd (ground arith)
  | inr new ↦
      let ih = check_ports-Unseen (p ∷ seen) ports (ground arith) in
      let rest = Unseen-tail p seen ports ih.0 in ((new, rest.1), (rest.0, ih.1))
]

none-Unseen : (ports : List PortMapping) → Unseen [] ports
none-Unseen [] = tt
none-Unseen (p ∷ ports) = (refl, none-Unseen ports)

validate_no_duplicate_ports_iff :
    (ports : List PortMapping) → (validate_no_duplicate_ports ports ≡ ok tt) ↔ AllApart ports
unfolding validate_no_duplicate_ports
validate_no_duplicate_ports_iff ports =
    (λ e. (check_ports-Unseen [] ports e).1, λ a. check_ports-ok [] ports (none-Unseen ports) a)

-- The mappings of all specifications, one after another.
pub data IsParsed : List Text → List PortMapping → Type 0 where
  none_left : IsParsed [] []
  one_more :
      (spec : Text) (specs : List Text) (ms more all : List PortMapping)
      → parse_all spec ≡ ok ms
      → IsParsed specs more
      → all ≡ ms ++ more
      → IsParsed (spec ∷ specs) all

module _ (parsed : List PortMapping) (spec : Text) (specs : List Text) where
  parse_each-ok :
      (ms : List PortMapping)
      → parse_all spec ≡ ok ms
      → parse_each parsed (spec ∷ specs) ≡ parse_each (parsed ++ ms) specs
  unfolding parse_each
  parse_each-ok ms read = rw (read, parse_each) refl

  parse_each-err :
      (bad : PortError)
      → parse_all spec ≡ err bad
      → parse_each parsed (spec ∷ specs) ≡ err (invalid_port bad)
  unfolding parse_each
  parse_each-err bad failed = rw (failed, parse_each) refl

parse_each-IsParsed :
    (parsed : List PortMapping) (specs : List Text) (all : List PortMapping)
    → parse_each parsed specs ≡ ok all
    → (more : List PortMapping) × IsParsed specs more × (all ≡ parsed ++ more)
unfolding parse_each
parse_each-IsParsed parsed [] all e =
    ([], none_left, subst (λ l. all ≡ l) (sym (append-nil parsed)) (ground arith))
parse_each-IsParsed parsed (spec ∷ specs) all e = elim (Result-cases (parse_all spec)) [
  | inr (bad, failed) ↦
      let clash : err (invalid_port bad) ≡ ok all =
        sym (parse_each-err parsed spec specs bad failed) ∙ e in
      cc
  | inl (ms, read) ↦
      let later : parse_each (parsed ++ ms) specs ≡ ok all =
        sym (parse_each-ok parsed spec specs ms read) ∙ e in
      let ih = parse_each-IsParsed (parsed ++ ms) specs all later in
      (
        ms ++ ih.0,
        one_more spec specs ms ih.0 (ms ++ ih.0) read ih.1 refl,
        ih.2 ∙ append_assoc parsed ms ih.0,
      )
]

IsParsed-parse_each :
    (parsed : List PortMapping) (specs : List Text) (more : List PortMapping)
    → IsParsed specs more
    → parse_each parsed specs ≡ ok (parsed ++ more)
unfolding parse_each
IsParsed-parse_each parsed _ _ none_left = rw (append-nil parsed) refl
IsParsed-parse_each parsed _ _ (one_more spec specs ms more all read rest same) =
    parse_each-ok parsed spec specs ms read
    ∙ IsParsed-parse_each (parsed ++ ms) specs more rest
    ∙ rw same (ap ok (append_assoc parsed ms more))

module _ (specs : List Text) where
  parse_ports-ok :
      (parsed : List PortMapping)
      → parse_each [] specs ≡ ok parsed
      → parse_ports specs ≡ checked parsed (validate_no_duplicate_ports parsed)
  unfolding parse_ports
  parse_ports-ok parsed read = rw (read) refl

  parse_ports-err : (e : FlagError) → parse_each [] specs ≡ err e → parse_ports specs ≡ err e
  unfolding parse_ports
  parse_ports-err e failed = rw (failed) refl

  parse_ports_sound :
      (ms : List PortMapping) → parse_ports specs ≡ ok ms → IsParsed specs ms × AllApart ms
  parse_ports_sound ms e = elim (Result-cases (parse_each [] specs)) [
    | inr (bad, failed) ↦ let clash : err bad ≡ ok ms = sym (parse_ports-err bad failed) ∙ e in cc
    | inl (parsed, read) ↦ elim (Result-cases (validate_no_duplicate_ports parsed)) [
      | inr (dup, refused) ↦
          let clash : err dup ≡ ok ms =
            sym (parse_ports-ok parsed read ∙ ap (checked parsed) refused) ∙ e in
          cc
      | inl (fine, passed) ↦
          let same : ok parsed ≡ ok ms =
            sym (parse_ports-ok parsed read ∙ ap (checked parsed) passed) ∙ e in
          let equal : parsed ≡ ms = cc in
          let whole = parse_each-IsParsed [] specs parsed read in
          (
            subst (IsParsed specs) (sym whole.2 ∙ equal) whole.1,
            subst AllApart equal ((validate_no_duplicate_ports_iff parsed).0 passed),
          )
    ]
  ]

-- `parse_ports` succeeds with some mappings exactly when each specification parses, the mappings
-- are theirs in order, and no two of them have the same host address, host port and protocol.
pub parse_ports_iff :
    (specs : List Text) (ms : List PortMapping)
    → (parse_ports specs ≡ ok ms) ↔ (IsParsed specs ms × AllApart ms)
parse_ports_iff specs ms = (
  parse_ports_sound specs ms,
  λ h.
      parse_ports-ok specs ms (IsParsed-parse_each [] specs ms h.0)
      ∙ ap (checked ms) ((validate_no_duplicate_ports_iff ms).1 h.1),
)
