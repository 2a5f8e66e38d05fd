-- ===== src/Compose/Graph.antt =====
-- The dependency relation of a compose file: paths, call chains, sorted lists of services.
use kc_docker.Shared.{
  true, false, Option, none, some, List, [], ◌∷◌, Text, text_eq_refl, text_eq_iff, ◌≡◌, refl, arith,
  subst, sym, Bool-cases, inl, inr, ◌⊎◌,
}
use kc_docker.Shared.Maps.{contains, get}
use kc_docker.Compose.{Services, ServiceConfig, is_defined, deps_of_config, deps_of, contains_key}

-- `contains` read as a case.
pub contains-cons :
    (y x : Text) (s : List Text) → contains (y ∷ s) x ≡ true → (y ≡ x) ⊎ (contains s x ≡ true)
contains-cons y x s h = ground (arith, text_eq_iff y x)

pub contains_of_tail :
    (y x : Text) (s : List Text) → contains s x ≡ true → contains (y ∷ s) x ≡ true
contains_of_tail y x s h = ground arith

pub contains_head : (x : Text) (s : List Text) → contains (x ∷ s) x ≡ true
contains_head x s = rw (text_eq_refl x)

no_deps :
    (found : Option ServiceConfig) (b : Text)
    → is_defined found ≡ false
    → contains (deps_of_config found) b ≡ true
    → ⊥
no_deps none b absent d = ground arith
no_deps (some cfg) b absent d = ground arith

module _ (services : Services) where
  abbrev pub DependsOn : Text → Text → Type 0
  DependsOn a b = contains (deps_of services a) b ≡ true

  -- One or more dependency steps.
  pub data Chain : Text → Text → Type 0 where
    one : {a b : Text} → DependsOn a b → Chain a b
    more : {a b c : Text} → DependsOn a b → Chain b c → Chain a c

  Chain-snoc : {a b c : Text} → Chain a b → DependsOn b c → Chain a c
  Chain-snoc (one d) e = more d (one e)
  Chain-snoc (more d p) e = more d (Chain-snoc p e)

  -- The services being visited, innermost first, each waiting for the one before it; `service`
  -- is the one that is visited next.
  abbrev pub IsWaiting : List Text → Text → Type 0
  IsWaiting [] service = Unit
  IsWaiting (v ∷ visiting) service = DependsOn v service × IsWaiting visiting v

  IsWaiting-Chain :
      (visiting : List Text) (service z : Text)
      → IsWaiting visiting service
      → contains visiting z ≡ true
      → Chain z service
  IsWaiting-Chain [] service z w h = absurd (ground arith)
  IsWaiting-Chain (v ∷ visiting) service z w h = elim (contains-cons v z visiting h) [
    | inl here ↦ one (subst (λ a. DependsOn a service) here w.0)
    | inr later ↦ Chain-snoc (IsWaiting-Chain visiting v z w.1 later) w.0
  ]

  -- A service that waits for itself lies on a cycle.
  pub cycle_of_waiting :
      (visiting : List Text) (service : Text)
      → IsWaiting visiting service
      → contains visiting service ≡ true
      → Chain service service
  cycle_of_waiting visiting service = IsWaiting-Chain visiting service service

  -- Finished services, latest first: defined, without repetition, each after its dependencies.
  abbrev pub IsSorted : List Text → Type 0
  IsSorted [] = Unit
  IsSorted (s ∷ visited) =
      (contains visited s ≡ false)
      × (contains_key services s ≡ true)
      × ((dep : Text) → DependsOn s dep → contains visited dep ≡ true)
      × IsSorted visited

  pub IsSorted-closed :
      (visited : List Text) (a b : Text)
      → IsSorted visited
      → contains visited a ≡ true
      → DependsOn a b
      → contains visited b ≡ true
  IsSorted-closed [] a b s h d = absurd (ground arith)
  IsSorted-closed (v ∷ visited) a b (fresh, known, deps, s) h d =
      contains_of_tail v b visited (elim (contains-cons v a visited h) [
        | inl here ↦ deps b (subst (λ x. DependsOn x b) (sym here) d)
        | inr later ↦ IsSorted-closed visited a b s later d
      ])

  IsSorted-reaches :
      (visited : List Text) {a b : Text}
      → IsSorted visited
      → contains visited a ≡ true
      → Chain a b
      → contains visited b ≡ true
  IsSorted-reaches visited {a} {b} s h (one d) = IsSorted-closed visited a b s h d
  IsSorted-reaches visited {a} {b} s h (more {b = m} d p) =
      IsSorted-reaches visited s (IsSorted-closed visited a m s h d) p

  pub first_step : {a b : Text} → Chain a b → (m : Text) × DependsOn a m × ((m ≡ b) ⊎ Chain m b)
  first_step (one {b = b} d) = (b, d, inl refl)
  first_step (more {b = m} d p) = (m, d, inr p)

  -- No sorted service depends on itself, however indirectly.
  pub IsSorted-acyclic :
      (visited : List Text) (x : Text) → IsSorted visited → contains visited x ≡ true → ¬ Chain x x
  IsSorted-acyclic [] x s h p = absurd (ground arith)
  IsSorted-acyclic (v ∷ visited) x (fresh, known, deps, s) h p =
      elim (contains-cons v x visited h) [
        | inr later ↦ IsSorted-acyclic visited x s later p
        | inl here ↦
            let (m, d, rest) = first_step p in
            let hit : contains visited m ≡ true =
              deps m (subst (λ y. DependsOn y m) (sym here) d) in
            let back : contains visited x ≡ true = elim rest [
              | inl e ↦ subst (λ y. contains visited y ≡ true) e hit
              | inr q ↦ IsSorted-reaches visited s hit q
            ] in
            let again : contains visited x ≡ false =
              subst (λ y. contains visited y ≡ false) here fresh in
            absurd (ground arith)
      ]

  -- In order of starting: each service after its dependencies, none twice.
  abbrev pub IsOrdered : List Text → List Text → Type 0
  IsOrdered before [] = Unit
  IsOrdered before (s ∷ rest) =
      (contains before s ≡ false)
      × (contains_key services s ≡ true)
      × ((dep : Text) → DependsOn s dep → contains before dep ≡ true)
      × IsOrdered (s ∷ before) rest

  -- A service with a dependency is defined.
  pub DependsOn-defined : (a b : Text) → DependsOn a b → contains_key services a ≡ true
  DependsOn-defined a b d = elim (Bool-cases (contains_key services a)) [
    | inl known ↦ known
    | inr absent ↦ absurd (no_deps (get services a) b absent d)
  ]

  -- Sorted services are defined.
  pub IsSorted-defined :
      (visited : List Text) (b : Text)
      → IsSorted visited
      → contains visited b ≡ true
      → contains_key services b ≡ true
  IsSorted-defined [] b s h = absurd (ground arith)
  IsSorted-defined (v ∷ visited) b (fresh, known, deps, s) h = elim (contains-cons v b visited h) [
    | inl here ↦ subst (λ y. contains_key services y ≡ true) here known
    | inr later ↦ IsSorted-defined visited b s later
  ]
