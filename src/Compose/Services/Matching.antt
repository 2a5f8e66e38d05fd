-- ===== src/Compose/Services/Matching.antt =====
-- The containers of a project's services under `down`.
use kc_docker.Shared.{
  ℕ, Bool, true, false, ◌||◌, some, [], ◌∷◌, ◌++◌, ◌≡◌, refl, sym, ap, ◌∙◌, arith, All, Text, codes,
  text_eq, text_eq_refl, is_digit, strip_prefix, Bool-cases, Option-cases, inl, inr, append_assoc,
}
use kc_docker.Shared.Maps.{contains, keys, get}
use kc_docker.Shared.Search.{strip_prefix-append}
use kc_docker.Shared.Splitting.{Lacks, rsplit_once-append}
use kc_docker.Shared.Decimal.{print_uint, print_uint-IsDigits}
use kc_docker.Compose.{ServiceConfig, Services}
use kc_docker.Compose.Services.{
  numbered, container_name, in_custom_names, of_service, by_prefix, matches_project,
}

Lacks-digits : (s : Text) → All (λ c. is_digit c ≡ true) s → Lacks b'_' s
Lacks-digits [] h = tt
Lacks-digits (c ∷ s) h = (ground arith, Lacks-digits s h.1)

contains-get :
    (services : Services) (service : Text) (svc : ServiceConfig)
    → get services service ≡ some svc
    → contains (keys services) service ≡ true
unfolding get
contains-get [] service svc e = absurd (ground arith)
contains-get ((name, first) ∷ services) service svc e = elim (Bool-cases (text_eq name service)) [
  | inl hit ↦ rw hit refl
  | inr miss ↦ rw miss (contains-get services service svc (ground arith))
]

custom-get :
    (project : Text) (services : Services) (service name : Text) (svc : ServiceConfig)
    → get services service ≡ some svc
    → svc.container_name ≡ some name
    → in_custom_names project services name ≡ true
unfolding get in_custom_names
custom-get project [] service name svc e c = absurd (ground arith)
custom-get project ((key, first) ∷ services) service name svc e c =
    elim (Bool-cases (text_eq key service)) [
      | inl hit ↦
          let same : first ≡ svc = ground arith in rw same (rw c (rw (text_eq_refl name) refl))
      | inr miss ↦ ground (arith, custom-get project services service name svc (ground arith) c)
    ]

by_number :
    (project : Text) (services : Services) (service : Text) (svc : ServiceConfig) (n : ℕ)
    → get services service ≡ some svc
    → by_prefix services (strip_prefix (numbered project service n) (project ++ codes "_")) ≡ true
by_number project services service svc n e =
    let rest = service ++ (b'_' ∷ print_uint n) in
    let parted : numbered project service n ≡ (project ++ codes "_") ++ rest =
      sym (append_assoc project (codes "_") rest) in
    let last =
      rsplit_once-append b'_' service (print_uint n)
        (Lacks-digits (print_uint n) (print_uint-IsDigits n)) in
    ap (λ t. by_prefix services (strip_prefix t (project ++ codes "_"))) parted
    ∙ ap (by_prefix services) (strip_prefix-append (project ++ codes "_") rest)
    ∙ ap (of_service services) last
    ∙ contains-get services service svc e

or_true : (a b : Bool) → b ≡ true → (a || b) ≡ true
or_true true b h = refl
or_true false b h = h

true_or : (a b : Bool) → a ≡ true → (a || b) ≡ true
true_or a b h = rw h refl

matches-numbered :
    (project : Text) (services : Services) (service : Text) (svc : ServiceConfig) (num : ℕ)
    → get services service ≡ some svc
    → matches_project project services (numbered project service num) ≡ true
unfolding matches_project
matches-numbered project services service svc num e =
    or_true (in_custom_names project services (numbered project service num))
      (by_prefix services (strip_prefix (numbered project service num) (project ++ codes "_")))
      (by_number project services service svc num e)

-- `down` takes for the project's own the container that `up` starts for each of its services, and
-- the container of any number, of every service, under the project's numbered name.
pub matches_project-container_name :
    (project : Text) (services : Services) (service : Text) (svc : ServiceConfig) (num : ℕ)
    → get services service ≡ some svc
    → (matches_project project services (container_name project service svc) ≡ true)
      × (matches_project project services (numbered project service num) ≡ true)
unfolding container_name
matches_project-container_name project services service svc num e = (
  elim (Option-cases svc.container_name) [
    | inl unnamed ↦ rw unnamed (matches-numbered project services service svc 1 e)
    | inr (name, named) ↦ rw named (
        unfold matches_project in
        true_or (in_custom_names project services name)
          (by_prefix services (strip_prefix name (project ++ codes "_")))
          (custom-get project services service name svc e named))
  ],
  matches-numbered project services service svc num e,
)
