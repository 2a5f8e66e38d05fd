-- ===== src/Guardrails/Collisions/Laws.antt =====
-- The port guard against a description of clashing ports.
use kc_docker.Shared.{
  true, false, List, [], ◌∷◌, Text, ◌==◌, text_eq, ◌≡◌, ◌≢◌, refl, arith, Bool-cases, inl, inr, ◌⊎◌,
  subst, text_eq_iff, text_eq_sound,
}
use mathlib.Core.List.{Memᴰ}
use mathlib.Core.List.Memᴰ
use mathlib.Core.List.Memᴰ.{head, tail}
use kc_docker.Shared.Result.{Result, ok, err}
use kc_docker.Network.Ports.{PortMapping}
use kc_docker.Storage.{ContainerRecord}
use kc_docker.Guardrails.Collisions.{
  PortConflict, conflict, any_ip, is_running, bound_ip, ips_overlap, clashes, any_clash,
  check_containers, ensure_no_conflicts_with_containers,
}

-- Two mappings of one protocol and host port, on one host address or with a side that takes every
-- address.
pub record Clash (req p : PortMapping) : Type 0 where
  pub same_protocol : p.protocol ≡ req.protocol
  pub same_port : p.host_port ≡ req.host_port
  pub overlap : (bound_ip req ≡ any_ip) ⊎ ((bound_ip p ≡ any_ip) ⊎ (bound_ip req ≡ bound_ip p))

overlap_sound : (a b : Text) → ips_overlap a b ≡ true → (a ≡ any_ip) ⊎ ((b ≡ any_ip) ⊎ (a ≡ b))
overlap_sound a b h = elim (Bool-cases (text_eq a any_ip)) [
  | inl all ↦ inl (text_eq_sound a any_ip all)
  | inr narrow ↦ elim (Bool-cases (text_eq b any_ip)) [
    | inl all ↦ inr (inl (text_eq_sound b any_ip all))
    | inr one ↦ inr (inr (text_eq_sound a b (ground arith)))
  ]
]

overlap_complete : (a b : Text) → (a ≡ any_ip) ⊎ ((b ≡ any_ip) ⊎ (a ≡ b)) → ips_overlap a b ≡ true
overlap_complete a b (inl e) = let t = (text_eq_iff a any_ip).1 e in ground arith
overlap_complete a b (inr (inl e)) = let t = (text_eq_iff b any_ip).1 e in ground arith
overlap_complete a b (inr (inr e)) = let t = (text_eq_iff a b).1 e in ground arith

clashes_sound : (req p : PortMapping) → clashes req p ≡ true → Clash req p
clashes_sound req p h = record {
  same_protocol = text_eq_sound p.protocol req.protocol (ground arith);
  same_port = ground arith;
  overlap = overlap_sound (bound_ip req) (bound_ip p) (ground arith);
}

clashes_complete : (req p : PortMapping) → Clash req p → clashes req p ≡ true
clashes_complete req p c =
    let a = (text_eq_iff p.protocol req.protocol).1 c.same_protocol in
    let b = overlap_complete (bound_ip req) (bound_ip p) c.overlap in
    let d = c.same_port in ground arith

-- A port of `ports` that clashes, or none does.
any_clash-cases :
    (req : PortMapping) (ports : List PortMapping)
    → ((any_clash req ports ≡ true) × ((p : PortMapping) × Memᴰ p ports × Clash req p))
      ⊎ ((any_clash req ports ≡ false) × ((p : PortMapping) → Memᴰ p ports → ¬ Clash req p))
unfolding any_clash
any_clash-cases req [] = inr (refl, λ p m c. Memᴰ.not-nil m)
any_clash-cases req (q ∷ ports) = elim (Bool-cases (clashes req q)) [
  | inl hit ↦ inl (rw hit refl, (q, head refl, clashes_sound req q hit))
  | inr miss ↦ elim (any_clash-cases req ports) [
    | inl (e, (p, m, c)) ↦ inl (rw (miss, e) refl, (p, tail m, c))
    | inr (e, free) ↦ inr (
      rw (miss, e) refl,
      λ p m c. elim (Memᴰ.cases_cons m) [
        | inl same ↦
            let h = clashes_complete req q (subst (Clash req) same c) in absurd (ground arith)
        | inr later ↦ free p later c
      ],
    )
  ]
]

-- Some running container of the list has a port that clashes with the request.
pub record Taken (req : PortMapping) (c : ContainerRecord) (containers : List ContainerRecord)
    : Type 0 where
  pub port : PortMapping
  pub listed : Memᴰ c containers
  pub runs : is_running c.status ≡ true
  pub of_container : Memᴰ port c.ports
  pub clash : Clash req port

pub data Checked (requested : List PortMapping) (containers : List ContainerRecord)
    : Result {0, 0} PortConflict Unit → Type 0 where
  all_free :
      ((req : PortMapping) (c : ContainerRecord)
        → Memᴰ req requested
        → req.host_port ≢ 0
        → ¬ Taken req c containers)
      → Checked requested containers (ok tt)
  one_taken :
      (req : PortMapping) (c : ContainerRecord)
      → Memᴰ req requested
      → req.host_port ≢ 0
      → Taken req c containers
      → Checked requested containers (err (conflict req c))

abbrev Free : PortMapping → List ContainerRecord → Type 0
Free req containers = (c : ContainerRecord) → ¬ Taken req c containers

Taken-tail :
    (req : PortMapping) (c d : ContainerRecord) (containers : List ContainerRecord)
    → Taken req c containers
    → Taken req c (d ∷ containers)
Taken-tail req c d containers t = record {
  port = t.port;
  listed = tail t.listed;
  runs = t.runs;
  of_container = t.of_container;
  clash = t.clash;
}

-- What is taken of a longer list is taken by its first container or of the rest.
Free-cons :
    (req : PortMapping) (d : ContainerRecord) (containers : List ContainerRecord)
    → (is_running d.status ≡ true → (p : PortMapping) → Memᴰ p d.ports → ¬ Clash req p)
    → Free req containers
    → Free req (d ∷ containers)
Free-cons req d containers first rest c t = elim (Memᴰ.cases_cons t.listed) [
  | inl same ↦
      first (subst (λ k. is_running k.status ≡ true) same t.runs) t.port
        (subst (λ k. Memᴰ t.port k.ports) same t.of_container) t.clash
  | inr later ↦ rest c (record {
    port = t.port;
    listed = later;
    runs = t.runs;
    of_container = t.of_container;
    clash = t.clash;
  })
]

check_containers-cases :
    (req : PortMapping) (containers : List ContainerRecord)
    → ((check_containers req containers ≡ ok tt) × Free req containers)
      ⊎ ((c : ContainerRecord) × (check_containers req containers ≡ err (conflict req c))
          × Taken req c containers)
unfolding check_containers
check_containers-cases req [] = inl (refl, λ c t. Memᴰ.not-nil t.listed)
check_containers-cases req (d ∷ containers) =
    let rest = check_containers-cases req containers in
    elim (Bool-cases (is_running d.status)) [
      | inr stopped ↦ elim rest [
        | inl (e, free) ↦
            inl (rw stopped e, Free-cons req d containers (λ r. absurd (ground arith)) free)
        | inr (c, e, t) ↦ inr (c, rw stopped e, Taken-tail req c d containers t)
      ]
      | inl runs ↦ elim (any_clash-cases req d.ports) [
        | inl (hit, (p, m, clash)) ↦ inr (
          d,
          rw (runs, hit) refl,
          record { port = p; listed = head refl; runs = runs; of_container = m; clash = clash },
        )
        | inr (miss, clear) ↦ elim rest [
          | inl (e, free) ↦ inl (rw (runs, miss) e, Free-cons req d containers (λ r. clear) free)
          | inr (c, e, t) ↦ inr (c, rw (runs, miss) e, Taken-tail req c d containers t)
        ]
      ]
    ]

Checked-cons :
    (req : PortMapping) (requested : List PortMapping) (containers : List ContainerRecord)
    (r : Result {0, 0} PortConflict Unit)
    → ((req.host_port ≡ 0) ⊎ Free req containers)
    → Checked requested containers r
    → Checked (req ∷ requested) containers r
Checked-cons req requested containers _ harmless (all_free free) = all_free (λ other c m nonzero t.
    elim (Memᴰ.cases_cons m) [
      | inl same ↦ elim harmless [
        | inl zero_port ↦ nonzero (rw same zero_port)
        | inr none_taken ↦ none_taken c (subst (λ k. Taken k c containers) same t)
      ]
      | inr later ↦ free other c later nonzero t
    ])
Checked-cons req requested containers _ harmless (one_taken other c m nonzero t) =
    one_taken other c (tail m) nonzero t

-- The guard passes exactly when no requested mapping with a host port clashes with a port of a
-- running container, and its error names such a mapping and such a container.
pub ensure_no_conflicts-Checked :
    (requested : List PortMapping) (containers : List ContainerRecord)
    → Checked requested containers (ensure_no_conflicts_with_containers requested containers)
unfolding ensure_no_conflicts_with_containers
ensure_no_conflicts-Checked [] containers = all_free (λ req c m nonzero t. Memᴰ.not-nil m)
ensure_no_conflicts-Checked (req ∷ requested) containers =
    let rest = ensure_no_conflicts-Checked requested containers in
    let r = ensure_no_conflicts_with_containers requested containers in
    elim (Bool-cases (req.host_port == 0)) [
      | inl no_port ↦ rw no_port (Checked-cons req requested containers r (inl (ground arith)) rest)
      | inr port ↦ rw port (elim (check_containers-cases req containers) [
        | inl (e, free) ↦ rw e (Checked-cons req requested containers r (inr free) rest)
        | inr (c, e, t) ↦ rw e (one_taken req c (head refl) (λ z. absurd (ground arith)) t)
      ])
    ]
