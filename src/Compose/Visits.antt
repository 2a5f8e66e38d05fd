-- ===== src/Compose/Visits.antt =====
-- What a visit of a service returns, by one induction over the recursion: the invariant of the
-- three collections, the cause of each error, and the fuel.
use kc_docker.Shared.{
  ℕ, zero, suc, ◌≤◌, true, false, List, [], ◌∷◌, Text, ◌≡◌, refl, arith, subst, sym, Bool-cases,
  inl, inr, ap, ◌∙◌,
}
use mathlib.Core.List.{reverse, reverse-cons}
use kc_docker.Shared.Maps.{contains, discard, keys}
use kc_docker.Shared.Result.{Result, ok, err, ◌>>=◌}
use kc_docker.Compose.{
  Services, OrderError, cyclic, undefined, out_of_fuel, Visit, deps_of, contains_key, visit_deps,
  visit_service, finish,
}
use kc_docker.Compose.Graph.{
  DependsOn, Chain, IsWaiting, cycle_of_waiting, IsSorted, contains-cons, contains_of_tail,
  contains_head,
}
use kc_docker.Compose.Remaining.{
  remaining, remaining-lt, keys_of_get, discard_head, not_same, fresh_of_disjoint,
}

module _ (services : Services) where
  pub keys_of_defined :
      (service : Text)
      → contains_key services service ≡ true
      → contains (keys services) service ≡ true
  keys_of_defined service h = keys_of_get services service h

  -- The invariant of the three collections.
  pub record IsValid (st : Visit) : Type 0 where
    pub order_is : st.order ≡ reverse st.visited
    pub sorted : IsSorted services st.visited
    pub disjoint : (x : Text) → contains st.visiting x ≡ true → contains st.visited x ≡ false

  -- `st'` is reached from `st` with all the `targets` visited.
  pub record Visits (st : Visit) (targets : List Text) (st' : Visit) : Type 0 where
    pub valid : IsValid st'
    pub same_visiting : st'.visiting ≡ st.visiting
    pub done : (x : Text) → contains targets x ≡ true → contains st'.visited x ≡ true
    pub grows : (x : Text) → contains st.visited x ≡ true → contains st'.visited x ≡ true

  pub data Returns (fuel : ℕ) (st : Visit) (targets : List Text)
      : Result OrderError Visit → Type 0 where
    visits : {st' : Visit} → Visits st targets st' → Returns fuel st targets (ok st')
    cycle : {x : Text} → Chain services x x → Returns fuel st targets (err (cyclic x))
    missing :
        {a b : Text}
        → DependsOn services a b
        → contains_key services b ≡ false
        → Returns fuel st targets (err (undefined a b))
    starved :
        fuel ≤ remaining (keys services) st.visiting → Returns fuel st targets (err out_of_fuel)

  -- What is known when `service` is visited.
  pub record IsCalled (st : Visit) (service : Text) : Type 0 where
    pub valid : IsValid st
    pub waiting : IsWaiting services st.visiting service
    pub known : contains_key services service ≡ true

  extend :
      {fuel : ℕ} {st mid : Visit} {a : Text} {rest : List Text} {r : Result OrderError Visit}
      → Visits st (a ∷ []) mid
      → Returns fuel mid rest r
      → Returns fuel st (a ∷ rest) r
  extend {a} {rest} v (visits w) = visits (record {
    valid = w.valid;
    same_visiting = w.same_visiting ∙ v.same_visiting;
    done = λ x h. elim (contains-cons a x rest h) [
      | inl here ↦
          w.grows x (v.done x (subst (λ y. contains (a ∷ []) y ≡ true) here (contains_head a [])))
      | inr later ↦ w.done x later
    ];
    grows = λ x h. w.grows x (v.grows x h);
  })
  extend v (cycle p) = cycle p
  extend v (missing d u) = missing d u
  extend {fuel} v (starved le) =
      starved (subst (λ l. fuel ≤ remaining (keys services) l) v.same_visiting le)

  -- One target, then the others.
  pub Returns-then :
      {fuel : ℕ} {st : Visit} {a : Text} {rest : List Text} (first : Result OrderError Visit)
      (next : Visit → Result OrderError Visit)
      → Returns fuel st (a ∷ []) first
      → ((st' : Visit) → Visits st (a ∷ []) st' → Returns fuel st' rest (next st'))
      → Returns fuel st (a ∷ rest) (first >>= next)
  Returns-then first next (visits {st'} v) step = extend v (step st' v)
  Returns-then first next (cycle p) step = cycle p
  Returns-then first next (missing d u) step = missing d u
  Returns-then first next (starved le) step = starved le

  module _ (fuel : ℕ) (visit : Text → Visit → Result OrderError Visit)
      (ih : (dep : Text) (st : Visit)
        → IsCalled st dep
        → Returns fuel st (dep ∷ []) (visit dep st)) where
    visit_deps-Returns :
        (service : Text) (visiting deps : List Text) (st : Visit)
        → IsValid st
        → st.visiting ≡ service ∷ visiting
        → IsWaiting services visiting service
        → ((dep : Text) → contains deps dep ≡ true → DependsOn services service dep)
        → Returns fuel st deps (visit_deps services visit service deps st)
    unfolding visit_deps
    visit_deps-Returns service visiting [] st v e w all = visits (record {
      valid = v;
      same_visiting = refl;
      done = λ x h. absurd (ground arith);
      grows = λ x h. h;
    })
    visit_deps-Returns service visiting (dep ∷ deps) st v e w all =
        elim (Bool-cases (contains_key services dep)) [
          | inr undefined_dep ↦
              rw undefined_dep (missing (all dep (contains_head dep deps)) undefined_dep)
          | inl known ↦ rw known (
              Returns-then (visit dep st) (visit_deps services visit service deps)
                (ih dep st (record {
                  valid = v;
                  waiting =
                      subst (λ l. IsWaiting services l dep) (sym e)
                        (all dep (contains_head dep deps), w);
                  known = known;
                }))
                λ st' v'.
                  visit_deps-Returns service visiting deps st' v'.valid (v'.same_visiting ∙ e) w
                    λ x h. all x (contains_of_tail dep x deps h))
        ]

  -- The visit of `service` when its dependencies are done.
  finish-Visits :
      {service : Text} {deps : List Text} (st mid : Visit)
      → contains st.visiting service ≡ false
      → contains_key services service ≡ true
      → ((dep : Text) → DependsOn services service dep → contains deps dep ≡ true)
      → Visits (record st { visiting = service ∷ st.visiting }) deps mid
      → Visits st (service ∷ []) (finish service mid)
  finish-Visits {service} {deps} st mid fresh known all v =
      let new : contains mid.visited service ≡ false =
        v.valid.disjoint service (rw v.same_visiting (contains_head service st.visiting)) in
      let done_is : discard service mid.visiting ≡ st.visiting =
        ap (discard service) v.same_visiting ∙ discard_head service st.visiting fresh in
      record {
        valid = record {
          order_is = rw (v.valid.order_is) (rw new (sym (reverse-cons service mid.visited)));
          sorted = rw new (new, known, (λ dep h. v.done dep (all dep h)), v.valid.sorted);
          disjoint = λ x h.
              let old : contains st.visiting x ≡ true =
                subst (λ l. contains l x ≡ true) done_is h in
              rw new (
                fresh_of_disjoint service x mid.visited (not_same service x st.visiting fresh old) (
                  v.valid.disjoint x
                    (rw v.same_visiting (contains_of_tail service x st.visiting old))));
        };
        same_visiting = done_is;
        done = λ x h. elim (contains-cons service x [] h) [
          | inl here ↦ rw new (
              subst (λ y. contains (service ∷ mid.visited) y ≡ true) here
                (contains_head service mid.visited))
          | inr later ↦ absurd (ground arith)
        ];
        grows = λ x h. rw new (contains_of_tail service x mid.visited (v.grows x h));
      }

  visit_service-Returns_start :
      {fuel : ℕ} {service : Text} {st : Visit} {deps : List Text} (r : Result OrderError Visit)
      → IsCalled st service
      → contains st.visiting service ≡ false
      → ((dep : Text) → DependsOn services service dep → contains deps dep ≡ true)
      → Returns fuel (record st { visiting = service ∷ st.visiting }) deps r
      → Returns (suc fuel) st (service ∷ []) (r >>= λ done. ok (finish service done))
  visit_service-Returns_start {service} {st} r c fresh all (visits {st' = mid} v) =
      visits (finish-Visits st mid fresh c.known all v)
  visit_service-Returns_start r c fresh all (cycle p) = cycle p
  visit_service-Returns_start r c fresh all (missing d u) = missing d u
  visit_service-Returns_start {fuel} {service} {st} r c fresh all (starved le) = starved (
      omega (
        arith,
        remaining-lt (keys services) st.visiting service (keys_of_defined service c.known) fresh,
      ))

  pub visit_service-Returns :
      (fuel : ℕ) (service : Text) (st : Visit)
      → IsCalled st service
      → Returns fuel st (service ∷ []) (visit_service services fuel service st)
  unfolding visit_service
  visit_service-Returns zero service st c = starved (omega arith)
  visit_service-Returns (suc fuel) service st c = elim (Bool-cases (contains st.visiting service)) [
    | inl waits ↦ rw waits (cycle (cycle_of_waiting services st.visiting service c.waiting waits))
    | inr fresh ↦ rw fresh (elim (Bool-cases (contains st.visited service)) [
      | inl old ↦ rw old (
          visits (record {
            valid = c.valid;
            same_visiting = refl;
            done = λ x h. elim (contains-cons service x [] h) [
              | inl here ↦ subst (λ y. contains st.visited y ≡ true) here old
              | inr later ↦ absurd (ground arith)
            ];
            grows = λ x h. h;
          }))
      | inr new ↦ rw new (
          visit_service-Returns_start _ c fresh (λ dep h. h)
            (visit_deps-Returns fuel (visit_service services fuel)
              (λ dep st' c'. visit_service-Returns fuel dep st' c') service st.visiting
              (deps_of services service) (record st { visiting = service ∷ st.visiting })
              (record {
                order_is = c.valid.order_is;
                sorted = c.valid.sorted;
                disjoint = λ x h. elim (contains-cons service x st.visiting h) [
                  | inl here ↦ subst (λ y. contains st.visited y ≡ false) here new
                  | inr later ↦ c.valid.disjoint x later
                ];
              })
              refl c.waiting (λ dep h. h)))
    ])
  ]
