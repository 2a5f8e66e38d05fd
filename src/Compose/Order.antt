-- ===== src/Compose/Order.antt =====
-- The results of `dependency_order`.
use kc_docker.Shared.{
  ℕ, suc, true, false, ◌||◌, List, [], ◌∷◌, if◌then◌else◌, length, Text, ◌≡◌, refl, arith, subst,
  Bool-cases, inl, inr, ◌∙◌, ◌↔◌,
}
use mathlib.Core.List.{reverse, reverse_aux}
use kc_docker.Shared.Maps.{contains, keys, get}
use kc_docker.Shared.Result.{Result, ok, err, ◌>>=◌}
use kc_docker.Compose.{
  Services, OrderError, cyclic, undefined, Visit, start, is_defined, contains_key, visit_service,
  visit_keys, dependency_order,
}
use kc_docker.Compose.Graph.{
  DependsOn, Chain, IsSorted, IsSorted-acyclic, IsSorted-closed, IsSorted-defined,
  DependsOn-defined, first_step, IsOrdered, contains-cons, contains_of_tail, contains_head,
}
use kc_docker.Compose.Visits.{
  IsValid, IsCalled, Returns, visits, cycle, missing, starved, visit_service-Returns, Returns-then,
  keys_of_defined,
}
use kc_docker.Compose.Remaining.{remaining-nil}

contains-reverse_aux :
    (xs ys : List Text) (x : Text)
    → contains (reverse_aux xs ys) x ≡ (contains xs x || contains ys x)
contains-reverse_aux [] ys x = refl
contains-reverse_aux (y ∷ xs) ys x = ground (arith, contains-reverse_aux xs (y ∷ ys) x)

contains_of_reverse :
    (xs : List Text) (x : Text) → contains xs x ≡ true → contains (reverse xs) x ≡ true
contains_of_reverse xs x h = ground (arith, contains-reverse_aux xs [] x)

module _ (services : Services) where
  IsOrdered-of_sorted :
      (visited acc : List Text)
      → IsSorted services visited
      → IsOrdered services visited acc
      → IsOrdered services [] (reverse_aux visited acc)
  IsOrdered-of_sorted [] acc s o = o
  IsOrdered-of_sorted (v ∷ visited) acc (fresh, known, deps, s) o =
      IsOrdered-of_sorted visited (v ∷ acc) s (fresh, known, deps, o)

  -- Each way in which `dependency_order` can return, with its reason. Running out of fuel is none.
  pub data Ordered : Result OrderError (List Text) → Type 0 where
    ordered :
        {order : List Text}
        → IsOrdered services [] order
        → ((service : Text)
            → contains (keys services) service ≡ true
            → contains order service ≡ true)
        → Ordered (ok order)
    found_cycle : {x : Text} → Chain services x x → Ordered (err (cyclic x))
    found_missing :
        {a b : Text}
        → DependsOn services a b
        → contains_key services b ≡ false
        → Ordered (err (undefined a b))

  defined_of_keys :
      (m : Services) (service : Text)
      → contains (keys m) service ≡ true
      → is_defined (get m service) ≡ true
  unfolding get
  defined_of_keys [] service h = absurd (ground arith)
  defined_of_keys ((k, cfg) ∷ m) service h = ground (arith, defined_of_keys m service)

  module _ (fuel : ℕ) where
    visit_key-Returns :
        (key : Text) (st : Visit)
        → IsCalled services st key
        → Returns services fuel st
            (key ∷ [])
            (if contains st.visited key then ok st else visit_service services fuel key st)
    visit_key-Returns key st c = elim (Bool-cases (contains st.visited key)) [
      | inr new ↦ rw new (visit_service-Returns services fuel key st c)
      | inl old ↦ rw old (
          visits (record {
            valid = c.valid;
            same_visiting = refl;
            done = λ x h. elim (contains-cons key x [] h) [
              | inl here ↦ subst (λ y. contains st.visited y ≡ true) here old
              | inr later ↦ absurd (ground arith)
            ];
            grows = λ x h. h;
          }))
    ]

    visit_keys-Returns :
        (ks : List Text) (st : Visit)
        → IsValid services st
        → st.visiting ≡ []
        → ((service : Text) → contains ks service ≡ true → contains_key services service ≡ true)
        → Returns services fuel st ks (visit_keys services fuel ks st)
    unfolding visit_keys
    visit_keys-Returns [] st v e known = visits (record {
      valid = v;
      same_visiting = refl;
      done = λ x h. absurd (ground arith);
      grows = λ x h. h;
    })
    visit_keys-Returns (key ∷ ks) st v e known =
        Returns-then services _ (visit_keys services fuel ks)
          (visit_key-Returns key st
            (record { valid = v; waiting = rw e tt; known = known key (contains_head key ks) }))
          λ st' v'.
            visit_keys-Returns ks st' v'.valid (v'.same_visiting ∙ e)
              λ x h. known x (contains_of_tail key x ks h)

  start-IsValid : IsValid services start
  start-IsValid = record { order_is = refl; sorted = tt; disjoint = λ x h. refl }

  run : Result OrderError Visit
  run = visit_keys services (suc (length (keys services))) (keys services) start

  run-Returns : Returns services (suc (length (keys services))) start (keys services) run
  unfolding run
  run-Returns =
      visit_keys-Returns (suc (length (keys services))) (keys services) start start-IsValid refl
        (defined_of_keys services)

  Ordered-of_run :
      {r : Result OrderError Visit}
      → Returns services (suc (length (keys services))) start (keys services) r
      → Ordered (r >>= λ done. ok done.order)
  Ordered-of_run (visits {st'} v) =
      ordered (rw v.valid.order_is (IsOrdered-of_sorted st'.visited [] v.valid.sorted tt))
        (λ x h. rw v.valid.order_is (contains_of_reverse st'.visited x (v.done x h)))
  Ordered-of_run (cycle p) = found_cycle p
  Ordered-of_run (missing d u) = found_missing d u
  Ordered-of_run (starved le) = absurd (omega (arith, remaining-nil (keys services)))

  -- The result is a topological order of all the services, or names a service that lies on a
  -- cycle, or a dependency that is not defined; the recursion always ends.
  pub dependency_order-Ordered : Ordered (dependency_order services)
  unfolding dependency_order run
  dependency_order-Ordered = Ordered-of_run run-Returns

  -- The file can be started: no cycle among its services, and no dependency that is missing.
  abbrev pub IsStartable : Type 0
  IsStartable =
      ((x : Text) → contains (keys services) x ≡ true → ¬ Chain services x x)
      × ((a b : Text) → DependsOn services a b → contains_key services b ≡ true)

  startable_of_run :
      {r : Result OrderError Visit} {order : List Text}
      → Returns services (suc (length (keys services))) start (keys services) r
      → (r >>= λ done. ok done.order) ≡ ok order
      → IsStartable
  startable_of_run (visits {st'} v) e = (
    (λ x h. IsSorted-acyclic services st'.visited x v.valid.sorted (v.done x h)),
    λ a b d.
        let known = keys_of_defined services a (DependsOn-defined services a b d) in
        IsSorted-defined services st'.visited b v.valid.sorted
          (IsSorted-closed services st'.visited a b v.valid.sorted (v.done a known) d),
  )
  startable_of_run (cycle p) e = absurd (ground arith)
  startable_of_run (missing d u) e = absurd (ground arith)
  startable_of_run (starved le) e = absurd (ground arith)

  order_of_Ordered :
      {r : Result OrderError (List Text)}
      → Ordered r
      → IsStartable
      → (order : List Text) × (r ≡ ok order)
  order_of_Ordered (ordered {order} o all) s = (order, refl)
  order_of_Ordered (found_cycle {x} p) s =
      let (m, d, rest) = first_step services p in
      absurd (s.0 x (keys_of_defined services x (DependsOn-defined services x m d)) p)
  order_of_Ordered (found_missing {a} {b} d u) s = let known = s.1 a b d in absurd (ground arith)

  -- An order is found exactly where no service depends on itself, however indirectly, and every
  -- dependency is defined.
  pub dependency_order_iff :
      ((order : List Text) × (dependency_order services ≡ ok order)) ↔ IsStartable
  unfolding dependency_order run
  dependency_order_iff = (
    (λ (order, e). startable_of_run run-Returns e),
    (λ s. order_of_Ordered dependency_order-Ordered s),
  )
