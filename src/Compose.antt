-- ===== src/Compose.antt =====
-- The compose orchestrator, src/compose/mod.rs: the file's data and the order of its services.
pub mod Graph
pub mod Remaining
pub mod Visits
pub mod Order
pub mod Services
mod Tests
use kc_docker.Shared.{
  ℕ, zero, suc, Bool, true, false, Option, none, some, List, [], ◌∷◌, ◌++◌, if◌then◌else◌, length,
  Text,
}
use kc_docker.Shared.Maps.{contains, add, discard, keys, get}
use kc_docker.Shared.Result.{Result, ok, err, ◌>>=◌}

pub data CommandOrList : Type 0 where
  string : Text → CommandOrList
  list : List Text → CommandOrList

pub data EnvironmentConfig : Type 0 where
  list : List Text → EnvironmentConfig
  map : List (Text × Text) → EnvironmentConfig

pub record ServiceConfig : Type 0 where
  pub image : Option Text
  pub build : Option Text
  pub container_name : Option Text
  pub env_file : Option CommandOrList
  pub command : Option CommandOrList
  pub entrypoint : Option CommandOrList
  pub environment : Option EnvironmentConfig
  pub ports : Option (List Text)
  pub volumes : Option (List Text)
  pub depends_on : Option (List Text)
  pub networks : Option (List Text)
  pub restart : Option Text

abbrev pub Services : Type 0
Services = List (Text × ServiceConfig)

-- The two errors of `dependency_order`; `out_of_fuel` is the model's own.
pub data OrderError : Type 0 where
  cyclic : Text → OrderError
  undefined : Text → Text → OrderError
  out_of_fuel : OrderError

-- The three `&mut` collections that `visit_service` passes on.
pub record Visit : Type 0 where
  pub visited : List Text
  pub visiting : List Text
  pub order : List Text

abbrev pub listed : Option (List Text) → List Text
listed none = []
listed (some deps) = deps

abbrev pub deps_of_config : Option ServiceConfig → List Text
deps_of_config none = []
deps_of_config (some cfg) = listed cfg.depends_on

abbrev pub is_defined : Option ServiceConfig → Bool
is_defined none = false
is_defined (some cfg) = true

-- What `visit_service` does once its dependencies are done.
abbrev pub finish : Text → Visit → Visit
finish service st = record {
  visited = add service st.visited;
  visiting = discard service st.visiting;
  order = st.order ++ service ∷ [];
}

abbrev pub start : Visit
start = record { visited = []; visiting = []; order = [] }

module _ (services : Services) where
  -- The services that the loop of `visit_service` goes over.
  abbrev pub deps_of : Text → List Text
  deps_of service = deps_of_config (get services service)

  -- `services.contains_key`.
  abbrev pub contains_key : Text → Bool
  contains_key service = is_defined (get services service)

  -- The loop over `depends_on`; `visit` is the recursive call.
  pub visit_deps :
      (Text → Visit → Result OrderError Visit) → Text → List Text → Visit → Result OrderError Visit
  visit_deps visit service [] st = ok st
  visit_deps visit service (dep ∷ deps) st =
      if contains_key dep
      then visit dep st >>= visit_deps visit service deps
      else err (undefined service dep)

  -- The recursion takes fuel: see `Order`.
  pub visit_service : ℕ → Text → Visit → Result OrderError Visit
  unfolding visit_deps
  visit_service zero service st = err out_of_fuel
  visit_service (suc fuel) service st =
      if contains st.visiting service
      then err (cyclic service)
      else if contains st.visited service
      then ok st
      else (visit_deps (visit_service fuel) service (deps_of service)
            (record st { visiting = add service st.visiting })
          >>= λ done. ok (finish service done))

  -- The loop of `dependency_order` over the services' names.
  pub visit_keys : ℕ → List Text → Visit → Result OrderError Visit
  visit_keys fuel [] st = ok st
  visit_keys fuel (service ∷ rest) st =
      (if contains st.visited service then ok st else visit_service fuel service st)
      >>= visit_keys fuel rest

  -- One more than the number of services is enough fuel.
  pub dependency_order : Result OrderError (List Text)
  unfolding visit_keys visit_service
  dependency_order =
      visit_keys (suc (length (keys services))) (keys services) start >>= λ done. ok done.order
