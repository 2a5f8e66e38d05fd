-- ===== src/Health/Tests.antt =====
-- Three failures after a success.
use kc_docker.Shared.{ℕ, List, [], ◌∷◌, ◌≡◌, refl, arith, codes, ℤ, pos, negsuc}
use kc_docker.Shared.Result.{ok, err}
use kc_docker.Storage.{HealthStatus, unhealthy, starting}
use kc_docker.Builder.Instructions.{HealthConfig}
use kc_docker.Health.{default_result, probed, check_container_health}
use kc_docker.Health.Probes.{check_all, check_all-verdict}

abbrev config : HealthConfig
config = record {
  test = codes "true" ∷ [];
  interval_secs = 30;
  timeout_secs = 30;
  start_period_secs = 0;
  retries = 3;
}

abbrev no_test : HealthConfig
no_test = record config { test = [] }

abbrev failures : List (ℕ × ℤ)
failures = (2, pos 1) ∷ (3, negsuc 0) ∷ (4, pos 137) ∷ []

check_all-verdict_example :
    ((check_all config ((0, pos 1) ∷ (1, pos 0) ∷ failures) (default_result 0)).failing_streak ≡ 3)
    × ((check_all config ((0, pos 1) ∷ (1, pos 0) ∷ failures) (default_result 0)).status
        ≡ unhealthy)
check_all-verdict_example =
    check_all-verdict config refl ((0, pos 1) ∷ []) failures 1 (default_result 0)
      (refl, (refl, (refl, tt))) (omega arith)

first_failure : (probed config 5 (pos 2) (default_result 0)).status ≡ starting
unfolding probed default_result
first_failure = refl

not_run_without_test :
    (check_container_health no_test 5 (err (codes "no such container")) (default_result 0)).1
    ≡ ok HealthStatus.none
unfolding check_container_health default_result
not_run_without_test = refl
