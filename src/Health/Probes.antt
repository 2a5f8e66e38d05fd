-- ===== src/Health/Probes.antt =====
-- Runs of probes.
use kc_docker.Shared.{
  ℕ, suc, ◌+◌, ◌^◌, ◌<◌, false, List, [], ◌∷◌, ◌++◌, ◌≡◌, refl, arith, All, length, if◌then◌else◌,
  leb, ◌==◌, Text, is_empty, ℤ, pos,
}
use kc_docker.Shared.Result.{ok}
use kc_docker.Storage.{HealthStatus, starting, healthy, unhealthy}
use kc_docker.Builder.Instructions.{HealthConfig}
use kc_docker.Health.{HealthCheckResult, is_zero, probed, check_container_health}

-- The probes of a container one after another, each with its time and exit code.
unfoldable pub check_all : HealthConfig → List (ℕ × ℤ) → HealthCheckResult → HealthCheckResult
check_all config [] current = current
check_all config ((now, code) ∷ probes) current =
    check_all config probes (check_container_health {E = Text} config now (ok code) current).0

abbrev pub Fails : ℕ × ℤ → Type 0
Fails probe = is_zero probe.1 ≡ false

-- The verdict after a success and `n` failures.
abbrev pub verdict : ℕ → ℕ → HealthStatus
verdict retries n = if n == 0 then healthy else if leb retries n then unhealthy else starting

check_all-append :
    (config : HealthConfig) (before after : List (ℕ × ℤ)) (r : HealthCheckResult)
    → check_all config (before ++ after) r ≡ check_all config after (check_all config before r)
unfolding check_all
check_all-append config [] after r = refl
check_all-append config ((now, code) ∷ before) after r =
    check_all-append config before after
      (check_container_health {E = Text} config now (ok code) r).0

-- Failures behind a count of failures.
module _ (config : HealthConfig) (test : is_empty config.test ≡ false) where
  failed_once :
      (now k : ℕ) (code : ℤ) (r : HealthCheckResult)
      → is_zero code ≡ false
      → r.failing_streak ≡ k
      → k + 1 < 2 ^ 32
      → ((check_container_health {E = Text} config now (ok code) r).0.failing_streak ≡ k + 1)
        × ((check_container_health {E = Text} config now (ok code) r).0.status
            ≡ verdict config.retries (k + 1))
  unfolding check_container_health probed
  failed_once now k code r fails streak few = ground arith

  check_all-Fails :
      (failures : List (ℕ × ℤ)) (k : ℕ) (r : HealthCheckResult)
      → All Fails failures
      → k + length failures < 2 ^ 32
      → r.failing_streak ≡ k
      → r.status ≡ verdict config.retries k
      → ((check_all config failures r).failing_streak ≡ k + length failures)
        × ((check_all config failures r).status ≡ verdict config.retries (k + length failures))
  unfolding check_all
  check_all-Fails [] k r h few streak st = let e : k + 0 ≡ k = omega arith in rw (e) (streak, st)
  check_all-Fails ((now, code) ∷ failures) k r h few streak st =
      let first = failed_once now k code r h.0 streak (omega arith) in
      let e : k + suc (length failures) ≡ k + 1 + length failures = omega arith in
      rw e (
        check_all-Fails failures (k + 1)
          (check_container_health {E = Text} config now (ok code) r).0 h.1 (omega arith) first.0
          first.1)

  succeeded :
      (now : ℕ) (r : HealthCheckResult)
      → ((check_container_health {E = Text} config now (ok (pos 0)) r).0.failing_streak ≡ 0)
        × ((check_container_health {E = Text} config now (ok (pos 0)) r).0.status ≡ healthy)
  unfolding check_container_health probed
  succeeded now r = ground arith

  -- Whatever the probes before, a success and then `n` failures, fewer than 2^32, leave the
  -- streak `n` and the status that it calls for: healthy for no failure, unhealthy from `retries`
  -- failures on, and starting below that.
  pub check_all-verdict :
      (before failures : List (ℕ × ℤ)) (now : ℕ) (r : HealthCheckResult)
      → All Fails failures
      → length failures < 2 ^ 32
      → ((check_all config (before ++ (now, pos 0) ∷ failures) r).failing_streak ≡ length failures)
        × ((check_all config (before ++ (now, pos 0) ∷ failures) r).status
            ≡ verdict config.retries (length failures))
  unfolding check_all
  check_all-verdict before failures now r h few =
      let sofar = check_all config before r in
      let first = succeeded now sofar in
      let e : 0 + length failures ≡ length failures = omega arith in
      rw (check_all-append config before ((now, pos 0) ∷ failures) r) (
        rw (← e) (
          check_all-Fails failures 0
            (check_container_health {E = Text} config now (ok (pos 0)) sofar).0 h (omega arith)
            first.0 first.1))
