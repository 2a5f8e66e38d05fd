-- ===== src/Health.antt =====
-- Health probes, `check_container_health` of src/health/mod.rs. The exit code of the probe's
-- command, or the error of running it, is an argument, and so is the clock. The count of failures
-- is a `u32` that wraps, as in the release profile.
pub mod Probes
mod Tests
use kc_docker.Shared.{
  ℕ, zero, suc, ◌+◌, Bool, true, false, [], ◌∷◌, ◌++◌, if◌then◌else◌, leb, Text, codes, is_empty,
  u32, ℤ, pos, negsuc,
}
use kc_docker.Shared.Decimal.{print_uint}
use kc_docker.Shared.Result.{Result, ok, err}
use kc_docker.Storage.{HealthStatus, none, starting, healthy, unhealthy}
use kc_docker.Builder.Instructions.{HealthConfig}

pub record HealthCheckResult : Type 0 where
  pub status : HealthStatus
  pub failing_streak : ℕ
  pub last_output : Text
  pub last_checked : ℕ

-- `HealthCheckResult::default`, at a time.
unfoldable pub default_result : ℕ → HealthCheckResult
default_result now = record {
  status = starting;
  failing_streak = 0;
  last_output = [];
  last_checked = now;
}

abbrev print_int : ℤ → Text
print_int (pos n) = print_uint n
print_int (negsuc n) = b'-' ∷ print_uint (suc n)

abbrev pub is_zero : ℤ → Bool
is_zero (pos zero) = true
is_zero (pos (suc n)) = false
is_zero (negsuc n) = false

-- What one probe makes of the result, by its exit code.
unfoldable pub probed : HealthConfig → ℕ → ℤ → HealthCheckResult → HealthCheckResult
probed config now code current =
    let failures = u32 (current.failing_streak + 1) in
    if is_zero code
    then record {
      status = healthy;
      failing_streak = 0;
      last_output = codes "OK";
      last_checked = now;
    }
    else record {
      status = if leb config.retries failures then unhealthy else starting;
      failing_streak = failures;
      last_output = codes "Probe exited with code " ++ print_int code;
      last_checked = now;
    }

-- The result that `current` holds afterwards, and what is returned.
unfoldable pub check_container_health {ℓ} :
    {E : Type ℓ}
    → HealthConfig
    → ℕ
    → Result E ℤ
    → HealthCheckResult
    → HealthCheckResult × Result E HealthStatus
check_container_health config now (err e) current =
    if is_empty config.test then (record current { status = none }, ok none) else (current, err e)
check_container_health config now (ok code) current =
    let after = probed config now code current in
    if is_empty config.test
    then (record current { status = none }, ok none)
    else (after, ok after.status)
