-- ===== src/Health.antt =====
-- internal/process/healthcheck.go: HealthMonitor, its thresholds and its counters. A check's outcome
-- is an argument: `none` where it succeeds. The ticker, the metrics and the logging are left out.
mod Tests
pub mod Counters
pub mod Hysteresis
use phpeek_pm.Prelude.{
  ℕ, zero, suc, ◌+◌, Bool, true, false, not, if◌then◌else◌, List, [], ◌∷◌, ℤ, pos, leb_ℤ, String,
  Option, none, some,
}

-- The thresholds of config.HealthCheck.
pub record HealthCheck : Type 0 where
  pub failure_threshold : ℤ
  pub success_threshold : ℤ

pub record HealthMonitor : Type 0 where
  pub config : HealthCheck
  pub consecutive_fails : ℕ
  pub consecutive_success : ℕ
  pub currently_healthy : Bool

pub record HealthStatus : Type 0 where
  pub healthy : Bool
  pub last_check_succeeded : Bool
  pub error : Option String

unfoldable pub new_health_monitor : HealthCheck → HealthMonitor
new_health_monitor config = record {
  config = config;
  consecutive_fails = 0;
  consecutive_success = 0;
  currently_healthy = true;
}

-- `if successThreshold <= 0 { successThreshold = 1 }`
abbrev pub success_threshold : HealthCheck → ℤ
success_threshold config =
    if leb_ℤ config.success_threshold (pos 0) then pos 1 else config.success_threshold

abbrev pub status_of : Bool → Bool → Option String → HealthStatus
status_of healthy succeeded error = record {
  healthy = healthy;
  last_check_succeeded = succeeded;
  error = error;
}

unfoldable pub perform_check : Option String → HealthMonitor → HealthMonitor × HealthStatus
perform_check (some err) hm =
    let failed = record hm {
      consecutive_fails = hm.consecutive_fails + 1;
      consecutive_success = 0;
    } in
    if leb_ℤ hm.config.failure_threshold (pos failed.consecutive_fails)
    then (if failed.currently_healthy
        then (record failed { currently_healthy = false }, status_of false false (some err))
        else (failed, status_of false false (some err)))
    else (failed, status_of true false none)
perform_check none hm =
    let passed = record hm {
      consecutive_success = hm.consecutive_success + 1;
      consecutive_fails = 0;
    } in
    if not passed.currently_healthy
    then (if leb_ℤ (success_threshold hm.config) (pos passed.consecutive_success)
        then (record passed { currently_healthy = true }, status_of true true none)
        else (passed, status_of false true none))
    else (passed, status_of true true none)

-- The loop of Start: one check for each tick. The statuses go to the channel in their order.
unfoldable pub run_checks : List (Option String) → HealthMonitor → HealthMonitor × List HealthStatus
run_checks [] hm = (hm, [])
run_checks (outcome ∷ outcomes) hm =
    let (checked, status) = perform_check outcome hm in
    let (last, statuses) = run_checks outcomes checked in (last, status ∷ statuses)
