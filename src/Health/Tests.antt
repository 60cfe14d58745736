-- ===== src/Health/Tests.antt =====
-- The health monitor at concrete inputs.
use phpeek_pm.Prelude.{
  ◌≡◌, refl, arith, pos, List, [], ◌∷◌, some, none, true, false, String, Option,
}
use phpeek_pm.Health.{HealthCheck, HealthMonitor, new_health_monitor, perform_check, run_checks}
use phpeek_pm.Health.Counters.{trailing_fails, trailing_successes, run_checks-counters}
use phpeek_pm.Health.Hysteresis.{run_checks_healthy, perform_check_flaps}

runs : Unit {0}
unfolding new_health_monitor perform_check run_checks
runs = tt

abbrev config : HealthCheck
config = record { failure_threshold = pos 3; success_threshold = pos 2 }

abbrev outcomes : List (Option String)
outcomes = some "refused" ∷ some "refused" ∷ none ∷ some "timeout" ∷ []

abbrev monitor : HealthMonitor
monitor = new_health_monitor config

-- Two failures, then three.
thresholds :
    ((run_checks outcomes monitor).0.currently_healthy ≡ true)
    × ((run_checks (some "a" ∷ some "b" ∷ some "c" ∷ none ∷ []) monitor).0.currently_healthy
        ≡ false)
    × ((run_checks (some "a" ∷ some "b" ∷ some "c" ∷ none ∷ none ∷ []) monitor).0.currently_healthy
        ≡ true)
unfolding runs
thresholds = (refl, refl, refl)

run_checks-counters_example :
    let last = (run_checks outcomes (new_health_monitor config)).0 in
    (last.consecutive_fails ≡ trailing_fails 0 outcomes)
    × (last.consecutive_success ≡ trailing_successes 0 outcomes)
run_checks-counters_example = run_checks-counters config outcomes

run_checks_healthy_example : (run_checks outcomes monitor).0.currently_healthy ≡ true
run_checks_healthy_example =
    run_checks_healthy outcomes monitor (unfold runs in refl)
      (unfold runs in (omega arith, (omega arith, (omega arith, tt))))

abbrev down : HealthMonitor
down = record {
  config = config;
  consecutive_fails = 3;
  consecutive_success = 0;
  currently_healthy = false;
}

perform_check_flaps_example :
    let (passed, _) = perform_check none down in
    let (last, status) = perform_check (some "timeout") passed in
    (last.currently_healthy ≡ false) × (status.healthy ≡ true)
perform_check_flaps_example =
    perform_check_flaps "timeout" down refl refl (omega arith) (omega arith)
