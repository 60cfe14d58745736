-- ===== src/Health/Counters.antt =====
-- The counters of the monitor, and what a status says of them.
use phpeek_pm.Prelude.{
  ℕ, ◌+◌, ◌≡◌, refl, ap, ◌∙◌, arith, Bool, true, false, not, ◌&&◌, ◌||◌, if◌then◌else◌, List, [],
  ◌∷◌, pos, leb_ℤ, String, Option, none, some,
}
use phpeek_pm.Health.{
  HealthCheck, HealthMonitor, new_health_monitor, success_threshold, perform_check, run_checks,
}

-- The failures, and the successes, since the last check of the other kind; `n` before the list.
abbrev pub trailing_fails : ℕ → List (Option String) → ℕ
trailing_fails n [] = n
trailing_fails n (some err ∷ outcomes) = trailing_fails (n + 1) outcomes
trailing_fails n (none ∷ outcomes) = trailing_fails 0 outcomes

abbrev pub trailing_successes : ℕ → List (Option String) → ℕ
trailing_successes n [] = n
trailing_successes n (some err ∷ outcomes) = trailing_successes 0 outcomes
trailing_successes n (none ∷ outcomes) = trailing_successes (n + 1) outcomes

pub perform_check-fails :
    (err : String) (hm : HealthMonitor)
    → let next = (perform_check (some err) hm).0 in
      (next.consecutive_fails ≡ hm.consecutive_fails + 1)
      × (next.consecutive_success ≡ 0)
      × (next.currently_healthy ≡ (
          hm.currently_healthy
          && not (leb_ℤ hm.config.failure_threshold (pos (hm.consecutive_fails + 1)))))
      × (next.config ≡ hm.config)
unfolding perform_check
perform_check-fails err hm = ground arith

pub perform_check-passes :
    (hm : HealthMonitor)
    → let next = (perform_check none hm).0 in
      (next.consecutive_fails ≡ 0)
      × (next.consecutive_success ≡ hm.consecutive_success + 1)
      × (next.currently_healthy ≡ (
          hm.currently_healthy
          || leb_ℤ (success_threshold hm.config) (pos (hm.consecutive_success + 1))))
      × (next.config ≡ hm.config)
unfolding perform_check
perform_check-passes hm = ground arith

counters_from :
    (hm : HealthMonitor) (outcomes : List (Option String))
    → let last = (run_checks outcomes hm).0 in
      (last.consecutive_fails ≡ trailing_fails hm.consecutive_fails outcomes)
      × (last.consecutive_success ≡ trailing_successes hm.consecutive_success outcomes)
unfolding run_checks
counters_from hm [] = (refl, refl)
counters_from hm (some err ∷ outcomes) =
    let step = perform_check-fails err hm in
    let rest = counters_from (perform_check (some err) hm).0 outcomes in
    (
      rest.0 ∙ ap (λ n. trailing_fails n outcomes) step.0,
      rest.1 ∙ ap (λ n. trailing_successes n outcomes) step.1,
    )
counters_from hm (none ∷ outcomes) =
    let step = perform_check-passes hm in
    let rest = counters_from (perform_check none hm).0 outcomes in
    (
      rest.0 ∙ ap (λ n. trailing_fails n outcomes) step.0,
      rest.1 ∙ ap (λ n. trailing_successes n outcomes) step.1,
    )

-- After any checks, the counters of a new monitor are the failures since the last success, and the
-- successes since the last failure.
pub run_checks-counters :
    (config : HealthCheck) (outcomes : List (Option String))
    → let last = (run_checks outcomes (new_health_monitor config)).0 in
      (last.consecutive_fails ≡ trailing_fails 0 outcomes)
      × (last.consecutive_success ≡ trailing_successes 0 outcomes)
unfolding new_health_monitor
run_checks-counters config outcomes = counters_from (new_health_monitor config) outcomes

abbrev is_some : Option String → Bool
is_some none = false
is_some (some e) = true

-- A status tells whether the check succeeded. It calls the process healthy if the monitor does, or if
-- the check failed below the failure threshold; only a status that calls it unhealthy has an error.
pub perform_check-status :
    (outcome : Option String) (hm : HealthMonitor)
    → let (next, status) = perform_check outcome hm in
      (status.last_check_succeeded ≡ not (is_some outcome))
      × (status.healthy ≡ (
          next.currently_healthy
          || (is_some outcome
              && not (leb_ℤ hm.config.failure_threshold (pos next.consecutive_fails)))))
      × (status.error ≡ (if status.healthy then none else outcome))
unfolding perform_check
perform_check-status (some err) hm = ground arith
perform_check-status none hm = ground arith
