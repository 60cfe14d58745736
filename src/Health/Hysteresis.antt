-- ===== src/Health/Hysteresis.antt =====
-- When the monitor changes its mind.
use phpeek_pm.Prelude.{
  ℕ, zero, suc, ◌+◌, ◌≡◌, refl, ap, ◌∙◌, arith, Bool, true, false, not, ◌&&◌, ◌||◌, List, [], ◌∷◌,
  replicate, ℤ, pos, ◌≤ℤ◌, ◌<ℤ◌, leb_ℤ, String, Option, none, some,
}
use phpeek_pm.Health.{HealthCheck, HealthMonitor, success_threshold, perform_check, run_checks}
use phpeek_pm.Health.Counters.{perform_check-fails, perform_check-passes}

-- No run of failures reaches the threshold; `n` failures stand before the list.
abbrev pub FailsStayBelow : ℤ → ℕ → List (Option String) → Type 0
FailsStayBelow threshold n [] = Unit {0}
FailsStayBelow threshold n (some err ∷ outcomes) =
    (pos (n + 1) <ℤ threshold) × FailsStayBelow threshold (n + 1) outcomes
FailsStayBelow threshold n (none ∷ outcomes) = FailsStayBelow threshold 0 outcomes

-- No run of successes reaches the threshold.
abbrev pub SuccessesStayBelow : ℤ → ℕ → List (Option String) → Type 0
SuccessesStayBelow threshold n [] = Unit {0}
SuccessesStayBelow threshold n (some err ∷ outcomes) = SuccessesStayBelow threshold 0 outcomes
SuccessesStayBelow threshold n (none ∷ outcomes) =
    (pos (n + 1) <ℤ threshold) × SuccessesStayBelow threshold (n + 1) outcomes

leb_below : (n : ℕ) (t : ℤ) → pos n <ℤ t → leb_ℤ t (pos n) ≡ false
leb_below n t h = ground arith

leb_reached : (n : ℕ) (t : ℤ) → t ≤ℤ pos n → leb_ℤ t (pos n) ≡ true
leb_reached n t h = ground arith

-- A healthy monitor stays healthy while no run of failures reaches the failure threshold.
pub run_checks_healthy :
    (outcomes : List (Option String)) (hm : HealthMonitor)
    → hm.currently_healthy ≡ true
    → FailsStayBelow hm.config.failure_threshold hm.consecutive_fails outcomes
    → (run_checks outcomes hm).0.currently_healthy ≡ true
unfolding run_checks
run_checks_healthy [] hm ok below = ok
run_checks_healthy (some err ∷ outcomes) hm ok below =
    let step = perform_check-fails err hm in
    let next = (perform_check (some err) hm).0 in
    run_checks_healthy outcomes next
      (step.2
        ∙ rw (ok, leb_below (hm.consecutive_fails + 1) hm.config.failure_threshold below.0) refl)
      (rw (step.0, ap (λ (c : HealthCheck). c.failure_threshold) step.3) below.1)
run_checks_healthy (none ∷ outcomes) hm ok below =
    let step = perform_check-passes hm in
    let next = (perform_check none hm).0 in
    run_checks_healthy outcomes next (step.2 ∙ rw ok refl)
      (rw (step.0, ap (λ (c : HealthCheck). c.failure_threshold) step.3) below)

-- An unhealthy monitor stays unhealthy while no run of successes reaches the success threshold, which
-- is 1 where the configuration has none.
run_checks_unhealthy :
    (outcomes : List (Option String)) (hm : HealthMonitor)
    → hm.currently_healthy ≡ false
    → SuccessesStayBelow (success_threshold hm.config) hm.consecutive_success outcomes
    → (run_checks outcomes hm).0.currently_healthy ≡ false
unfolding run_checks
run_checks_unhealthy [] hm ok below = ok
run_checks_unhealthy (none ∷ outcomes) hm ok below =
    let step = perform_check-passes hm in
    let next = (perform_check none hm).0 in
    run_checks_unhealthy outcomes next
      (step.2
        ∙ rw (ok, leb_below (hm.consecutive_success + 1) (success_threshold hm.config) below.0)
            refl)
      (rw (step.1, ap success_threshold step.3) below.1)
run_checks_unhealthy (some err ∷ outcomes) hm ok below =
    let step = perform_check-fails err hm in
    let next = (perform_check (some err) hm).0 in
    run_checks_unhealthy outcomes next (step.2 ∙ rw ok refl)
      (rw (step.1, ap success_threshold step.3) below)

-- Enough failures in a row make any monitor unhealthy.
run_checks_fail :
    (n : ℕ) (err : String) (hm : HealthMonitor)
    → hm.config.failure_threshold ≤ℤ pos (hm.consecutive_fails + suc n)
    → (run_checks (replicate (suc n) (some err)) hm).0.currently_healthy ≡ false
unfolding run_checks
run_checks_fail zero err hm h =
    (perform_check-fails err hm).2
    ∙ rw (leb_reached (hm.consecutive_fails + 1) hm.config.failure_threshold h)
        (and_false hm.currently_healthy)
  where
    and_false : (b : Bool) → (b && not true) ≡ false
    and_false true = refl
    and_false false = refl
run_checks_fail (suc n) err hm h =
    let step = perform_check-fails err hm in
    run_checks_fail n err (perform_check (some err) hm).0
      (rw (step.0, ap (λ (c : HealthCheck). c.failure_threshold) step.3) (omega (arith, h)))

-- Enough successes in a row make any monitor healthy again.
run_checks_recover :
    (n : ℕ) (hm : HealthMonitor)
    → success_threshold hm.config ≤ℤ pos (hm.consecutive_success + suc n)
    → (run_checks (replicate (suc n) none) hm).0.currently_healthy ≡ true
unfolding run_checks
run_checks_recover zero hm h =
    (perform_check-passes hm).2
    ∙ rw (leb_reached (hm.consecutive_success + 1) (success_threshold hm.config) h)
        (or_true hm.currently_healthy)
  where
    or_true : (b : Bool) → (b || true) ≡ true
    or_true true = refl
    or_true false = refl
run_checks_recover (suc n) hm h =
    let step = perform_check-passes hm in
    run_checks_recover n (perform_check none hm).0
      (rw (step.1, ap success_threshold step.3) (omega (arith, h)))

-- Let both thresholds be above one, and an unhealthy process have no run of successes. After one success
-- and one failure the status calls it healthy again, while the monitor does not.
pub perform_check_flaps :
    (err : String) (hm : HealthMonitor)
    → hm.currently_healthy ≡ false
    → hm.consecutive_success ≡ 0
    → pos 1 <ℤ hm.config.failure_threshold
    → pos 1 <ℤ hm.config.success_threshold
    → let (passed, _) = perform_check none hm in
      let (last, status) = perform_check (some err) passed in
      (last.currently_healthy ≡ false) × (status.healthy ≡ true)
unfolding perform_check
perform_check_flaps err hm was zero_run fails successes = ground arith
