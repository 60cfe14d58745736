-- ===== src/Restart/Tests.antt =====
-- The restart policies at concrete inputs.
use phpeek_pm.Prelude.{
  inl, ◌*◌, ◌^◌, ◌≡◌, refl, arith, ℤ, pos, negsuc, ◌≤ℤ◌, min, pos_part, List, [], ◌∷◌, length,
}
use phpeek_pm.Restart.{
  second, Limits, always, on_failure, never, new_restart_policy, should_restart, clamp_shift,
  initial_delay, cap_delay, calculate_backoff, backoff_duration, restarts,
}
use phpeek_pm.Restart.Backoff.{
  calculate_backoff_exact, calculate_backoff-le-max, calculate_backoff_vanishes,
}
use phpeek_pm.Restart.Attempts.{restarts_unlimited}

runs : Unit {0}
unfolding new_restart_policy should_restart clamp_shift initial_delay cap_delay calculate_backoff
    backoff_duration restarts
runs = tt

abbrev limits : Limits
limits = record {
  max_attempts = pos 3;
  initial_backoff = pos (5 * second);
  max_backoff = pos (60 * second);
}

abbrev exits : List ℤ
exits = pos 1 ∷ negsuc 0 ∷ pos 0 ∷ pos 1 ∷ []

parsed :
    (new_restart_policy "on-failure" (pos 3) (pos (5 * second)) (pos (60 * second))
      ≡ on_failure limits)
    × (new_restart_policy "unless-stopped" (pos 3) (pos 1) (pos 1) ≡ never)
unfolding runs
parsed = (refl, refl)

delays :
    (backoff_duration (always limits) (pos 0) ≡ pos (5 * second))
    × (backoff_duration (always limits) (pos 3) ≡ pos (40 * second))
    × (backoff_duration (on_failure limits) (pos 4) ≡ pos (60 * second))
    × (backoff_duration never (pos 4) ≡ pos 0)
unfolding runs
delays = (refl, refl, refl, refl)

-- The 31st restart after a backoff of five seconds: the product is negative.
delay_negative : backoff_duration (always limits) (pos 31) ≡ negsuc (7709325833709551615)
unfolding runs
delay_negative = refl

calculate_backoff_exact_example :
    calculate_backoff (pos 7) (pos 30) (pos 2) ≡ pos (min (7 * 2 ^ 2) (pos_part (pos 30)))
calculate_backoff_exact_example =
    calculate_backoff_exact (pos 7) (pos 30) 7 2 (inl (refl, omega arith)) (omega arith)
      (omega arith)

calculate_backoff-le-max_example :
    calculate_backoff (pos (5 * second)) (pos (60 * second)) (pos 31) ≤ℤ pos (60 * second)
calculate_backoff-le-max_example =
    calculate_backoff-le-max (pos (5 * second)) (pos (60 * second)) (pos 31) (omega arith)

calculate_backoff_vanishes_example :
    calculate_backoff (pos (5 * second)) (pos (60 * second)) (pos 55) ≡ pos 0
calculate_backoff_vanishes_example =
    calculate_backoff_vanishes 5 (pos (60 * second)) 55 (omega arith)

abbrev unlimited : Limits
unlimited = record limits { max_attempts = pos 0 }

restarts_unlimited_example : restarts (always unlimited) 7 exits ≡ length exits
restarts_unlimited_example = restarts_unlimited unlimited 7 exits (omega arith)
