-- ===== src/Restart.antt =====
-- internal/process/restart.go: the restart policies, and the exponential backoff between restarts.
-- A `time.Duration` is an int64 count of nanoseconds; the product in calculateBackoff wraps.
mod Tests
pub mod Backoff
pub mod Attempts
use phpeek_pm.Prelude.{
  ℕ, zero, suc, ◌+◌, ◌*◌, ◌^◌, ◌≡◌, Bool, true, false, List, [], ◌∷◌, if◌then◌else◌, ℤ, pos, leb_ℤ,
  ltb_ℤ, pos_part, wrap_int64, ltb, String, str_eq, ◌&&◌,
}

abbrev pub second : ℕ
second = 1000000000

-- The fields that AlwaysRestartPolicy and OnFailureRestartPolicy share.
pub record Limits : Type 0 where
  pub max_attempts : ℤ
  pub initial_backoff : ℤ
  pub max_backoff : ℤ

-- The implementations of the interface RestartPolicy.
pub data RestartPolicy : Type 0 where
  always : Limits → RestartPolicy
  on_failure : Limits → RestartPolicy
  never : RestartPolicy

unfoldable pub new_restart_policy : String → ℤ → ℤ → ℤ → RestartPolicy
new_restart_policy policy_type max_attempts initial max =
    let limits : Limits = record {
      max_attempts = max_attempts;
      initial_backoff = initial;
      max_backoff = max;
    } in
    if str_eq policy_type "always"
    then always limits
    else (if str_eq policy_type "on-failure" then on_failure limits else never)

-- The test that ends both ShouldRestart methods.
below_limit : Limits → ℤ → Bool
below_limit p restart_count =
    if leb_ℤ p.max_attempts (pos 0) then true else ltb_ℤ restart_count p.max_attempts

abbrev pub is_zero : ℤ → Bool
is_zero (pos zero) = true
is_zero _ = false

unfoldable pub should_restart : RestartPolicy → ℤ → ℤ → Bool
unfolding below_limit
should_restart (always p) exit_code restart_count = below_limit p restart_count
should_restart (on_failure p) exit_code restart_count =
    if is_zero exit_code then false else below_limit p restart_count
should_restart never exit_code restart_count = false

abbrev max_shift : ℕ
max_shift = 62

-- `if restartCount < 0 { 0 }`, then `if restartCount > maxShift { maxShift }`.
unfoldable pub clamp_shift : ℤ → ℕ
clamp_shift restart_count =
    let n = pos_part restart_count in if ltb max_shift n then max_shift else n

-- `initial <= 0` becomes one second.
unfoldable pub initial_delay : ℤ → ℕ
initial_delay initial = if leb_ℤ initial (pos 0) then second else pos_part initial

-- `if max > 0 && delay > max { return max }`
unfoldable pub cap_delay : ℤ → ℤ → ℤ
cap_delay max delay = if ltb_ℤ (pos 0) max && ltb_ℤ max delay then max else delay

unfoldable pub calculate_backoff : ℤ → ℤ → ℤ → ℤ
calculate_backoff initial max restart_count =
    cap_delay max (wrap_int64 (initial_delay initial * 2 ^ clamp_shift restart_count))

unfoldable pub backoff_duration : RestartPolicy → ℤ → ℤ
backoff_duration (always p) restart_count =
    calculate_backoff p.initial_backoff p.max_backoff restart_count
backoff_duration (on_failure p) restart_count =
    calculate_backoff p.initial_backoff p.max_backoff restart_count
backoff_duration never restart_count = pos 0

-- internal/process/supervisor.go, monitorInstance and attemptRestart of a longrun process: each exit
-- asks the policy, and a restart that succeeds carries the count on by one, where the new process does
-- not exit before its count is set. The list holds the exit codes of the successive runs; the result
-- counts the restarts.
unfoldable pub restarts : RestartPolicy → ℕ → List ℤ → ℕ
restarts policy count [] = 0
restarts policy count (exit_code ∷ exits) =
    let rest = restarts policy (suc count) exits in
    if should_restart policy exit_code (pos count) then suc rest else 0
