-- ===== src/Restart/Attempts.antt =====
-- How often a process is restarted over a sequence of exits.
use phpeek_pm.Prelude.{
  ℕ, suc, ◌-◌, ◌≡◌, refl, arith, ℤ, pos, ◌≤ℤ◌, List, [], ◌∷◌, min, length, if◌then◌else◌,
}
use phpeek_pm.Restart.{always, on_failure, Limits, should_restart, restarts, is_zero}

restarts_always_from :
    (p : Limits) (a : ℕ) (count : ℕ) (exits : List ℤ)
    → p.max_attempts ≡ pos (suc a)
    → restarts (always p) count exits ≡ min (length exits) (suc a - count)
unfolding restarts should_restart
restarts_always_from p a count [] e = omega arith
restarts_always_from p a count (x ∷ exits) e =
    ground (arith, restarts_always_from p a (suc count) exits e)

-- With a positive limit the policy "always" restarts after every exit until the limit is reached,
-- and never after that.
restarts_always :
    (p : Limits) (a : ℕ) (exits : List ℤ)
    → p.max_attempts ≡ pos (suc a)
    → restarts (always p) 0 exits ≡ min (length exits) (suc a)
restarts_always p a exits e = omega (arith, restarts_always_from p a 0 exits e)

-- With a limit of zero or less it restarts after every exit.
pub restarts_unlimited :
    (p : Limits) (count : ℕ) (exits : List ℤ)
    → p.max_attempts ≤ℤ pos 0
    → restarts (always p) count exits ≡ length exits
unfolding restarts should_restart
restarts_unlimited p count [] h = refl
restarts_unlimited p count (x ∷ exits) h = ground (arith, restarts_unlimited p (suc count) exits h)

-- The exits before the first clean one.
abbrev pub until_clean : List ℤ → List ℤ
until_clean [] = []
until_clean (x ∷ exits) = if is_zero x then [] else x ∷ until_clean exits

-- The policy "on-failure" restarts as "always" does up to the first exit with code zero, and never
-- after it.
restarts_on_failure :
    (p : Limits) (count : ℕ) (exits : List ℤ)
    → restarts (on_failure p) count exits ≡ restarts (always p) count (until_clean exits)
unfolding restarts should_restart
restarts_on_failure p count [] = refl
restarts_on_failure p count (x ∷ exits) = ground (arith, restarts_on_failure p (suc count) exits)
