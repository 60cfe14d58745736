-- ===== src/Schedule/Job/Transitions.antt =====
-- The documented diagram of a job's states.
use phpeek_pm.Prelude.{ℕ, ◌≡◌, refl, subst, sym, some, arith, String}
use phpeek_pm.Schedule.Job.{
  JobState, idle, executing, paused, ScheduledJob, pause, resume, begin_execution, begin_from,
  back_to_idle, record_result, Outcome,
}
use phpeek_pm.Schedule.Job.Steps.{
  System, Step, pause_job, resume_job, begin, executed, recorded, Agrees,
}

infix 40 ◌⟶◌
pub data ◌⟶◌ : JobState → JobState → Type 0 where
  stay : {s : JobState} → s ⟶ s
  trigger : idle ⟶ executing
  complete : executing ⟶ idle
  hold : idle ⟶ paused
  release : paused ⟶ idle

pause-⟶ : (j : ScheduledJob) → j.state ⟶ (pause j).0.state
unfolding pause
pause-⟶ j = grind (arith, stay, hold)

resume-⟶ : (j : ScheduledJob) → j.state ⟶ (resume j).0.state
unfolding resume
resume-⟶ j = grind (arith, stay, release)

begin_from-⟶ :
    (state : JobState) (now : ℕ) (triggered : String) (j : ScheduledJob) (id : ℕ)
    → (begin_from state now triggered j).1 ≡ some id
    → state ⟶ (begin_from state now triggered j).0.state
unfolding begin_from
begin_from-⟶ idle now triggered j id h = trigger
begin_from-⟶ executing now triggered j id h = cc
begin_from-⟶ paused now triggered j id h = cc

begin_execution-⟶ :
    (now : ℕ) (triggered : String) (j : ScheduledJob) (id : ℕ)
    → (begin_execution now triggered j).1 ≡ some id
    → j.state ⟶ (begin_execution now triggered j).0.state
unfolding begin_execution
begin_execution-⟶ now triggered j id h = begin_from-⟶ j.state now triggered j id h

back_to_idle-⟶ : (j : ScheduledJob) → j.state ≡ executing → j.state ⟶ (back_to_idle j).state
unfolding back_to_idle
back_to_idle-⟶ j e = subst (λ s. s ⟶ idle) (sym e) complete

record_result-state :
    (now id : ℕ) (o : Outcome) (j : ScheduledJob) → (record_result now id o j).state ≡ j.state
unfolding record_result
record_result-state now id o j = refl

-- Every step from a state that agrees with its phase follows the diagram or stays: an executing job
-- goes to idle before it can be paused, and a paused job runs only after it was resumed.
Step-⟶ : {s t : System} → Step s t → Agrees s.phase s.job → s.job.state ⟶ t.job.state
Step-⟶ {s} (pause_job e) a = subst (λ u. s.job.state ⟶ u.job.state) (sym e) (pause-⟶ s.job)
Step-⟶ {s} (resume_job e) a = subst (λ u. s.job.state ⟶ u.job.state) (sym e) (resume-⟶ s.job)
Step-⟶ {s} (begin now triggered id p b e) a =
    subst (λ u. s.job.state ⟶ u.job.state) (sym e) (begin_execution-⟶ now triggered s.job id b)
Step-⟶ {s} (executed id o p e) a =
    let runs = subst (λ q. Agrees q s.job) p a in
    subst (λ u. s.job.state ⟶ u.job.state) (sym e) (back_to_idle-⟶ s.job runs.0)
Step-⟶ {s} (recorded now id o pos p e) a =
    subst (λ u. s.job.state ⟶ u.job.state) (sym e)
      (subst (λ q. s.job.state ⟶ q) (sym (record_result-state now id o s.job)) stay)
