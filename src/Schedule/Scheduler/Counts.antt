-- ===== src/Schedule/Scheduler/Counts.antt =====
-- SchedulerStats, by an independent count of the jobs in a state.
use phpeek_pm.Prelude.{ℕ, suc, ◌+◌, ◌≡◌, arith, String, List, [], ◌∷◌, length}
use phpeek_pm.Schedule.Job.{JobState, idle, executing, paused, JobState-discrete, ScheduledJob}
use mathlib.Core.Logic.{ite}
use phpeek_pm.Schedule.Scheduler.{
  Cron, Scheduler, SchedulerStats, count_jobs, count_state, scheduler_stats,
}

-- How many of the jobs are in a state.
abbrev pub in_state : JobState → List (String × ScheduledJob) → ℕ
in_state state [] = 0
in_state state ((name, job) ∷ jobs) =
    let rest = in_state state jobs in ite (JobState-discrete job.state state) (suc rest) rest

count_jobs_lem :
    (jobs : List (String × ScheduledJob)) (t : SchedulerStats)
    → let u = count_jobs jobs t in
      (u.total_jobs ≡ t.total_jobs)
      × (u.idle_jobs ≡ t.idle_jobs + in_state idle jobs)
      × (u.executing_jobs ≡ t.executing_jobs + in_state executing jobs)
      × (u.paused_jobs ≡ t.paused_jobs + in_state paused jobs)
      × (u.is_started ≡ t.is_started)
      × (in_state idle jobs + in_state executing jobs + in_state paused jobs ≡ length jobs)
unfolding count_jobs
count_jobs_lem [] t = ground arith
count_jobs_lem ((name, job) ∷ jobs) t =
    ground (arith, count_jobs_lem jobs (count_state job.state t))

-- Stats counts each job once, under the state that it is in.
pub scheduler_stats_lem :
    (c : Cron) (s : Scheduler c)
    → let t = scheduler_stats c s in
      (t.total_jobs ≡ length s.jobs)
      × (t.idle_jobs ≡ in_state idle s.jobs)
      × (t.executing_jobs ≡ in_state executing s.jobs)
      × (t.paused_jobs ≡ in_state paused s.jobs)
      × (t.idle_jobs + t.executing_jobs + t.paused_jobs ≡ t.total_jobs)
unfolding scheduler_stats
scheduler_stats_lem c s = ground (
  arith,
  count_jobs_lem s.jobs record {
    total_jobs = length s.jobs;
    idle_jobs = 0;
    executing_jobs = 0;
    paused_jobs = 0;
    is_started = s.started;
  },
)
