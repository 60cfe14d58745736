-- ===== src/Schedule/Scheduler.antt =====
-- internal/schedule/scheduler.go: the scheduler's map of jobs beside the cron library's entries. The
-- cron library is a parameter; the scheduler's lock makes each method one step.
mod Tests
pub mod Jobs
pub mod Linked
pub mod Counts
use phpeek_pm.Prelude.{
  ℕ, zero, suc, ◌+◌, ◌≡◌, ◌≢◌, Bool, true, false, if◌then◌else◌, List, [], ◌∷◌, ℤ, pos, negsuc,
  leb_ℤ, String, Option, none, some, lookup, insert, delete, length,
}
use phpeek_pm.Schedule.History.{ExecutionEntry, get_all, get_recent}
use phpeek_pm.Schedule.Job.{
  JobState, idle, executing, paused, ScheduledJob, JobOptions, JobError, JobStatus, Outcome,
  new_scheduled_job, set_cron_id, update_next_run, pause, resume, trigger_check, execute_sync,
  status,
}

-- What the scheduler uses of robfig/cron: `add` is AddJob (`none` where it fails), `entry` is the
-- Next of Entry(id) where that entry is valid.
pub record Cron : Type 1 where
  pub State : Type 0
  pub add : String → State → Option (State × ℕ)
  pub remove : ℕ → State → State
  pub entry : ℕ → State → Option ℕ
  pub start : State → State
  pub stop : State → State

-- Its documented behaviour: a new entry has an id that no entry had, and the operations leave the
-- other entries in place.
pub record CronLaws (c : Cron) : Type 0 where
  pub add_fresh :
      (expr : String) (s s' : c.State) (id : ℕ)
      → c.add expr s ≡ some (s', id)
      → (c.entry id s ≡ none) × (c.entry id s' ≢ none)
  pub add_keeps :
      (expr : String) (s s' : c.State) (id k : ℕ)
      → c.add expr s ≡ some (s', id)
      → c.entry k s ≢ none
      → c.entry k s' ≢ none
  pub remove_gone : (id : ℕ) (s : c.State) → c.entry id (c.remove id s) ≡ none
  pub remove_keeps :
      (id k : ℕ) (s : c.State) → id ≢ k → c.entry k s ≢ none → c.entry k (c.remove id s) ≢ none

pub record Scheduler (c : Cron) : Type 0 where
  pub cron : c.State
  pub jobs : List (String × ScheduledJob)
  pub history_size : ℤ
  pub started : Bool

pub data SchedulerError : Type 0 where
  already_exists not_found job_failed cron_failed : SchedulerError
  job_error : JobError → SchedulerError

abbrev pub of_job : Option JobError → Option SchedulerError
of_job none = none
of_job (some e) = some (job_error e)

module _ (c : Cron) where
  unfoldable pub new_scheduler : c.State → ℤ → Scheduler c
  new_scheduler cron history_size = record {
    cron = cron;
    jobs = [];
    history_size = history_size;
    started = false;
  }

  -- `if entry := s.cron.Entry(job.GetCronID()); entry.ID != 0 { job.UpdateNextRun(entry.Next) }`
  unfoldable pub refresh : c.State → ScheduledJob → ScheduledJob
  refresh cron job = elim (c.entry job.cron_id cron) [
    | none ↦ job
    | some next ↦ update_next_run next job
  ]

  -- From the job and what the cron library's AddJob returned.
  unfoldable pub add_entry :
      String
      → ScheduledJob
      → Option (c.State × ℕ)
      → Scheduler c
      → Scheduler c × Option SchedulerError
  add_entry name job none s = (s, some cron_failed)
  add_entry name job (some (cron, id)) s =
      let job' = refresh cron (set_cron_id id job) in
      (record s { cron = cron; jobs = insert name job' s.jobs }, none)

  -- From what NewScheduledJobWithOptions returned.
  unfoldable pub add_parsed :
      String → String → Option ScheduledJob → Scheduler c → Scheduler c × Option SchedulerError
  add_parsed name expr none s = (s, some job_failed)
  add_parsed name expr (some job) s = add_entry name job (c.add expr s.cron) s

  unfoldable pub add_job_with_options :
      (String → Bool)
      → String
      → String
      → String
      → JobOptions
      → Scheduler c
      → Scheduler c × Option SchedulerError
  add_job_with_options parses name expr timezone opts s = elim (lookup name s.jobs) [
    | some job ↦ (s, some already_exists)
    | none ↦
        add_parsed name expr (new_scheduled_job parses name expr timezone s.history_size opts) s
  ]

  abbrev pub remove_found :
      String → Option ScheduledJob → Scheduler c → Scheduler c × Option SchedulerError
  remove_found name none s = (s, some not_found)
  remove_found name (some job) s =
      (record s { cron = c.remove job.cron_id s.cron; jobs = delete name s.jobs }, none)

  unfoldable pub remove_job : String → Scheduler c → Scheduler c × Option SchedulerError
  remove_job name s = remove_found name (lookup name s.jobs) s

  -- The loop over all jobs of Start, GetAllJobStatuses and UpdateNextRunTimes.
  unfoldable pub refresh_all : c.State → List (String × ScheduledJob) → List (String × ScheduledJob)
  refresh_all cron [] = []
  refresh_all cron ((name, job) ∷ jobs) = (name, refresh cron job) ∷ refresh_all cron jobs

  unfoldable pub start : Scheduler c → Scheduler c
  start s =
      let cron = c.start s.cron in
      if s.started
      then s
      else record s { cron = cron; started = true; jobs = refresh_all cron s.jobs }

  unfoldable pub stop : Scheduler c → Scheduler c
  stop s = if s.started then record s { started = false; cron = c.stop s.cron } else s

  unfoldable pub update_next_run_times : Scheduler c → Scheduler c
  update_next_run_times s = record s { jobs = refresh_all s.cron s.jobs }

  -- A method of the job, through the pointer that the map holds.
  abbrev pub with_job :
      String
      → Option ScheduledJob
      → (ScheduledJob → ScheduledJob × Option JobError)
      → Scheduler c
      → Scheduler c × Option SchedulerError
  with_job name none f s = (s, some not_found)
  with_job name (some job) f s =
      let (job', err) = f job in (record s { jobs = insert name job' s.jobs }, of_job err)

  unfoldable pub pause_job : String → Scheduler c → Scheduler c × Option SchedulerError
  pause_job name s = with_job name (lookup name s.jobs) pause s

  unfoldable pub resume_job : String → Scheduler c → Scheduler c × Option SchedulerError
  resume_job name s = with_job name (lookup name s.jobs) resume s

  -- TriggerJob's checks; the execution runs in a goroutine of its own (Job.Steps).
  unfoldable pub trigger_job : String → Scheduler c → Option SchedulerError
  trigger_job name s = elim (lookup name s.jobs) [
    | none ↦ some not_found
    | some job ↦ of_job (trigger_check job.state)
  ]

  -- TriggerJobSync, with no other call between its check and its execution.
  trigger_sync :
      ℕ → ℕ → Outcome → Option JobError → ScheduledJob → ScheduledJob × ℤ × Option JobError
  trigger_sync now finished o (some e) job = (job, negsuc 0, some e)
  trigger_sync now finished o none job = execute_sync now finished "manual" o job

  trigger_found :
      ℕ
      → ℕ
      → Outcome
      → String
      → Option ScheduledJob
      → Scheduler c
      → Scheduler c × ℤ × Option SchedulerError
  trigger_found now finished o name none s = (s, negsuc 0, some not_found)
  trigger_found now finished o name (some job) s =
      let (job', code, err) = trigger_sync now finished o (trigger_check job.state) job in
      (record s { jobs = insert name job' s.jobs }, code, of_job err)

  unfoldable pub trigger_job_sync :
      ℕ → ℕ → Outcome → String → Scheduler c → Scheduler c × ℤ × Option SchedulerError
  unfolding trigger_found trigger_sync
  trigger_job_sync now finished o name s = trigger_found now finished o name (lookup name s.jobs) s

  unfoldable pub get_job_status : String → Scheduler c → Scheduler c × Option JobStatus
  get_job_status name s = elim (lookup name s.jobs) [
    | none ↦ (s, none)
    | some job ↦
        let job' = refresh s.cron job in
        (record s { jobs = insert name job' s.jobs }, some (status job'))
  ]

  unfoldable pub get_job_history : String → ℤ → Scheduler c → Option (List ExecutionEntry)
  get_job_history name limit s = elim (lookup name s.jobs) [
    | none ↦ none
    | some job ↦
        some (if leb_ℤ limit (pos 0) then get_all job.history else get_recent limit job.history)
  ]

-- SchedulerStats
pub record SchedulerStats : Type 0 where
  pub total_jobs : ℕ
  pub idle_jobs : ℕ
  pub executing_jobs : ℕ
  pub paused_jobs : ℕ
  pub is_started : Bool

abbrev count_state : JobState → SchedulerStats → SchedulerStats
count_state idle t = record t { idle_jobs = t.idle_jobs + 1 }
count_state executing t = record t { executing_jobs = t.executing_jobs + 1 }
count_state paused t = record t { paused_jobs = t.paused_jobs + 1 }

unfoldable pub count_jobs : List (String × ScheduledJob) → SchedulerStats → SchedulerStats
count_jobs [] t = t
count_jobs ((name, job) ∷ jobs) t = count_jobs jobs (count_state job.state t)

module _ (c : Cron) where
  unfoldable pub scheduler_stats : Scheduler c → SchedulerStats
  scheduler_stats s = count_jobs s.jobs record {
    total_jobs = length s.jobs;
    idle_jobs = 0;
    executing_jobs = 0;
    paused_jobs = 0;
    is_started = s.started;
  }
