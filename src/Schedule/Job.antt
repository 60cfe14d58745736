-- ===== src/Schedule/Job.antt =====
-- internal/schedule/job.go: the state machine of a scheduled job. The executor is outside of the
-- model: the exit code and the error that it returns are arguments. Each critical section of the
-- job's mutex is one function; executionMu admits one execution at a time (Steps).
mod Tests
pub mod Steps
pub mod Transitions
pub mod Sync
use phpeek_pm.Prelude.{
  ℕ, zero, suc, ◌≡◌, Bool, true, false, ◌&&◌, if◌then◌else◌, ℤ, pos, negsuc, ◌==◌, String, Option,
  none, some,
}
use phpeek_pm.Schedule.History.{
  ExecutionHistory, HistoryStats, Percentage, new_execution_history, start_execution, end_execution,
  stats,
}

pub data JobState : Type 0 where
  idle executing paused : JobState

pub JobState-discrete : Discrete JobState
JobState-discrete = hlevel

-- JobState.String()
unfoldable pub state_string : JobState → String
state_string idle = "idle"
state_string executing = "executing"
state_string paused = "paused"

pub record JobOptions : Type 0 where
  pub timeout : ℤ
  pub max_concurrent : ℤ

pub record ScheduledJob : Type 0 where
  pub name : String
  pub schedule : String
  pub timezone : String
  pub state : JobState
  pub history : ExecutionHistory
  pub last_run : ℕ
  pub next_run : ℕ
  pub current_exec_id : ℕ
  pub timeout : ℤ
  pub max_concurrent : ℤ
  pub cron_id : ℕ

pub data JobError : Type 0 where
  invalid_schedule already_executing is_paused not_paused cannot_pause cannot_trigger : JobError

-- `parses` says whether the cron library's parser takes an expression.
unfoldable pub new_scheduled_job :
    (String → Bool) → String → String → String → ℤ → JobOptions → Option ScheduledJob
new_scheduled_job parses name expr timezone history_size opts =
    if parses expr
    then some record {
      name = name;
      schedule = expr;
      timezone = timezone;
      state = idle;
      history = new_execution_history history_size;
      last_run = 0;
      next_run = 0;
      current_exec_id = 0;
      timeout = opts.timeout;
      max_concurrent = opts.max_concurrent;
      cron_id = 0;
    }
    else none

unfoldable pub set_cron_id : ℕ → ScheduledJob → ScheduledJob
set_cron_id id j = record j { cron_id = id }

unfoldable pub update_next_run : ℕ → ScheduledJob → ScheduledJob
update_next_run t j = record j { next_run = t }

pause_from : JobState → ScheduledJob → ScheduledJob × Option JobError
pause_from executing j = (j, some cannot_pause)
pause_from paused j = (j, none)
pause_from idle j = (record j { state = paused }, none)

unfoldable pub pause : ScheduledJob → ScheduledJob × Option JobError
unfolding pause_from
pause j = pause_from j.state j

resume_from : JobState → ScheduledJob → ScheduledJob × Option JobError
resume_from paused j = (record j { state = idle }, none)
resume_from _ j = (j, some not_paused)

unfoldable pub resume : ScheduledJob → ScheduledJob × Option JobError
unfolding resume_from
resume j = resume_from j.state j

-- CanExecute, IsPaused and IsExecuting.
unfoldable pub can_execute : JobState → Bool
can_execute idle = true
can_execute _ = false

-- The checks of Trigger and TriggerSync, on a state that was read before.
unfoldable pub trigger_check : JobState → Option JobError
trigger_check paused = some cannot_trigger
trigger_check executing = some already_executing
trigger_check idle = none

-- The first critical section of executeSync: `none` beside an error, else the execution's id.
begin_from : JobState → ℕ → String → ScheduledJob → ScheduledJob × Option ℕ × Option JobError
begin_from paused now triggered j = (j, none, some is_paused)
begin_from executing now triggered j = (j, none, some already_executing)
begin_from idle now triggered j =
    let (history, id) = start_execution now triggered j.history in
    (
      record j { state = executing; last_run = now; history = history; current_exec_id = id },
      some id,
      none,
    )

unfoldable pub begin_execution :
    ℕ → String → ScheduledJob → ScheduledJob × Option ℕ × Option JobError
unfolding begin_from
begin_execution now triggered j = begin_from j.state now triggered j

-- What Execute returns: `execErr` is its message, where there is one.
pub record Outcome : Type 0 where
  pub exit_code : ℤ
  pub exec_err : Option String

is_zero : ℤ → Bool
is_zero (pos zero) = true
is_zero _ = false

unfoldable pub succeeded : Outcome → Bool
unfolding is_zero
succeeded o = elim o.exec_err [ none ↦ is_zero o.exit_code | some message ↦ false ]

unfoldable pub err_msg : Outcome → String
err_msg o = elim o.exec_err [ none ↦ "" | some message ↦ message ]

-- The second critical section: back to idle.
unfoldable pub back_to_idle : ScheduledJob → ScheduledJob
back_to_idle j = record j { state = idle; current_exec_id = 0 }

-- The history's own critical section, after it.
unfoldable pub record_result : ℕ → ℕ → Outcome → ScheduledJob → ScheduledJob
record_result now id o j =
    let history = end_execution now id o.exit_code (succeeded o) (err_msg o) j.history in
    record j { history = history }

execute_from :
    ℕ → Outcome → ScheduledJob → Option ℕ → Option JobError → ScheduledJob × ℤ × Option JobError
execute_from finished o j none err = (j, negsuc 0, err)
execute_from finished o j (some id) err =
    (record_result finished id o (back_to_idle j), o.exit_code, err)

-- executeSync with no other call in between: begun at one time, finished at another. On refusal the
-- executor is not asked, and the exit code is -1.
unfoldable pub execute_sync :
    ℕ → ℕ → String → Outcome → ScheduledJob → ScheduledJob × ℤ × Option JobError
unfolding execute_from
execute_sync now finished triggered o j =
    let (j', id, err) = begin_execution now triggered j in execute_from finished o j' id err

pub record JobStatus : Type 0 where
  pub name : String
  pub schedule : String
  pub timezone : String
  pub state : String
  pub last_run : ℕ
  pub next_run : ℕ
  pub current_exec_id : ℕ
  pub stats : HistoryStats × Percentage × ℤ

unfoldable pub status : ScheduledJob → JobStatus
status j = record {
  name = j.name;
  schedule = j.schedule;
  timezone = j.timezone;
  state = state_string j.state;
  last_run = j.last_run;
  next_run = j.next_run;
  current_exec_id = j.current_exec_id;
  stats = stats j.history;
}
