-- ===== src/Schedule/Job/Tests.antt =====
-- A scheduled job at concrete inputs.
use phpeek_pm.Prelude.{◌≡◌, refl, pos, some, true}
use phpeek_pm.Schedule.History.{new_execution_history, start_execution}
use phpeek_pm.Schedule.Job.{
  idle, paused, state_string, ScheduledJob, JobOptions, cannot_pause, not_paused, new_scheduled_job,
  set_cron_id, update_next_run, pause, resume, can_execute, trigger_check, begin_execution, Outcome,
  succeeded, err_msg, back_to_idle, record_result, execute_sync, status,
}
use phpeek_pm.Schedule.Job.Steps.{
  System, Step, here, next, begin, running, Agrees, fresh, new_scheduled_job-Agrees,
}

runs : Unit {0}
unfolding state_string new_scheduled_job set_cron_id update_next_run pause resume can_execute
    trigger_check begin_execution succeeded err_msg back_to_idle record_result execute_sync status
    new_execution_history start_execution
runs = tt

abbrev options : JobOptions
options = record { timeout = pos 0; max_concurrent = pos 0 }

abbrev job : ScheduledJob
job = record {
  name = "backup";
  schedule = "@daily";
  timezone = "";
  state = idle;
  history = new_execution_history (pos 2);
  last_run = 0;
  next_run = 0;
  current_exec_id = 0;
  timeout = pos 0;
  max_concurrent = pos 0;
  cron_id = 0;
}

job-made : new_scheduled_job (λ e. true) "backup" "@daily" "" (pos 2) options ≡ some job
unfolding runs
job-made = refl

abbrev begun : ScheduledJob
begun = (begin_execution 10 "manual" job).0

refused :
    ((pause begun).1 ≡ some cannot_pause)
    × ((resume job).1 ≡ some not_paused)
    × ((pause job).0.state ≡ paused)
unfolding runs
refused = (refl, refl, refl)

abbrev begun_system : System
begun_system = record { job = begun; phase = running 1 }

begin_step : Step (fresh job) begun_system
unfolding runs
begin_step = begin 10 "manual" 1 refl refl refl

new_scheduled_job-Agrees_example : Agrees (running 1) begun
new_scheduled_job-Agrees_example =
    new_scheduled_job-Agrees (λ e. true) "backup" "@daily" "" (pos 2) options job-made
      (next here begin_step)

abbrev failed : Outcome
failed = record { exit_code = pos 3; exec_err = some "exit status 3" }
