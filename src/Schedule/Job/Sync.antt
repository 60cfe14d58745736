-- ===== src/Schedule/Job/Sync.antt =====
-- executeSync as a whole.
use phpeek_pm.Prelude.{
  ℕ, ◌≡◌, ◌≢◌, refl, ap, ◌∙◌, some, none, String, Option, ℤ, negsuc, Bool, ==_iff,
}
use phpeek_pm.Schedule.History.{
  ExecutionHistory, started, finish, get_by_id, start_execution, end_execution,
}
use phpeek_pm.Schedule.History.Ids.{get_by_id-start_execution, get_by_id-end_execution, after_end}
use phpeek_pm.Schedule.Job.{
  JobState, idle, executing, paused, ScheduledJob, JobError, begin_execution, begin_from, Outcome,
  succeeded, err_msg, execute_sync, execute_from, back_to_idle, record_result,
}

-- The execution that started last, once it has ended.
end-start :
    (now finished : ℕ) (triggered : String) (exit_code : ℤ) (success : Bool) (error : String)
    (h : ExecutionHistory)
    → let (h', id) = start_execution now triggered h in
      get_by_id id (end_execution finished id exit_code success error h')
      ≡ some (finish finished exit_code success error (started now triggered h))
end-start now finished triggered exit_code success error h =
    let (h', id) = start_execution now triggered h in
    get_by_id-end_execution finished exit_code success error id id h'
    ∙ ap (after_end finished exit_code success error id id)
        (get_by_id-start_execution now triggered h)
    ∙ rw ((==_iff id id).1 refl)

abbrev pub Returned : Type 0
Returned = ScheduledJob × ℤ × Option JobError

module _ (now finished : ℕ) (triggered : String) (o : Outcome) (j : ScheduledJob) where
  -- The job ran: idle again, and the finished execution is in the history under its id.
  abbrev pub Ran : Returned → Type 0
  Ran (j', code, err) =
      (j'.state ≡ idle)
      × (j'.current_exec_id ≡ 0)
      × (j'.last_run ≡ now)
      × (code ≡ o.exit_code)
      × (err ≡ none)
      × (get_by_id (start_execution now triggered j.history).1 j'.history
          ≡ some (
              finish finished o.exit_code (succeeded o) (err_msg o)
                (started now triggered j.history)))

  -- The job was left as it was.
  abbrev pub Refused : Returned → Type 0
  Refused (j', code, err) = (j' ≡ j) × (code ≡ negsuc 0) × (err ≢ none)

  abbrev returned : JobState → Returned
  returned s = let (j', id, err) = begin_from s now triggered j in execute_from finished o j' id err

  returned_idle : Ran (returned idle)
  unfolding begin_from execute_from back_to_idle record_result
  returned_idle = (
    refl,
    refl,
    refl,
    refl,
    refl,
    end-start now finished triggered o.exit_code (succeeded o) (err_msg o) j.history,
  )

  -- What executeSync does with a job in each state.
  abbrev pub Executed : JobState → Returned → Type 0
  Executed idle r = Ran r
  Executed executing r = Refused r
  Executed paused r = Refused r

  returned-Executed : (s : JobState) → Executed s (returned s)
  unfolding begin_from execute_from
  returned-Executed idle = returned_idle
  returned-Executed executing = (refl, refl, λ q. cc)
  returned-Executed paused = (refl, refl, λ q. cc)

-- An idle job runs the executor and is idle again, with the exit code and no error of its own
-- returned, and the finished execution in the history under the id that it was started with. A job
-- in another state is left as it was, with exit code -1 and an error.
execute_sync_lem :
    (now finished : ℕ) (triggered : String) (o : Outcome) (j : ScheduledJob)
    → Executed now finished triggered o j j.state (execute_sync now finished triggered o j)
unfolding execute_sync begin_execution
execute_sync_lem now finished triggered o j = returned-Executed now finished triggered o j j.state
