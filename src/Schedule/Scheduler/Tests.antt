-- ===== src/Schedule/Scheduler/Tests.antt =====
-- The scheduler with a concrete cron library: a counter of ids, and the list of those in use.
use phpeek_pm.Prelude.{
  ℕ, ◌+◌, ◌≡◌, ◌≢◌, refl, arith, pos, [], some, none, Bool, true, false, Option, lookup, insert,
  delete, length, if◌then◌else◌, ◌==◌, ==_iff, ap, subst, ltb, some_inj,
}
use phpeek_pm.Schedule.History.{new_execution_history}
use phpeek_pm.Schedule.Job.{
  idle, executing, paused, ScheduledJob, JobOptions, new_scheduled_job, set_cron_id,
  update_next_run,
}
use phpeek_pm.Schedule.Scheduler.{
  Cron, CronLaws, Scheduler, already_exists, new_scheduler, refresh, add_entry, add_parsed,
  add_job_with_options, remove_job, count_jobs, scheduler_stats, get_job_status, trigger_job,
}
use phpeek_pm.Schedule.Scheduler.Linked.{Linked, new_scheduler-Linked, add_job-Linked}
use phpeek_pm.Schedule.Scheduler.Counts.{in_state, scheduler_stats_lem}

-- The next id, and the ids that were removed.
record Entries : Type 0 where
  next_id : ℕ
  removed : ℕ → Bool

-- An entry is valid between its addition and its removal.
abbrev entry_of : ℕ → Entries → Option ℕ
entry_of id s = if ltb id s.next_id then (if s.removed id then none else some id) else none

abbrev mark : ℕ → Bool → (ℕ → Bool) → ℕ → Bool
mark id b removed k = if k == id then b else removed k

abbrev cron : Cron
cron = record {
  State = Entries;
  add = λ expr s.
      some
        (record { next_id = s.next_id + 1; removed = mark s.next_id false s.removed }, s.next_id);
  remove = λ id s. record s { removed = mark id true s.removed };
  entry = entry_of;
  start = λ s. s;
  stop = λ s. s;
}

added_entry :
    (s : Entries)
    → entry_of s.next_id
        (record { next_id = s.next_id + 1; removed = mark s.next_id false s.removed })
      ≢ none
added_entry s = ground (arith, (==_iff s.next_id s.next_id).1 refl)

kept_entry :
    (k : ℕ) (s : Entries)
    → entry_of k s ≢ none
    → entry_of k (record { next_id = s.next_id + 1; removed = mark s.next_id false s.removed })
      ≢ none
kept_entry k s h = ground (arith, ==_iff k s.next_id, h)

cron-CronLaws : CronLaws cron
cron-CronLaws = record {
  add_fresh = λ expr s s' id h.
      let at : s.next_id ≡ id = ap (λ p. p.1) (some_inj h) in
      let to : record { next_id = s.next_id + 1; removed = mark s.next_id false s.removed } ≡ s' =
        ap (λ p. p.0) (some_inj h) in
      (
        subst (λ n. entry_of n s ≡ none) at (ground arith),
        subst (λ n. entry_of n s' ≢ none) at
            (subst (λ t. entry_of s.next_id t ≢ none) to (added_entry s)),
      );
  add_keeps = λ expr s s' id k h valid.
      subst (λ t. entry_of k t ≢ none) (ap (λ p. p.0) (some_inj h)) (kept_entry k s valid);
  remove_gone = λ id s. ground (arith, (==_iff id id).1 refl);
  remove_keeps = λ id k s apart valid. ground (arith, ==_iff k id, apart, valid);
}

runs : Unit {0}
unfolding new_scheduler refresh add_entry add_parsed add_job_with_options remove_job count_jobs
    scheduler_stats get_job_status trigger_job new_scheduled_job set_cron_id update_next_run
    new_execution_history lookup insert delete
runs = tt

abbrev options : JobOptions
options = record { timeout = pos 0; max_concurrent = pos 0 }

abbrev empty : Scheduler cron
empty = new_scheduler cron (record { next_id = 1; removed = λ k. false }) (pos 5)

abbrev with_backup : Scheduler cron
with_backup = (add_job_with_options cron (λ e. true) "backup" "@daily" "" options empty).0

abbrev backup : ScheduledJob
backup = record {
  name = "backup";
  schedule = "@daily";
  timezone = "";
  state = idle;
  history = record { entries = []; max_size = 5; next_id = 1 };
  last_run = 0;
  next_run = 1;
  current_exec_id = 0;
  timeout = pos 0;
  max_concurrent = pos 0;
  cron_id = 1;
}

backup-there : lookup "backup" with_backup.jobs ≡ some backup
unfolding runs
backup-there = refl

twice :
    (add_job_with_options cron (λ e. true) "backup" "@hourly" "" options with_backup).1
    ≡ some already_exists
unfolding runs
twice = refl

empty-free : lookup "report" with_backup.jobs ≡ none
unfolding runs
empty-free = refl

empty-Linked : Linked cron empty.cron empty.jobs
empty-Linked = new_scheduler-Linked cron (record { next_id = 1; removed = λ k. false }) (pos 5)

add_job-Linked_example :
    let s' = (add_job_with_options cron (λ e. true) "backup" "@daily" "" options empty).0 in
    Linked cron s'.cron s'.jobs
add_job-Linked_example =
    add_job-Linked cron cron-CronLaws (λ e. true) "backup" "@daily" "" options empty empty-Linked

scheduler_stats_lem_example :
    let t = scheduler_stats cron with_backup in
    (t.total_jobs ≡ length with_backup.jobs)
    × (t.idle_jobs ≡ in_state idle with_backup.jobs)
    × (t.executing_jobs ≡ in_state executing with_backup.jobs)
    × (t.paused_jobs ≡ in_state paused with_backup.jobs)
    × (t.idle_jobs + t.executing_jobs + t.paused_jobs ≡ t.total_jobs)
scheduler_stats_lem_example = scheduler_stats_lem cron with_backup
