-- ===== src/Schedule/Scheduler/Jobs.antt =====
-- What the scheduler's methods do to the map of jobs.
use phpeek_pm.Prelude.{
  ℕ, ◌≡◌, ◌≢◌, refl, sym, ◌∙◌, arith, some, none, String, Option, Option-cases, inl, inr, ◌⊎◌, ℤ,
  Bool, false, lookup, insert, delete, lookup-insert, lookup-delete, str_eq, eq_iff, eq_refl,
  some_inj, Bool-cases, List,
}
use phpeek_pm.Schedule.Job.{
  idle, ScheduledJob, JobOptions, new_scheduled_job, set_cron_id, update_next_run,
}
use phpeek_pm.Schedule.Scheduler.{
  Cron, Scheduler, SchedulerError, already_exists, refresh, add_entry, add_parsed,
  add_job_with_options,
}

-- A map after a write at one name, and after a deletion.
pub lookup-insert_self :
    (name : String) (job : ScheduledJob) (jobs : List (String × ScheduledJob))
    → lookup name (insert name job jobs) ≡ some job
lookup-insert_self name job jobs = lookup-insert name name job jobs ∙ rw (eq_refl name)

str_eq_ne : (s t : String) → s ≢ t → str_eq s t ≡ false
str_eq_ne s t n = ground (arith, eq_iff s t)

pub lookup-insert_ne :
    (name other : String) (job : ScheduledJob) (jobs : List (String × ScheduledJob))
    → name ≢ other
    → lookup other (insert name job jobs) ≡ lookup other jobs
lookup-insert_ne name other job jobs n =
    lookup-insert name other job jobs ∙ rw (str_eq_ne name other n)

pub lookup-delete_self :
    (name : String) (jobs : List (String × ScheduledJob)) → lookup name (delete name jobs) ≡ none
lookup-delete_self name jobs = lookup-delete name name jobs ∙ rw (eq_refl name)

pub lookup-delete_ne :
    (name other : String) (jobs : List (String × ScheduledJob))
    → name ≢ other
    → lookup other (delete name jobs) ≡ lookup other jobs
lookup-delete_ne name other jobs n = lookup-delete name other jobs ∙ rw (str_eq_ne name other n)

not_some : {j : ScheduledJob} → ◌≡◌ {A = Option ScheduledJob} none (some j) → ⊥
not_some h = cc

pub insert-cases :
    (name n : String) (job : ScheduledJob) (jobs : List (String × ScheduledJob)) {j : ScheduledJob}
    → lookup n (insert name job jobs) ≡ some j
    → ((name ≡ n) × (j ≡ job)) ⊎ ((name ≢ n) × (lookup n jobs ≡ some j))
insert-cases name n job jobs h = elim (Bool-cases (str_eq name n)) [
  | inl same ↦
      inl ((eq_iff name n).0 same, some_inj (sym (rw (lookup-insert name n job jobs, same) at h)))
  | inr other ↦
      inr ((λ e. cc ((eq_iff name n).1 e)), rw (lookup-insert name n job jobs, other) at h)
]

pub delete-cases :
    (name n : String) (jobs : List (String × ScheduledJob)) {j : ScheduledJob}
    → lookup n (delete name jobs) ≡ some j
    → (name ≢ n) × (lookup n jobs ≡ some j)
delete-cases name n jobs h = elim (Bool-cases (str_eq name n)) [
  | inl same ↦ absurd (not_some (rw (lookup-delete name n jobs, same) at h))
  | inr other ↦ ((λ e. cc ((eq_iff name n).1 e)), rw (lookup-delete name n jobs, other) at h)
]

taken_not_free : {o : Option ScheduledJob} {job : ScheduledJob} → o ≡ some job → o ≡ none → ⊥
taken_not_free e n = cc

module _ (c : Cron) where
  pub refresh-keeps :
      (cron : c.State) (job : ScheduledJob)
      → ((refresh c cron job).state ≡ job.state)
        × ((refresh c cron job).name ≡ job.name)
        × ((refresh c cron job).cron_id ≡ job.cron_id)
  unfolding refresh update_next_run
  refresh-keeps cron job = elim (Option-cases (c.entry job.cron_id cron)) [
    | inl gone ↦ rw (gone, refresh) (refl, refl, refl)
    | inr (next, found) ↦ rw (found, refresh) (refl, refl, refl)
  ]

  -- The map has a new idle job under the name, and is otherwise as it was.
  pub record Added (name : String) (s s' : Scheduler c) : Type 0 where
    pub job : ScheduledJob
    pub here : lookup name s'.jobs ≡ some job
    pub is_idle : job.state ≡ idle
    pub named : job.name ≡ name
    pub others : (other : String) → name ≢ other → lookup other s'.jobs ≡ lookup other s.jobs

  abbrev pub Outcome : String → Scheduler c → Scheduler c × Option SchedulerError → Type 0
  Outcome name s (s', none) = Added name s s'
  Outcome name s (s', some e) = s' ≡ s

  new-fields :
      (parses : String → Bool) (name expr timezone : String) (size : ℤ) (opts : JobOptions)
      {job : ScheduledJob}
      → new_scheduled_job parses name expr timezone size opts ≡ some job
      → (job.state ≡ idle) × (job.name ≡ name)
  unfolding new_scheduled_job
  new-fields parses name expr timezone size opts e = ground arith

  add_entry-Outcome :
      (name : String) (job : ScheduledJob) (r : Option (c.State × ℕ)) (s : Scheduler c)
      → job.state ≡ idle
      → job.name ≡ name
      → Outcome name s (add_entry c name job r s)
  unfolding add_entry set_cron_id
  add_entry-Outcome name job none s is_idle named = refl
  add_entry-Outcome name job (some (cron, id)) s is_idle named =
      let (state, same_name, _) = refresh-keeps cron (set_cron_id id job) in
      record {
        job = refresh c cron (set_cron_id id job);
        here = lookup-insert_self name _ s.jobs;
        is_idle = state ∙ is_idle;
        named = same_name ∙ named;
        others = λ other n. lookup-insert_ne name other _ s.jobs n;
      }

  add_parsed-Outcome :
      (parses : String → Bool) (name expr timezone : String) (size : ℤ) (opts : JobOptions)
      (s : Scheduler c) (r : Option ScheduledJob)
      → new_scheduled_job parses name expr timezone size opts ≡ r
      → Outcome name s (add_parsed c name expr r s)
  unfolding add_parsed
  add_parsed-Outcome parses name expr timezone size opts s none e = refl
  add_parsed-Outcome parses name expr timezone size opts s (some job) e =
      let (is_idle, named) = new-fields parses name expr timezone size opts e in
      add_entry-Outcome name job (c.add expr s.cron) s is_idle named

  pub add_job_taken :
      (parses : String → Bool) (name expr timezone : String) (opts : JobOptions) (s : Scheduler c)
      (job : ScheduledJob)
      → lookup name s.jobs ≡ some job
      → add_job_with_options c parses name expr timezone opts s ≡ (s, some already_exists)
  unfolding add_job_with_options
  add_job_taken parses name expr timezone opts s job taken = rw (taken, add_job_with_options)

  -- Under a name that is free, AddJobWithOptions either fails and leaves the scheduler as it was, or
  -- puts a new idle job under the name and leaves the other jobs alone.
  add_job_lem :
      (parses : String → Bool) (name expr timezone : String) (opts : JobOptions) (s : Scheduler c)
      → lookup name s.jobs ≡ none
      → Outcome name s (add_job_with_options c parses name expr timezone opts s)
  unfolding add_job_with_options
  add_job_lem parses name expr timezone opts s free =
      rw (free, add_job_with_options)
        (add_parsed-Outcome parses name expr timezone s.history_size opts s _ refl)
