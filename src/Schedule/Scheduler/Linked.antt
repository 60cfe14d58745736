-- ===== src/Schedule/Scheduler/Linked.antt =====
-- The jobs of the map are those of the cron library.
use phpeek_pm.Prelude.{
  ℕ, ◌≡◌, ◌≢◌, refl, sym, ap, ◌∙◌, subst, some, none, String, Option, Option-cases, inl, inr, ℤ,
  Bool, lookup, insert, delete, lookup-delete, str_eq, if◌then◌else◌, List,
}
use phpeek_pm.Schedule.Job.{ScheduledJob, JobOptions, set_cron_id}
use phpeek_pm.Schedule.Scheduler.{
  Cron, CronLaws, Scheduler, refresh, add_entry, add_parsed, add_job_with_options, remove_job,
  new_scheduler,
}
use phpeek_pm.Schedule.Scheduler.Jobs.{insert-cases, delete-cases, refresh-keeps}

module _ (c : Cron) where
  -- Every job's id is that of a valid entry, and no two jobs share one.
  pub record Linked (cron : c.State) (jobs : List (String × ScheduledJob)) : Type 0 where
    pub valid :
        (n : String) (j : ScheduledJob) → lookup n jobs ≡ some j → c.entry j.cron_id cron ≢ none
    pub distinct :
        (n m : String) (j k : ScheduledJob)
        → lookup n jobs ≡ some j
        → lookup m jobs ≡ some k
        → j.cron_id ≡ k.cron_id
        → n ≡ m

  pub new_scheduler-Linked :
      (cron : c.State) (size : ℤ)
      → Linked (new_scheduler c cron size).cron (new_scheduler c cron size).jobs
  unfolding new_scheduler lookup
  new_scheduler-Linked cron size = record { valid = λ n j h. cc; distinct = λ n m j k h. cc }

  module _ (laws : CronLaws c) where
    insert-Linked :
        (cron cron' : c.State) (jobs : List (String × ScheduledJob)) (name : String)
        (job : ScheduledJob)
        → c.entry job.cron_id cron ≡ none
        → c.entry job.cron_id cron' ≢ none
        → ((k : ℕ) → c.entry k cron ≢ none → c.entry k cron' ≢ none)
        → Linked cron jobs
        → Linked cron' (insert name job jobs)
    insert-Linked cron cron' jobs name job was is keeps l = record {
      valid = λ n j h. elim (insert-cases name n job jobs h) [
        | inl (same, e) ↦ subst (λ (q : ScheduledJob). c.entry q.cron_id cron' ≢ none) (sym e) is
        | inr (other, old) ↦ keeps j.cron_id (l.valid n j old)
      ];
      distinct = λ n m j k h g e. elim (insert-cases name n job jobs h) [
        | inl (same, ej) ↦ elim (insert-cases name m job jobs g) [
          | inl (same', ek) ↦ sym same ∙ same'
          | inr (other, old) ↦ absurd (
              l.valid m k old
                (ap (λ i. c.entry i cron) (sym e ∙ ap (λ (q : ScheduledJob). q.cron_id) ej) ∙ was))
        ]
        | inr (other, old) ↦ elim (insert-cases name m job jobs g) [
          | inl (same', ek) ↦ absurd (
              l.valid n j old
                (ap (λ i. c.entry i cron) (e ∙ ap (λ (q : ScheduledJob). q.cron_id) ek) ∙ was))
          | inr (other', old') ↦ l.distinct n m j k old old' e
        ]
      ];
    }

    add_entry-Linked :
        (name expr : String) (job : ScheduledJob) (s : Scheduler c) (r : Option (c.State × ℕ))
        → c.add expr s.cron ≡ r
        → Linked s.cron s.jobs
        → Linked (add_entry c name job r s).0.cron (add_entry c name job r s).0.jobs
    unfolding add_entry set_cron_id
    add_entry-Linked name expr job s none e l = l
    add_entry-Linked name expr job s (some (cron, id)) e l =
        let (_, _, same) = refresh-keeps c cron (set_cron_id id job) in
        let (fresh, valid) = laws.add_fresh expr s.cron cron id e in
        insert-Linked s.cron cron s.jobs name (refresh c cron (set_cron_id id job))
          (ap (λ i. c.entry i s.cron) same ∙ fresh)
          (subst (λ i. c.entry i cron ≢ none) (sym same) valid)
          (λ k. laws.add_keeps expr s.cron cron id k e) l

    add_parsed-Linked :
        (name expr : String) (r : Option ScheduledJob) (s : Scheduler c)
        → Linked s.cron s.jobs
        → Linked (add_parsed c name expr r s).0.cron (add_parsed c name expr r s).0.jobs
    unfolding add_parsed
    add_parsed-Linked name expr none s l = l
    add_parsed-Linked name expr (some job) s l =
        add_entry-Linked name expr job s (c.add expr s.cron) refl l

    -- AddJobWithOptions keeps the map and the cron library linked, on every outcome.
    pub add_job-Linked :
        (parses : String → Bool) (name expr timezone : String) (opts : JobOptions) (s : Scheduler c)
        → Linked s.cron s.jobs
        → let s' = (add_job_with_options c parses name expr timezone opts s).0 in
          Linked s'.cron s'.jobs
    unfolding add_job_with_options
    add_job-Linked parses name expr timezone opts s l = elim (Option-cases (lookup name s.jobs)) [
      | inl free ↦ rw (free, add_job_with_options) (add_parsed-Linked name expr _ s l)
      | inr (job, taken) ↦ rw (taken, add_job_with_options) l
    ]

    -- RemoveJob of a job in the map keeps them linked. The cron library no longer has the job's entry,
    -- and the map has the other jobs, and only them.
    remove_job-Linked :
        (name : String) (s : Scheduler c) (job : ScheduledJob)
        → Linked s.cron s.jobs
        → lookup name s.jobs ≡ some job
        → let (s', err) = remove_job c name s in
          Linked s'.cron s'.jobs
          × (c.entry job.cron_id s'.cron ≡ none)
          × ((other : String)
              → lookup other s'.jobs ≡ (if str_eq name other then none else lookup other s.jobs))
          × (err ≡ none)
    unfolding remove_job
    remove_job-Linked name s job l found =
        rw (found, remove_job)
          (
            removed job found,
            laws.remove_gone job.cron_id s.cron,
            λ other. lookup-delete name other s.jobs,
            refl,
          )
      where
        removed :
            (job : ScheduledJob)
            → lookup name s.jobs ≡ some job
            → Linked (c.remove job.cron_id s.cron) (delete name s.jobs)
        removed job found = record {
          valid = λ n j h.
              let (other, old) = delete-cases name n s.jobs h in
              laws.remove_keeps job.cron_id j.cron_id s.cron
                (λ e. other (l.distinct name n job j found old e)) (l.valid n j old);
          distinct = λ n m j k h g e.
              l.distinct n m j k (delete-cases name n s.jobs h).1 (delete-cases name m s.jobs g).1
                e;
        }
