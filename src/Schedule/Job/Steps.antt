-- ===== src/Schedule/Job/Steps.antt =====
-- A job under every interleaving of executions, pauses and resumptions.
use phpeek_pm.Prelude.{
  ℕ, zero, suc, ◌<◌, ◌≡◌, refl, sym, ap, ◌∙◌, inl, inr, List, [], ◌∷◌, ◌++◌, arith, Bool, ℤ, String,
  Option, none, some, All, All-append, length, drop, leb, Bool-cases, if◌then◌else◌, subst, ◌≢◌,
  modify_at-snoc, some_inj,
}
use phpeek_pm.Schedule.History.{
  ExecutionEntry, ExecutionHistory, new_execution_history, start_execution, end_execution, started,
  finish, index_of, write_at,
}
use phpeek_pm.Schedule.History.Ids.{index_of-snoc}
use phpeek_pm.Schedule.Job.{
  JobState, idle, executing, paused, ScheduledJob, pause, resume, begin_execution, begin_from,
  Outcome, JobOptions, new_scheduled_job, back_to_idle, record_result, succeeded, err_msg,
}

-- What the holder of executionMu is about to do.
pub data Phase : Type 0 where
  free : Phase
  running : ℕ → Phase
  recording : ℕ → Outcome → Phase

pub record System : Type 0 where
  pub job : ScheduledJob
  pub phase : Phase

-- One critical section of one of the goroutines. A trigger that begin_execution refuses changes
-- nothing.
pub data Step (s : System) (t : System) : Type 0 where
  pause_job : t ≡ record s { job = (pause s.job).0 } → Step s t
  resume_job : t ≡ record s { job = (resume s.job).0 } → Step s t
  begin :
      (now : ℕ) (triggered : String) (id : ℕ)
      → s.phase ≡ free
      → (begin_execution now triggered s.job).1 ≡ some id
      → t ≡ record { job = (begin_execution now triggered s.job).0; phase = running id }
      → Step s t
  executed :
      (id : ℕ) (o : Outcome)
      → s.phase ≡ running id
      → t ≡ record { job = back_to_idle s.job; phase = recording id o }
      → Step s t
  recorded :
      (now id : ℕ) (o : Outcome)
      → 0 < now
      → s.phase ≡ recording id o
      → t ≡ record { job = record_result now id o s.job; phase = free }
      → Step s t

pub data Reach (s : System) : System → Type 0 where
  here : Reach s s
  next : {t u : System} → Reach s t → Step t u → Reach s u

abbrev pub IsFinished : ExecutionEntry → Type 0
IsFinished e = 0 < e.end_time

-- The newest entry is that of execution `id`, and all others are finished.
pub record IsLast (id : ℕ) (h : ExecutionHistory) : Type 0 where
  pub front : List ExecutionEntry
  pub entry : ExecutionEntry
  pub split : h.entries ≡ front ++ entry ∷ []
  pub named : entry.id ≡ id
  pub finished : All IsFinished front

-- What the job looks like while executionMu is in each phase.
abbrev pub Agrees : Phase → ScheduledJob → Type 0
Agrees free j = (j.state ≢ executing) × (j.current_exec_id ≡ 0) × All IsFinished j.history.entries
Agrees (running id) j = (j.state ≡ executing) × (j.current_exec_id ≡ id) × IsLast id j.history
Agrees (recording id o) j = (j.state ≢ executing) × (j.current_exec_id ≡ 0) × IsLast id j.history

-- Two jobs that differ only between idle and paused.
record Similar (j k : ScheduledJob) : Type 0 where
  same_history : k.history ≡ j.history
  same_id : k.current_exec_id ≡ j.current_exec_id
  still : j.state ≡ executing → k.state ≡ executing
  still_not : j.state ≢ executing → k.state ≢ executing

pause-Similar : (j : ScheduledJob) → Similar j (pause j).0
unfolding pause
pause-Similar j = ground arith

resume-Similar : (j : ScheduledJob) → Similar j (resume j).0
unfolding resume
resume-Similar j = ground arith

Similar-Agrees : (p : Phase) (j k : ScheduledJob) → Similar j k → Agrees p j → Agrees p k
Similar-Agrees free j k s (not_executing, id, finished) = (
  s.still_not not_executing,
  s.same_id ∙ id,
  subst (λ h. All IsFinished h.entries) (sym s.same_history) finished,
)
Similar-Agrees (running n) j k s (executes, id, last) =
    (s.still executes, s.same_id ∙ id, subst (IsLast n) (sym s.same_history) last)
Similar-Agrees (recording n o) j k s (not_executing, id, last) =
    (s.still_not not_executing, s.same_id ∙ id, subst (IsLast n) (sym s.same_history) last)

All-drop : (n : ℕ) (es : List ExecutionEntry) → All IsFinished es → All IsFinished (drop n es)
All-drop zero es h = h
All-drop (suc n) [] h = tt
All-drop (suc n) (e ∷ es) h = All-drop n es h.1

start_execution-IsLast :
    (now : ℕ) (triggered : String) (h : ExecutionHistory)
    → All IsFinished h.entries
    → IsLast (start_execution now triggered h).1 (start_execution now triggered h).0
unfolding start_execution
start_execution-IsLast now triggered h all = record {
  front = if leb h.max_size (length h.entries) then drop 1 h.entries else h.entries;
  entry = started now triggered h;
  split = refl;
  named = refl;
  finished = elim (Bool-cases (leb h.max_size (length h.entries))) [
    | inl full ↦ rw full (All-drop 1 h.entries all)
    | inr room ↦ rw room all
  ];
}

begin_from-Agrees :
    (state : JobState) (now : ℕ) (triggered : String) (j : ScheduledJob) (id : ℕ)
    → All IsFinished j.history.entries
    → (begin_from state now triggered j).1 ≡ some id
    → Agrees (running id) (begin_from state now triggered j).0
unfolding begin_from
begin_from-Agrees idle now triggered j id a h =
    let same : (start_execution now triggered j.history).1 ≡ id = some_inj h in
    (
      refl,
      same,
      subst (λ n. IsLast n (start_execution now triggered j.history).0) same
          (start_execution-IsLast now triggered j.history a),
    )
begin_from-Agrees executing now triggered j id a h = cc
begin_from-Agrees paused now triggered j id a h = cc

end_execution-IsFinished :
    (now id : ℕ) (o : Outcome) (h : ExecutionHistory)
    → 0 < now
    → IsLast id h
    → All IsFinished (end_execution now id o.exit_code (succeeded o) (err_msg o) h).entries
unfolding end_execution
end_execution-IsFinished now id o h pos last =
    let f = finish now o.exit_code (succeeded o) (err_msg o) in
    let es = last.front ++ last.entry ∷ [] in
    let found : index_of id es ≡ some (length last.front) =
      subst (λ n. index_of n es ≡ some (length last.front)) last.named
        (index_of-snoc last.front last.entry) in
    let written : write_at (index_of id es) f es ≡ last.front ++ f last.entry ∷ [] =
      ap (λ i. write_at i f es) found ∙ modify_at-snoc f last.front last.entry in
    subst (λ l. All IsFinished (write_at (index_of id l) f l)) (sym last.split)
      (subst (All IsFinished) (sym written) (
        All-append IsFinished last.front (f last.entry ∷ []) last.finished
          (unfold finish in pos, tt)))

begin_execution-Agrees :
    (now : ℕ) (triggered : String) (j : ScheduledJob) (id : ℕ)
    → Agrees free j
    → (begin_execution now triggered j).1 ≡ some id
    → Agrees (running id) (begin_execution now triggered j).0
unfolding begin_execution
begin_execution-Agrees now triggered j id a h = begin_from-Agrees j.state now triggered j id a.2 h

back_to_idle-Agrees :
    (id : ℕ) (o : Outcome) (j : ScheduledJob)
    → Agrees (running id) j
    → Agrees (recording id o) (back_to_idle j)
unfolding back_to_idle
back_to_idle-Agrees id o j a = (λ e. cc, refl, a.2)

record_result-Agrees :
    (now id : ℕ) (o : Outcome) (j : ScheduledJob)
    → 0 < now
    → Agrees (recording id o) j
    → Agrees free (record_result now id o j)
unfolding record_result
record_result-Agrees now id o j pos a =
    (a.0, a.1, end_execution-IsFinished now id o j.history pos a.2)

-- Every critical section keeps the job in agreement with the phase.
pub Step-Agrees : {s t : System} → Step s t → Agrees s.phase s.job → Agrees t.phase t.job
Step-Agrees {s} (pause_job e) a =
    subst (λ u. Agrees u.phase u.job) (sym e)
      (Similar-Agrees s.phase s.job (pause s.job).0 (pause-Similar s.job) a)
Step-Agrees {s} (resume_job e) a =
    subst (λ u. Agrees u.phase u.job) (sym e)
      (Similar-Agrees s.phase s.job (resume s.job).0 (resume-Similar s.job) a)
Step-Agrees {s} (begin now triggered id p b e) a =
    subst (λ u. Agrees u.phase u.job) (sym e)
      (begin_execution-Agrees now triggered s.job id (subst (λ q. Agrees q s.job) p a) b)
Step-Agrees {s} (executed id o p e) a =
    subst (λ u. Agrees u.phase u.job) (sym e)
      (back_to_idle-Agrees id o s.job (subst (λ q. Agrees q s.job) p a))
Step-Agrees {s} (recorded now id o pos p e) a =
    subst (λ u. Agrees u.phase u.job) (sym e)
      (record_result-Agrees now id o s.job pos (subst (λ q. Agrees q s.job) p a))

Reach-Agrees : {s t : System} → Reach s t → Agrees s.phase s.job → Agrees t.phase t.job
Reach-Agrees here a = a
Reach-Agrees (next r st) a = Step-Agrees st (Reach-Agrees r a)

abbrev pub fresh : ScheduledJob → System
fresh j = record { job = j; phase = free }

none_made : {j : ScheduledJob} → ◌≡◌ {A = Option ScheduledJob} none (some j) → ⊥
none_made h = cc

new-Agrees :
    (parses : String → Bool) (name expr timezone : String) (size : ℤ) (opts : JobOptions)
    {j : ScheduledJob}
    → new_scheduled_job parses name expr timezone size opts ≡ some j
    → Agrees free j
unfolding new_scheduled_job new_execution_history
new-Agrees parses name expr timezone size opts e = elim (Bool-cases (parses expr)) [
  | inl good ↦
      subst (Agrees free) (some_inj (rw (good, new_scheduled_job) at e)) (λ q. cc, refl, tt)
  | inr bad ↦ absurd (none_made (rw (bad, new_scheduled_job) at e))
]

-- From a new job, by any steps: the state is "executing" exactly while the executor runs; then the
-- current id names the newest entry of the history and no other entry is unfinished; and between
-- executions no entry is.
pub new_scheduled_job-Agrees :
    (parses : String → Bool) (name expr timezone : String) (size : ℤ) (opts : JobOptions)
    {j : ScheduledJob} {t : System}
    → new_scheduled_job parses name expr timezone size opts ≡ some j
    → Reach (fresh j) t
    → Agrees t.phase t.job
new_scheduled_job-Agrees parses name expr timezone size opts made r =
    Reach-Agrees r (new-Agrees parses name expr timezone size opts made)
