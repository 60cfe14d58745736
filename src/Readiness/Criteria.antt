-- ===== src/Readiness/Criteria.antt =====
-- When the container is ready.
use phpeek_pm.Prelude.{
  ◌≡◌, ◌≢◌, ◌⊎◌, ◌↔◌, refl, sym, ap, ◌∙◌, subst, arith, Bool, true, false, not, ◌&&◌, if◌then◌else◌,
  Bool-cases, false_ne_true, ◌||◌, inl, inr, List, [], ◌∷◌, String, str_eq, eq_iff, eq_refl, length,
  ◌==◌, ltb, Option, none, some, some_inj, lookup, insert, delete, HasUniqueKeys,
  insert-HasUniqueKeys, delete-HasUniqueKeys,
}
use phpeek_pm.Readiness.{
  ProcessState, running, healthy, unhealthy, stopped, failed, is_running_state, is_healthy_state,
  ProcessStatus, ReadinessConfig, World, Manager, set_ready, remove_readiness_file,
  create_readiness_file, is_process_ready, all_ready, evaluate_readiness, is_tracked,
  update_process_state, remove_process,
}

-- The criteria of a mode: "all_running", or any other, which stands for "all_healthy".
abbrev pub Meets : String → ProcessStatus → Type 0
Meets mode status =
    ((mode ≡ "all_running") × ((status.state ≡ running) ⊎ (status.state ≡ healthy)))
    ⊎ ((mode ≢ "all_running")
        × ((status.state ≡ healthy) ⊎ ((status.state ≡ running) × (status.health ≡ "healthy"))))

-- Every tracked process meets the criteria of the mode.
abbrev pub AllMeet : ReadinessConfig → List (String × ProcessStatus) → Type 0
AllMeet config processes =
    (name : String) (status : ProcessStatus)
    → lookup name processes ≡ some status
    → Meets config.mode status

-- What the loop tests.
AllReady : ReadinessConfig → List (String × ProcessStatus) → Type 0
AllReady config processes =
    (name : String) (status : ProcessStatus)
    → lookup name processes ≡ some status
    → is_process_ready config status ≡ true

running_or_healthy :
    (st : ProcessState)
    → ((is_running_state st || is_healthy_state st) ≡ true) ↔ ((st ≡ running) ⊎ (st ≡ healthy))
running_or_healthy running = (λ h. inl refl, λ h. refl)
running_or_healthy healthy = (λ h. inr refl, λ h. refl)
running_or_healthy unhealthy = (λ h. cc, λ h. elim h [ inl e ↦ cc | inr e ↦ cc ])
running_or_healthy stopped = (λ h. cc, λ h. elim h [ inl e ↦ cc | inr e ↦ cc ])
running_or_healthy failed = (λ h. cc, λ h. elim h [ inl e ↦ cc | inr e ↦ cc ])

healthy_or_checked :
    (st : ProcessState) (health : String)
    → ((is_healthy_state st || (is_running_state st && str_eq health "healthy")) ≡ true)
      ↔ ((st ≡ healthy) ⊎ ((st ≡ running) × (health ≡ "healthy")))
healthy_or_checked running health = (
  λ h. inr (refl, (eq_iff health "healthy").0 h),
  λ h. elim h [ inl e ↦ cc | inr e ↦ (eq_iff health "healthy").1 e.1 ],
)
healthy_or_checked healthy health = (λ h. inl refl, λ h. refl)
healthy_or_checked unhealthy health = (λ h. cc, λ h. elim h [ inl e ↦ cc | inr e ↦ cc ])
healthy_or_checked stopped health = (λ h. cc, λ h. elim h [ inl e ↦ cc | inr e ↦ cc ])
healthy_or_checked failed health = (λ h. cc, λ h. elim h [ inl e ↦ cc | inr e ↦ cc ])

is_process_ready_iff :
    (config : ReadinessConfig) (status : ProcessStatus)
    → (is_process_ready config status ≡ true) ↔ Meets config.mode status
unfolding is_process_ready
is_process_ready_iff config status =
    let runs = running_or_healthy status.state in
    let checked = healthy_or_checked status.state status.health in
    let mode = eq_iff config.mode "all_running" in
    elim (Bool-cases (str_eq config.mode "all_running")) [
      | inl named ↦ rw named (
        λ h. inl (mode.0 named, runs.0 h),
        λ h. elim h [ inl met ↦ runs.1 met.1 | inr met ↦ absurd (met.0 (mode.0 named)) ],
      )
      | inr other ↦ rw other (
        λ h. inr (λ e. false_ne_true (sym other ∙ mode.1 e), checked.0 h),
        λ h. elim h [
          | inl met ↦ absurd (false_ne_true (sym other ∙ mode.1 met.0))
          | inr met ↦ checked.1 met.1
        ],
      )
    ]

AllReady-AllMeet :
    (config : ReadinessConfig) (ps : List (String × ProcessStatus))
    → AllReady config ps ↔ AllMeet config ps
unfolding AllReady
AllReady-AllMeet config ps = (
  λ h name status found. (is_process_ready_iff config status).0 (h name status found),
  λ h name status found. (is_process_ready_iff config status).1 (h name status found),
)

all_ready_sound :
    (config : ReadinessConfig) (ps : List (String × ProcessStatus))
    → all_ready config ps ≡ true
    → AllReady config ps
unfolding lookup all_ready AllReady
all_ready_sound config [] h name status found = cc
all_ready_sound config ((n, s) ∷ ps) h name status found =
    elim (Bool-cases (is_process_ready config s)) [
      | inr unready ↦ absurd (never (rw (unready, all_ready) at h))
      | inl ready ↦ elim (Bool-cases (str_eq n name)) [
        | inl same ↦
            subst (λ x. is_process_ready config x ≡ true) (some_inj (rw same at found)) ready
        | inr other ↦
            all_ready_sound config ps (rw (ready, all_ready) at h) name status (rw other at found)
      ]
    ]
  where
    never : false ≡ true → ⊥
    never h = cc

all_ready_complete :
    (config : ReadinessConfig) (ps : List (String × ProcessStatus))
    → HasUniqueKeys ps
    → AllReady config ps
    → all_ready config ps ≡ true
unfolding lookup all_ready AllReady
all_ready_complete config [] u h = refl
all_ready_complete config ((n, s) ∷ ps) u h =
    let here : is_process_ready config s ≡ true = h n s (rw (eq_refl n) refl) in
    rw here (
      all_ready_complete config ps u.1
        (λ name status found. h name status (later name status found)))
  where
    clash : {o : Option ProcessStatus} {v : ProcessStatus} → o ≡ none → o ≡ some v → ⊥
    clash e f = cc

    later :
        (name : String) (status : ProcessStatus)
        → lookup name ps ≡ some status
        → lookup name ((n, s) ∷ ps) ≡ some status
    later name status found = elim (Bool-cases (str_eq n name)) [
      | inl same ↦
          absurd (clash (subst (λ k. lookup k ps ≡ none) ((eq_iff n name).0 same) u.0) found)
      | inr other ↦ rw other found
    ]

all_ready-AllMeet :
    (config : ReadinessConfig) (ps : List (String × ProcessStatus))
    → all_ready config ps ≡ true
    → AllMeet config ps
all_ready-AllMeet config ps h = (AllReady-AllMeet config ps).0 (all_ready_sound config ps h)

AllMeet-all_ready :
    (config : ReadinessConfig) (ps : List (String × ProcessStatus))
    → HasUniqueKeys ps
    → AllMeet config ps
    → all_ready config ps ≡ true
AllMeet-all_ready config ps u h = all_ready_complete config ps u ((AllReady-AllMeet config ps).1 h)

pub set_ready-is_ready :
    (w : World) (ready : Bool) (m : Manager) → (set_ready w ready m).is_ready ≡ ready
unfolding set_ready remove_readiness_file create_readiness_file
set_ready-is_ready w ready m = ground arith

pub evaluate_readiness-is_ready :
    (w : World) (m : Manager)
    → (evaluate_readiness w m).is_ready
      ≡ (not (length m.processes == 0) && all_ready m.config m.processes)
unfolding evaluate_readiness
evaluate_readiness-is_ready w m = elim (Bool-cases (length m.processes == 0)) [
  | inl empty ↦ rw empty (set_ready-is_ready w false m)
  | inr some_there ↦ rw some_there (set_ready-is_ready w (all_ready m.config m.processes) m)
]

insert-nonempty :
    (name : String) (st : ProcessStatus) (ps : List (String × ProcessStatus))
    → (length (insert name st ps) == 0) ≡ false
unfolding insert
insert-nonempty name st [] = refl
insert-nonempty name st ((n, s) ∷ ps) = elim (Bool-cases (str_eq n name)) [
  | inl same ↦ rw same (ground arith)
  | inr other ↦ rw other (ground arith)
]

-- The update is made where readiness is on and the process is tracked, or all are.
abbrev pub Tracks : String → Manager → Type 0
Tracks name m = (is_tracked name m ≡ true) ⊎ (m.config.processes ≡ [])

pub update_process_state-evaluates :
    (w : World) (name : String) (state : ProcessState) (health : String) (m : Manager)
    → m.config.enabled ≡ true
    → Tracks name m
    → update_process_state w name state health m
      ≡ evaluate_readiness w (record m {
        processes =
            insert name (record { name = name; state = state; health = health }) m.processes;
      })
unfolding update_process_state
update_process_state-evaluates w name state health m enabled tracks =
    pick m _ m.config.enabled (is_tracked name m) m.config.processes enabled tracks
  where
    pick :
        (x y : Manager) (on tracked : Bool) (names : List String)
        → on ≡ true
        → (tracked ≡ true) ⊎ (names ≡ [])
        → (if not on then x else (if not tracked && ltb 0 (length names) then x else y)) ≡ y
    pick x y true true names e t = refl
    pick x y true false [] e t = refl
    pick x y true false (n ∷ names) e t = absurd (elim t [ inl h ↦ cc | inr h ↦ cc ])
    pick x y false tracked names e t = cc

-- After an update of a tracked process, with readiness on, the container is ready if and only if every
-- tracked process, with the new state of this one, is running or healthy, in the mode all_running; in
-- any other mode, healthy, or running with the health "healthy".
pub update_process_state-is_ready :
    (w : World) (name : String) (state : ProcessState) (health : String) (m : Manager)
    → m.config.enabled ≡ true
    → Tracks name m
    → HasUniqueKeys m.processes
    → ((update_process_state w name state health m).is_ready ≡ true)
      ↔ AllMeet m.config
          (insert name (record { name = name; state = state; health = health }) m.processes)
update_process_state-is_ready w name state health m enabled tracks unique =
    let st : ProcessStatus = record { name = name; state = state; health = health } in
    let ps = insert name st m.processes in
    let ready : (update_process_state w name state health m).is_ready ≡ all_ready m.config ps =
      ap (λ (x : Manager). x.is_ready)
        (update_process_state-evaluates w name state health m enabled tracks)
      ∙ evaluate_readiness-is_ready w (record m { processes = ps })
      ∙ ap (λ b. not b && all_ready m.config ps) (insert-nonempty name st m.processes) in
    (
      λ h. all_ready-AllMeet m.config ps (sym ready ∙ h),
      λ all.
          ready
          ∙ AllMeet-all_ready m.config ps (insert-HasUniqueKeys name st m.processes unique) all,
    )

-- After a removal, the container is ready if and only if a process is left and all that are left meet
-- the criteria.
remove_process-is_ready :
    (w : World) (name : String) (m : Manager)
    → HasUniqueKeys m.processes
    → ((remove_process w name m).is_ready ≡ true)
      ↔ ((delete name m.processes ≢ []) × AllMeet m.config (delete name m.processes))
unfolding remove_process
remove_process-is_ready w name m unique =
    let ps = delete name m.processes in
    let ready = evaluate_readiness-is_ready w (record m { processes = ps }) in
    (
      λ h.
          let parts = both_true ps (all_ready m.config ps) (sym ready ∙ h) in
          (parts.0, all_ready-AllMeet m.config ps parts.1),
      λ rest.
          ready
          ∙ true_both ps (all_ready m.config ps) rest.0
              (AllMeet-all_ready m.config ps (delete-HasUniqueKeys name m.processes unique) rest.1),
    )
  where
    both_true :
        (ps : List (String × ProcessStatus)) (b : Bool)
        → (not (length ps == 0) && b) ≡ true
        → (ps ≢ []) × (b ≡ true)
    both_true [] b h = cc
    both_true (p ∷ ps) b h = (λ e. cc, ground arith)

    true_both :
        (ps : List (String × ProcessStatus)) (b : Bool)
        → ps ≢ []
        → b ≡ true
        → (not (length ps == 0) && b) ≡ true
    true_both [] b some_left h = absurd (some_left refl)
    true_both (p ∷ ps) b some_left h = ground arith
