-- ===== src/Readiness/File.antt =====
-- The readiness file follows the state.
use phpeek_pm.Prelude.{
  ◌≡◌, ◌≢◌, refl, Bool, true, false, not, ◌&&◌, if◌then◌else◌, Bool-cases, inl, inr, List, String,
  length, ◌==◌, ltb, Option, none, some, insert, delete,
}
use phpeek_pm.Readiness.{
  ProcessState, ProcessStatus, ReadinessConfig, Content, World, Manager, done, new_manager,
  set_ready, same_ready, create_readiness_file, remove_readiness_file, evaluate_readiness,
  all_ready, start, set_tracked_processes, update_process_state, remove_process, is_tracked,
}

-- The file is there if and only if the container is ready.
pub record InSync (m : Manager) : Type 0 where
  pub created : m.is_ready ≡ true → m.file ≢ none
  pub removed : m.is_ready ≡ false → m.file ≡ none

set_ready-InSync :
    (w : World) (ready : Bool) (m : Manager)
    → w.result ≡ done
    → InSync m
    → InSync (set_ready w ready m)
unfolding set_ready create_readiness_file remove_readiness_file
set_ready-InSync w ready m ok sync = from_flags m.is_ready ready
  where
    from_flags :
        (was ready : Bool)
        → InSync (
            if same_ready was ready
            then m
            else (if ready
                then create_readiness_file w (record m { is_ready = ready })
                else remove_readiness_file w (record m { is_ready = ready })))
    from_flags true true = sync
    from_flags false false = sync
    from_flags true false = rw ok record { created = λ e. cc; removed = λ e. refl }
    from_flags false true = rw ok record { created = λ e f. cc; removed = λ e. cc }

evaluate_readiness-InSync :
    (w : World) (m : Manager) → w.result ≡ done → InSync m → InSync (evaluate_readiness w m)
unfolding evaluate_readiness
evaluate_readiness-InSync w m ok sync = elim (Bool-cases (length m.processes == 0)) [
  | inl empty ↦ rw empty (set_ready-InSync w false m ok sync)
  | inr some_there ↦ rw some_there (set_ready-InSync w (all_ready m.config m.processes) m ok sync)
]

same_flags :
    (m : Manager) (ps : List (String × ProcessStatus))
    → InSync m
    → InSync (record m { processes = ps })
same_flags m ps sync = record { created = sync.created; removed = sync.removed }

-- Start leaves a new manager, that is enabled, in step with the file system, whatever stood there.
pub start-InSync :
    (w : World) (config : ReadinessConfig) (file : Option Content)
    → w.result ≡ done
    → config.enabled ≡ true
    → (m : Manager) × (start true w (new_manager config file) ≡ some m) × InSync m
unfolding start new_manager remove_readiness_file
start-InSync w config file ok enabled = (
  record (new_manager config file) { file = none },
  rw (enabled, ok) refl,
  record { created = λ e. cc; removed = λ e. refl },
)

-- UpdateProcessState, RemoveProcess and SetTrackedProcesses keep the file in step with the state, as
-- long as the file operations succeed.
pub manager-InSync :
    (w : World) (m : Manager) (name : String) (state : ProcessState) (health : String)
    (names : List String)
    → w.result ≡ done
    → InSync m
    → InSync (update_process_state w name state health m)
      × InSync (remove_process w name m)
      × InSync (set_tracked_processes names m)
unfolding update_process_state remove_process set_tracked_processes
manager-InSync w m name state health names ok sync = (
  pick (not m.config.enabled) (not (is_tracked name m) && ltb 0 (length m.config.processes)) sync (
      evaluate_readiness-InSync w
        (record m {
          processes =
              insert name (record { name = name; state = state; health = health }) m.processes;
        })
        ok (same_flags m _ sync)),
  evaluate_readiness-InSync w (record m { processes = delete name m.processes }) ok
      (same_flags m _ sync),
  same_flags m _ sync,
)
  where
    pick :
        {m n : Manager} (b c : Bool)
        → InSync m
        → InSync n
        → InSync (if b then m else (if c then m else n))
    pick true c sync next = sync
    pick false true sync next = sync
    pick false false sync next = next
