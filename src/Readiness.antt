-- ===== src/Readiness.antt =====
-- internal/readiness/manager.go: the readiness file. The configuration is not nil here: without one
-- the process manager creates no readiness manager (internal/process/manager.go). The outcome of a file
-- operation is an argument; the mutex makes each method one step.
mod Tests
pub mod Criteria
pub mod File
pub mod Shutdown
use phpeek_pm.Prelude.{
  ℕ, zero, suc, ◌+◌, Bool, true, false, not, ◌&&◌, ◌||◌, if◌then◌else◌, List, [], ◌∷◌, String,
  str_eq, length, ◌==◌, ltb, Option, none, some, lookup, insert, delete,
}

pub data ProcessState : Type 0 where
  running : ProcessState
  healthy : ProcessState
  unhealthy : ProcessState
  stopped : ProcessState
  failed : ProcessState

pub record ProcessStatus : Type 0 where
  pub name : String
  pub state : ProcessState
  pub health : String

pub record ReadinessConfig : Type 0 where
  pub enabled : Bool
  pub mode : String
  pub content : String
  pub processes : List String

-- What the readiness file contains.
pub data Content : Type 0 where
  custom : String → Content
  timestamp : ℕ → Content

-- A file operation succeeds, or it fails and leaves something of its own making.
pub data FileResult : Type 0 where
  done : FileResult
  failed_with : Option Content → FileResult

-- `file` is what stands at config.Path.
pub record Manager : Type 0 where
  pub config : ReadinessConfig
  pub is_ready : Bool
  pub processes : List (String × ProcessStatus)
  pub stopped : Bool
  pub file : Option Content

unfoldable pub new_manager : ReadinessConfig → Option Content → Manager
new_manager config file = record {
  config = config;
  is_ready = false;
  processes = [];
  stopped = false;
  file = file;
}

abbrev is_running_state : ProcessState → Bool
is_running_state running = true
is_running_state _ = false

abbrev is_healthy_state : ProcessState → Bool
is_healthy_state healthy = true
is_healthy_state _ = false

-- The file system and the clock at an operation.
pub record World : Type 0 where
  pub result : FileResult
  pub now : ℕ

unfoldable pub remove_readiness_file : World → Manager → Manager
remove_readiness_file w m = record m {
  file = elim w.result [ done ↦ none | failed_with left ↦ left ];
}

unfoldable pub create_readiness_file : World → Manager → Manager
create_readiness_file w m =
    let content = if str_eq m.config.content "" then timestamp w.now else custom m.config.content in
    record m { file = elim w.result [ done ↦ some content | failed_with left ↦ left ] }

abbrev same_ready : Bool → Bool → Bool
same_ready true b = b
same_ready false b = not b

unfoldable pub set_ready : World → Bool → Manager → Manager
set_ready w ready m =
    let changed = record m { is_ready = ready } in
    if same_ready m.is_ready ready
    then m
    else (if ready then create_readiness_file w changed else remove_readiness_file w changed)

-- Both named modes, and any other, which falls to "all_healthy".
unfoldable pub is_process_ready : ReadinessConfig → ProcessStatus → Bool
is_process_ready config status =
    if str_eq config.mode "all_running"
    then is_running_state status.state || is_healthy_state status.state
    else is_healthy_state status.state
      || (is_running_state status.state && str_eq status.health "healthy")

-- The loop over the processes.
unfoldable pub all_ready : ReadinessConfig → List (String × ProcessStatus) → Bool
all_ready config [] = true
all_ready config ((name, status) ∷ processes) =
    let rest = all_ready config processes in
    if not (is_process_ready config status) then false else rest

unfoldable pub evaluate_readiness : World → Manager → Manager
evaluate_readiness w m =
    if length m.processes == 0
    then set_ready w false m
    else set_ready w (all_ready m.config m.processes) m

-- `none` is the error of os.MkdirAll.
unfoldable pub start : Bool → World → Manager → Option Manager
start made w m =
    if not m.config.enabled
    then some m
    else (if made then some (remove_readiness_file w m) else none)

unfoldable pub stop : World → Manager → Manager
stop w m = if m.stopped then m else remove_readiness_file w (record m { stopped = true })

abbrev pub untracked : String → ProcessStatus
untracked name = record { name = name; state = stopped; health = "unknown" }

unfoldable pub track_all :
    List String → List (String × ProcessStatus) → List (String × ProcessStatus)
track_all [] processes = processes
track_all (name ∷ names) processes = track_all names (insert name (untracked name) processes)

unfoldable pub set_tracked_processes : List String → Manager → Manager
set_tracked_processes names m = record m { processes = track_all names [] }

abbrev is_tracked : String → Manager → Bool
is_tracked name m = elim (lookup name m.processes) [ none ↦ false | some _ ↦ true ]

unfoldable pub update_process_state : World → String → ProcessState → String → Manager → Manager
update_process_state w name state health m =
    let status : ProcessStatus = record { name = name; state = state; health = health } in
    let updated = evaluate_readiness w (record m { processes = insert name status m.processes }) in
    if not m.config.enabled
    then m
    else (if not (is_tracked name m) && ltb 0 (length m.config.processes) then m else updated)

unfoldable pub remove_process : World → String → Manager → Manager
remove_process w name m = evaluate_readiness w (record m { processes = delete name m.processes })

unfoldable pub get_status : Manager → List (String × ProcessStatus)
get_status m = m.processes
