-- ===== src/Manager/Startup.antt =====
-- internal/process/manager_lifecycle.go, Start and Shutdown, and WaitForReadiness of
-- internal/process/supervisor.go. Hooks, metrics and logs are left out, but for the pre-start hooks,
-- which may fail; Shutdown takes the supervisors, which it stops in goroutines, one after the other.
use phpeek_pm.Prelude.{
  ℕ, Bool, true, false, not, ◌&&◌, ◌||◌, if◌then◌else◌, List, [], ◌∷◌, ◌++◌, reverse, String,
  str_eq, Option, none, some, lookup, get_or, ltb, length,
}
use phpeek_pm.Config.{Process, no_process}
use phpeek_pm.Deps.{GraphError, Result, ok, err, out_of_fuel, new_graph_from_config}
use phpeek_pm.Deps.Topological.{topological_sort}
use phpeek_pm.Manager.{SupervisorOps, Managed, Manager, config_at, put, start_managed, stop_managed}

-- What Start and the waits call beyond SupervisorOps. `becomes_ready` says whether readinessCh is
-- closed before the timeout and before the context ends; `register` whether the executor and the
-- scheduler take a process without an error.
pub record StartupOps (Sup : Type 0) : Type 0 where
  pub ops : SupervisorOps Sup
  pub mark_ready : Sup → Sup
  pub becomes_ready : Sup → Bool
  pub register : String → Process → Bool

-- The manager, the names of the jobs of its scheduler, and whether that was started.
pub record Runtime (Sup : Type 0) : Type 0 where
  pub manager : Manager Sup
  pub jobs : List String
  pub scheduler_started : Bool

-- `no_fuel` is no result of the program.
pub data StartError : Type 0 where
  pre_start_failed no_fuel : StartError
  no_order : GraphError → StartError
  dependency_missing dependency_not_ready : String → StartError
  not_scheduled not_started : String → StartError

-- The pointers of a configuration followed.
unfoldable pub configured : List Process → List (String × ℕ) → List (String × Process)
configured store [] = []
configured store ((name, p) ∷ l) = (name, get_or store p no_process) ∷ configured store l

abbrev pub wait_for_readiness : Bool → Process → Bool
wait_for_readiness becomes_ready cfg = elim cfg.health_check [
  | none ↦ true
  | some hc ↦
      if not (str_eq hc.mode "readiness") && not (str_eq hc.mode "both") && not (str_eq hc.mode "")
      then (if str_eq hc.mode "liveness" then true else becomes_ready)
      else becomes_ready
]

module _ {Sup : Type 0} where
  unfoldable pub startup_order : Manager Sup → Result (List String)
  unfolding configured
  startup_order m = elim (new_graph_from_config (configured m.store m.config)) [
    | ok g ↦ topological_sort g
    | err e ↦ err e
    | out_of_fuel ↦ out_of_fuel
  ]

  -- The error of getStartupOrder is dropped: its order is nil then.
  unfoldable pub shutdown_order : Manager Sup → List String
  unfolding startup_order
  shutdown_order m = elim (startup_order m) [
    | ok order ↦ reverse order
    | err e ↦ []
    | out_of_fuel ↦ []
  ]

module _ {Sup : Type 0} (w : StartupOps Sup) where
  unfoldable pub wait_for_dependencies : List String → Manager Sup → Option StartError
  wait_for_dependencies [] m = none
  wait_for_dependencies (dep ∷ deps) m =
      let rest = wait_for_dependencies deps m in
      elim (lookup dep m.processes) [
        | none ↦ some (dependency_missing dep)
        | some x ↦
            if wait_for_readiness (w.becomes_ready x.sup) (config_at m x.config)
            then rest
            else some (dependency_not_ready dep)
      ]

  abbrev pub start_regular_process : String → ℕ → Manager Sup → Manager Sup × Bool
  start_regular_process name p m =
      let cfg = config_at m p in
      let x : Managed Sup = record { config = p; sup = w.ops.new cfg } in
      let m' = put name x m in
      if str_eq cfg.initial_state "running"
      then start_managed w.ops name x m'
      else (put name record x { sup = w.mark_ready x.sup } m', true)

  -- The end of a round of Start, behind the wait.
  abbrev pub start_ready : String → ℕ → Runtime Sup → Runtime Sup × Option StartError
  start_ready name p r =
      let cfg = config_at r.manager p in
      let (m', fine) = start_regular_process name p r.manager in
      if not (str_eq cfg.schedule "")
      then (if w.register name cfg
          then (record r { jobs = r.jobs ++ name ∷ [] }, none)
          else (r, some (not_scheduled name)))
      else (record r { manager = m' }, if fine then none else some (not_started name))

  abbrev pub start_enabled : String → ℕ → Runtime Sup → Runtime Sup × Option StartError
  start_enabled name p r =
      let cfg = config_at r.manager p in
      if not cfg.enabled then (r, none) else elim (wait_for_dependencies cfg.depends_on r.manager) [
        | some e ↦ (r, some e)
        | none ↦ start_ready name p r
      ]

  -- A round of the loop of Start.
  unfoldable pub start_name : String → Runtime Sup → Runtime Sup × Option StartError
  unfolding wait_for_dependencies
  start_name name r = elim (lookup name r.manager.config) [
    | none ↦ (r, none)
    | some p ↦ start_enabled name p r
  ]

  unfoldable pub start_names : List String → Runtime Sup → Runtime Sup × Option StartError
  unfolding start_name
  start_names [] r =
      (record r { scheduler_started = r.scheduler_started || ltb 0 (length r.jobs) }, none)
  start_names (name ∷ names) r =
      let (r', e) = start_name name r in
      let rest = start_names names r' in elim e [ some failure ↦ (r', some failure) | none ↦ rest ]

  unfoldable pub start_manager : Bool → Runtime Sup → Runtime Sup × Option StartError
  unfolding startup_order start_names
  start_manager pre_start r =
      if not pre_start then (r, some pre_start_failed) else elim (startup_order r.manager) [
        | ok order ↦ start_names order r
        | err e ↦ (r, some (no_order e))
        | out_of_fuel ↦ (r, some no_fuel)
      ]

  -- Whether any of the stops failed.
  unfoldable pub stop_names : List String → Manager Sup → Manager Sup × Bool
  stop_names [] m = (m, false)
  stop_names (name ∷ names) m = elim (lookup name m.processes) [
    | none ↦ stop_names names m
    | some x ↦
        let (m', fine) = stop_managed w.ops name x m in
        let (m'', failed) = stop_names names m' in (m'', not fine || failed)
  ]

  unfoldable pub shut_down : Runtime Sup → Runtime Sup × Bool
  unfolding shutdown_order stop_names
  shut_down r =
      let (m', failed) = stop_names (shutdown_order r.manager) r.manager in
      (record r { manager = m'; scheduler_started = false }, failed)
