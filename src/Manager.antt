-- ===== src/Manager.antt =====
-- internal/process/manager_scaling.go, manager_config.go and the control commands of
-- manager_lifecycle.go. A pointer to a config.Process is its place in `store`: the configuration and
-- the supervisors hold such pointers, so that a write through one is seen through the other. The
-- supervisors stand behind an interface, which Manager.Supervised fills.
mod Tests
mod StartTests
pub mod Scaling
pub mod Changes
pub mod Linked
pub mod Commands
pub mod Performed
pub mod Reload
pub mod Unchanged
pub mod Supervised
pub mod Startup
pub mod Order
pub mod Rounds
pub mod Started
pub mod Running
pub mod Succeeds
pub mod Shutdown
use phpeek_pm.Prelude.{
  ℕ, ◌+◌, Bool, true, false, not, ◌&&◌, if◌then◌else◌, List, [], ◌∷◌, ◌++◌, String, str_eq, Option,
  none, some, lookup, insert, delete, keys, ℤ, pos, pos_part, ◌+ℤ◌, leb_ℤ, ltb_ℤ, ltb, ◌==◌, length,
  get_or, set,
}
use phpeek_pm.Config.{Process, no_process}
use phpeek_pm.Supervisor.{
  ProcessState, is_running, stopped, running, starting, stopping, failed, completed,
}

-- What the manager calls of a supervisor. Start reads the scale of its configuration; the Boolean says
-- whether the call returned no error.
pub record SupervisorOps (Sup : Type 0) : Type 0 where
  pub new : Process → Sup
  pub state : Sup → ProcessState
  pub size : Sup → ℕ
  pub start : ℤ → Sup → Sup × Bool
  pub stop : Sup → Sup × Bool
  pub scale_up : ℕ → Sup → Sup × Bool
  pub scale_down : ℕ → Sup → Sup × Bool

-- A supervisor with its pointer to its configuration.
pub record Managed (Sup : Type 0) : Type 0 where
  pub config : ℕ
  pub sup : Sup

pub record Manager (Sup : Type 0) : Type 0 where
  pub store : List Process
  pub config : List (String × ℕ)
  pub processes : List (String × Managed Sup)
  pub max_process_scale : ℤ

pub data ManagerError : Type 0 where
  empty_name not_found already_exists not_configured disabled not_stopped : ManagerError
  empty_command bad_scale above_maximum above_max_scale oneshot_process : ManagerError
  start_failed stop_failed scale_failed restarts_failed : ManagerError

abbrev pub is_stopped : ProcessState → Bool
is_stopped stopped = true
is_stopped running = false
is_stopped starting = false
is_stopped stopping = false
is_stopped failed = false
is_stopped completed = false

abbrev pub fails_with : ManagerError → Bool → Option ManagerError
fails_with e true = none
fails_with e false = some e

module _ {Sup : Type 0} where
  abbrev pub config_at : Manager Sup → ℕ → Process
  config_at m p = get_or m.store p no_process

  abbrev pub put : String → Managed Sup → Manager Sup → Manager Sup
  put name x m = record m { processes = insert name x m.processes }

  -- cfg.Scale = scale
  abbrev pub set_scale : ℕ → ℤ → Manager Sup → Manager Sup
  set_scale p scale m = record m { store = set m.store p record (config_at m p) { scale = scale } }

  unfoldable pub update_scale_config : String → ℤ → Manager Sup → Manager Sup
  update_scale_config name scale m = elim (lookup name m.config) [
    | none ↦ m
    | some p ↦ set_scale p scale m
  ]

-- `if target < 0 { target = 0 }`
abbrev pub adjusted : ℕ → ℤ → ℕ
adjusted current delta = pos_part (pos current +ℤ delta)

abbrev pub is_zero : ℤ → Bool
is_zero (pos n) = n == 0
is_zero (ℤ.negsuc n) = false

module _ {Sup : Type 0} (ops : SupervisorOps Sup) where
  -- sup.Start and sup.Stop of a managed process.
  abbrev pub start_managed : String → Managed Sup → Manager Sup → Manager Sup × Bool
  start_managed name x m =
      let (sup, ok) = ops.start (config_at m x.config).scale x.sup in
      (put name record x { sup = sup } m, ok)

  abbrev pub stop_managed : String → Managed Sup → Manager Sup → Manager Sup × Bool
  stop_managed name x m = let (sup, ok) = ops.stop x.sup in (put name record x { sup = sup } m, ok)

  abbrev pub start_found :
      String → Managed Sup → ℕ → Manager Sup → Manager Sup × Option ManagerError
  start_found name x p m =
      if not (config_at m p).enabled
      then (m, some disabled)
      else if not (is_stopped (ops.state x.sup))
      then (m, some not_stopped)
      else (let (m', ok) = start_managed name x m in (m', fails_with start_failed ok))

  unfoldable pub start_process : String → Manager Sup → Manager Sup × Option ManagerError
  start_process name m =
      if str_eq name "" then (m, some empty_name) else elim (lookup name m.processes) [
        | none ↦ (m, some not_found)
        | some x ↦ elim (lookup name m.config) [
          | none ↦ (m, some not_configured)
          | some p ↦ start_found name x p m
        ]
      ]

  unfoldable pub stop_process : String → Manager Sup → Manager Sup × Option ManagerError
  stop_process name m =
      if str_eq name "" then (m, some empty_name) else elim (lookup name m.processes) [
        | none ↦ (m, some not_found)
        | some x ↦
            if is_stopped (ops.state x.sup)
            then (m, none)
            else (let (m', ok) = stop_managed name x m in (m', fails_with stop_failed ok))
      ]

  -- Stop, and then Start if that returned no error.
  abbrev pub stop_and_start : String → Managed Sup → Manager Sup → Manager Sup × Option ManagerError
  stop_and_start name x m =
      let (sup, stopped_it) = ops.stop x.sup in
      let x' = record x { sup = sup } in
      let m' = put name x' m in
      if stopped_it
      then (let (m'', ok) = start_managed name x' m' in (m'', fails_with start_failed ok))
      else (m', some stop_failed)

  unfoldable pub restart_process : String → Manager Sup → Manager Sup × Option ManagerError
  restart_process name m =
      if str_eq name "" then (m, some empty_name) else elim (lookup name m.processes) [
        | none ↦ (m, some not_found)
        | some x ↦ elim (lookup name m.config) [
          | none ↦ (m, some not_configured)
          | some p ↦
              if is_stopped (ops.state x.sup) then start_process name m else stop_and_start name x m
        ]
      ]

  abbrev pub scale_to_zero : String → Managed Sup → Manager Sup → Manager Sup × Option ManagerError
  scale_to_zero name x m =
      if ops.size x.sup == 0
      then (m, none)
      else (let (m', ok) = stop_managed name x m in
          if ok then (update_scale_config name (pos 0) m', none) else (m', some stop_failed))

  abbrev pub scale_up_managed : String → ℕ → Managed Sup → Manager Sup → Manager Sup × Bool
  scale_up_managed name n x m =
      let (sup, ok) = ops.scale_up n x.sup in (put name record x { sup = sup } m, ok)

  abbrev pub scale_down_managed : String → ℕ → Managed Sup → Manager Sup → Manager Sup × Bool
  scale_down_managed name n x m =
      let (sup, ok) = ops.scale_down n x.sup in (put name record x { sup = sup } m, ok)

  -- scaleFromZero at a positive scale: `p` is the manager's pointer to the configuration, which need not
  -- be that of the supervisor.
  abbrev pub scale_from_zero :
      String → ℕ → Managed Sup → ℕ → Manager Sup → Manager Sup × Option ManagerError
  scale_from_zero name n x p m =
      let m' = set_scale p (pos n) m in
      let (sup, ok) = ops.start (config_at m' x.config).scale x.sup in
      let x' = record x { sup = sup } in
      let started = put name x' m' in
      if not ok
      then (started, some start_failed)
      else if n == 1
      then (started, none)
      else if ltb (ops.size sup) n
      then (let (m'', ok') = scale_up_managed name n x' started in
          (m'', fails_with scale_failed ok'))
      else (started, none)

  abbrev pub scale_running :
      String → ℕ → Managed Sup → Manager Sup → Manager Sup × Option ManagerError
  scale_running name n x m =
      let current = ops.size x.sup in
      let (m', ok) =
        if ltb current n then scale_up_managed name n x m else scale_down_managed name n x m in
      if current == n
      then (m, none)
      else if ok
      then (update_scale_config name (pos n) m', none)
      else (m', some scale_failed)

  abbrev pub scale_found :
      String → ℤ → Managed Sup → ℕ → Manager Sup → Manager Sup × Option ManagerError
  scale_found name desired x p m =
      let cfg = config_at m p in
      if ltb_ℤ (pos 0) cfg.max_scale && ltb_ℤ cfg.max_scale desired
      then (m, some above_max_scale)
      else if str_eq cfg.type "oneshot"
      then (m, some oneshot_process)
      else if leb_ℤ desired (pos 0)
      then scale_to_zero name x m
      else if ops.size x.sup == 0
      then scale_from_zero name (pos_part desired) x p m
      else scale_running name (pos_part desired) x m

  unfoldable pub scale_process : String → ℤ → Manager Sup → Manager Sup × Option ManagerError
  scale_process name desired m =
      if str_eq name ""
      then (m, some empty_name)
      else if ltb_ℤ m.max_process_scale desired
      then (m, some above_maximum)
      else elim (lookup name m.config) [
        | none ↦ (m, some not_found)
        | some p ↦ elim (lookup name m.processes) [
          | none ↦ (m, some not_found)
          | some x ↦ scale_found name desired x p m
        ]
      ]

  abbrev pub adjust_found :
      String → ℤ → Managed Sup → ℕ → Manager Sup → Manager Sup × Option ManagerError
  adjust_found name delta x p m =
      let cfg = config_at m p in
      let current = ops.size x.sup in
      let target = adjusted current delta in
      if ltb_ℤ (pos 0) cfg.max_scale && ltb_ℤ cfg.max_scale (pos target)
      then (m, some above_max_scale)
      else if target == current
      then (m, none)
      else scale_process name (pos target) m

  unfoldable pub adjust_scale : String → ℤ → Manager Sup → Manager Sup × Option ManagerError
  unfolding ◌+ℤ◌
  adjust_scale name delta m = if is_zero delta then (m, none) else elim (lookup name m.config) [
    | none ↦ (m, some not_found)
    | some p ↦ elim (lookup name m.processes) [
      | none ↦ (m, some not_found)
      | some x ↦ adjust_found name delta x p m
    ]
  ]
