-- ===== src/Manager/Changes.antt =====
-- internal/process/manager_config.go: changes of the configuration while the manager runs.
use phpeek_pm.Prelude.{
  ℕ, Bool, true, false, not, if◌then◌else◌, List, [], ◌∷◌, ◌++◌, String, str_eq, Option, none, some,
  lookup, insert, delete, keys, ℤ, pos, ltb_ℤ, length, ◌||◌,
}
use phpeek_pm.Config.{Process}
use phpeek_pm.Manager.{
  SupervisorOps, Managed, Manager, ManagerError, empty_name, not_found, already_exists,
  empty_command, bad_scale, start_failed, stop_failed, restarts_failed, put, stop_managed,
  start_process, stop_process, restart_process, scale_process, adjust_scale,
}

abbrev pub is_none {ℓ} : {A : Type ℓ} → Option A → Bool
is_none none = true
is_none (some a) = false

abbrev pub is_empty {ℓ} : {A : Type ℓ} → List A → Bool
is_empty [] = true
is_empty (a ∷ l) = false

module _ {Sup : Type 0} where
  -- m.config.Processes[name] = procCfg, for a new pointer.
  abbrev pub add_config : String → Process → Manager Sup → Manager Sup
  add_config name cfg m = record m {
    store = m.store ++ cfg ∷ [];
    config = insert name (length m.store) m.config;
  }

  abbrev pub drop_config : String → Manager Sup → Manager Sup
  drop_config name m = record m { config = delete name m.config }

  abbrev pub drop_process : String → Manager Sup → Manager Sup
  drop_process name m = record m { processes = delete name m.processes }

  -- m.config.Processes[name] = oldCfg
  abbrev pub roll_back : String → ℕ → Manager Sup → Manager Sup
  roll_back name old m = record m { config = insert name old m.config }

module _ {Sup : Type 0} (ops : SupervisorOps Sup) where
  -- A new supervisor for the configuration that add_config has just stored behind `p`; `back` is the
  -- state where its Start fails.
  abbrev pub start_new :
      String → Process → ℕ → Manager Sup → Manager Sup → Manager Sup × Option ManagerError
  start_new name cfg p back m =
      let (sup, ok) = ops.start cfg.scale (ops.new cfg) in
      if ok then (put name record { config = p; sup = sup } m, none) else (back, some start_failed)

  abbrev pub add_new : String → Process → Manager Sup → Manager Sup × Option ManagerError
  add_new name cfg m =
      let added = add_config name cfg m in
      if cfg.enabled
      then start_new name cfg (length m.store) (drop_config name added) added
      else (added, none)

  unfoldable pub add_process : String → Process → Manager Sup → Manager Sup × Option ManagerError
  add_process name cfg m =
      if str_eq name ""
      then (m, some empty_name)
      else if not (is_none (lookup name m.config))
      then (m, some already_exists)
      else if is_empty cfg.command
      then (m, some empty_command)
      else if ltb_ℤ cfg.scale (pos 1)
      then (m, some bad_scale)
      else add_new name cfg m

  abbrev pub remove_managed : String → Managed Sup → Manager Sup → Manager Sup × Option ManagerError
  remove_managed name x m =
      let (m', ok) = stop_managed ops name x m in
      if ok then (drop_config name (drop_process name m'), none) else (m', some stop_failed)

  unfoldable pub remove_process : String → Manager Sup → Manager Sup × Option ManagerError
  remove_process name m =
      if is_none (lookup name m.config)
      then (m, some not_found)
      else elim (lookup name m.processes) [
        | none ↦ (drop_config name m, none)
        | some x ↦ remove_managed name x m
      ]

  abbrev pub update_managed :
      String → Process → ℕ → Managed Sup → Manager Sup → Manager Sup × Option ManagerError
  update_managed name cfg old x m =
      let p = length m.store in
      let (stopped, ok) = stop_managed ops name x (add_config name cfg m) in
      if not ok
      then (roll_back name old stopped, some stop_failed)
      else if cfg.enabled
      then start_new name cfg p (roll_back name old stopped) stopped
      else (drop_process name stopped, none)

  abbrev pub update_unmanaged :
      String → Process → ℕ → Manager Sup → Manager Sup × Option ManagerError
  update_unmanaged name cfg old m =
      let added = add_config name cfg m in
      if cfg.enabled
      then start_new name cfg (length m.store) (roll_back name old added) added
      else (added, none)

  unfoldable pub update_process_locked :
      String → Process → Manager Sup → Manager Sup × Option ManagerError
  update_process_locked name cfg m = elim (lookup name m.config) [
    | none ↦ (m, some not_found)
    | some old ↦
        if is_empty cfg.command
        then (m, some empty_command)
        else if ltb_ℤ cfg.scale (pos 1)
        then (m, some bad_scale)
        else elim (lookup name m.processes) [
          | none ↦ update_unmanaged name cfg old m
          | some x ↦ update_managed name cfg old x m
        ]
  ]

  -- Whether any of the restarts failed.
  unfoldable pub restart_names : List String → Manager Sup → Manager Sup × Bool
  restart_names [] m = (m, false)
  restart_names (name ∷ names) m =
      let (m', e) = restart_process ops name m in
      let (m'', failed) = restart_names names m' in (m'', not (is_none e) || failed)

  unfoldable pub restart_all_processes : Manager Sup → Manager Sup × Option ManagerError
  restart_all_processes m =
      let (m', failed) = restart_names (keys m.processes) m in
      (m', if failed then some restarts_failed else none)

  unfoldable pub update_process : String → Process → Manager Sup → Manager Sup × Option ManagerError
  update_process name cfg m =
      let (m', e) = update_process_locked name cfg m in
      elim e [ some failure ↦ (m', some failure) | none ↦ restart_all_processes m' ]

-- A request to the manager.
pub data Command : Type 0 where
  start stop restart remove : String → Command
  scale adjust : String → ℤ → Command
  add update : String → Process → Command

module _ {Sup : Type 0} (ops : SupervisorOps Sup) where
  unfoldable pub perform : Command → Manager Sup → Manager Sup × Option ManagerError
  perform (start name) m = start_process ops name m
  perform (stop name) m = stop_process ops name m
  perform (restart name) m = restart_process ops name m
  perform (remove name) m = remove_process ops name m
  perform (scale name desired) m = scale_process ops name desired m
  perform (adjust name delta) m = adjust_scale ops name delta m
  perform (add name cfg) m = add_process ops name cfg m
  perform (update name cfg) m = update_process ops name cfg m
