-- ===== src/Manager/Reload.antt =====
-- internal/process/manager_config.go, ReloadConfig: from the configuration that the file now holds.
use phpeek_pm.Prelude.{
  ℕ, suc, Bool, false, not, if◌then◌else◌, List, [], ◌∷◌, ◌++◌, String, Option, none, some, lookup,
  length,
}
use phpeek_pm.Config.{Process, equal}
use phpeek_pm.Manager.{SupervisorOps, Managed, Manager, config_at, put, stop_managed}
use phpeek_pm.Manager.Changes.{is_none, drop_process}

-- The names of the processes for which a test holds.
unfoldable pub select {ℓ} : {V : Type ℓ} → (String → V → Bool) → List (String × V) → List String
select test [] = []
select test ((name, v) ∷ l) = let rest = select test l in if test name v then name ∷ rest else rest

-- Pointers to the processes of a new configuration.
unfoldable pub number : ℕ → List (String × Process) → List (String × ℕ)
number n [] = []
number n ((name, cfg) ∷ l) = (name, n) ∷ number (suc n) l

unfoldable pub values : List (String × Process) → List Process
values [] = []
values ((name, cfg) ∷ l) = cfg ∷ values l

abbrev pub pointer : Option ℕ → ℕ
pointer none = 0
pointer (some p) = p

module _ {Sup : Type 0} where
  -- `oldProc, exists := m.config.Processes[name]`, where they are compared.
  abbrev pub differs : Manager Sup → Process → Option ℕ → Bool
  differs m cfg none = false
  differs m cfg (some p) = not (equal (config_at m p) cfg)

  unfoldable pub to_stop : List (String × Process) → Manager Sup → List String
  unfolding select
  to_stop new m = select (λ name p. is_none (lookup name new)) m.config

  unfoldable pub to_start : List (String × Process) → Manager Sup → List String
  unfolding select
  to_start new m = select (λ name cfg. is_none (lookup name m.config)) new

  unfoldable pub to_update : List (String × Process) → Manager Sup → List String
  unfolding select
  to_update new m = select (λ name cfg. differs m cfg (lookup name m.config)) new

  -- m.config = newCfg
  unfoldable pub take_config : List (String × Process) → Manager Sup → Manager Sup
  unfolding number values
  take_config new m = record m {
    store = m.store ++ values new;
    config = number (length m.store) new;
  }

  unfoldable pub each :
      (String → Manager Sup → Manager Sup) → List String → Manager Sup → Manager Sup
  each step [] m = m
  each step (name ∷ names) m = each step names (step name m)

module _ {Sup : Type 0} (ops : SupervisorOps Sup) where
  unfoldable pub stop_removed_process : String → Manager Sup → Manager Sup
  stop_removed_process name m = elim (lookup name m.processes) [
    | none ↦ m
    | some x ↦ drop_process name (stop_managed ops name x m).0
  ]

  -- A new supervisor; if its Start fails, there is none, or the old one.
  abbrev pub start_again : String → Manager Sup → Manager Sup
  start_again name m =
      let p = pointer (lookup name m.config) in
      let cfg = config_at m p in
      let (sup, ok) = ops.start cfg.scale (ops.new cfg) in
      if ok then put name record { config = p; sup = sup } m else m

  unfoldable pub start_new_process : String → Manager Sup → Manager Sup
  start_new_process name m =
      if (config_at m (pointer (lookup name m.config))).enabled then start_again name m else m

  abbrev pub update_running : String → Managed Sup → Manager Sup → Manager Sup
  update_running name x m =
      let (stopped, ok) = stop_managed ops name x m in
      if not ok
      then stopped
      else if (config_at m (pointer (lookup name m.config))).enabled
      then start_again name stopped
      else drop_process name stopped

  unfoldable pub update_changed_process : String → Manager Sup → Manager Sup
  unfolding start_new_process
  update_changed_process name m = elim (lookup name m.processes) [
    | some x ↦ update_running name x m
    | none ↦ start_new_process name m
  ]

  unfoldable pub reload_config : List (String × Process) → Manager Sup → Manager Sup
  unfolding each stop_removed_process start_new_process update_changed_process take_config to_stop
      to_start to_update
  reload_config new m = each update_changed_process (to_update new m) (
      each start_new_process (to_start new m)
        (take_config new (each stop_removed_process (to_stop new m) m)))
