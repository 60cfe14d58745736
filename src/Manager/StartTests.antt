-- ===== src/Manager/StartTests.antt =====
-- Start and Shutdown at concrete configurations.
use phpeek_pm.Prelude.{
  ℕ, ◌≡◌, ◌≢◌, ◌⊎◌, zero, suc, false_ne_true, eq_iff, HasUniqueKeys, ◌+ℤ◌, refl, true, false, [],
  ◌∷◌, pos, none, some, lookup, insert,
}
use phpeek_pm.Config.{Process, no_process}
use phpeek_pm.Supervisor.{ProcessState, running}
use phpeek_pm.Deps.{
  contains, add_node, dependencies, validate_deps, validate_nodes, validate, add_enabled,
  new_graph_from_config,
}
use phpeek_pm.Deps.{visit_deps, has_cycle_dfs, search_from, has_cycle}
use phpeek_pm.Deps.Topological.{
  place, sort_from, sort_alphabetically, in_degrees, ready_nodes, relax_one, relax, drain, kahn,
  check_complete, sort_after, topological_sort,
}
use phpeek_pm.Manager.{Managed, config_at}
use phpeek_pm.Manager.Changes.{add_process}
use phpeek_pm.Manager.Startup.{
  StartupOps, Runtime, pre_start_failed, configured, startup_order, shutdown_order,
  wait_for_dependencies, start_name, start_names, start_manager, stop_names, shut_down,
}
use phpeek_pm.Manager.Order.{AreReady}
use phpeek_pm.Manager.Running.{RunsAs, start_manager-RunsAs}
use phpeek_pm.Manager.Started.{start_name-AreReady, start_manager_scheduled}
use phpeek_pm.Manager.Succeeds.{AllGoesWell, start_manager-succeeds}
use phpeek_pm.Manager.Shutdown.{IsDown, shut_down-IsDown, shut_down_nothing}
use phpeek_pm.Manager.Tests.{obedient, obedient-SupervisorLaws}

runs : Unit {0}
unfolding lookup insert contains add_node dependencies validate_deps validate_nodes validate
    visit_deps has_cycle_dfs search_from has_cycle place sort_from sort_alphabetically in_degrees
    ready_nodes relax_one relax drain kahn check_complete sort_after topological_sort ◌+ℤ◌
    add_enabled new_graph_from_config add_process configured startup_order shutdown_order
    wait_for_dependencies start_name start_names start_manager stop_names shut_down
runs = tt

abbrev outside : StartupOps (ProcessState × ℕ)
outside = record {
  ops = obedient;
  mark_ready = λ s. s;
  becomes_ready = λ s. true;
  register = λ name cfg. true;
}

abbrev db : Process
db = record no_process {
  enabled = true;
  initial_state = "running";
  command = "db" ∷ [];
  scale = pos 1;
}

abbrev web : Process
web = record db { command = "serve" ∷ []; depends_on = "db" ∷ [] }

abbrev nightly : Process
nightly = record db { schedule = "@daily" }

abbrev configured_with : Process → Runtime (ProcessState × ℕ)
configured_with second = record {
  manager = record {
    store = web ∷ second ∷ [];
    config = ("web", 0) ∷ ("db", 1) ∷ [];
    processes = [];
    max_process_scale = pos 100;
  };
  jobs = [];
  scheduler_started = false;
}

abbrev runtime : Runtime (ProcessState × ℕ)
runtime = configured_with db

abbrev running_one : ℕ → Managed (ProcessState × ℕ)
running_one p = record { config = p; sup = (running, 1) }

abbrev started : Runtime (ProcessState × ℕ)
started = record runtime {
  manager = record runtime.manager {
    processes = ("db", running_one 1) ∷ ("web", running_one 0) ∷ [];
  };
}

starts : start_manager outside true runtime ≡ (started, none)
unfolding runs
starts = refl

failed_hook : start_manager outside false runtime ≡ (runtime, some pre_start_failed)
unfolding runs
failed_hook = refl

two_unique : HasUniqueKeys runtime.manager.config
unfolding runs
two_unique = (refl, (refl, tt))

start_manager-RunsAs_example :
    RunsAs outside 0 web (lookup "web" (start_manager outside true runtime).0.manager.processes)
unfolding runs
start_manager-RunsAs_example =
    start_manager-RunsAs outside true runtime "web" 0 two_unique refl refl refl refl

start_name-AreReady_example :
    ((start_name outside "web" started).0 ≡ started) ⊎ AreReady outside ("db" ∷ []) started.manager
unfolding runs
start_name-AreReady_example = start_name-AreReady outside "web" started 0 refl

start_manager_scheduled_example : (start_manager outside true (configured_with nightly)).1 ≢ none
unfolding runs
start_manager_scheduled_example =
    start_manager_scheduled outside true (configured_with nightly) "web" "db" 0 1 two_unique refl
      refl refl refl refl (λ e. false_ne_true ((eq_iff "@daily" "").1 e))

outside-AllGoesWell : AllGoesWell outside
outside-AllGoesWell = record {
  starts = λ cfg. refl;
  ready = λ s. refl;
  registers = λ name cfg. refl;
}

plain : (q : ℕ) → (config_at runtime.manager q).schedule ≡ ""
plain zero = refl
plain (suc zero) = refl
plain (suc (suc q)) = refl

start_manager-succeeds_example : (start_manager outside true runtime).1 ≡ none
unfolding runs
start_manager-succeeds_example =
    start_manager-succeeds outside outside-AllGoesWell runtime ("db" ∷ "web" ∷ []) two_unique refl
      (λ name d p q found on among found_d. plain q)

shut_down-IsDown_example : IsDown outside "web" (shut_down outside started).0.manager
unfolding runs
shut_down-IsDown_example =
    shut_down-IsDown outside obedient-SupervisorLaws started ("db" ∷ "web" ∷ []) "web" 0 two_unique
      refl refl refl (λ e. cc)

-- A process that is added later may depend on one that is not there.
abbrev added : Runtime (ProcessState × ℕ)
added = record started {
  manager =
      (add_process obedient "late" (record web { depends_on = "cache" ∷ [] }) started.manager).0;
}

three_unique : HasUniqueKeys added.manager.config
unfolding runs
three_unique = (refl, (refl, (refl, tt)))

shut_down_nothing_example :
    ((shut_down outside added).0.manager ≡ added.manager) × ((shut_down outside added).1 ≡ false)
unfolding runs
shut_down_nothing_example =
    shut_down_nothing outside added "late" "cache" 2 three_unique refl refl refl (λ q found. cc)
