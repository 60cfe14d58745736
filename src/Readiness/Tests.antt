-- ===== src/Readiness/Tests.antt =====
-- The readiness manager at concrete inputs.
use phpeek_pm.Prelude.{◌≡◌, ◌≢◌, ◌↔◌, refl, [], ◌∷◌, some, none, true, lookup, insert, delete, inl}
use phpeek_pm.Readiness.{
  running, healthy, ReadinessConfig, timestamp, done, World, Manager, new_manager,
  remove_readiness_file, create_readiness_file, set_ready, is_process_ready, all_ready,
  evaluate_readiness, start, stop, track_all, set_tracked_processes, update_process_state,
  remove_process, get_status,
}
use phpeek_pm.Readiness.Criteria.{AllMeet, update_process_state-is_ready}
use phpeek_pm.Readiness.File.{InSync, manager-InSync}
use phpeek_pm.Readiness.Shutdown.{update_process_state-stop}

runs : Unit {0}
unfolding new_manager remove_readiness_file create_readiness_file set_ready is_process_ready
    all_ready evaluate_readiness start stop track_all set_tracked_processes update_process_state
    remove_process get_status lookup insert delete
runs = tt

abbrev config : ReadinessConfig
config = record { enabled = true; mode = "all_healthy"; content = ""; processes = [] }

abbrev world : World
world = record { result = done; now = 17 }

abbrev manager : Manager
manager = set_tracked_processes ("web" ∷ []) (new_manager config none)

created : (update_process_state world "web" healthy "healthy" manager).file ≡ some (timestamp 17)
unfolding runs
created = refl

waits : (update_process_state world "web" running "unknown" manager).file ≡ none
unfolding runs
waits = refl

-- The file comes back after a stop.
recreated :
    (update_process_state world "web" healthy "healthy" (stop world manager)).file
    ≡ some (timestamp 17)
unfolding runs
recreated = refl

update_process_state-is_ready_example :
    ((update_process_state world "web" healthy "healthy" manager).is_ready ≡ true)
    ↔ AllMeet manager.config (
        insert "web"
          (record { name = "web"; state = healthy; health = "healthy" })
          manager.processes)
update_process_state-is_ready_example =
    update_process_state-is_ready world "web" healthy "healthy" manager (unfold runs in refl)
      (unfold runs in inl refl) (unfold runs in (refl, tt))

manager-InSync_example :
    InSync (update_process_state world "web" healthy "healthy" manager)
    × InSync (remove_process world "web" manager)
    × InSync (set_tracked_processes ("db" ∷ []) manager)
manager-InSync_example =
    manager-InSync world manager "web" healthy "healthy" ("db" ∷ []) refl
      (unfold runs in record { created = λ e. cc; removed = λ e. refl })

update_process_state-stop_example :
    (update_process_state world "web" healthy "healthy" (stop world manager)).file ≢ none
update_process_state-stop_example =
    update_process_state-stop world world "web" healthy "healthy" manager (unfold runs in refl) refl
      refl (unfold runs in refl) (unfold runs in inl refl) (unfold runs in refl)
      (unfold runs in refl)
