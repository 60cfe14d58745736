-- ===== src/Supervisor/Tests.antt =====
-- A supervisor at concrete inputs.
use phpeek_pm.Prelude.{
  ℕ, true, false, if◌then◌else◌, ◌≡◌, refl, [], ◌∷◌, pos, length, get_elem?, Option, none, some,
  All, ◌<◌, ◌≤◌, ◌*◌, ◌≢◌, ◌⊎◌, ◌==◌,
}
use phpeek_pm.Restart.{second, always, should_restart}
use phpeek_pm.Supervisor.{
  running, stopped, failed, exited, backing_off, counting, replacing, Instance, no_operation, live,
  cancelled, Settings, Supervisor, new_supervisor, started, start_from, start, start_failed,
  check_all_instances_dead, process_exit, handle_oneshot_exit, monitor_instance, replace_id,
  attempt_restart, count_restart, replace_instance, begin_scale_up, scale_up_next, begin_scale_down,
  begin_stop, stop_instance, stop_next,
}
use phpeek_pm.Supervisor.Steps.{Reach, here, next, start_all, restart, all_finished}
use phpeek_pm.Supervisor.Instances.{IsConsistent}
use phpeek_pm.Supervisor.Reached.{Reach-AllConsistent}
use phpeek_pm.Supervisor.Positions.{Placed}
use phpeek_pm.Supervisor.Numbered.{Managed, unmoved, step, Managed-IsNumbered}
use phpeek_pm.Supervisor.Waiting.{Turns, no_turn, turn, Turns-end}
use phpeek_pm.Supervisor.Restarts.{restart_forgets}
use phpeek_pm.Supervisor.Deaths.{dead_before_restart}
use phpeek_pm.Supervisor.Orphans.{scale_down_orphans}

runs : Unit {0}
unfolding should_restart start_from start check_all_instances_dead process_exit handle_oneshot_exit
    monitor_instance replace_id attempt_restart count_restart replace_instance begin_scale_up
    scale_up_next begin_scale_down begin_stop stop_instance stop_next
runs = tt

abbrev settings : Settings
settings = record {
  oneshot = false;
  restart_policy = always record {
    max_attempts = pos 3;
    initial_backoff = pos second;
    max_backoff = pos (60 * second);
  };
  has_health_check = false;
  health_check_strict = false;
  death_notifier = true;
}

abbrev fork : ℕ → Option ℕ
fork i = some 100

-- Two instances, both of which run.
abbrev two : Supervisor
two = record {
  scale = pos 2;
  heap = started 0 100 ∷ started 1 100 ∷ [];
  instances = 0 ∷ 1 ∷ [];
  state = running;
  ctx = live;
  is_ready = true;
  deaths = 0;
  operation = no_operation;
}

two_started : (start settings fork true (new_supervisor (pos 2))) ≡ (two, none)
unfolding runs
two_started = refl

half_started :
    let (s, e) =
      start settings (λ i. if i == 1 then none else some 7) true (new_supervisor (pos 2)) in
    (s.state ≡ failed) × (s.instances ≡ 0 ∷ []) × (s.ctx ≡ cancelled) × (e ≡ some (start_failed 1))
unfolding runs
half_started = (refl, refl, refl, refl)

abbrev crashed : Instance
crashed = record (started 1 100) { state = stopped; monitor = backing_off (pos 1) 0 }

abbrev one_down : Supervisor
one_down = record two { heap = started 0 100 ∷ crashed ∷ [] }

crash :
    monitor_instance settings 1
      (pos 1)
      0
      record crashed { monitor = exited (pos 1) 0 }
      (process_exit 1 (pos 1) (started 1 100) two)
    ≡ one_down
unfolding runs
crash = refl

abbrev restarting : Instance
restarting = record crashed { monitor = counting 2 0 }

abbrev replaced : Instance
replaced = record crashed { monitor = replacing 2 }

abbrev back_again : Supervisor
back_again =
    replace_instance 1 2 replaced
      (count_restart 1 2 0 restarting (attempt_restart (some 101) 1 0 crashed one_down))

restarted :
    (back_again.instances ≡ 0 ∷ 2 ∷ [])
    × (get_elem? back_again.heap 2 ≡ some record (started 1 101) { restart_count = 1 })
unfolding runs
restarted = (refl, refl)

reached_two : Reach settings (new_supervisor (pos 2)) two
unfolding runs
reached_two = next here (start_all fork true refl refl)

Reach-AllConsistent_example : All (IsConsistent settings) two.heap
Reach-AllConsistent_example = Reach-AllConsistent settings (pos 2) reached_two

managed_two : Managed settings (new_supervisor (pos 2)) two
unfolding runs
managed_two = step unmoved (start_all fork true refl refl) refl

Managed-IsNumbered_example :
    Placed two.heap 0 two.instances
    × ((two.state ≢ stopped) ⊎ ((two.instances ≡ []) × (two.operation ≡ no_operation)))
Managed-IsNumbered_example = Managed-IsNumbered settings (pos 2) managed_two

abbrev cancelled_one : Supervisor
cancelled_one = record one_down { ctx = cancelled }

cancelled_is_not_live : cancelled_one.ctx ≢ live
cancelled_is_not_live e = cc

abbrev given_up : Supervisor
given_up = attempt_restart (some 101) 1 0 crashed cancelled_one

one_turn : Turns settings cancelled_one 1 given_up
unfolding runs
one_turn = turn no_turn (restart (some 101) 1 crashed (pos 1) 0 refl refl refl) tt

Turns-end_example :
    (1 ≤ 3 * length cancelled_one.heap)
    × (length given_up.heap ≡ length cancelled_one.heap)
    × ((m : ℕ) × (u : Supervisor) × Turns settings given_up m u
        × (m ≤ 3 * length cancelled_one.heap)
        × (all_finished u.heap ≡ true))
Turns-end_example = Turns-end settings cancelled_one cancelled_is_not_live 1 given_up one_turn

restart_forgets_example :
    (u : Supervisor) × (j : Instance) × Reach settings one_down u
    × (get_elem? u.heap 2 ≡ some j)
    × (j.restart_count ≡ 1)
    × (j.monitor ≡ backing_off (pos 1) 0)
restart_forgets_example =
    restart_forgets settings one_down 1 crashed (pos 1) 0 101 refl refl refl (pos 1) refl
      (unfold runs in refl)

scale_down_orphans_example :
    (t : Supervisor) × Reach settings one_down t
    × (t.operation ≡ no_operation)
    × (t.instances ≡ 0 ∷ [])
    × (get_elem? t.heap 2 ≡ some record (started 1 101) { restart_count = 1 })
    × All (λ k. k < 2) t.instances
scale_down_orphans_example =
    scale_down_orphans settings one_down (0 ∷ []) 1 crashed (pos 1) 0 101 refl refl refl
      (refl, (refl, tt)) refl refl refl

abbrev spent : Instance
spent = record (started 0 100) { restart_count = 3; state = stopped; monitor = exited (pos 1) 3 }

abbrev one_spent : Supervisor
one_spent = record two { heap = spent ∷ crashed ∷ [] }

dead_before_restart_example :
    (t : Supervisor) × (u : Supervisor) × Reach settings one_spent t
    × (t.deaths ≡ 1)
    × (t.instances ≡ 0 ∷ 1 ∷ [])
    × Reach settings t u
    × (get_elem? u.heap (length t.heap) ≡ some record (started 1 101) { restart_count = 1 })
unfolding runs
dead_before_restart_example =
    dead_before_restart settings refl refl one_spent 0 1 spent crashed (pos 1) (pos 1) 3 0 101 refl
      refl refl refl refl refl refl refl refl refl (λ e. cc)
