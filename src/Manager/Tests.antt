-- ===== src/Manager/Tests.antt =====
-- The manager at concrete inputs, over supervisors that do at once what they are told.
use phpeek_pm.Prelude.{
  ℕ, ltb, if◌then◌else◌, ◌≡◌, ◌<◌, refl, arith, inl, inr, true, false, [], ◌∷◌, str_eq, pos, negsuc,
  pos_part, ◌+ℤ◌, Option, none, some, some_inj, lookup, insert, delete, subst, ap, Bool-cases,
}
use phpeek_pm.Config.{
  Process, no_process, equal, string_slice_equal, elements_equal, string_map_equal, entries_in,
}
use phpeek_pm.Supervisor.{ProcessState, stopped, running, Settings, Supervisor}
use phpeek_pm.Restart.{never}
use phpeek_pm.Manager.{
  SupervisorOps, Managed, Manager, above_max_scale, update_scale_config, start_process,
  stop_process, restart_process, scale_process, adjust_scale,
}
use phpeek_pm.Manager.Scaling.{SupervisorLaws, scale_process_lem}
use phpeek_pm.Manager.Changes.{
  update, perform, update_process, update_process_locked, restart_names, restart_all_processes,
  add_process, remove_process,
}
use phpeek_pm.Manager.Linked.{IsLinked}
use phpeek_pm.Manager.Performed.{perform-IsLinked}
use phpeek_pm.Manager.Reload.{reload_config}
use phpeek_pm.Manager.Unchanged.{reload_config-unchanged}

runs : Unit {0}
unfolding lookup insert delete update_scale_config start_process stop_process restart_process
    scale_process adjust_scale update_process update_process_locked restart_names
    restart_all_processes add_process remove_process reload_config equal string_slice_equal
    elements_equal string_map_equal entries_in ◌+ℤ◌
runs = tt

abbrev pub obedient : SupervisorOps (ProcessState × ℕ)
obedient = record {
  new = λ p. (stopped, 0);
  state = λ s. s.0;
  size = λ s. s.1;
  start = λ n s. ((running, pos_part n), true);
  stop = λ s. ((stopped, 0), true);
  scale_up = λ n s. ((s.0, n), true);
  scale_down = λ n s. ((s.0, n), true);
}

pub obedient-SupervisorLaws : SupervisorLaws obedient
obedient-SupervisorLaws = record {
  starts = λ n s empty ok. (refl, refl);
  stops = λ s. (refl, refl);
  scales_up = λ n s less ok. refl;
  scales_down = λ n s less ok. refl;
}

abbrev web : Process
web = record no_process {
  enabled = true;
  type = "longrun";
  command = "serve" ∷ [];
  scale = pos 2;
  max_scale = pos 4;
}

abbrev served : Managed (ProcessState × ℕ)
served = record { config = 0; sup = (running, 2) }

abbrev manager : Manager (ProcessState × ℕ)
manager = record {
  store = web ∷ [];
  config = ("web", 0) ∷ [];
  processes = ("web", served) ∷ [];
  max_process_scale = pos 100;
}

too_many : (scale_process obedient "web" (pos 5) manager).1 ≡ some above_max_scale
unfolding runs
too_many = refl

fine : (scale_process obedient "web" (pos 3) manager).1 ≡ none
unfolding runs
fine = refl

fewer : (adjust_scale obedient "web" (negsuc 4) manager).1 ≡ none
unfolding runs
fewer = refl

-- A process that was scaled to zero starts with no instances, and is then said to be running.
started_empty :
    (start_process obedient "web" (scale_process obedient "web" (pos 0) manager).0).0.processes
    ≡ ("web", record { config = 0; sup = (running, 0) }) ∷ []
unfolding runs
started_empty = refl

-- An update starts a process that was stopped, and that is not the one that is updated.
abbrev two : Manager (ProcessState × ℕ)
two = record manager {
  store = web ∷ web ∷ [];
  config = ("web", 0) ∷ ("job", 1) ∷ [];
  processes = ("web", served) ∷ ("job", record { config = 1; sup = (stopped, 0) }) ∷ [];
}

started_too :
    lookup "job" (update_process obedient "web" web two).0.processes
    ≡ some (record { config = 1; sup = (running, 2) })
unfolding runs
started_too = refl

-- After a reload without a change, a process that is scaled from zero has the scale of the old file.
stale :
    let m = reload_config obedient (("web", web) ∷ []) (stop_process obedient "web" manager).0 in
    lookup "web" (scale_process obedient "web" (pos 1) m).0.processes
    ≡ some (record { config = 0; sup = (running, 2) })
unfolding runs
stale = refl

scale_process_lem_example :
    (x : Managed (ProcessState × ℕ)) × (lookup "web"
        (scale_process obedient "web" (pos 3) manager).0.processes
      ≡ some x)
    × (x.sup.1 ≡ 3)
unfolding runs
scale_process_lem_example =
    scale_process_lem obedient obedient-SupervisorLaws "web" (pos 3) manager served refl refl
      (omega arith) fine

manager-IsLinked : IsLinked manager
unfolding runs
manager-IsLinked name x found = elim (Bool-cases (str_eq "web" name)) [
  | inl is_web ↦
      let e = some_inj (rw is_web at found) in
      (rw is_web (ap (λ y. some y.config) e), subst (λ y. y.config < 1) e (omega arith))
  | inr other ↦ absurd (clash (rw other at found))
]
  where
    clash : ◌≡◌ {A = Option (Managed (ProcessState × ℕ))} none (some x) → ⊥
    clash e = cc

perform-IsLinked_example : IsLinked (perform obedient (update "web" web) manager).0
perform-IsLinked_example = perform-IsLinked obedient (update "web" web) manager manager-IsLinked

reload_config-unchanged_example :
    (lookup "web" (reload_config obedient (("web", web) ∷ []) manager).processes ≡ some served)
    × ((q : ℕ)
        → lookup "web" (reload_config obedient (("web", web) ∷ []) manager).config ≡ some q
        → 0 < q)
unfolding runs
reload_config-unchanged_example =
    reload_config-unchanged obedient "web" (("web", web) ∷ []) manager 0 web (refl, tt) (refl, tt)
      refl (omega arith) refl refl

abbrev settings : Settings
settings = record {
  oneshot = false;
  restart_policy = never;
  has_health_check = false;
  health_check_strict = false;
  death_notifier = true;
}

-- The fourth process does not start.
abbrev three : ℕ → Option ℕ
three i = if ltb i 3 then some 1 else none
