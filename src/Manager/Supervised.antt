-- ===== src/Manager/Supervised.antt =====
-- The supervisor fills the manager's interface: its operations, run from their beginning to their end
-- while no process exits by itself. What starts, whether the health monitor can be made, and which
-- instances can be signalled and killed are parameters.
use phpeek_pm.Prelude.{
  ℕ, zero, suc, ◌+◌, ◌-◌, ◌≤◌, ◌<◌, ◌≡◌, ◌⊎◌, Bool, true, false, if◌then◌else◌, not, ◌&&◌, ◌||◌,
  some, List, [], ◌∷◌, ℤ, length, drop, reverse, Option, none,
}
use phpeek_pm.Supervisor.{
  Stops, Operation, no_operation, scaling_up, cleaning_up, scaling_down, shutting_down, Settings,
  Supervisor, new_supervisor, start, begin_scale_up, scale_up_next, begin_scale_down, begin_stop,
  stop_instance, is_running, at, end_scale_down, end_stop,
}
use phpeek_pm.Manager.{SupervisorOps}
use phpeek_pm.Manager.Changes.{is_none}

-- stopInstance for each, and whether none of them returned an error. An instance that does not run is
-- skipped.
stop_all : (ℕ → Bool) → List ℕ → Supervisor → Supervisor × Bool
stop_all signalled [] s = (s, true)
stop_all signalled (h ∷ hs) s =
    let (s', stops) = stop_instance (signalled h) h record { pending = hs; awaited = [] } s in
    let (end, ok) = stop_all signalled hs s' in
    (end, (signalled h || not (at (λ i. is_running i.state) s.heap h)) && ok)

-- The parameters: the pid of a new process, or none where it does not start; whether NewHealthMonitor
-- succeeds; whether an instance can be signalled and, if it does not end, killed.
module _ (cfg : Settings) (spawn : ℕ → Option ℕ) (monitored : Bool) (signalled : ℕ → Bool) where
  -- The next round of ScaleUp, by who holds operationMu.
  abbrev round :
      (Supervisor → Option (Supervisor × Bool))
      → Operation
      → Supervisor
      → Option (Supervisor × Bool)
  round rest (scaling_up target new) s =
      rest (scale_up_next (spawn (length s.instances + length new)) target new s)
  round rest (cleaning_up stops) s =
      some (record (stop_all signalled stops.pending s).0 { operation = no_operation }, false)
  round rest no_operation s = some (s, true)
  round rest (scaling_down target stops) s = none
  round rest (shutting_down stops) s = none

  -- `none` is the end of the fuel.
  scale_up_rounds : ℕ → Supervisor → Option (Supervisor × Bool)
  scale_up_rounds zero s = none
  scale_up_rounds (suc fuel) s = round (scale_up_rounds fuel) s.operation s

  run_start : ℤ → Supervisor → Supervisor × Bool
  run_start scale s =
      let (s', e) = start cfg spawn monitored record s { scale = scale } in (s', is_none e)

  run_stop : Supervisor → Supervisor × Bool
  unfolding stop_all
  run_stop s = let (s', ok) = stop_all signalled s.instances (begin_stop s) in (end_stop s', ok)

  abbrev or_unchanged : Supervisor → Option (Supervisor × Bool) → Supervisor × Bool
  or_unchanged s none = (s, false)
  or_unchanged s (some r) = r

  run_scale_up : ℕ → Supervisor → Supervisor × Bool
  unfolding scale_up_rounds stop_all
  run_scale_up target s =
      let (s', e) = begin_scale_up target s in
      if is_none e
      then or_unchanged s (scale_up_rounds (suc (suc (target - length s.instances))) s')
      else (s, false)

  run_scale_down : ℕ → Supervisor → Supervisor × Bool
  unfolding stop_all
  run_scale_down target s =
      let (s', e) = begin_scale_down target s in
      let (stopped, ok) = stop_all signalled (reverse (drop target s.instances)) s' in
      if is_none e then (end_scale_down target stopped, ok) else (s, false)

  unfoldable pub supervisor_ops : SupervisorOps Supervisor
  unfolding run_start run_stop run_scale_up run_scale_down
  supervisor_ops = record {
    new = λ p. new_supervisor p.scale;
    state = λ s. s.state;
    size = λ s. length s.instances;
    start = run_start;
    stop = run_stop;
    scale_up = run_scale_up;
    scale_down = run_scale_down;
  }

  -- What holds between the rounds.
  abbrev IsScaling : ℕ → Supervisor → Type 0
  IsScaling target s =
      ((s.operation ≡ no_operation) × (length s.instances ≡ target))
      ⊎ (((stops : Stops) × (s.operation ≡ cleaning_up stops))
          ⊎ ((new : List ℕ) × (s.operation ≡ scaling_up target new)
              × (length s.instances + length new ≤ target)))

  -- What a finished ScaleUp says of the size.
  abbrev Sized : ℕ → Option (Supervisor × Bool) → Type 0
  Sized target none = Unit {0}
  Sized target (some r) = r.1 ≡ true → length r.0.instances ≡ target

  -- The loop comes to its end, and without an error unless a process does not start.
  abbrev Ended : ℕ → ℕ → Option (Supervisor × Bool) → Type 0
  Ended least target none = ⊥
  Ended least target (some r) =
      (r.1 ≡ true) ⊎ ((i : ℕ) × (least ≤ i) × (i < target) × (spawn i ≡ none))

  abbrev run_ended : ℕ → Supervisor → Option (Supervisor × Bool)
  run_ended n s =
      scale_up_rounds (suc (suc (n - length s.instances))) record s { operation = scaling_up n [] }
