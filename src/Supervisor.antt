-- ===== src/Supervisor.antt =====
-- internal/process/supervisor.go: the instances of one process. A pointer to an Instance is its place
-- in `heap`, which only grows; `instances` is the slice of such pointers. Each instance has one
-- goroutine, monitorInstance, and `monitor` says where it stands. Every function below is one critical
-- section, or the code up to the next wait; an operation that holds operationMu across waits has a
-- value of Operation for where it stands. Three stretches have more than one section: Start, which
-- holds mu from its beginning to its end, so that an exit meanwhile counts as one after it;
-- monitorInstance behind the section that follows cmd.Wait, where allowRestart no longer changes,
-- since stopInstance leaves an instance alone that does not run, with the sections of
-- checkAllInstancesDead; and a round of ScaleUp, whose number of instances no one else changes.
-- `spawn` is what exec.Cmd.Start gives: a pid, or an error.
mod Tests
pub mod Steps
pub mod Instances
pub mod Reached
pub mod Positions
pub mod Restarts
pub mod Links
pub mod Numbering
pub mod Numbered
pub mod Waiting
pub mod Orphans
pub mod Deaths
use phpeek_pm.Prelude.{
  ℕ, zero, suc, ◌+◌, ◌-◌, Bool, true, false, not, ◌&&◌, ◌||◌, if◌then◌else◌, List, [], ◌∷◌, ◌++◌,
  reverse, ℤ, pos, pos_part, ltb, leb, ◌==◌, length, get_elem?, set, take, drop, Option, none, some,
}
use phpeek_pm.Restart.{RestartPolicy, should_restart, is_zero}

pub data ProcessState : Type 0 where
  starting running stopping stopped failed completed : ProcessState

-- Where monitorInstance stands: in cmd.Wait, behind the section that follows it, in the select of
-- attemptRestart, behind its startInstance, behind the section that sets the count of the new instance,
-- or behind close(doneCh). The numbers are exitCode and restartCount; `counting` has the pointer to
-- the new instance and restartCount, `replacing` the pointer.
pub data Monitor : Type 0 where
  waiting : Monitor
  exited : ℤ → ℕ → Monitor
  backing_off : ℤ → ℕ → Monitor
  counting : ℕ → ℕ → Monitor
  replacing : ℕ → Monitor
  finished : Monitor

-- `id` is the number in "<name>-<number>".
pub record Instance : Type 0 where
  pub id : ℕ
  pub state : ProcessState
  pub pid : ℕ
  pub restart_count : ℕ
  pub allow_restart : Bool
  pub monitor : Monitor

-- s.ctx
pub data Context : Type 0 where
  no_context live cancelled : Context

-- The stopInstance goroutines of an operation: those that have not begun, and those that wait on
-- doneCh.
pub record Stops : Type 0 where
  pub pending : List ℕ
  pub awaited : List ℕ

-- Who holds operationMu.
pub data Operation : Type 0 where
  no_operation : Operation
  scaling_up : ℕ → List ℕ → Operation
  cleaning_up : Stops → Operation
  scaling_down : ℕ → Stops → Operation
  shutting_down : Stops → Operation

-- What does not change: parts of config.Process and GlobalConfig, and whether a notifier is set.
pub record Settings : Type 0 where
  pub oneshot : Bool
  pub restart_policy : RestartPolicy
  pub has_health_check : Bool
  pub health_check_strict : Bool
  pub death_notifier : Bool

-- `scale` is config.Scale, which the manager writes. `deaths` counts the calls of the notifier.
pub record Supervisor : Type 0 where
  pub scale : ℤ
  pub heap : List Instance
  pub instances : List ℕ
  pub state : ProcessState
  pub ctx : Context
  pub is_ready : Bool
  pub deaths : ℕ
  pub operation : Operation

abbrev pub new_supervisor : ℤ → Supervisor
new_supervisor scale = record {
  scale = scale;
  heap = [];
  instances = [];
  state = stopped;
  ctx = no_context;
  is_ready = false;
  deaths = 0;
  operation = no_operation;
}

abbrev pub is_running : ProcessState → Bool
is_running running = true
is_running starting = false
is_running stopping = false
is_running stopped = false
is_running failed = false
is_running completed = false

abbrev pub is_finished : Monitor → Bool
is_finished finished = true
is_finished waiting = false
is_finished (exited code count) = false
is_finished (backing_off code count) = false
is_finished (counting new count) = false
is_finished (replacing new) = false

-- A field of the instance at a pointer.
abbrev pub at : (Instance → Bool) → List Instance → ℕ → Bool
at test heap h = elim (get_elem? heap h) [ none ↦ false | some i ↦ test i ]

abbrev pub all : (ℕ → Bool) → List ℕ → Bool
all test [] = true
all test (h ∷ hs) = test h && all test hs

abbrev pub put : ℕ → Instance → Supervisor → Supervisor
put h i s = record s { heap = set s.heap h i }

abbrev pub started : ℕ → ℕ → Instance
started id pid = record {
  id = id;
  state = running;
  pid = pid;
  restart_count = 0;
  allow_restart = true;
  monitor = waiting;
}

-- markReady
abbrev pub mark_ready : Supervisor → Supervisor
mark_ready s = record s { is_ready = true }

-- startInstance, where the process starts: the pointer to it is `length s.heap`.
abbrev pub start_instance : ℕ → ℕ → Supervisor → Supervisor
start_instance id pid s = record s { heap = s.heap ++ started id pid ∷ [] }

-- The loop of Start, from the i-th instance on, with the number of the instance that failed.
unfoldable pub start_from : ℕ → ℕ → (ℕ → Option ℕ) → Supervisor → Supervisor × Option ℕ
start_from zero i spawn s = (s, none)
start_from (suc rounds) i spawn s = elim (spawn i) [
  | none ↦ (s, some i)
  | some pid ↦
      start_from rounds (suc i) spawn
        (record (start_instance i pid s) { instances = s.instances ++ length s.heap ∷ [] })
]

pub data SupervisorError : Type 0 where
  start_failed : ℕ → SupervisorError
  health_monitor_failed : SupervisorError
  not_above : SupervisorError
  not_below : SupervisorError

-- monitorInstance up to the section behind cmd.Wait.
unfoldable pub process_exit : ℕ → ℤ → Instance → Supervisor → Supervisor
process_exit h code i s =
    put h record i { state = stopped; monitor = exited code i.restart_count } s

module _ (cfg : Settings) where
  -- The end of Start. `monitored` says whether NewHealthMonitor succeeds.
  abbrev pub after_start : Bool → Supervisor → Supervisor × Option SupervisorError
  after_start monitored s =
      if not cfg.has_health_check
      then (mark_ready s, none)
      else (if monitored
          then (s, none)
          else (if cfg.health_check_strict
              then (s, some health_monitor_failed)
              else (mark_ready s, none)))

  unfoldable pub start : (ℕ → Option ℕ) → Bool → Supervisor → Supervisor × Option SupervisorError
  start spawn monitored s =
      let (tried, failure) =
        start_from (pos_part s.scale) 0 spawn record s { ctx = live; state = starting } in
      elim failure [
        | some i ↦ (record tried { state = failed; ctx = cancelled }, some (start_failed i))
        | none ↦ after_start monitored record tried { state = running }
      ]

  unfoldable pub check_all_instances_dead : Supervisor → Supervisor
  check_all_instances_dead s =
      let all_dead = all (λ h. not (at (λ i. is_running i.state) s.heap h)) s.instances in
      if all_dead && ltb 0 (length s.instances) && cfg.death_notifier
      then record s { deaths = s.deaths + 1 }
      else s

  unfoldable pub handle_oneshot_exit : ℕ → ℤ → Instance → Supervisor → Supervisor
  handle_oneshot_exit h code i s =
      let left =
        put h record i { state = if is_zero code then completed else failed; monitor = finished }
          s in
      check_all_instances_dead (if is_zero code then mark_ready left else left)

  -- The rest of monitorInstance.
  unfoldable pub monitor_instance : ℕ → ℤ → ℕ → Instance → Supervisor → Supervisor
  monitor_instance h code count i s =
      let left = put h record i { monitor = finished } s in
      if cfg.oneshot
      then handle_oneshot_exit h code i s
      else if not i.allow_restart
      then left
      else if should_restart cfg.restart_policy code (pos count)
      then put h record i { monitor = backing_off code count } s
      else check_all_instances_dead left

-- The loop that replaces the instance with the id.
unfoldable pub replace_id : List Instance → ℕ → ℕ → List ℕ → List ℕ
replace_id heap id new [] = []
replace_id heap id new (h ∷ hs) =
    let rest = replace_id heap id new hs in
    if at (λ i. i.id == id) heap h then new ∷ hs else h ∷ rest

-- attemptRestart from its select up to the return of startInstance, by the context and what
-- startInstance gives. A context that Stop has set to nil makes it panic, which monitorInstance recovers
-- from. A cancelled one makes it return, or lets startInstance fail if it was cancelled just before. The
-- new instance runs, with its own goroutine, before its count is set.
abbrev pub restart_under : Context → Option ℕ → ℕ → ℕ → Instance → Supervisor → Supervisor
restart_under no_context spawn h count i s = put h record i { state = failed; monitor = finished } s
restart_under cancelled none h count i s = put h record i { state = failed; monitor = finished } s
restart_under cancelled (some pid) h count i s = put h record i { monitor = finished } s
restart_under live none h count i s = put h record i { state = failed; monitor = finished } s
restart_under live (some pid) h count i s =
    start_instance i.id pid (put h record i { monitor = counting (length s.heap) count } s)

unfoldable pub attempt_restart : Option ℕ → ℕ → ℕ → Instance → Supervisor → Supervisor
attempt_restart spawn h count i s = restart_under s.ctx spawn h count i s

-- The return from the select where the context that it began with is cancelled; meanwhile a Start may
-- have made another one.
abbrev pub cancel_restart : ℕ → Instance → Supervisor → Supervisor
cancel_restart h i s = put h record i { monitor = finished } s

-- The section of attemptRestart that sets the count of the new instance.
unfoldable pub count_restart : ℕ → ℕ → ℕ → Instance → Supervisor → Supervisor
count_restart h new count i s = elim (get_elem? s.heap new) [
  | none ↦ put h record i { monitor = replacing new } s
  | some j ↦
      put h record i { monitor = replacing new } (put new record j { restart_count = suc count } s)
]

-- The section of attemptRestart that replaces the old instance, and what follows it.
unfoldable pub replace_instance : ℕ → ℕ → Instance → Supervisor → Supervisor
replace_instance h new i s =
    let left = put h record i { monitor = finished } s in
    record left { instances = replace_id left.heap i.id new s.instances }

-- ScaleUp up to its loop.
unfoldable pub begin_scale_up : ℕ → Supervisor → Supervisor × Option SupervisorError
begin_scale_up target s =
    if leb target (length s.instances)
    then (s, some not_above)
    else (record s { operation = scaling_up target [] }, none)

-- One round of that loop, or what follows the last.
unfoldable pub scale_up_next : Option ℕ → ℕ → List ℕ → Supervisor → Supervisor
scale_up_next spawn target new s =
    let current = length s.instances in
    if leb target (current + length new)
    then record s { instances = s.instances ++ new; operation = no_operation }
    else elim spawn [
      | none ↦ record s { operation = cleaning_up record { pending = new; awaited = [] } }
      | some pid ↦ record (start_instance (current + length new) pid s) {
        operation = scaling_up target (new ++ length s.heap ∷ []);
      }
    ]

-- ScaleDown up to wg.Wait.
unfoldable pub begin_scale_down : ℕ → Supervisor → Supervisor × Option SupervisorError
begin_scale_down target s = if leb (length s.instances) target then (s, some not_below) else (
  record s {
    operation =
        scaling_down target record { pending = reverse (drop target s.instances); awaited = [] };
  },
  none,
)

-- Stop up to wg.Wait.
unfoldable pub begin_stop : Supervisor → Supervisor
begin_stop s = record s {
  state = stopping;
  ctx = elim s.ctx [ no_context ↦ no_context | live ↦ cancelled | cancelled ↦ cancelled ];
  operation = shutting_down record { pending = s.instances; awaited = [] };
}

-- The section of stopInstance.
abbrev pub stop_running : ℕ → Instance → Supervisor → Supervisor
stop_running h i s = put h record i { state = stopping; allow_restart = false } s

-- stopInstance up to its select; it waits there if the instance ran and the signal was sent.
unfoldable pub stop_instance : Bool → ℕ → Stops → Supervisor → Supervisor × Stops
stop_instance signalled h stops s = elim (get_elem? s.heap h) [
  | none ↦ (s, stops)
  | some i ↦
      if is_running i.state
      then (
        stop_running h i s,
        if signalled then record stops { awaited = h ∷ stops.awaited } else stops,
      )
      else (s, stops)
]

-- The next goroutine of an operation stops its instance.
unfoldable pub stop_next : Bool → Stops → Supervisor → Supervisor × Stops
stop_next signalled stops s = elim stops.pending [
  | [] ↦ (s, stops)
  | h ∷ hs ↦ stop_instance signalled h record stops { pending = hs } s
]

-- wg.Wait returns.
abbrev pub returned : Stops → Supervisor → Bool
returned stops s =
    length stops.pending == 0 && all (at (λ i. is_finished i.monitor) s.heap) stops.awaited

abbrev pub end_scale_down : ℕ → Supervisor → Supervisor
end_scale_down target s = record s { instances = take target s.instances; operation = no_operation }

abbrev pub end_stop : Supervisor → Supervisor
end_stop s = record s {
  state = stopped;
  instances = [];
  ctx = no_context;
  operation = no_operation;
}
