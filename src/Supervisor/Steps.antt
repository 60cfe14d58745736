-- ===== src/Supervisor/Steps.antt =====
-- A supervisor under every interleaving of its operations, of the goroutines of its instances, and of
-- the exits of their processes.
use phpeek_pm.Prelude.{
  ℕ, ◌≡◌, Bool, true, ◌&&◌, ◌||◌, List, [], ◌∷◌, ◌++◌, ℤ, get_elem?, Option, none, some,
}
use phpeek_pm.Supervisor.{
  waiting, exited, backing_off, counting, replacing, Instance, Stops, Operation, no_operation,
  scaling_up, cleaning_up, scaling_down, shutting_down, Settings, Supervisor, is_finished, at, all,
  mark_ready, start, process_exit, monitor_instance, attempt_restart, cancel_restart, count_restart,
  replace_instance, begin_scale_up, scale_up_next, begin_scale_down, begin_stop, stop_next,
  returned, end_scale_down, end_stop,
}

abbrev pub stops_of : Operation → Option Stops
stops_of no_operation = none
stops_of (scaling_up target new) = none
stops_of (cleaning_up stops) = some stops
stops_of (scaling_down target stops) = some stops
stops_of (shutting_down stops) = some stops

abbrev pub with_stops : Stops → Operation → Operation
with_stops stops no_operation = no_operation
with_stops stops (scaling_up target new) = scaling_up target new
with_stops stops (cleaning_up _) = cleaning_up stops
with_stops stops (scaling_down target _) = scaling_down target stops
with_stops stops (shutting_down _) = shutting_down stops

-- The cleanup of ScaleUp stops one instance after the other, the other operations all at once.
abbrev pub MayStop : Operation → List Instance → Type 0
MayStop (cleaning_up stops) heap = all (at (λ i. is_finished i.monitor) heap) stops.awaited ≡ true
MayStop no_operation heap = Unit {0}
MayStop (scaling_up target new) heap = Unit {0}
MayStop (scaling_down target stops) heap = Unit {0}
MayStop (shutting_down stops) heap = Unit {0}

abbrev pub all_finished : List Instance → Bool
all_finished [] = true
all_finished (i ∷ heap) = is_finished i.monitor && all_finished heap

abbrev pub stop_one : Bool → Stops → Supervisor → Supervisor
stop_one signalled stops s =
    let (s', stops') = stop_next signalled stops s in
    record s' { operation = with_stops stops' s.operation }

pub data Step (cfg : Settings) (s : Supervisor) (t : Supervisor) : Type 0 where
  start_all :
      (spawn : ℕ → Option ℕ) (monitored : Bool)
      → s.operation ≡ no_operation
      → t ≡ (start cfg spawn monitored s).0
      → Step cfg s t
  exit_process :
      (h : ℕ) (i : Instance) (code : ℤ)
      → get_elem? s.heap h ≡ some i
      → i.monitor ≡ waiting
      → t ≡ process_exit h code i s
      → Step cfg s t
  handle_exit :
      (h : ℕ) (i : Instance) (code : ℤ) (count : ℕ)
      → get_elem? s.heap h ≡ some i
      → i.monitor ≡ exited code count
      → t ≡ monitor_instance cfg h code count i s
      → Step cfg s t
  restart :
      (spawn : Option ℕ) (h : ℕ) (i : Instance) (code : ℤ) (count : ℕ)
      → get_elem? s.heap h ≡ some i
      → i.monitor ≡ backing_off code count
      → t ≡ attempt_restart spawn h count i s
      → Step cfg s t
  give_up :
      (h : ℕ) (i : Instance) (code : ℤ) (count : ℕ)
      → get_elem? s.heap h ≡ some i
      → i.monitor ≡ backing_off code count
      → t ≡ cancel_restart h i s
      → Step cfg s t
  count_new :
      (h new count : ℕ) (i : Instance)
      → get_elem? s.heap h ≡ some i
      → i.monitor ≡ counting new count
      → t ≡ count_restart h new count i s
      → Step cfg s t
  replace :
      (h new : ℕ) (i : Instance)
      → get_elem? s.heap h ≡ some i
      → i.monitor ≡ replacing new
      → t ≡ replace_instance h new i s
      → Step cfg s t
  pass_health_check : t ≡ mark_ready s → Step cfg s t
  set_scale : (scale : ℤ) → t ≡ record s { scale = scale } → Step cfg s t
  scale_up :
      (target : ℕ) → s.operation ≡ no_operation → t ≡ (begin_scale_up target s).0 → Step cfg s t
  scale_up_round :
      (spawn : Option ℕ) (target : ℕ) (new : List ℕ)
      → s.operation ≡ scaling_up target new
      → t ≡ scale_up_next spawn target new s
      → Step cfg s t
  scale_down :
      (target : ℕ) → s.operation ≡ no_operation → t ≡ (begin_scale_down target s).0 → Step cfg s t
  stop : s.operation ≡ no_operation → t ≡ begin_stop s → Step cfg s t
  stop_an_instance :
      (signalled : Bool) (stops : Stops)
      → stops_of s.operation ≡ some stops
      → MayStop s.operation s.heap
      → t ≡ stop_one signalled stops s
      → Step cfg s t
  fail_to_kill :
      (stops : Stops) (front back : List ℕ) (h : ℕ)
      → stops_of s.operation ≡ some stops
      → stops.awaited ≡ front ++ h ∷ back
      → t ≡ record s { operation = with_stops record stops { awaited = front ++ back } s.operation }
      → Step cfg s t
  end_cleanup :
      (stops : Stops)
      → s.operation ≡ cleaning_up stops
      → returned stops s ≡ true
      → t ≡ record s { operation = no_operation }
      → Step cfg s t
  end_down :
      (target : ℕ) (stops : Stops)
      → s.operation ≡ scaling_down target stops
      → returned stops s ≡ true
      → t ≡ end_scale_down target s
      → Step cfg s t
  end_shutdown :
      (timed_out : Bool) (stops : Stops)
      → s.operation ≡ shutting_down stops
      → returned stops s ≡ true
      → (all_finished s.heap || timed_out) ≡ true
      → t ≡ end_stop s
      → Step cfg s t

pub data Reach (cfg : Settings) (s : Supervisor) : Supervisor → Type 0 where
  here : Reach cfg s s
  next : {t u : Supervisor} → Reach cfg s t → Step cfg t u → Reach cfg s u
