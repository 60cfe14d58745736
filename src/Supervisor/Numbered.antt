-- ===== src/Supervisor/Numbered.antt =====
-- The instances of a supervisor are numbered from 0, in every reachable state.
use phpeek_pm.Prelude.{
  ℕ, ◌+◌, ◌<◌, ◌≡◌, ◌≢◌, refl, sym, ap, ◌∙◌, subst, arith, inl, inr, ◌⊎◌, Bool, Bool-cases, List,
  [], ◌∷◌, ◌++◌, ℤ, length, get_elem?, leb, Option, Option-cases, some,
}
use phpeek_pm.Supervisor.{
  stopped, is_running, exited, Stops, Operation, no_operation, scaling_up, cleaning_up,
  scaling_down, Settings, Supervisor, new_supervisor, started, process_exit, attempt_restart,
  begin_scale_up, scale_up_next, begin_scale_down, begin_stop, stop_instance, stop_next,
}
use phpeek_pm.Supervisor.Steps.{
  Step, start_all, exit_process, handle_exit, restart, give_up, count_new, replace,
  pass_health_check, set_scale, scale_up, scale_up_round, scale_down, stop, stop_an_instance,
  fail_to_kill, end_cleanup, end_down, end_shutdown, stop_one, with_stops, stops_of,
}
use phpeek_pm.Supervisor.Positions.{
  Placed, Placed-KeepsIds, Placed-append, Placed-take, KeepsIds-append, id_at-snoc,
}
use phpeek_pm.Supervisor.Links.{Linked-started}
use phpeek_pm.Supervisor.Numbering.{
  NewPlaced, IsIdle, IsNumbered, Similar, not_new, Similar-IsNumbered, put-Similar,
  monitor_instance-Similar, start-IsNumbered, restart_under-IsNumbered, count_restart-IsNumbered,
  replace_instance-IsNumbered,
}

stop_instance-Similar :
    (signalled : Bool) (h : ℕ) (stops : Stops) (s : Supervisor)
    → Similar s (stop_instance signalled h stops s).0
unfolding stop_instance
stop_instance-Similar signalled h stops s = elim (Option-cases (get_elem? s.heap h)) [
  | inl nothing ↦ rw (nothing, stop_instance) same
  | inr (i, found) ↦ elim (Bool-cases (is_running i.state)) [
    | inr dead ↦ rw (found, dead, stop_instance) same
    | inl runs ↦ rw (found, runs, stop_instance) (put-Similar h i _ s found refl (λ l. l h i found))
  ]
]
  where
    same : Similar s s
    same = record {
      ids = λ h n e. e;
      instances = refl;
      operation = refl;
      state = refl;
      links = λ l. l;
    }

-- A supervisor in the middle of an operation that stops instances.
with_stops-IsNumbered :
    (s : Supervisor) (stops stops' : Stops)
    → stops_of s.operation ≡ some stops
    → IsNumbered s
    → IsNumbered record s { operation = with_stops stops' s.operation }
with_stops-IsNumbered s stops stops' op v = record {
  placed = v.placed;
  new = not_new s.operation s.heap (length s.instances) stops op stops';
  idle = elim v.idle [
    | inl moves ↦ inl moves
    | inr (empty, free) ↦ absurd (no_stops s.operation free op)
  ];
  links = v.links;
}
  where
    no_stops : (o : Operation) → o ≡ no_operation → stops_of o ≡ some stops → ⊥
    no_stops o e f = cc (ap stops_of e, f)

stop_next-Similar :
    (signalled : Bool) (stops : Stops) (s : Supervisor) → Similar s (stop_next signalled stops s).0
unfolding stop_next
stop_next-Similar signalled stops s = by_pending stops.pending
  where
    by_pending :
        (pending : List ℕ)
        → let r : Supervisor × Stops = elim pending [
          | [] ↦ (s, stops)
          | h ∷ hs ↦ stop_instance signalled h record stops { pending = hs } s
        ] in
          Similar s r.0
    by_pending [] = record {
      ids = λ h n e. e;
      instances = refl;
      operation = refl;
      state = refl;
      links = λ l. l;
    }
    by_pending (h ∷ hs) = stop_instance-Similar signalled h record stops { pending = hs } s

stop_one-IsNumbered :
    (signalled : Bool) (stops : Stops) (s : Supervisor)
    → stops_of s.operation ≡ some stops
    → IsNumbered s
    → IsNumbered (stop_one signalled stops s)
stop_one-IsNumbered signalled stops s op v =
    let (s', stops') = stop_next signalled stops s in
    let same = stop_next-Similar signalled stops s in
    subst (λ o. IsNumbered record s' { operation = with_stops stops' o }) same.operation
      (with_stops-IsNumbered s' stops stops' (ap stops_of same.operation ∙ op)
        (Similar-IsNumbered s s' same v))

scale_up_next-IsNumbered :
    (spawn : Option ℕ) (target : ℕ) (new : List ℕ) (s : Supervisor)
    → s.operation ≡ scaling_up target new
    → IsNumbered s
    → IsNumbered (scale_up_next spawn target new s)
unfolding scale_up_next
scale_up_next-IsNumbered spawn target new s op v =
    let new_placed : Placed s.heap (length s.instances) new =
      subst (λ o. NewPlaced o s.heap (length s.instances)) op v.new in
    let moves = never_idle v.idle in
    elim (Bool-cases (leb target (length s.instances + length new))) [
      | inl enough ↦ rw enough record {
        placed =
            Placed-append s.heap 0 s.instances new v.placed (
              let e : 0 + length s.instances ≡ length s.instances = omega arith in rw e new_placed);
        new = tt;
        idle = inl moves;
        links = v.links;
      }
      | inr more ↦ elim (Option-cases spawn) [
        | inl fails ↦
            rw (more, fails, scale_up_next)
              record { placed = v.placed; new = tt; idle = inl moves; links = v.links }
        | inr (pid, starts) ↦
            let i = started (length s.instances + length new) pid in
            let heap' = s.heap ++ i ∷ [] in
            let keeps = KeepsIds-append s.heap (i ∷ []) in
            rw (more, starts, scale_up_next)
              record {
                placed = Placed-KeepsIds s.heap heap' 0 s.instances keeps v.placed;
                new =
                    Placed-append heap' (length s.instances) new (length s.heap ∷ [])
                      (Placed-KeepsIds s.heap heap' (length s.instances) new keeps new_placed)
                      (id_at-snoc s.heap i, tt);
                idle = inl moves;
                links = Linked-started s.heap (length s.instances + length new) pid v.links;
              }
      ]
    ]
  where
    never_idle : (s.state ≢ stopped) ⊎ IsIdle s → s.state ≢ stopped
    never_idle (inl moves) = moves
    never_idle (inr (empty, free)) = cc (op, free)

-- The operation is over, or is an operation that stops instances.
freed-IsNumbered :
    (s : Supervisor) (o : Operation)
    → s.operation ≡ o
    → o ≢ no_operation
    → IsNumbered s
    → s.state ≢ stopped
freed-IsNumbered s o op busy v = elim v.idle [
  | inl moves ↦ moves
  | inr (empty, free) ↦ absurd (busy (sym op ∙ free))
]

module _ {cfg : Settings} where
  -- Start is called where there are no instances, and ScaleUp where there are.
  abbrev pub IsManaged : {s t : Supervisor} → Step cfg s t → Type 0
  IsManaged {s} (start_all spawn monitored free e) = s.instances ≡ []
  IsManaged {s} (scale_up target free e) = 0 < length s.instances
  IsManaged (exit_process h i code found m e) = Unit {0}
  IsManaged (handle_exit h i code count found m e) = Unit {0}
  IsManaged (restart spawn h i code count found m e) = Unit {0}
  IsManaged (give_up h i code count found m e) = Unit {0}
  IsManaged (count_new h new count i found m e) = Unit {0}
  IsManaged (replace h new i found m e) = Unit {0}
  IsManaged (pass_health_check e) = Unit {0}
  IsManaged (set_scale scale e) = Unit {0}
  IsManaged (scale_up_round spawn target new up e) = Unit {0}
  IsManaged (scale_down target free e) = Unit {0}
  IsManaged (stop free e) = Unit {0}
  IsManaged (stop_an_instance signalled stops op may e) = Unit {0}
  IsManaged (fail_to_kill stops front back h op waits e) = Unit {0}
  IsManaged (end_cleanup stops op done e) = Unit {0}
  IsManaged (end_down target stops op done e) = Unit {0}
  IsManaged (end_shutdown timed_out stops op done gone e) = Unit {0}

-- The states that such calls lead to, whatever else happens.
pub data Managed (cfg : Settings) (s : Supervisor) : Supervisor → Type 0 where
  unmoved : Managed cfg s s
  step : {t u : Supervisor} → Managed cfg s t → (st : Step cfg t u) → IsManaged st → Managed cfg s u

module _ (cfg : Settings) where
  Step-IsNumbered :
      {s t : Supervisor} (st : Step cfg s t) → IsManaged st → IsNumbered s → IsNumbered t
  unfolding process_exit attempt_restart begin_scale_up begin_scale_down begin_stop
  Step-IsNumbered {s} (start_all spawn monitored free e) u v =
      rw e (start-IsNumbered cfg spawn monitored s free u v.links)
  Step-IsNumbered {s} (exit_process h i code found at_wait e) u v = rw e (
      Similar-IsNumbered s _
        (put-Similar h i record i { state = stopped; monitor = exited code i.restart_count } s found
          refl (λ l. tt))
        v)
  Step-IsNumbered {s} (handle_exit h i code count found at_exit e) u v =
      rw e (Similar-IsNumbered s _ (monitor_instance-Similar cfg h code count i s found) v)
  Step-IsNumbered {s} (restart spawn h i code count found backs_off e) u v =
      rw e (restart_under-IsNumbered s.ctx spawn h count i s found v)
  Step-IsNumbered {s} (give_up h i code count found backs_off e) u v =
      rw e (Similar-IsNumbered s _ (put-Similar h i _ s found refl (λ l. tt)) v)
  Step-IsNumbered {s} (count_new h new count i found m e) u v =
      rw e (count_restart-IsNumbered h new count i s found m v)
  Step-IsNumbered {s} (replace h new i found m e) u v =
      rw e (replace_instance-IsNumbered h new i s found m v)
  Step-IsNumbered (pass_health_check e) u v =
      rw e record { placed = v.placed; new = v.new; idle = v.idle; links = v.links }
  Step-IsNumbered (set_scale scale e) u v =
      rw e record { placed = v.placed; new = v.new; idle = v.idle; links = v.links }
  Step-IsNumbered {s} (scale_up target free e) u v =
      elim (Bool-cases (leb target (length s.instances))) [
        | inl refused ↦ rw (e, refused) v
        | inr begins ↦
            rw (e, begins)
              record {
                placed = v.placed;
                new = tt;
                idle = elim v.idle [
                  | inl moves ↦ inl moves
                  | inr (empty, free) ↦ absurd (omega (arith, u, ap length empty))
                ];
                links = v.links;
              }
      ]
  Step-IsNumbered {s} (scale_up_round spawn target new up e) u v =
      rw e (scale_up_next-IsNumbered spawn target new s up v)
  Step-IsNumbered {s} (scale_down target free e) u v =
      elim (Bool-cases (leb (length s.instances) target)) [
        | inl refused ↦ rw (e, refused) v
        | inr begins ↦
            rw (e, begins)
              record {
                placed = v.placed;
                new = tt;
                idle = elim v.idle [
                  | inl moves ↦ inl moves
                  | inr (empty, free) ↦ absurd (ground (arith, begins, ap length empty))
                ];
                links = v.links;
              }
      ]
  Step-IsNumbered {s} (stop free e) u v =
      rw e record { placed = v.placed; new = tt; idle = inl (λ h. cc); links = v.links }
  Step-IsNumbered {s} (stop_an_instance signalled stops op may e) u v =
      rw e (stop_one-IsNumbered signalled stops s op v)
  Step-IsNumbered {s} (fail_to_kill stops front back h op waits e) u v =
      rw e (with_stops-IsNumbered s stops _ op v)
  Step-IsNumbered {s} (end_cleanup stops op done e) u v = rw e record {
    placed = v.placed;
    new = tt;
    idle = inl (freed-IsNumbered s (cleaning_up stops) op (λ h. cc) v);
    links = v.links;
  }
  Step-IsNumbered {s} (end_down target stops op done e) u v = rw e record {
    placed = Placed-take s.heap 0 target s.instances v.placed;
    new = tt;
    idle = inl (freed-IsNumbered s (scaling_down target stops) op (λ h. cc) v);
    links = v.links;
  }
  Step-IsNumbered {s} (end_shutdown timed_out stops op done gone e) u v =
      rw e record { placed = tt; new = tt; idle = inr (refl, refl); links = v.links }

-- Let Start be called only where the supervisor has no instances, and ScaleUp only where it has some.
-- Then, in every state that is reached from the one of NewSupervisor, the instances of the slice have
-- the ids name-0, name-1 and so on in this order, and a supervisor in the state stopped has no instances
-- and no operation in progress.
pub Managed-IsNumbered :
    (cfg : Settings) (scale : ℤ) {s : Supervisor}
    → Managed cfg (new_supervisor scale) s
    → Placed s.heap 0 s.instances
      × ((s.state ≢ stopped) ⊎ ((s.instances ≡ []) × (s.operation ≡ no_operation)))
Managed-IsNumbered cfg scale r = let v = reached cfg scale r in (v.placed, v.idle)
  where
    reached :
        (cfg : Settings) (scale : ℤ) {s : Supervisor}
        → Managed cfg (new_supervisor scale) s
        → IsNumbered s
    reached cfg scale unmoved = record {
      placed = tt;
      new = tt;
      idle = inr (refl, refl);
      links = λ h i e. cc;
    }
    reached cfg scale (step r st u) = Step-IsNumbered cfg st u (reached cfg scale r)
