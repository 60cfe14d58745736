-- ===== src/Supervisor/Reached.antt =====
-- Every instance is consistent at each place of its goroutine, in every reachable state.
use phpeek_pm.Prelude.{
  leb, ℕ, suc, ◌+◌, ◌≡◌, refl, sym, ◌∙◌, subst, arith, inl, inr, Bool, true, false, not,
  if◌then◌else◌, Bool-cases, List, [], ◌∷◌, ℤ, pos, length, get_elem?, All, Option, Option-cases,
  none, some,
}
use phpeek_pm.Restart.{should_restart, is_zero}
use phpeek_pm.Supervisor.{
  ProcessState, starting, running, stopping, stopped, failed, completed, is_running, Monitor,
  waiting, exited, backing_off, counting, replacing, finished, Instance, Stops, Context, no_context,
  live, cancelled, Settings, Supervisor, new_supervisor, put, mark_ready, check_all_instances_dead,
  process_exit, handle_oneshot_exit, monitor_instance, restart_under, attempt_restart,
  count_restart, replace_instance, begin_scale_up, scale_up_next, begin_scale_down, begin_stop,
  stop_instance, stop_next,
}
use phpeek_pm.Supervisor.Steps.{
  Step, start_all, exit_process, handle_exit, restart, give_up, count_new, replace,
  pass_health_check, set_scale, scale_up, scale_up_round, scale_down, stop, stop_an_instance,
  fail_to_kill, end_cleanup, end_down, end_shutdown, Reach, here, next, stop_one,
}
use phpeek_pm.Supervisor.Instances.{
  Agrees, IsWithinLimit, IsConsistent, All-set, All-get_elem?, AllConsistent,
  check_all_instances_dead-heap, start_instance-AllConsistent, one_more, start-AllConsistent,
}

module _ (cfg : Settings) where
  process_exit-IsConsistent :
      (i : Instance) (code : ℤ)
      → IsConsistent cfg i
      → IsConsistent cfg record i { state = stopped; monitor = exited code i.restart_count }
  process_exit-IsConsistent i code c = record { agrees = refl; within_limit = c.within_limit }

  left-IsConsistent :
      (i : Instance)
      → IsConsistent cfg i
      → i.state ≡ stopped
      → IsConsistent cfg record i { monitor = finished }
  left-IsConsistent i c e = record { agrees = inl e; within_limit = c.within_limit }

  lost-IsConsistent :
      (i : Instance)
      → IsConsistent cfg i
      → IsConsistent cfg record i { state = failed; monitor = finished }
  lost-IsConsistent i c = record { agrees = inr (inl refl); within_limit = c.within_limit }

  oneshot-IsConsistent :
      (i : Instance) (zero_code : Bool)
      → IsConsistent cfg i
      → cfg.oneshot ≡ true
      → IsConsistent cfg
          record i { state = if zero_code then completed else failed; monitor = finished }
  oneshot-IsConsistent i true c o = record {
    agrees = inr (inr (refl, o));
    within_limit = c.within_limit;
  }
  oneshot-IsConsistent i false c o = record {
    agrees = inr (inl refl);
    within_limit = c.within_limit;
  }

  mark_ready_if-heap : (b : Bool) (s : Supervisor) → (if b then mark_ready s else s).heap ≡ s.heap
  mark_ready_if-heap true s = refl
  mark_ready_if-heap false s = refl

  -- monitorInstance with its three tests decided.
  abbrev pub exit_choice : Bool → Bool → Bool → ℕ → ℤ → ℕ → Instance → Supervisor → Supervisor
  exit_choice once allowed again h code count i s =
      let left = put h record i { monitor = finished } s in
      if once
      then handle_oneshot_exit cfg h code i s
      else if not allowed
      then left
      else if again
      then put h record i { monitor = backing_off code count } s
      else check_all_instances_dead cfg left

  exit_choice-AllConsistent :
      (once allowed again : Bool) (h : ℕ) (code : ℤ) (count : ℕ) (i : Instance) (s : Supervisor)
      → AllConsistent cfg s.heap
      → IsConsistent cfg i
      → Agrees cfg (exited code count) i
      → cfg.oneshot ≡ once
      → i.allow_restart ≡ allowed
      → should_restart cfg.restart_policy code (pos count) ≡ again
      → AllConsistent cfg (exit_choice once allowed again h code count i s).heap
  unfolding handle_oneshot_exit
  exit_choice-AllConsistent true allowed again h code count i s ok c seen o a r =
      let j = record i { state = if is_zero code then completed else failed; monitor = finished } in
      subst (AllConsistent cfg)
        (sym (
          check_all_instances_dead-heap cfg
            (if is_zero code then mark_ready (put h j s) else put h j s)
          ∙ mark_ready_if-heap (is_zero code) (put h j s)))
        (All-set (IsConsistent cfg) s.heap h j ok (oneshot-IsConsistent i (is_zero code) c o))
  exit_choice-AllConsistent false false again h code count i s ok c seen o a r =
      All-set (IsConsistent cfg) s.heap h _ ok (left-IsConsistent i c seen)
  exit_choice-AllConsistent false true true h code count i s ok c seen o a r =
      All-set (IsConsistent cfg) s.heap h _ ok
        (record { agrees = (seen, a, o, r); within_limit = c.within_limit })
  exit_choice-AllConsistent false true false h code count i s ok c seen o a r =
      subst (AllConsistent cfg)
        (sym (check_all_instances_dead-heap cfg (put h record i { monitor = finished } s)))
        (All-set (IsConsistent cfg) s.heap h _ ok (left-IsConsistent i c seen))

  monitor_instance-AllConsistent :
      (h : ℕ) (code : ℤ) (count : ℕ) (i : Instance) (s : Supervisor)
      → AllConsistent cfg s.heap
      → IsConsistent cfg i
      → i.monitor ≡ exited code count
      → AllConsistent cfg (monitor_instance cfg h code count i s).heap
  unfolding monitor_instance
  monitor_instance-AllConsistent h code count i s ok c at_exit =
      exit_choice-AllConsistent cfg.oneshot i.allow_restart
        (should_restart cfg.restart_policy code (pos count)) h code count i s ok c
        (subst (λ m. Agrees cfg m i) at_exit c.agrees) refl refl refl

  restart_under-AllConsistent :
      (x : Context) (spawn : Option ℕ) (h : ℕ) (code : ℤ) (count : ℕ) (i : Instance)
      (s : Supervisor)
      → AllConsistent cfg s.heap
      → IsConsistent cfg i
      → Agrees cfg (backing_off code count) i
      → AllConsistent cfg (restart_under x spawn h count i s).heap
  restart_under-AllConsistent no_context spawn h code count i s ok c seen =
      All-set (IsConsistent cfg) s.heap h _ ok (lost-IsConsistent i c)
  restart_under-AllConsistent cancelled none h code count i s ok c seen =
      All-set (IsConsistent cfg) s.heap h _ ok (lost-IsConsistent i c)
  restart_under-AllConsistent cancelled (some pid) h code count i s ok c seen =
      All-set (IsConsistent cfg) s.heap h _ ok (left-IsConsistent i c seen.0)
  restart_under-AllConsistent live none h code count i s ok c seen =
      All-set (IsConsistent cfg) s.heap h _ ok (lost-IsConsistent i c)
  restart_under-AllConsistent live (some pid) h code count i s ok c seen =
      start_instance-AllConsistent cfg i.id pid _ (
        All-set (IsConsistent cfg) s.heap h _ ok (record {
          agrees = (seen.0, seen.1, seen.2, one_more cfg cfg.restart_policy code count seen.3);
          within_limit = c.within_limit;
        }))

  -- The count of an instance says nothing of where its goroutine stands.
  counted-IsConsistent :
      (i : Instance) (n : ℕ)
      → IsConsistent cfg i
      → IsWithinLimit cfg.restart_policy n
      → IsConsistent cfg record i { restart_count = n }
  counted-IsConsistent i n c h = record { agrees = same i.monitor i n c.agrees; within_limit = h }
    where
      same :
          (m : Monitor) (i : Instance) (n : ℕ)
          → Agrees cfg m i
          → Agrees cfg m record i { restart_count = n }
      same waiting i n a = a
      same (exited code count) i n a = a
      same (backing_off code count) i n a = a
      same (counting new count) i n a = a
      same (replacing new) i n a = a
      same finished i n a = a

  count_restart-AllConsistent :
      (h new count : ℕ) (i : Instance) (s : Supervisor)
      → AllConsistent cfg s.heap
      → IsConsistent cfg i
      → Agrees cfg (counting new count) i
      → AllConsistent cfg (count_restart h new count i s).heap
  unfolding count_restart
  count_restart-AllConsistent h new count i s ok c seen =
      elim (Option-cases (get_elem? s.heap new)) [
        | inl nothing ↦
            rw (nothing, count_restart)
              (All-set (IsConsistent cfg) s.heap h _ ok
                (record { agrees = (seen.0, seen.1, seen.2); within_limit = c.within_limit }))
        | inr (j, found) ↦
            let counted =
              counted-IsConsistent j (suc count)
                (All-get_elem? (IsConsistent cfg) s.heap new j ok found) seen.3 in
            rw (found, count_restart)
              (All-set (IsConsistent cfg) _ h _ (All-set (IsConsistent cfg) s.heap new _ ok counted)
                (record { agrees = (seen.0, seen.1, seen.2); within_limit = c.within_limit }))
      ]

  stop_instance-AllConsistent :
      (signalled : Bool) (h : ℕ) (stops : Stops) (s : Supervisor)
      → AllConsistent cfg s.heap
      → AllConsistent cfg (stop_instance signalled h stops s).0.heap
  unfolding stop_instance
  stop_instance-AllConsistent signalled h stops s ok = elim (Option-cases (get_elem? s.heap h)) [
    | inl nothing ↦ rw (nothing, stop_instance) ok
    | inr (i, found) ↦ elim (Bool-cases (is_running i.state)) [
      | inr dead ↦ rw (found, dead, stop_instance) ok
      | inl runs ↦
          rw (found, runs, stop_instance)
            (All-set (IsConsistent cfg) s.heap h _ ok (
              stopping-IsConsistent i (All-get_elem? _ s.heap h i ok found)
                (running_state i.state runs)))
    ]
  ]
    where
      running_state : (st : ProcessState) → is_running st ≡ true → st ≡ running
      running_state running e = refl
      running_state starting e = cc
      running_state stopping e = cc
      running_state stopped e = cc
      running_state failed e = cc
      running_state completed e = cc

      agrees_stopping :
          (m : Monitor) (i : Instance)
          → i.state ≡ running
          → Agrees cfg m i
          → Agrees cfg m record i { state = stopping; allow_restart = false }
      agrees_stopping waiting i r a = inr (refl, refl)
      agrees_stopping (exited code count) i r a = cc (r, a)
      agrees_stopping (backing_off code count) i r a = cc (r, a.0)
      agrees_stopping (counting new count) i r a = cc (r, a.0)
      agrees_stopping (replacing new) i r a = cc (r, a.0)
      agrees_stopping finished i r (inl a) = cc (r, a)
      agrees_stopping finished i r (inr (inl a)) = cc (r, a)
      agrees_stopping finished i r (inr (inr a)) = cc (r, a.0)

      stopping-IsConsistent :
          (i : Instance)
          → IsConsistent cfg i
          → i.state ≡ running
          → IsConsistent cfg record i { state = stopping; allow_restart = false }
      stopping-IsConsistent i c r = record {
        agrees = agrees_stopping i.monitor i r c.agrees;
        within_limit = c.within_limit;
      }

  stop_one-AllConsistent :
      (signalled : Bool) (stops : Stops) (s : Supervisor)
      → AllConsistent cfg s.heap
      → AllConsistent cfg (stop_one signalled stops s).heap
  unfolding stop_next
  stop_one-AllConsistent signalled stops s ok = by_pending stops.pending
    where
      by_pending :
          (pending : List ℕ)
          → let r : Supervisor × Stops = elim pending [
            | [] ↦ (s, stops)
            | h ∷ hs ↦ stop_instance signalled h record stops { pending = hs } s
          ] in
            AllConsistent cfg r.0.heap
      by_pending [] = ok
      by_pending (h ∷ hs) =
          stop_instance-AllConsistent signalled h record stops { pending = hs } s ok

  scale_up_next-AllConsistent :
      (spawn : Option ℕ) (target : ℕ) (new : List ℕ) (s : Supervisor)
      → AllConsistent cfg s.heap
      → AllConsistent cfg (scale_up_next spawn target new s).heap
  unfolding scale_up_next
  scale_up_next-AllConsistent spawn target new s ok =
      elim (Bool-cases (leb target (length s.instances + length new))) [
        | inl enough ↦ rw enough ok
        | inr more ↦ elim (Option-cases spawn) [
          | inl fails ↦ rw (more, fails, scale_up_next) ok
          | inr (pid, starts) ↦
              rw (more, starts, scale_up_next)
                (start_instance-AllConsistent cfg (length s.instances + length new) pid s.heap ok)
        ]
      ]

  begin_scale_up-heap : (target : ℕ) (s : Supervisor) → (begin_scale_up target s).0.heap ≡ s.heap
  unfolding begin_scale_up
  begin_scale_up-heap target s = ground arith

  begin_scale_down-heap :
      (target : ℕ) (s : Supervisor) → (begin_scale_down target s).0.heap ≡ s.heap
  unfolding begin_scale_down
  begin_scale_down-heap target s = ground arith

  begin_stop-heap : (s : Supervisor) → (begin_stop s).heap ≡ s.heap
  unfolding begin_stop
  begin_stop-heap s = refl

  Step-AllConsistent :
      {s t : Supervisor} → Step cfg s t → AllConsistent cfg s.heap → AllConsistent cfg t.heap
  unfolding process_exit attempt_restart replace_instance
  Step-AllConsistent {s} (start_all spawn monitored free e) ok =
      rw e (start-AllConsistent cfg spawn monitored s ok)
  Step-AllConsistent {s} (exit_process h i code found at_wait e) ok = rw e (
      All-set (IsConsistent cfg) s.heap h _ ok
        (process_exit-IsConsistent i code (All-get_elem? (IsConsistent cfg) s.heap h i ok found)))
  Step-AllConsistent {s} (handle_exit h i code count found at_exit e) ok = rw e (
      monitor_instance-AllConsistent h code count i s ok
        (All-get_elem? (IsConsistent cfg) s.heap h i ok found) at_exit)
  Step-AllConsistent {s} (restart spawn h i code count found backs_off e) ok =
      let c = All-get_elem? (IsConsistent cfg) s.heap h i ok found in
      rw e (
        restart_under-AllConsistent s.ctx spawn h code count i s ok c
          (subst (λ m. Agrees cfg m i) backs_off c.agrees))
  Step-AllConsistent {s} (give_up h i code count found backs_off e) ok =
      let c = All-get_elem? (IsConsistent cfg) s.heap h i ok found in
      let seen = subst (λ m. Agrees cfg m i) backs_off c.agrees in
      rw e (All-set (IsConsistent cfg) s.heap h _ ok (left-IsConsistent i c seen.0))
  Step-AllConsistent {s} (count_new h new count i found counts e) ok =
      let c = All-get_elem? (IsConsistent cfg) s.heap h i ok found in
      rw e (
        count_restart-AllConsistent h new count i s ok c
          (subst (λ m. Agrees cfg m i) counts c.agrees))
  Step-AllConsistent {s} (replace h new i found replaces e) ok =
      let c = All-get_elem? (IsConsistent cfg) s.heap h i ok found in
      let seen = subst (λ m. Agrees cfg m i) replaces c.agrees in
      rw e (All-set (IsConsistent cfg) s.heap h _ ok (left-IsConsistent i c seen.0))
  Step-AllConsistent (pass_health_check e) ok = rw e ok
  Step-AllConsistent (set_scale scale e) ok = rw e ok
  Step-AllConsistent {s} (scale_up target free e) ok = rw (e, begin_scale_up-heap target s) ok
  Step-AllConsistent {s} (scale_up_round spawn target new up e) ok =
      rw e (scale_up_next-AllConsistent spawn target new s ok)
  Step-AllConsistent {s} (scale_down target free e) ok = rw (e, begin_scale_down-heap target s) ok
  Step-AllConsistent {s} (stop free e) ok = rw (e, begin_stop-heap s) ok
  Step-AllConsistent {s} (stop_an_instance signalled stops op may e) ok =
      rw e (stop_one-AllConsistent signalled stops s ok)
  Step-AllConsistent (fail_to_kill stops front back h op waits e) ok = rw e ok
  Step-AllConsistent (end_cleanup stops op done e) ok = rw e ok
  Step-AllConsistent (end_down target stops op done e) ok = rw e ok
  Step-AllConsistent (end_shutdown timed_out stops op done gone e) ok = rw e ok

-- Whatever the operations, the exits and the goroutines do, from the supervisor that NewSupervisor
-- gives on, the state of an instance agrees with where its goroutine stands: it is running or
-- stopping until its process exits, then stopped, and failed or completed at most at the end, completed
-- only if it is a one-shot. A goroutine goes on to a restart only for a longrun process whose restart is
-- allowed. The count of restarts that an instance carries is at most max_attempts, if that is positive,
-- and zero under the policy never.
pub Reach-AllConsistent :
    (cfg : Settings) (scale : ℤ) {s : Supervisor}
    → Reach cfg (new_supervisor scale) s
    → All (IsConsistent cfg) s.heap
Reach-AllConsistent cfg scale here = tt
Reach-AllConsistent cfg scale (next r st) =
    Step-AllConsistent cfg st (Reach-AllConsistent cfg scale r)
