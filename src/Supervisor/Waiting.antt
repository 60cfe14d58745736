-- ===== src/Supervisor/Waiting.antt =====
-- Stop waits for the goroutines of the instances: behind its cancel, they come to an end.
use phpeek_pm.Prelude.{
  ℕ, zero, suc, ◌+◌, ◌*◌, ◌<◌, ◌≤◌, ◌≡◌, ◌≢◌, refl, sym, ap, ◌∙◌, arith, inl, inr, Bool, true,
  false, if◌then◌else◌, Bool-cases, List, [], ◌∷◌, ℤ, pos, length, length-set, get_elem?, set,
  Option, Option-cases, none, some, some_inj,
}
use phpeek_pm.Restart.{should_restart, is_zero}
use phpeek_pm.Supervisor.{
  stopped, failed, completed, Monitor, waiting, exited, backing_off, counting, replacing, finished,
  Instance, Context, no_context, live, cancelled, Settings, Supervisor, is_finished, put,
  mark_ready, check_all_instances_dead, process_exit, handle_oneshot_exit, monitor_instance,
  restart_under, attempt_restart, count_restart, replace_instance,
}
use phpeek_pm.Supervisor.Steps.{
  Step, start_all, exit_process, handle_exit, restart, give_up, count_new, replace,
  pass_health_check, set_scale, scale_up, scale_up_round, scale_down, stop, stop_an_instance,
  fail_to_kill, end_cleanup, end_down, end_shutdown, all_finished,
}
use phpeek_pm.Supervisor.Reached.{exit_choice}

-- How many steps a goroutine has left, if it does not restart its process.
abbrev pub steps_left : Monitor → ℕ
steps_left waiting = 3
steps_left (counting new count) = 2
steps_left (replacing new) = 1
steps_left (exited code count) = 2
steps_left (backing_off code count) = 1
steps_left finished = 0

abbrev pub all_steps_left : List Instance → ℕ
all_steps_left [] = 0
all_steps_left (i ∷ heap) = steps_left i.monitor + all_steps_left heap

all_steps_left-set :
    (heap : List Instance) (h : ℕ) (i j : Instance)
    → get_elem? heap h ≡ some i
    → all_steps_left (set heap h j) + steps_left i.monitor
      ≡ all_steps_left heap + steps_left j.monitor
all_steps_left-set [] h i j found = cc
all_steps_left-set (x ∷ heap) zero i j found =
    omega (arith, ap (λ y. steps_left y.monitor) (some_inj found))
all_steps_left-set (x ∷ heap) (suc h) i j found = omega (arith, all_steps_left-set heap h i j found)

pub all_steps_left-le : (heap : List Instance) → all_steps_left heap ≤ 3 * length heap
all_steps_left-le [] = omega arith
all_steps_left-le (i ∷ heap) = omega (arith, at_most i.monitor, all_steps_left-le heap)
  where
    at_most : (m : Monitor) → steps_left m ≤ 3
    at_most waiting = omega arith
    at_most (exited code count) = omega arith
    at_most (backing_off code count) = omega arith
    at_most (counting new count) = omega arith
    at_most (replacing new) = omega arith
    at_most finished = omega arith

-- Another count leaves every goroutine where it is.
recounted-monitor :
    (heap : List Instance) (new h count : ℕ) (j i : Instance)
    → get_elem? heap new ≡ some j
    → get_elem? heap h ≡ some i
    → (i' : Instance) × (get_elem? (set heap new record j { restart_count = count }) h ≡ some i')
      × (i'.monitor ≡ i.monitor)
recounted-monitor [] new h count j i at_new at_h = cc
recounted-monitor (x ∷ heap) zero zero count j i at_new at_h =
    (record j { restart_count = count }, refl, ap (λ y. y.monitor) (some_inj (sym at_new ∙ at_h)))
recounted-monitor (x ∷ heap) zero (suc h) count j i at_new at_h = (i, at_h, refl)
recounted-monitor (x ∷ heap) (suc new) zero count j i at_new at_h = (i, at_h, refl)
recounted-monitor (x ∷ heap) (suc new) (suc h) count j i at_new at_h =
    recounted-monitor heap new h count j i at_new at_h

module _ {cfg : Settings} where
  -- A step of the goroutine of an instance, or the exit of its process.
  abbrev pub IsTurn : {s t : Supervisor} → Step cfg s t → Type 0
  IsTurn (exit_process h i code found m e) = Unit {0}
  IsTurn (handle_exit h i code count found m e) = Unit {0}
  IsTurn (restart spawn h i code count found m e) = Unit {0}
  IsTurn (give_up h i code count found m e) = Unit {0}
  IsTurn (count_new h new count i found m e) = Unit {0}
  IsTurn (replace h new i found m e) = Unit {0}
  IsTurn (start_all spawn monitored free e) = ⊥
  IsTurn (pass_health_check e) = ⊥
  IsTurn (set_scale scale e) = ⊥
  IsTurn (scale_up target free e) = ⊥
  IsTurn (scale_up_round spawn target new up e) = ⊥
  IsTurn (scale_down target free e) = ⊥
  IsTurn (stop free e) = ⊥
  IsTurn (stop_an_instance signalled stops op may e) = ⊥
  IsTurn (fail_to_kill stops front back h op waits e) = ⊥
  IsTurn (end_cleanup stops op done e) = ⊥
  IsTurn (end_down target stops op done e) = ⊥
  IsTurn (end_shutdown timed_out stops op done gone e) = ⊥

-- n turns.
pub data Turns (cfg : Settings) (s : Supervisor) : ℕ → Supervisor → Type 0 where
  no_turn : Turns cfg s 0 s
  turn :
      {n : ℕ} {t u : Supervisor}
      → Turns cfg s n t
      → (st : Step cfg t u) → IsTurn st
      → Turns cfg s (suc n) u

module _ (cfg : Settings) where
  -- What a turn leaves behind.
  record Fewer (s t : Supervisor) : Type 0 where
    fewer : all_steps_left t.heap < all_steps_left s.heap
    ctx : t.ctx ≡ s.ctx
    grows_not : length t.heap ≡ length s.heap

  put-Fewer :
      (h : ℕ) (i j : Instance) (s t : Supervisor)
      → get_elem? s.heap h ≡ some i
      → steps_left j.monitor < steps_left i.monitor
      → t.heap ≡ set s.heap h j
      → t.ctx ≡ s.ctx
      → Fewer s t
  put-Fewer h i j s t found less e c = record {
    fewer = omega (arith, all_steps_left-set s.heap h i j found, less, ap all_steps_left e);
    ctx = c;
    grows_not = ap length e ∙ length-set s.heap h j;
  }

  check_all_instances_dead-heap_ctx :
      (s : Supervisor)
      → ((check_all_instances_dead cfg s).heap ≡ s.heap)
        × ((check_all_instances_dead cfg s).ctx ≡ s.ctx)
  unfolding check_all_instances_dead
  check_all_instances_dead-heap_ctx s = ground arith

  mark_ready_if-heap_ctx :
      (b : Bool) (s : Supervisor)
      → let t : Supervisor = if b then mark_ready s else s in (t.heap ≡ s.heap) × (t.ctx ≡ s.ctx)
  mark_ready_if-heap_ctx true s = (refl, refl)
  mark_ready_if-heap_ctx false s = (refl, refl)

  exit_choice-Fewer :
      (once allowed again : Bool) (h : ℕ) (code : ℤ) (count : ℕ) (i : Instance) (s : Supervisor)
      → get_elem? s.heap h ≡ some i
      → i.monitor ≡ exited code count
      → Fewer s (exit_choice cfg once allowed again h code count i s)
  unfolding handle_oneshot_exit
  exit_choice-Fewer true allowed again h code count i s found m =
      let j = record i { state = if is_zero code then completed else failed; monitor = finished } in
      let left = put h j s in
      let readied : Supervisor = if is_zero code then mark_ready left else left in
      let (heap_r, ctx_r) = mark_ready_if-heap_ctx (is_zero code) left in
      let (heap_c, ctx_c) = check_all_instances_dead-heap_ctx readied in
      put-Fewer h i j s _ found (omega (arith, ap steps_left m)) (heap_c ∙ heap_r) (ctx_c ∙ ctx_r)
  exit_choice-Fewer false false again h code count i s found m =
      put-Fewer h i record i { monitor = finished } s _ found (omega (arith, ap steps_left m)) refl
        refl
  exit_choice-Fewer false true true h code count i s found m =
      put-Fewer h i record i { monitor = backing_off code count } s _ found
        (omega (arith, ap steps_left m)) refl refl
  exit_choice-Fewer false true false h code count i s found m =
      let j = record i { monitor = finished } in
      let (heap_c, ctx_c) = check_all_instances_dead-heap_ctx (put h j s) in
      put-Fewer h i j s _ found (omega (arith, ap steps_left m)) heap_c ctx_c

  restart_under-Fewer :
      (x : Context) (spawn : Option ℕ) (h : ℕ) (code : ℤ) (count : ℕ) (i : Instance)
      (s : Supervisor)
      → get_elem? s.heap h ≡ some i
      → i.monitor ≡ backing_off code count
      → x ≢ live
      → Fewer s (restart_under x spawn h count i s)
  restart_under-Fewer no_context spawn h code count i s found m over =
      put-Fewer h i record i { state = failed; monitor = finished } s _ found
        (omega (arith, ap steps_left m)) refl refl
  restart_under-Fewer cancelled none h code count i s found m over =
      put-Fewer h i record i { state = failed; monitor = finished } s _ found
        (omega (arith, ap steps_left m)) refl refl
  restart_under-Fewer cancelled (some pid) h code count i s found m over =
      put-Fewer h i record i { monitor = finished } s _ found (omega (arith, ap steps_left m)) refl
        refl
  restart_under-Fewer live spawn h code count i s found m over = absurd (over refl)

  count_restart-Fewer :
      (h new count : ℕ) (i : Instance) (s : Supervisor)
      → get_elem? s.heap h ≡ some i
      → i.monitor ≡ counting new count
      → Fewer s (count_restart h new count i s)
  unfolding count_restart
  count_restart-Fewer h new count i s found m = elim (Option-cases (get_elem? s.heap new)) [
    | inl nothing ↦
        rw (nothing, count_restart)
          (put-Fewer h i record i { monitor = replacing new } s _ found
            (omega (arith, ap steps_left m)) refl refl)
    | inr (j, at_new) ↦
        let counted = record j { restart_count = suc count } in
        let (i', at_h, same) = recounted-monitor s.heap new h (suc count) j i at_new found in
        let replaced = record i { monitor = replacing new } in
        rw (at_new, count_restart)
          record {
            fewer = omega (
              arith,
              all_steps_left-set s.heap new j counted at_new,
              all_steps_left-set (set s.heap new counted) h i' replaced at_h,
              ap steps_left same,
              ap steps_left m,
            );
            ctx = refl;
            grows_not =
                length-set (set s.heap new counted) h replaced ∙ length-set s.heap new counted;
          }
  ]

  turn-Fewer : {s t : Supervisor} (st : Step cfg s t) → IsTurn st → s.ctx ≢ live → Fewer s t
  unfolding process_exit monitor_instance attempt_restart replace_instance
  turn-Fewer {s} (exit_process h i code found m e) u over = rw e (
      put-Fewer h i record i { state = stopped; monitor = exited code i.restart_count } s _ found
        (omega (arith, ap steps_left m)) refl refl)
  turn-Fewer {s} (handle_exit h i code count found m e) u over = rw e (
      exit_choice-Fewer cfg.oneshot i.allow_restart
        (should_restart cfg.restart_policy code (pos count)) h code count i s found m)
  turn-Fewer {s} (restart spawn h i code count found m e) u over =
      rw e (restart_under-Fewer s.ctx spawn h code count i s found m over)
  turn-Fewer {s} (give_up h i code count found m e) u over = rw e (
      put-Fewer h i record i { monitor = finished } s _ found (omega (arith, ap steps_left m)) refl
        refl)
  turn-Fewer {s} (count_new h new count i found m e) u over =
      rw e (count_restart-Fewer h new count i s found m)
  turn-Fewer {s} (replace h new i found m e) u over = rw e (
      put-Fewer h i record i { monitor = finished } s _ found (omega (arith, ap steps_left m)) refl
        refl)
  turn-Fewer (start_all spawn monitored free e) u over = absurd u
  turn-Fewer (pass_health_check e) u over = absurd u
  turn-Fewer (set_scale scale e) u over = absurd u
  turn-Fewer (scale_up target free e) u over = absurd u
  turn-Fewer (scale_up_round spawn target new up e) u over = absurd u
  turn-Fewer (scale_down target free e) u over = absurd u
  turn-Fewer (stop free e) u over = absurd u
  turn-Fewer (stop_an_instance signalled stops op may e) u over = absurd u
  turn-Fewer (fail_to_kill stops front back h op waits e) u over = absurd u
  turn-Fewer (end_cleanup stops op done e) u over = absurd u
  turn-Fewer (end_down target stops op done e) u over = absurd u
  turn-Fewer (end_shutdown timed_out stops op done gone e) u over = absurd u

  record Bounded (n : ℕ) (s t : Supervisor) : Type 0 where
    bound : n + all_steps_left t.heap ≤ all_steps_left s.heap
    ctx : t.ctx ≡ s.ctx
    same_length : length t.heap ≡ length s.heap

  Turns-Bounded :
      {s : Supervisor} {n : ℕ} {t : Supervisor} → Turns cfg s n t → s.ctx ≢ live → Bounded n s t
  Turns-Bounded {s} no_turn over = record { bound = omega arith; ctx = refl; same_length = refl }
  Turns-Bounded (turn r st u) over =
      let b = Turns-Bounded r over in
      let f = turn-Fewer st u (λ e. over (sym b.ctx ∙ e)) in
      record {
        bound = omega (arith, b.bound, f.fewer);
        ctx = f.ctx ∙ b.ctx;
        same_length = f.grows_not ∙ b.same_length;
      }

  -- A goroutine that has not ended can take its next step, once its process has exited.
  next-IsTurn :
      (s : Supervisor)
      → all_finished s.heap ≡ false
      → (t : Supervisor) × (st : Step cfg s t) × IsTurn st
  next-IsTurn s open_one =
      let (h, i, found, goes_on) = unfinished s.heap open_one in
      by_monitor h i found i.monitor refl goes_on
    where
      clash : false ≡ true → ⊥
      clash e = cc

      unfinished :
          (heap : List Instance)
          → all_finished heap ≡ false
          → (h : ℕ) × (i : Instance) × (get_elem? heap h ≡ some i) × (is_finished i.monitor ≡ false)
      unfinished [] e = cc
      unfinished (i ∷ heap) e = elim (Bool-cases (is_finished i.monitor)) [
        | inr goes_on ↦ (0, i, refl, goes_on)
        | inl ended ↦
            let (h, j, found, goes_on) = unfinished heap (ground (arith, e, ended)) in
            (suc h, j, found, goes_on)
      ]

      by_monitor :
          (h : ℕ) (i : Instance)
          → get_elem? s.heap h ≡ some i
          → (m : Monitor) → i.monitor ≡ m
          → is_finished i.monitor ≡ false
          → (t : Supervisor) × (st : Step cfg s t) × IsTurn st
      by_monitor h i found waiting e g =
          (process_exit h (pos 0) i s, exit_process h i (pos 0) found e refl, tt)
      by_monitor h i found (exited code count) e g =
          (monitor_instance cfg h code count i s, handle_exit h i code count found e refl, tt)
      by_monitor h i found (backing_off code count) e g =
          (attempt_restart none h count i s, restart none h i code count found e refl, tt)
      by_monitor h i found (counting new count) e g =
          (count_restart h new count i s, count_new h new count i found e refl, tt)
      by_monitor h i found (replacing new) e g =
          (replace_instance h new i s, replace h new i found e refl, tt)
      by_monitor h i found finished e g = absurd (clash (sym g ∙ ap is_finished e))

  ends_from :
      (k : ℕ) (s : Supervisor) (n : ℕ) (t : Supervisor)
      → Turns cfg s n t
      → t.ctx ≢ live
      → all_steps_left t.heap < k
      → (m : ℕ) × (u : Supervisor) × Turns cfg s m u × (all_finished u.heap ≡ true)
  ends_from zero s n t r over enough = absurd (omega (arith, enough))
  ends_from (suc k) s n t r over enough = elim (Bool-cases (all_finished t.heap)) [
    | inl done ↦ (n, t, r, done)
    | inr open_one ↦
        let (u, st, is_turn) = next-IsTurn t open_one in
        let f = turn-Fewer st is_turn over in
        ends_from k s (suc n) u (turn r st is_turn) (λ e. over (sym f.ctx ∙ e))
          (omega (arith, enough, f.fewer))
  ]

  -- Once the context is not live, the goroutines of the instances and the exits of their processes take
  -- together at most three steps for each instance, and start no instance. From every state that they
  -- reach, they can go on to one in which all the goroutines have ended, by at most three steps for
  -- each instance again.
  pub Turns-end :
      (s : Supervisor)
      → s.ctx ≢ live
      → (n : ℕ) (t : Supervisor) → Turns cfg s n t
      → (n ≤ 3 * length s.heap)
        × (length t.heap ≡ length s.heap)
        × ((m : ℕ) × (u : Supervisor) × Turns cfg t m u
            × (m ≤ 3 * length s.heap)
            × (all_finished u.heap ≡ true))
  Turns-end s over n t r =
      let b = Turns-Bounded r over in
      let still : t.ctx ≢ live = λ e. over (sym b.ctx ∙ e) in
      let (m, u, rest, done) =
        ends_from (suc (all_steps_left t.heap)) t 0 t no_turn still (omega arith) in
      let least = all_steps_left-le s.heap in
      (
        omega (arith, b.bound, least),
        b.same_length,
        (
          m,
          u,
          rest,
          omega (arith, (Turns-Bounded rest still).bound, all_steps_left-le t.heap, b.same_length),
          done,
        ),
      )
