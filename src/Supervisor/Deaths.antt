-- ===== src/Supervisor/Deaths.antt =====
-- The notification that all instances are dead, while one of them waits for its restart.
use phpeek_pm.Prelude.{
  ℕ, suc, ◌+◌, ◌≡◌, ◌≢◌, refl, sym, ap, ◌∙◌, Bool, true, false, not, if◌then◌else◌, List, [], ◌∷◌,
  ℤ, pos, length, get_elem?, some, ltb, ◌&&◌,
}
use phpeek_pm.Restart.{should_restart}
use phpeek_pm.Supervisor.{
  Instance, exited, backing_off, finished, live, Settings, Supervisor, is_running, started, put,
  all, at, monitor_instance, handle_oneshot_exit, check_all_instances_dead,
}
use phpeek_pm.Supervisor.Steps.{Reach, here, next, handle_exit}
use phpeek_pm.Supervisor.Restarts.{get-set_here, get-set_other, restarts_fully}

module _ (cfg : Settings) (notifies : cfg.death_notifier ≡ true) (longrun : cfg.oneshot ≡ false)
    (s : Supervisor) (h k : ℕ) (i j : Instance) (code code' : ℤ) (count count' pid : ℕ)
    (two : s.instances ≡ h ∷ k ∷ []) (on : s.ctx ≡ live) (found : get_elem? s.heap h ≡ some i)
    (exits : i.monitor ≡ exited code count) (allowed : i.allow_restart ≡ true)
    (over : should_restart cfg.restart_policy code (pos count) ≡ false)
    (found' : get_elem? s.heap k ≡ some j) (waits : j.monitor ≡ backing_off code' count')
    (dead : is_running i.state ≡ false) (dead' : is_running j.state ≡ false) (other : h ≢ k) where
  left : Supervisor
  left = put h record i { monitor = finished } s

  notified : Supervisor
  unfolding left
  notified = record left { deaths = s.deaths + 1 }

  at_h : get_elem? left.heap h ≡ some record i { monitor = finished }
  unfolding left
  at_h = get-set_here s.heap h record i { monitor = finished } found

  at_k : get_elem? left.heap k ≡ some j
  unfolding left
  at_k = get-set_other s.heap h k record i { monitor = finished } other ∙ found'

  dead_at :
      (heap : List Instance) (p : ℕ) (x : Instance)
      → get_elem? heap p ≡ some x
      → is_running x.state ≡ false
      → not (at (λ y. is_running y.state) heap p) ≡ true
  dead_at heap p x e not_running = rw (e, not_running, at) refl

  all_dead : all (λ p. not (at (λ y. is_running y.state) left.heap p)) left.instances ≡ true
  unfolding left
  all_dead =
      let first = dead_at left.heap h (record i { monitor = finished }) at_h dead in
      let second = dead_at left.heap k j at_k dead' in
      ap (all (λ p. not (at (λ y. is_running y.state) left.heap p))) two ∙ rw (first, second) refl

  checks : check_all_instances_dead cfg left ≡ notified
  unfolding check_all_instances_dead notified
  checks =
      by_test (all (λ p. not (at (λ y. is_running y.state) left.heap p)) left.instances) all_dead
        left.instances two
    where
      by_test :
          (b : Bool)
          → b ≡ true
          → (l : List ℕ) → l ≡ h ∷ k ∷ []
          → (if b && ltb 0 (length l) && cfg.death_notifier
              then record left { deaths = left.deaths + 1 }
              else left)
            ≡ record left { deaths = left.deaths + 1 }
      by_test b e l el = rw (e, el, notifies) refl

  falls_through : monitor_instance cfg h code count i s ≡ check_all_instances_dead cfg left
  unfolding monitor_instance left
  falls_through =
      by_branch cfg.oneshot longrun i.allow_restart allowed
        (should_restart cfg.restart_policy code (pos count)) over
    where
      by_branch :
          (b : Bool)
          → b ≡ false
          → (c : Bool) → c ≡ true
          → (d : Bool) → d ≡ false
          → (if b
              then handle_oneshot_exit cfg h code i s
              else if not c
              then put h record i { monitor = finished } s
              else if d
              then put h record i { monitor = backing_off code count } s
              else check_all_instances_dead cfg (put h record i { monitor = finished } s))
            ≡ check_all_instances_dead cfg (put h record i { monitor = finished } s)
      by_branch b eb c ec d ed = rw (eb, ec, ed) refl

  -- The manager is told that all instances are dead when one of two is not restarted, while the other
  -- waits for its restart; after the wait a process runs again.
  pub dead_before_restart :
      (t : Supervisor) × (u : Supervisor) × Reach cfg s t
      × (t.deaths ≡ s.deaths + 1)
      × (t.instances ≡ h ∷ k ∷ [])
      × Reach cfg t u
      × (get_elem? u.heap (length t.heap)
          ≡ some record (started j.id pid) { restart_count = suc count' })
  unfolding notified left
  dead_before_restart =
      let (u, restarts, e) = restarts_fully cfg notified k j code' count' pid on at_k waits in
      (
        notified,
        u,
        next here (handle_exit h i code count found exits (sym (falls_through ∙ checks))),
        refl,
        two,
        restarts,
        e.at_new,
      )
