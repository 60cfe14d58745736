-- ===== src/Supervisor/Restarts.antt =====
-- A restart from its wait to its end, and what comes of it if the new process exits at once.
use phpeek_pm.Prelude.{
  ℕ, zero, suc, ◌<◌, ◌≡◌, ◌≢◌, refl, sym, ap, ◌∙◌, subst, arith, true, false, not, if◌then◌else◌,
  Bool, List, [], ◌∷◌, ◌++◌, ℤ, pos, length, length-set, get_elem?, get_elem?-snoc, set, some,
}
use phpeek_pm.Restart.{should_restart}
use phpeek_pm.Supervisor.{
  stopped, exited, backing_off, counting, replacing, finished, Instance, live, Settings, Supervisor,
  started, put, start_instance, replace_id, restart_under, attempt_restart, count_restart,
  replace_instance, process_exit, monitor_instance, handle_oneshot_exit, check_all_instances_dead,
}
use phpeek_pm.Supervisor.Steps.{
  Reach, here, next, exit_process, handle_exit, restart, count_new, replace,
}
use phpeek_pm.Supervisor.Positions.{KeepsIds, KeepsIds-append, KeepsIds-set}

pub Reach-trans :
    {cfg : Settings} {s t u : Supervisor} → Reach cfg s t → Reach cfg t u → Reach cfg s u
Reach-trans r here = r
Reach-trans r (next q st) = next (Reach-trans r q) st

pub get-set_here :
    (l : List Instance) (h : ℕ) (v : Instance) {i : Instance}
    → get_elem? l h ≡ some i
    → get_elem? (set l h v) h ≡ some v
get-set_here [] h v e = cc
get-set_here (x ∷ l) zero v e = refl
get-set_here (x ∷ l) (suc h) v e = get-set_here l h v e

pub get-set_other :
    (l : List Instance) (h k : ℕ) (v : Instance) → h ≢ k → get_elem? (set l h v) k ≡ get_elem? l k
get-set_other [] h k v apart = refl
get-set_other (x ∷ l) zero zero v apart = absurd (apart refl)
get-set_other (x ∷ l) zero (suc k) v apart = refl
get-set_other (x ∷ l) (suc h) zero v apart = refl
get-set_other (x ∷ l) (suc h) (suc k) v apart = get-set_other l h k v (λ e. apart (ap suc e))

get-append :
    (l more : List Instance) (h : ℕ) {i : Instance}
    → get_elem? l h ≡ some i
    → get_elem? (l ++ more) h ≡ some i
get-append [] more h e = cc
get-append (x ∷ l) more zero e = e
get-append (x ∷ l) more (suc h) e = get-append l more h e

get-below : (l : List Instance) (h : ℕ) {i : Instance} → get_elem? l h ≡ some i → h < length l
get-below [] h e = cc
get-below (x ∷ l) zero e = omega arith
get-below (x ∷ l) (suc h) e = omega (arith, get-below l h e)

-- The steps that lead from a state in which attemptRestart has started a process to its end.
record Begun (cfg : Settings) (s : Supervisor) (h new count : ℕ) (i j : Instance) : Type 0 where
  at_h : get_elem? s.heap h ≡ some i
  at_new : get_elem? s.heap new ≡ some j
  apart : new ≢ h
  counts : i.monitor ≡ counting new count

pub record Ended (s t : Supervisor) (new : ℕ) (id : ℕ) (j : Instance) : Type 0 where
  pub at_new : get_elem? t.heap new ≡ some j
  pub instances : t.instances ≡ replace_id t.heap id new s.instances
  pub operation : t.operation ≡ s.operation
  pub ids : KeepsIds s.heap t.heap

module _ (cfg : Settings) where
  ends :
      (s : Supervisor) (h new count : ℕ) (i j : Instance)
      → Begun cfg s h new count i j
      → (t : Supervisor) × Reach cfg s t × Ended s t new i.id record j { restart_count = suc count }
  unfolding count_restart replace_instance
  ends s h new count i j b =
      let counted = record j { restart_count = suc count } in
      let replaced = record i { monitor = replacing new } in
      let left = record replaced { monitor = finished } in
      let s₁ = put h replaced (put new counted s) in
      let counts : s₁ ≡ count_restart h new count i s = rw (b.at_new, count_restart) refl in
      let at_h : get_elem? (set s.heap new counted) h ≡ some i =
        get-set_other s.heap new h counted b.apart ∙ b.at_h in
      let at_h₁ : get_elem? s₁.heap h ≡ some replaced =
        get-set_here (set s.heap new counted) h replaced at_h in
      let other : h ≢ new = λ e. b.apart (sym e) in
      (
        replace_instance h new replaced s₁,
        next (next here (count_new h new count i b.at_h b.counts counts))
            (replace h new replaced at_h₁ refl refl),
        record {
          at_new =
              get-set_other s₁.heap h new left other
              ∙ get-set_other (set s.heap new counted) h new replaced other
              ∙ get-set_here s.heap new counted b.at_new;
          instances = refl;
          operation = refl;
          ids = λ k n e. KeepsIds-set s₁.heap h replaced left at_h₁ refl k n (
              KeepsIds-set (set s.heap new counted) h i replaced at_h refl k n
                (KeepsIds-set s.heap new j counted b.at_new refl k n e));
        },
      )

  module _ (s : Supervisor) (h : ℕ) (i : Instance) (code : ℤ) (count pid : ℕ) (on : s.ctx ≡ live)
      (found : get_elem? s.heap h ≡ some i) (backs_off : i.monitor ≡ backing_off code count) where
    abbrev going_on : Instance
    going_on = record i { monitor = counting (length s.heap) count }

    -- The state behind startInstance.
    abbrev begun : Supervisor
    begun = start_instance i.id pid (put h going_on s)

    begun_lem : begun ≡ attempt_restart (some pid) h count i s
    unfolding attempt_restart
    begun_lem = ap (λ c. restart_under c (some pid) h count i s) (sym on)

    begins : Reach cfg s begun
    begins = next here (restart (some pid) h i code count found backs_off begun_lem)

    begun-Begun : Begun cfg begun h (length s.heap) count going_on (started i.id pid)
    begun-Begun =
        let left = set s.heap h going_on in
        record {
          at_h = get-append left (started i.id pid ∷ []) h (get-set_here s.heap h going_on found);
          at_new =
              subst (λ n. get_elem? (left ++ started i.id pid ∷ []) n ≡ some (started i.id pid))
                (length-set s.heap h going_on) (get_elem?-snoc left (started i.id pid));
          apart = λ e. omega (arith, e, get-below s.heap h found);
          counts = refl;
        }

    begun_ids : KeepsIds s.heap begun.heap
    begun_ids k n e =
        KeepsIds-append (set s.heap h going_on) _ k n
          (KeepsIds-set s.heap h i going_on found refl k n e)

    -- A restart that nothing disturbs.
    pub restarts_fully :
        (t : Supervisor) × Reach cfg s t
        × Ended s t (length s.heap) i.id record (started i.id pid) { restart_count = suc count }
    restarts_fully =
        let (t, r, e) =
          ends begun h (length s.heap) count going_on (started i.id pid) begun-Begun in
        (
          t,
          Reach-trans begins r,
          record {
            at_new = e.at_new;
            instances = e.instances;
            operation = e.operation;
            ids = λ k n at. e.ids k n (begun_ids k n at);
          },
        )

    -- The state where the new process has exited before its count was set.
    abbrev gone : ℤ → Instance
    gone code' = record (started i.id pid) { state = stopped; monitor = exited code' 0 }

    module _ (code' : ℤ) (longrun : cfg.oneshot ≡ false)
        (again : should_restart cfg.restart_policy code' (pos 0) ≡ true) where
      backs_off_again :
          (t : Supervisor) (k : ℕ) (j : Instance)
          → j.allow_restart ≡ true
          → put k record j { monitor = backing_off code' 0 } t ≡ monitor_instance cfg k code' 0 j t
      unfolding monitor_instance
      backs_off_again t k j allowed =
          by_branch cfg.oneshot longrun j.allow_restart allowed
            (should_restart cfg.restart_policy code' (pos 0)) again
        where
          by_branch :
              (b : Bool)
              → b ≡ false
              → (c : Bool) → c ≡ true
              → (d : Bool) → d ≡ true
              → put k record j { monitor = backing_off code' 0 } t ≡ (
                  if b
                  then handle_oneshot_exit cfg k code' j t
                  else if not c
                  then put k record j { monitor = finished } t
                  else if d
                  then put k record j { monitor = backing_off code' 0 } t
                  else check_all_instances_dead cfg (put k record j { monitor = finished } t))
          by_branch b eb c ec d ed = rw (eb, ec, ed) refl

      -- A restarted longrun process that exits before attemptRestart has set its count is restarted again
      -- as if it had never been restarted: wherever the policy allows a first restart, its goroutine waits
      -- for the next one with the count zero, whatever the count of the instance has become.
      pub restart_forgets :
          (u : Supervisor) × (j : Instance) × Reach cfg s u
          × (get_elem? u.heap (length s.heap) ≡ some j)
          × (j.restart_count ≡ suc count)
          × (j.monitor ≡ backing_off code' 0)
      unfolding process_exit
      restart_forgets =
          let new = length s.heap in
          let b = begun-Begun in
          let s₁ = put new (gone code') begun in
          let exits : s₁ ≡ process_exit new code' (started i.id pid) begun = refl in
          let later : Begun cfg s₁ h new count going_on (gone code') = record {
            at_h = get-set_other begun.heap new h (gone code') b.apart ∙ b.at_h;
            at_new = get-set_here begun.heap new (gone code') b.at_new;
            apart = b.apart;
            counts = refl;
          } in
          let (t, r, e) = ends s₁ h new count going_on (gone code') later in
          let j = record (gone code') { restart_count = suc count } in
          let waits = record j { monitor = backing_off code' 0 } in
          (
            put new waits t,
            waits,
            next
                (Reach-trans
                  (next begins (exit_process new (started i.id pid) code' b.at_new refl exits)) r)
                (handle_exit new j code' 0 e.at_new refl (backs_off_again t new j refl)),
            get-set_here t.heap new waits e.at_new,
            refl,
            refl,
          )
