-- ===== src/Supervisor/Instances.antt =====
-- What an instance looks like at each place of its goroutine.
use phpeek_pm.Prelude.{
  leb_ℤ, some_inj, ℕ, zero, suc, ◌≡◌, refl, sym, subst, arith, inl, inr, ◌⊎◌, Bool, true, false,
  Bool-cases, List, [], ◌∷◌, ◌++◌, ℤ, pos, pos_part, ◌≤ℤ◌, length, get_elem?, set, All, All-append,
  Option, Option-cases, some,
}
use phpeek_pm.Restart.{RestartPolicy, always, on_failure, never, should_restart}
use phpeek_pm.Supervisor.{
  starting, running, stopping, stopped, failed, completed, Monitor, waiting, exited, backing_off,
  counting, replacing, finished, Instance, live, Settings, Supervisor, started, start_instance,
  start_from, after_start, start, check_all_instances_dead,
}

-- The bound of the policy on a count of restarts.
abbrev pub IsWithinLimit : RestartPolicy → ℕ → Type 0
IsWithinLimit (always p) n = (p.max_attempts ≤ℤ pos 0) ⊎ (pos n ≤ℤ p.max_attempts)
IsWithinLimit (on_failure p) n = (p.max_attempts ≤ℤ pos 0) ⊎ (pos n ≤ℤ p.max_attempts)
IsWithinLimit never n = n ≡ 0

abbrev pub Agrees : Settings → Monitor → Instance → Type 0
Agrees cfg waiting i =
    ((i.state ≡ running) × (i.allow_restart ≡ true))
    ⊎ ((i.state ≡ stopping) × (i.allow_restart ≡ false))
Agrees cfg (exited code count) i = i.state ≡ stopped
Agrees cfg (backing_off code count) i =
    (i.state ≡ stopped)
    × (i.allow_restart ≡ true)
    × (cfg.oneshot ≡ false)
    × (should_restart cfg.restart_policy code (pos count) ≡ true)
Agrees cfg (counting new count) i =
    (i.state ≡ stopped)
    × (i.allow_restart ≡ true)
    × (cfg.oneshot ≡ false)
    × IsWithinLimit cfg.restart_policy (suc count)
Agrees cfg (replacing new) i =
    (i.state ≡ stopped) × (i.allow_restart ≡ true) × (cfg.oneshot ≡ false)
Agrees cfg finished i =
    (i.state ≡ stopped) ⊎ ((i.state ≡ failed) ⊎ ((i.state ≡ completed) × (cfg.oneshot ≡ true)))

pub record IsConsistent (cfg : Settings) (i : Instance) : Type 0 where
  pub agrees : Agrees cfg i.monitor i
  pub within_limit : IsWithinLimit cfg.restart_policy i.restart_count

module _ {ℓ κ} {A : Type ℓ} where
  pub All-set : (P : A → Type κ) (xs : List A) (h : ℕ) (a : A) → All P xs → P a → All P (set xs h a)
  All-set P [] h a of_all of_a = tt
  All-set P (x ∷ xs) zero a of_all of_a = (of_a, of_all.1)
  All-set P (x ∷ xs) (suc h) a of_all of_a = (of_all.0, All-set P xs h a of_all.1 of_a)

  pub All-get_elem? :
      (P : A → Type κ) (xs : List A) (h : ℕ) (a : A) → All P xs → get_elem? xs h ≡ some a → P a
  All-get_elem? P [] h a of_all e = cc
  All-get_elem? P (x ∷ xs) zero a of_all e = subst P (some_inj e) of_all.0
  All-get_elem? P (x ∷ xs) (suc h) a of_all e = All-get_elem? P xs h a of_all.1 e

module _ (cfg : Settings) where
  abbrev pub AllConsistent : List Instance → Type 0
  AllConsistent heap = All (IsConsistent cfg) heap

  pub no_restarts : (p : RestartPolicy) → IsWithinLimit p 0
  no_restarts (always p) = below p.max_attempts
    where
      below : (m : ℤ) → (m ≤ℤ pos 0) ⊎ (pos 0 ≤ℤ m)
      below (pos n) = inr (omega arith)
      below (ℤ.negsuc n) = inl (omega arith)
  no_restarts (on_failure p) = below p.max_attempts
    where
      below : (m : ℤ) → (m ≤ℤ pos 0) ⊎ (pos 0 ≤ℤ m)
      below (pos n) = inr (omega arith)
      below (ℤ.negsuc n) = inl (omega arith)
  no_restarts never = refl

  pub one_more :
      (p : RestartPolicy) (code : ℤ) (n : ℕ)
      → should_restart p code (pos n) ≡ true
      → IsWithinLimit p (suc n)
  unfolding should_restart
  one_more (always p) code n h = elim (Bool-cases (leb_ℤ p.max_attempts (pos 0))) [
    | inl unlimited ↦ inl (ground (arith, unlimited))
    | inr limited ↦ inr (ground (arith, limited))
  ]
  one_more (on_failure p) code n h = elim (Bool-cases (leb_ℤ p.max_attempts (pos 0))) [
    | inl unlimited ↦ inl (ground (arith, unlimited))
    | inr limited ↦ inr (ground (arith, limited))
  ]
  one_more never code n h = cc

  started-IsConsistent : (id pid : ℕ) → IsConsistent cfg (started id pid)
  started-IsConsistent id pid = record {
    agrees = inl (refl, refl);
    within_limit = no_restarts cfg.restart_policy;
  }

  pub start_instance-AllConsistent :
      (id pid : ℕ) (heap : List Instance)
      → AllConsistent heap
      → AllConsistent (heap ++ started id pid ∷ [])
  start_instance-AllConsistent id pid heap ok =
      All-append (IsConsistent cfg) heap (started id pid ∷ []) ok (started-IsConsistent id pid, tt)

  start_from-AllConsistent :
      (rounds i : ℕ) (spawn : ℕ → Option ℕ) (s : Supervisor)
      → AllConsistent s.heap
      → AllConsistent (start_from rounds i spawn s).0.heap
  unfolding start_from
  start_from-AllConsistent zero i spawn s ok = ok
  start_from-AllConsistent (suc rounds) i spawn s ok = elim (Option-cases (spawn i)) [
    | inl fails ↦ rw (fails, start_from) ok
    | inr (pid, starts) ↦
        rw (starts, start_from)
          (start_from-AllConsistent rounds (suc i) spawn
            (record (start_instance i pid s) { instances = s.instances ++ length s.heap ∷ [] })
            (start_instance-AllConsistent i pid s.heap ok))
  ]

  after_start-heap :
      (monitored : Bool) (s : Supervisor) → (after_start cfg monitored s).0.heap ≡ s.heap
  after_start-heap monitored s = ground arith

  pub start-AllConsistent :
      (spawn : ℕ → Option ℕ) (monitored : Bool) (s : Supervisor)
      → AllConsistent s.heap
      → AllConsistent (start cfg spawn monitored s).0.heap
  unfolding start
  start-AllConsistent spawn monitored s ok =
      let begun : Supervisor = record s { ctx = live; state = starting } in
      let tried = start_from (pos_part s.scale) 0 spawn begun in
      let all_tried = start_from-AllConsistent (pos_part s.scale) 0 spawn begun ok in
      elim (Option-cases tried.1) [
        | inl fine ↦
            rw (fine, start)
              (subst AllConsistent
                (sym (after_start-heap monitored record tried.0 { state = running })) all_tried)
        | inr (i, fails) ↦ rw (fails, start) all_tried
      ]

  pub check_all_instances_dead-heap :
      (s : Supervisor) → (check_all_instances_dead cfg s).heap ≡ s.heap
  unfolding check_all_instances_dead
  check_all_instances_dead-heap s = ground arith
