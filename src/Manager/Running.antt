-- ===== src/Manager/Running.antt =====
-- The supervisors that are there when Start returns no error.
use phpeek_pm.Prelude.{
  ℕ, ◌≡◌, ◌≢◌, refl, sym, ap, subst, ◌∙◌, ◌⊎◌, inl, inr, Bool, true, false, Bool-cases,
  false_ne_true, if◌then◌else◌, List, [], ◌∷◌, String, str_eq, eq_iff, eq_refl, Option,
  Option-cases, none, some, lookup, lookup-insert, get_or, HasUniqueKeys,
}
use phpeek_pm.Config.{Process, no_process}
use phpeek_pm.Deps.{Result, ok, err, out_of_fuel, contains}
use phpeek_pm.Deps.Topological.Counts.{count-contains}
use phpeek_pm.Deps.Enabled.{enabled_in_order}
use phpeek_pm.Manager.{Managed, Manager, config_at, put}
use phpeek_pm.Manager.Startup.{
  StartupOps, Runtime, StartError, no_fuel, no_order, not_started, startup_order,
  start_regular_process, start_name, start_names, start_manager, wait_for_dependencies,
}
use phpeek_pm.Manager.Order.{lookup-configured, order_of}
use phpeek_pm.Manager.Rounds.{start_name_lem}

module _ {Sup : Type 0} (w : StartupOps Sup) where
  -- The entry of a process that was started: its supervisor is what Start has made of a new one, or a new
  -- one that was marked ready where the process is not to run at first.
  abbrev pub RunsAs : ℕ → Process → Option (Managed Sup) → Type 0
  RunsAs p cfg none = ⊥
  RunsAs p cfg (some x) =
      (x.config ≡ p)
      × ((cfg.initial_state ≡ "running"
            → (x.sup ≡ (w.ops.start cfg.scale (w.ops.new cfg)).0)
              × ((w.ops.start cfg.scale (w.ops.new cfg)).1 ≡ true))
          × (cfg.initial_state ≢ "running" → x.sup ≡ w.mark_ready (w.ops.new cfg)))

  lookup-put_self :
      (name : String) (x : Managed Sup) (m : Manager Sup)
      → lookup name (put name x m).processes ≡ some x
  lookup-put_self name x m = lookup-insert name name x m.processes ∙ rw (eq_refl name) refl

  lookup-put_other :
      (name other : String) (x : Managed Sup) (m : Manager Sup)
      → str_eq name other ≡ false
      → lookup other (put name x m).processes ≡ lookup other m.processes
  lookup-put_other name other x m apart = lookup-insert name other x m.processes ∙ rw apart refl

  start_regular_process-RunsAs :
      (name : String) (p : ℕ) (m : Manager Sup)
      → (start_regular_process w name p m).1 ≡ true
      → RunsAs p (config_at m p) (lookup name (start_regular_process w name p m).0.processes)
  start_regular_process-RunsAs name p m =
      let cfg = config_at m p in
      let x : Managed Sup = record { config = p; sup = w.ops.new cfg } in
      elim (Bool-cases (str_eq cfg.initial_state "running")) [
        | inl runs ↦
            let x' = record x { sup = (w.ops.start cfg.scale x.sup).0 } in
            rw runs (λ fine. subst (RunsAs p cfg) (sym (lookup-put_self name x' (put name x m))) (
              refl,
              (
                λ e. (refl, fine),
                λ idle. absurd (idle ((eq_iff cfg.initial_state "running").0 runs)),
              ),
            ))
        | inr idle ↦
            let x' = record x { sup = w.mark_ready x.sup } in
            rw idle (λ fine. subst (RunsAs p cfg) (sym (lookup-put_self name x' (put name x m))) (
              refl,
              (
                λ e. absurd (false_ne_true (sym idle ∙ (eq_iff cfg.initial_state "running").1 e)),
                λ e. refl,
              ),
            ))
      ]

  start_regular_process-others :
      (first name : String) (p : ℕ) (m : Manager Sup)
      → str_eq first name ≡ false
      → lookup name (start_regular_process w first p m).0.processes ≡ lookup name m.processes
  start_regular_process-others first name p m apart =
      let cfg = config_at m p in
      let x : Managed Sup = record { config = p; sup = w.ops.new cfg } in
      elim (Bool-cases (str_eq cfg.initial_state "running")) [
        | inl runs ↦ rw runs (
            lookup-put_other first name (record x { sup = (w.ops.start cfg.scale x.sup).0 })
              (put first x m) apart
            ∙ lookup-put_other first name x m apart)
        | inr idle ↦ rw idle (
            lookup-put_other first name (record x { sup = w.mark_ready x.sup }) (put first x m)
              apart
            ∙ lookup-put_other first name x m apart)
      ]

  -- A round of another process.
  start_name-others :
      (first name : String) (r : Runtime Sup)
      → str_eq first name ≡ false
      → lookup name (start_name w first r).0.manager.processes ≡ lookup name r.manager.processes
  unfolding start_name
  start_name-others first name r apart = elim (Option-cases (lookup first r.manager.config)) [
    | inl absent ↦ rw (absent, start_name) refl
    | inr (q, there) ↦
        let cfg = config_at r.manager q in
        elim (Bool-cases cfg.enabled) [
          | inr off ↦ rw (there, off, start_name) refl
          | inl on ↦ elim (Option-cases (wait_for_dependencies w cfg.depends_on r.manager)) [
            | inr (e, waits) ↦ rw (there, on, waits, start_name) refl
            | inl ready ↦ elim (Bool-cases (str_eq cfg.schedule "")) [
              | inl regular ↦
                  rw (there, on, ready, regular, start_name)
                    (start_regular_process-others first name q r.manager apart)
              | inr scheduled ↦ elim (Bool-cases (w.register first cfg)) [
                | inl taken ↦ rw (there, on, ready, scheduled, taken, start_name) refl
                | inr refused ↦ rw (there, on, ready, scheduled, refused, start_name) refl
              ]
            ]
          ]
        ]
  ]

  module _ (name : String) (p : ℕ) (cfg : Process) (on : cfg.enabled ≡ true)
      (regular : cfg.schedule ≡ "") where
    -- The round of the process itself.
    start_name-RunsAs :
        (r : Runtime Sup)
        → lookup name r.manager.config ≡ some p
        → config_at r.manager p ≡ cfg
        → (start_name w name r).1 ≡ none
        → RunsAs p cfg (lookup name (start_name w name r).0.manager.processes)
    unfolding start_name
    start_name-RunsAs r found is =
        let cfg' = config_at r.manager p in
        let on' : cfg'.enabled ≡ true = ap (λ (c : Process). c.enabled) is ∙ on in
        let regular' : str_eq cfg'.schedule "" ≡ true =
          (eq_iff cfg'.schedule "").1 (ap (λ (c : Process). c.schedule) is ∙ regular) in
        elim (Option-cases (wait_for_dependencies w cfg'.depends_on r.manager)) [
          | inr (e, waits) ↦ rw (found, on', waits, start_name) (λ fine. cc)
          | inl ready ↦
              rw (found, on', ready, regular', start_name)
                (λ fine.
                  subst
                    (λ c.
                      RunsAs p c
                        (lookup name (start_regular_process w name p r.manager).0.processes))
                    is (start_regular_process-RunsAs name p r.manager (ok_of _ fine)))
        ]
      where
        ok_of : (b : Bool) → (if b then none else some (not_started name)) ≡ none → b ≡ true
        ok_of true e = refl
        ok_of false e = cc

    start_names-RunsAs :
        (names : List String) (r : Runtime Sup)
        → lookup name r.manager.config ≡ some p
        → config_at r.manager p ≡ cfg
        → (start_names w names r).1 ≡ none
        → (contains names name ≡ true) ⊎ RunsAs p cfg (lookup name r.manager.processes)
        → RunsAs p cfg (lookup name (start_names w names r).0.manager.processes)
    unfolding start_names contains
    start_names-RunsAs [] r found is =
        λ fine before. elim before [ inl among ↦ absurd (false_ne_true among) | inr runs ↦ runs ]
    start_names-RunsAs (first ∷ names) r found is =
        let (r', e) = start_name w first r in
        let c = (start_name_lem w first r).0.continues in
        let found' : lookup name r'.manager.config ≡ some p =
          ap (λ l. lookup name l) c.config ∙ found in
        let is' : config_at r'.manager p ≡ cfg = ap (λ l. get_or l p no_process) c.store ∙ is in
        elim (Option-cases e) [
          | inr (failure, fails) ↦ rw (fails, start_names) (λ fine. cc)
          | inl fine ↦
              rw (fine, start_names)
                (λ fine' before.
                  start_names-RunsAs names r' found' is' fine'
                    (elim (Bool-cases (str_eq first name)) [
                      | inl here ↦
                          let same : name ≡ first = sym ((eq_iff first name).0 here) in
                          inr (
                            subst
                              (λ k.
                                RunsAs p cfg (lookup name (start_name w k r).0.manager.processes))
                              same
                              (start_name-RunsAs r found is
                                (subst (λ k. (start_name w k r).1 ≡ none) (sym same) fine)))
                      | inr apart ↦ elim before [
                        | inl among ↦ inl (rw apart at among)
                        | inr runs ↦
                            inr (
                              subst (RunsAs p cfg) (sym (start_name-others first name r apart))
                                runs)
                      ]
                    ]))
        ]

  -- If Start returns no error, every enabled process without a schedule has a supervisor, with the
  -- manager's pointer to its configuration. If the process is to run at first, Supervisor.Start was called
  -- on a new supervisor without an error, and this supervisor is what it has left; if not, it is a new
  -- one that was marked ready.
  pub start_manager-RunsAs :
      (pre_start : Bool) (r : Runtime Sup) (name : String) (p : ℕ)
      → HasUniqueKeys r.manager.config
      → lookup name r.manager.config ≡ some p
      → (config_at r.manager p).enabled ≡ true
      → (config_at r.manager p).schedule ≡ ""
      → (start_manager w pre_start r).1 ≡ none
      → RunsAs p
          (config_at r.manager p)
          (lookup name (start_manager w pre_start r).0.manager.processes)
  unfolding start_manager
  start_manager-RunsAs false r name p u found on regular = λ fine. cc
  start_manager-RunsAs true r name p u found on regular = by_order (startup_order r.manager) refl
    where
      by_order :
          (result : Result (List String))
          → startup_order r.manager ≡ result
          → let (r', e) = elim result as (λ _. Runtime Sup × Option StartError) [
            | ok order ↦ start_names w order r
            | err e ↦ (r, some (no_order e))
            | out_of_fuel ↦ (r, some no_fuel)
          ] in
            e ≡ none → RunsAs p (config_at r.manager p) (lookup name r'.manager.processes)
      by_order (err e) is fine = cc
      by_order out_of_fuel is fine = cc
      by_order (ok order) is fine =
          let o = order_of r.manager order u is in
          start_names-RunsAs name p (config_at r.manager p) on regular order r found refl fine (
            inl (
              count-contains order name (
                enabled_in_order o name (config_at r.manager p)
                  (lookup-configured r.manager.store r.manager.config name ∙ rw found refl) on)))
