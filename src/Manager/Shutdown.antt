-- ===== src/Manager/Shutdown.antt =====
-- What Shutdown stops, and what it does not.
use phpeek_pm.Prelude.{
  ℕ, ◌≡◌, ◌≢◌, refl, sym, ap, subst, ◌∙◌, ◌⊎◌, inl, inr, arith, true, false, Bool-cases,
  false_ne_true, if◌then◌else◌, List, [], ◌∷◌, reverse, String, str_eq, eq_iff, Option,
  Option-cases, none, some, lookup, lookup-insert, HasUniqueKeys,
}
use phpeek_pm.Config.{Process}
use phpeek_pm.Supervisor.{stopped}
use phpeek_pm.Deps.{Result, ok, err, out_of_fuel, contains}
use phpeek_pm.Deps.Topological.Counts.{count-contains}
use phpeek_pm.Deps.Topological.Sorting.{count-reverse}
use phpeek_pm.Deps.Enabled.{enabled_in_order, dependency_enabled}
use phpeek_pm.Manager.{Managed, Manager, config_at, put, stop_managed}
use phpeek_pm.Manager.Scaling.{SupervisorLaws}
use phpeek_pm.Manager.Startup.{
  StartupOps, Runtime, startup_order, shutdown_order, stop_names, shut_down,
}
use phpeek_pm.Manager.Order.{follow, lookup-configured, order_of}

module _ {Sup : Type 0} (w : StartupOps Sup) where
  -- The process has a supervisor that is stopped and has no instances.
  abbrev pub IsDown : String → Manager Sup → Type 0
  IsDown name m =
      (x : Managed Sup) × (lookup name m.processes ≡ some x)
      × ((w.ops.state x.sup ≡ stopped) × (w.ops.size x.sup ≡ 0))

  module _ (laws : SupervisorLaws w.ops) where
    stop_managed-IsDown :
        (name other : String) (x : Managed Sup) (m : Manager Sup)
        → (str_eq other name ≡ true) ⊎ IsDown name m
        → IsDown name (stop_managed w.ops other x m).0
    stop_managed-IsDown name other x m h =
        let x' : Managed Sup = record x { sup = (w.ops.stop x.sup).0 } in
        let found : lookup name (put other x' m).processes
            ≡ (if str_eq other name then some x' else lookup name m.processes) =
          lookup-insert other name x' m.processes in
        let gone = laws.stops x.sup in
        elim (Bool-cases (str_eq other name)) [
          | inl same ↦ (x', found ∙ rw same refl, (gone.1, gone.0))
          | inr apart ↦ elim h [
            | inl same ↦ absurd (false_ne_true (sym apart ∙ same))
            | inr (y, there, down) ↦ (y, found ∙ rw apart there, down)
          ]
        ]

    stop_names-keeps :
        (name : String) (names : List String) (m : Manager Sup)
        → IsDown name m
        → IsDown name (stop_names w names m).0
    unfolding stop_names
    stop_names-keeps name [] m down = down
    stop_names-keeps name (other ∷ names) m down = elim (Option-cases (lookup other m.processes)) [
      | inl absent ↦ rw (absent, stop_names) (stop_names-keeps name names m down)
      | inr (x, found) ↦
          rw (found, stop_names)
            (stop_names-keeps name names (stop_managed w.ops other x m).0
              (stop_managed-IsDown name other x m (inr down)))
    ]

    stop_names-stops :
        (name : String) (names : List String) (m : Manager Sup)
        → contains names name ≡ true
        → lookup name m.processes ≢ none
        → IsDown name (stop_names w names m).0
    unfolding stop_names contains
    stop_names-stops name [] m among there = absurd (false_ne_true among)
    stop_names-stops name (other ∷ names) m among there = elim (Bool-cases (str_eq other name)) [
      | inl same ↦ elim (Option-cases (lookup other m.processes)) [
        | inl absent ↦
            absurd
              (there (subst (λ k. lookup k m.processes ≡ none) ((eq_iff other name).0 same) absent))
        | inr (x, found) ↦
            rw (found, stop_names)
              (stop_names-keeps name names (stop_managed w.ops other x m).0
                (stop_managed-IsDown name other x m (inl same)))
      ]
      | inr apart ↦ elim (Option-cases (lookup other m.processes)) [
        | inl absent ↦
            rw (absent, stop_names) (stop_names-stops name names m (rw apart at among) there)
        | inr (x, found) ↦
            let x' : Managed Sup = record x { sup = (w.ops.stop x.sup).0 } in
            let beside : lookup name (put other x' m).processes ≡ lookup name m.processes =
              lookup-insert other name x' m.processes ∙ rw apart refl in
            rw (found, stop_names)
              (stop_names-stops name names (stop_managed w.ops other x m).0 (rw apart at among)
                (λ e. there (sym beside ∙ e)))
      ]
    ]

    -- If the dependencies of the configuration can be sorted, Shutdown leaves every enabled process that
    -- has a supervisor stopped and without instances.
    pub shut_down-IsDown :
        (r : Runtime Sup) (order : List String) (name : String) (p : ℕ)
        → HasUniqueKeys r.manager.config
        → startup_order r.manager ≡ ok order
        → lookup name r.manager.config ≡ some p
        → (config_at r.manager p).enabled ≡ true
        → lookup name r.manager.processes ≢ none
        → IsDown name (shut_down w r).0.manager
    unfolding shut_down shutdown_order
    shut_down-IsDown r order name p u sorted found on there =
        let o = order_of r.manager order u sorted in
        let in_order =
          enabled_in_order o name (config_at r.manager p)
            (lookup-configured r.manager.store r.manager.config name ∙ rw found refl) on in
        let among =
          count-contains (reverse order) name (omega (arith, count-reverse name order, in_order)) in
        rw (sorted, shut_down, shutdown_order)
          (stop_names-stops name (reverse order) r.manager among there)

  -- Where an enabled process of the configuration depends on one that is not there, or not enabled,
  -- Shutdown has no order: it stops no process at all, and returns no error.
  pub shut_down_nothing :
      (r : Runtime Sup) (name d : String) (p : ℕ)
      → HasUniqueKeys r.manager.config
      → lookup name r.manager.config ≡ some p
      → (config_at r.manager p).enabled ≡ true
      → contains (config_at r.manager p).depends_on d ≡ true
      → ((q : ℕ) → lookup d r.manager.config ≡ some q → (config_at r.manager q).enabled ≡ false)
      → ((shut_down w r).0.manager ≡ r.manager) × ((shut_down w r).1 ≡ false)
  unfolding shut_down shutdown_order stop_names
  shut_down_nothing r name d p u found on among off = by_order (startup_order r.manager) refl
    where
      names_of : Result (List String) → List String
      names_of result = elim result [ ok order ↦ reverse order | err e ↦ [] | out_of_fuel ↦ [] ]

      some_inj : {a b : Process} → some a ≡ some b → a ≡ b
      some_inj e = cc

      missing :
          (at : Option ℕ)
          → lookup d r.manager.config ≡ at
          → (dep : Process) → follow r.manager.store at ≡ some dep
          → dep.enabled ≡ true
          → ⊥
      missing none is dep there enabled = cc
      missing (some q) is dep there enabled =
          false_ne_true (sym (off q is) ∙ ap (λ cfg. cfg.enabled) (some_inj there) ∙ enabled)

      by_order :
          (result : Result (List String))
          → startup_order r.manager ≡ result
          → ((stop_names w (names_of result) r.manager).0 ≡ r.manager)
            × ((stop_names w (names_of result) r.manager).1 ≡ false)
      by_order (err e) is = (refl, refl)
      by_order out_of_fuel is = (refl, refl)
      by_order (ok order) is =
          let (dep, there, enabled) =
            dependency_enabled (order_of r.manager order u is) name d (config_at r.manager p)
              (lookup-configured r.manager.store r.manager.config name ∙ rw found refl) on among in
          absurd (
            missing (lookup d r.manager.config) refl dep
              (sym (lookup-configured r.manager.store r.manager.config d) ∙ there) enabled)
