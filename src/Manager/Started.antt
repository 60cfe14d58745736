-- ===== src/Manager/Started.antt =====
-- What has been started when Start returns no error, and where it cannot succeed.
use phpeek_pm.Prelude.{
  ℕ, ◌≡◌, ◌≢◌, refl, sym, ap, subst, ◌∙◌, ◌⊎◌, inl, inr, Bool, true, false, Bool-cases,
  false_ne_true, List, [], ◌∷◌, String, str_eq, eq_iff, Option, Option-cases, none, some, lookup,
  get_or, HasUniqueKeys,
}
use phpeek_pm.Config.{no_process}
use phpeek_pm.Deps.{Result, ok, err, out_of_fuel, contains}
use phpeek_pm.Deps.Topological.Counts.{count-contains}
use phpeek_pm.Deps.Enabled.{enabled_in_order}
use phpeek_pm.Manager.{config_at}
use phpeek_pm.Manager.Startup.{
  StartupOps, Runtime, StartError, no_fuel, no_order, startup_order, start_name, start_names,
  start_manager, wait_for_dependencies,
}
use phpeek_pm.Manager.Order.{AreReady, waited, lookup-configured, order_of}
use phpeek_pm.Manager.Rounds.{
  Rounds, Rounds-refl, Rounds-trans, WasStarted, WasStarted-later, start_name_lem,
}

module _ {Sup : Type 0} (w : StartupOps Sup) where
  start_names_lem :
      (names : List String) (r : Runtime Sup)
      → let (r', e) = start_names w names r in
        Rounds r r'
        × (e ≡ none
            → (name : String) (p : ℕ) → contains names name ≡ true
            → lookup name r.manager.config ≡ some p
            → (config_at r.manager p).enabled ≡ true
            → WasStarted name (config_at r.manager p) r')
  unfolding start_names contains
  start_names_lem [] r = (
    record { continues = (Rounds-refl r).continues; jobs = λ name h. h; only = λ name h. inl h },
    λ fine name p among. absurd (false_ne_true among),
  )
  start_names_lem (first ∷ names) r =
      let (r', e) = start_name w first r in
      let (round, started) = start_name_lem w first r in
      let (rounds, all) = start_names_lem names r' in
      elim (Option-cases e) [
        | inr (failure, fails) ↦ rw (fails, start_names) (round, λ fine. cc)
        | inl fine ↦
            rw (fine, start_names)
              (
                Rounds-trans round rounds,
                λ fine' name p among found on. elim (Bool-cases (str_eq first name)) [
                  | inl here ↦
                      let same = (eq_iff first name).0 here in
                      WasStarted-later name (config_at r.manager p) rounds (
                        subst (λ k. WasStarted k (config_at r.manager p) r') same
                          (started fine p
                            (subst (λ k. lookup k r.manager.config ≡ some p) (sym same) found) on))
                  | inr there ↦
                      let store : config_at r'.manager p ≡ config_at r.manager p =
                        ap (λ l. get_or l p no_process) round.continues.store in
                      subst (λ cfg. WasStarted name cfg (start_names w names r').0) store
                        (all fine' name p (rw there at among)
                          (ap (λ l. lookup name l) round.continues.config ∙ found)
                          (ap (λ cfg. cfg.enabled) store ∙ on))
                ],
              )
      ]

  start_manager_lem :
      (pre_start : Bool) (r : Runtime Sup)
      → HasUniqueKeys r.manager.config
      → let (r', e) = start_manager w pre_start r in
        Rounds r r'
        × (e ≡ none
            → (name : String) (p : ℕ) → lookup name r.manager.config ≡ some p
            → (config_at r.manager p).enabled ≡ true
            → WasStarted name (config_at r.manager p) r')
  unfolding start_manager
  start_manager_lem false r u = (Rounds-refl r, λ fine. cc)
  start_manager_lem true r u = by_order (startup_order r.manager) refl
    where
      by_order :
          (result : Result (List String))
          → startup_order r.manager ≡ result
          → let (r', e) = elim result as (λ _. Runtime Sup × Option StartError) [
            | ok order ↦ start_names w order r
            | err e ↦ (r, some (no_order e))
            | out_of_fuel ↦ (r, some no_fuel)
          ] in
            Rounds r r'
            × (e ≡ none
                → (name : String) (p : ℕ) → lookup name r.manager.config ≡ some p
                → (config_at r.manager p).enabled ≡ true
                → WasStarted name (config_at r.manager p) r')
      by_order (err e) is = (Rounds-refl r, λ fine. cc)
      by_order out_of_fuel is = (Rounds-refl r, λ fine. cc)
      by_order (ok order) is =
          let (rounds, all) = start_names_lem order r in
          let o = order_of r.manager order u is in
          (
            rounds,
            λ fine name p found on.
                all fine name p
                  (count-contains order name (
                    enabled_in_order o name (config_at r.manager p)
                      (lookup-configured r.manager.store r.manager.config name ∙ rw found refl) on))
                  found on,
          )

  -- A round of Manager.Start, which is the start of one process, changes nothing, or all the dependencies of its process have supervisors, and the
  -- wait for the readiness of each has ended without an error.
  pub start_name-AreReady :
      (name : String) (r : Runtime Sup) (p : ℕ)
      → lookup name r.manager.config ≡ some p
      → ((start_name w name r).0 ≡ r) ⊎ AreReady w (config_at r.manager p).depends_on r.manager
  unfolding start_name
  start_name-AreReady name r p found =
      let cfg = config_at r.manager p in
      elim (Bool-cases cfg.enabled) [
        | inr off ↦ inl (rw (found, off, start_name) refl)
        | inl on ↦ elim (Option-cases (wait_for_dependencies w cfg.depends_on r.manager)) [
          | inr (e, waits) ↦ inl (rw (found, on, waits, start_name) refl)
          | inl ready ↦ inr (waited w cfg.depends_on r.manager ready)
        ]
      ]

  -- Start never succeeds where an enabled process depends on one with a schedule, which the graph of the
  -- dependencies allows: only the scheduler knows such a process.
  pub start_manager_scheduled :
      (pre_start : Bool) (r : Runtime Sup) (name d : String) (p q : ℕ)
      → HasUniqueKeys r.manager.config
      → r.manager.processes ≡ []
      → lookup name r.manager.config ≡ some p
      → (config_at r.manager p).enabled ≡ true
      → contains (config_at r.manager p).depends_on d ≡ true
      → lookup d r.manager.config ≡ some q
      → (config_at r.manager q).schedule ≢ ""
      → (start_manager w pre_start r).1 ≢ none
  unfolding lookup
  start_manager_scheduled pre_start r name d p q u empty found on among dep scheduled fine =
      let (rounds, all) = start_manager_lem pre_start r u in
      elim (rounds.only d ((all fine name p found on).1 d among)) [
        | inl before ↦ before (ap (λ l. lookup d l) empty)
        | inr (q', dep', regular) ↦
            scheduled (
              subst (λ k. (config_at r.manager k).schedule ≡ "") (some_inj (sym dep' ∙ dep))
                regular)
      ]
    where
      some_inj : {a b : ℕ} → some a ≡ some b → a ≡ b
      some_inj e = cc
