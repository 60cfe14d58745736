-- ===== src/Manager/Rounds.antt =====
-- The rounds of the start of all processes, and what has been started when they are over.
use phpeek_pm.Prelude.{
  ℕ, ◌≡◌, ◌≢◌, sym, ap, subst, ◌∙◌, ◌⊎◌, inl, inr, true, false, Bool-cases, false_ne_true, String,
  str_eq, eq_iff, Option-cases, none, some, lookup, get_or,
}
use phpeek_pm.Config.{Process, no_process}
use phpeek_pm.Deps.{contains}
use phpeek_pm.Manager.{Managed, Manager, config_at}
use phpeek_pm.Manager.Order.{
  IsManaged, IsRegular, Continues, Continues-refl, Continues-trans, start_regular_process-Places,
  waited, contains-snoc, contains-last,
}
use phpeek_pm.Manager.Startup.{StartupOps, Runtime, wait_for_dependencies, start_ready, start_name}

-- What it means that the process with a configuration has been started.
abbrev pub WasStarted : {Sup : Type 0} → String → Process → Runtime Sup → Type 0
WasStarted name cfg r =
    ((cfg.schedule ≡ "" → IsManaged r.manager name)
      × (cfg.schedule ≢ "" → contains r.jobs name ≡ true))
    × ((d : String) → contains cfg.depends_on d ≡ true → IsManaged r.manager d)

-- What the rounds of Start do.
pub record Rounds {Sup : Type 0} (r r' : Runtime Sup) : Type 0 where
  pub continues : Continues r.manager r'.manager
  pub jobs : (name : String) → contains r.jobs name ≡ true → contains r'.jobs name ≡ true
  pub only :
      (name : String)
      → IsManaged r'.manager name
      → IsManaged r.manager name ⊎ IsRegular r.manager name

module _ {Sup : Type 0} where
  pub Rounds-refl : (r : Runtime Sup) → Rounds r r
  Rounds-refl r = record {
    continues = Continues-refl r.manager;
    jobs = λ name h. h;
    only = λ name h. inl h;
  }

  IsRegular-before :
      (m m' : Manager Sup) (name : String) → Continues m m' → IsRegular m' name → IsRegular m name
  IsRegular-before m m' name c (p, found, regular) = (
    p,
    sym (ap (λ l. lookup name l) c.config) ∙ found,
    sym (ap (λ l. (get_or l p no_process).schedule) c.store) ∙ regular,
  )

  pub Rounds-trans : {a b c : Runtime Sup} → Rounds a b → Rounds b c → Rounds a c
  Rounds-trans {a} {b} f g = record {
    continues = Continues-trans f.continues g.continues;
    jobs = λ name h. g.jobs name (f.jobs name h);
    only = λ name h. elim (g.only name h) [
      | inl before ↦ f.only name before
      | inr regular ↦ inr (IsRegular-before a.manager b.manager name f.continues regular)
    ];
  }

  pub WasStarted-later :
      (name : String) (cfg : Process) {r r' : Runtime Sup}
      → Rounds r r'
      → WasStarted name cfg r
      → WasStarted name cfg r'
  WasStarted-later name cfg f ((managed, job), deps) = (
    (λ e. f.continues.managed name (managed e), λ e. f.jobs name (job e)),
    λ d among. f.continues.managed d (deps d among),
  )

module _ {Sup : Type 0} (w : StartupOps Sup) where
  start_ready-Rounds :
      (name : String) (p : ℕ) (r : Runtime Sup)
      → lookup name r.manager.config ≡ some p
      → let (r', e) = start_ready w name p r in
        Rounds r r'
        × (e ≡ none
            → ((config_at r.manager p).schedule ≡ "" → IsManaged r'.manager name)
              × ((config_at r.manager p).schedule ≢ "" → contains r'.jobs name ≡ true))
  start_ready-Rounds name p r found =
      let cfg = config_at r.manager p in
      let placed = start_regular_process-Places w name p r.manager in
      elim (Bool-cases (str_eq cfg.schedule "")) [
        | inl regular ↦
            let no_schedule = (eq_iff cfg.schedule "").0 regular in
            rw regular (
              record {
                continues = placed.continues;
                jobs = λ other h. h;
                only = λ other h. elim (placed.only other h) [
                  | inl same ↦ inr (subst (λ k. IsRegular r.manager k) same (p, found, no_schedule))
                  | inr before ↦ inl before
                ];
              },
              λ fine. (λ e. placed.there, λ other. absurd (other no_schedule)),
            )
        | inr scheduled ↦ elim (Bool-cases (w.register name cfg)) [
          | inl taken ↦
              rw (scheduled, taken)
                (
                  record {
                    continues = Continues-refl r.manager;
                    jobs = λ other h. contains-snoc r.jobs other name h;
                    only = λ other h. inl h;
                  },
                  λ fine. (λ e. absurd (clash scheduled e), λ e. contains-last r.jobs name),
                )
          | inr refused ↦ rw (scheduled, refused) (Rounds-refl r, λ fine. cc)
        ]
      ]
    where
      clash : {a : String} → str_eq a "" ≡ false → a ≡ "" → ⊥
      clash {a} e same = false_ne_true (sym e ∙ (eq_iff a "").1 same)

  -- A round, and what it means that it returns no error.
  pub start_name_lem :
      (name : String) (r : Runtime Sup)
      → let (r', e) = start_name w name r in
        Rounds r r'
        × (e ≡ none
            → (p : ℕ) → lookup name r.manager.config ≡ some p
            → (config_at r.manager p).enabled ≡ true
            → WasStarted name (config_at r.manager p) r')
  unfolding start_name
  start_name_lem name r = elim (Option-cases (lookup name r.manager.config)) [
    | inl absent ↦ rw (absent, start_name) (Rounds-refl r, λ fine p found. absurd (clash found))
    | inr (q, there) ↦
        let cfg = config_at r.manager q in
        elim (Bool-cases cfg.enabled) [
          | inr off ↦
              rw (there, off, start_name)
                (
                  Rounds-refl r,
                  λ fine p found on. absurd (false_ne_true (sym off ∙ rw (some_inj found) on)),
                )
          | inl on ↦ elim (Option-cases (wait_for_dependencies w cfg.depends_on r.manager)) [
            | inr (e, waits) ↦ rw (there, on, waits, start_name) (Rounds-refl r, λ fine. cc)
            | inl ready ↦
                let (rounds, started) = start_ready-Rounds name q r there in
                rw (there, on, ready, start_name)
                  (
                    rounds,
                    λ fine p found on_p.
                        subst
                          (λ k. WasStarted name (config_at r.manager k) (start_ready w name q r).0)
                          (some_inj found)
                          (
                            started fine,
                            λ d among. rounds.continues.managed d (λ e.
                                let (x, there_x, is_ready) =
                                  waited w cfg.depends_on r.manager ready d among in
                                there_it (sym there_x ∙ e)),
                          ),
                  )
          ]
        ]
  ]
    where
      clash : {p : ℕ} → none ≡ some p → ⊥
      clash e = cc

      some_inj : {p q : ℕ} → some q ≡ some p → q ≡ p
      some_inj e = cc

      there_it : {x : Managed Sup} → some x ≡ none → ⊥
      there_it e = cc
