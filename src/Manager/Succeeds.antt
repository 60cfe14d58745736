-- ===== src/Manager/Succeeds.antt =====
-- Where Start succeeds.
use phpeek_pm.Prelude.{
  ℕ, ◌<◌, ◌≡◌, refl, sym, ap, subst, ◌∙◌, inl, inr, arith, Bool, true, false, Bool-cases,
  if◌then◌else◌, List, [], ◌∷◌, String, str_eq, eq_refl, eq_iff, Option, Option-cases, none, some,
  lookup, get_or, HasUniqueKeys,
}
use phpeek_pm.Config.{Process, no_process}
use phpeek_pm.Deps.{ok, contains, dependencies}
use phpeek_pm.Deps.Topological.Counts.{count}
use phpeek_pm.Deps.Topological.Invariant.{OrderedAfter}
use phpeek_pm.Deps.Enabled.{dependency_enabled}
use phpeek_pm.Manager.{Manager, config_at}
use phpeek_pm.Manager.Startup.{
  StartupOps, Runtime, configured, wait_for_readiness, wait_for_dependencies, startup_order,
  start_ready, start_name, start_names, start_manager,
}
use phpeek_pm.Manager.Order.{
  IsManaged, Continues, Continues-trans, follow, lookup-configured, order_of,
}
use phpeek_pm.Manager.Rounds.{start_name_lem}

-- Nothing outside of the manager fails.
pub record AllGoesWell {Sup : Type 0} (w : StartupOps Sup) : Type 0 where
  pub starts : (cfg : Process) → (w.ops.start cfg.scale (w.ops.new cfg)).1 ≡ true
  pub ready : (s : Sup) → w.becomes_ready s ≡ true
  pub registers : (name : String) (cfg : Process) → w.register name cfg ≡ true

module _ {Sup : Type 0} (w : StartupOps Sup) (well : AllGoesWell w) where
  waits : (cfg : Process) (s : Sup) → wait_for_readiness (w.becomes_ready s) cfg ≡ true
  waits cfg s = elim (Option-cases cfg.health_check) [
    | inl unchecked ↦ rw (well.ready s, unchecked) refl
    | inr (hc, checked) ↦ rw (well.ready s, checked) (either _ (str_eq hc.mode "liveness"))
  ]
    where
      either : (b c : Bool) → (if b then (if c then true else true) else true) ≡ true
      either true true = refl
      either true false = refl
      either false c = refl

  wait-none :
      (deps : List String) (m : Manager Sup)
      → ((d : String) → contains deps d ≡ true → IsManaged m d)
      → wait_for_dependencies w deps m ≡ none
  unfolding wait_for_dependencies contains
  wait-none [] m there = refl
  wait-none (dep ∷ deps) m there = elim (Option-cases (lookup dep m.processes)) [
    | inl absent ↦ absurd (there dep (rw (eq_refl dep) refl) absent)
    | inr (x, found) ↦
        rw (found, waits (config_at m x.config) x.sup, wait_for_dependencies)
          (wait-none deps m (λ d among. there d (later dep d among)))
  ]
    where
      later : (dep d : String) → contains deps d ≡ true → contains (dep ∷ deps) d ≡ true
      later dep d among = elim (Bool-cases (str_eq dep d)) [
        | inl here ↦ rw here refl
        | inr there ↦ rw there among
      ]

  start_ready-none : (name : String) (p : ℕ) (r : Runtime Sup) → (start_ready w name p r).1 ≡ none
  start_ready-none name p r =
      let cfg = config_at r.manager p in
      elim (Bool-cases (str_eq cfg.schedule "")) [
        | inr scheduled ↦ rw (scheduled, well.registers name cfg) refl
        | inl regular ↦ elim (Bool-cases (str_eq cfg.initial_state "running")) [
          | inl runs ↦ rw (regular, runs, well.starts cfg) refl
          | inr idle ↦ rw (regular, idle) refl
        ]
      ]

  start_name-none :
      (name : String) (r : Runtime Sup)
      → ((p : ℕ) (d : String)
          → lookup name r.manager.config ≡ some p
          → (config_at r.manager p).enabled ≡ true
          → contains (config_at r.manager p).depends_on d ≡ true
          → IsManaged r.manager d)
      → (start_name w name r).1 ≡ none
  unfolding start_name
  start_name-none name r there = elim (Option-cases (lookup name r.manager.config)) [
    | inl absent ↦ rw (absent, start_name) refl
    | inr (p, found) ↦ elim (Bool-cases (config_at r.manager p).enabled) [
      | inr off ↦ rw (found, off, start_name) refl
      | inl on ↦
          rw
            (
              found,
              on,
              wait-none (config_at r.manager p).depends_on r.manager
                  (λ d among. there p d found on among),
              start_name,
            )
            (start_ready-none name p r)
    ]
  ]

  module _ (m : Manager Sup) (order : List String) (u : HasUniqueKeys m.config)
      (sorted : startup_order m ≡ ok order)
      (regular : (name d : String) (p q : ℕ)
        → lookup name m.config ≡ some p
        → (config_at m p).enabled ≡ true
        → contains (config_at m p).depends_on d ≡ true
        → lookup d m.config ≡ some q
        → (config_at m q).schedule ≡ "") where
    -- The regular processes among those that have had their rounds.
    record HasStarted (done : List String) (r : Runtime Sup) : Type 0 where
      continues : Continues m r.manager
      managed :
          (d : String) (q : ℕ)
          → 0 < count d done
          → lookup d m.config ≡ some q
          → (config_at m q).enabled ≡ true
          → (config_at m q).schedule ≡ ""
          → IsManaged r.manager d

    config_at_now :
        (done : List String) (r : Runtime Sup)
        → HasStarted done r
        → (p : ℕ) → config_at r.manager p ≡ config_at m p
    config_at_now done r h p = ap (λ l. get_or l p no_process) h.continues.store

    -- The dependencies of the next process have had their rounds.
    dependencies_there :
        (name : String) (done : List String) (r : Runtime Sup)
        → HasStarted done r
        → ((d : String)
            → contains (dependencies name (order_of m order u sorted).graph) d ≡ true
            → 0 < count d done)
        → (p : ℕ) (d : String) → lookup name m.config ≡ some p
        → (config_at m p).enabled ≡ true
        → contains (config_at m p).depends_on d ≡ true
        → IsManaged r.manager d
    unfolding dependencies
    dependencies_there name done r h before p d found on among =
        let o = order_of m order u sorted in
        let at : lookup name (configured m.store m.config) ≡ some (config_at m p) =
          lookup-configured m.store m.config name ∙ rw found refl in
        let node : lookup name o.graph ≡ some (config_at m p).depends_on =
          o.nodes name ∙ rw (at, on) refl in
        let (dep, there, enabled) = dependency_enabled o name d (config_at m p) at on among in
        let (q, found_d, same) =
          by_pointer (lookup d m.config) refl dep
            (sym (lookup-configured m.store m.config d) ∙ there) in
        h.managed d q (before d (rw (node, dependencies) among)) found_d
          (ap (λ cfg. cfg.enabled) same ∙ enabled) (regular name d p q found on among found_d)
      where
        by_pointer :
            (at : Option ℕ)
            → lookup d m.config ≡ at
            → (dep : Process) → follow m.store at ≡ some dep
            → (q : ℕ) × (lookup d m.config ≡ some q) × (config_at m q ≡ dep)
        by_pointer none is dep there = cc
        by_pointer (some q) is dep there = (q, is, some_inj there)
          where
            some_inj : {a b : Process} → some a ≡ some b → a ≡ b
            some_inj e = cc

    HasStarted-next :
        (name : String) (done : List String) (r : Runtime Sup)
        → HasStarted done r
        → (start_name w name r).1 ≡ none
        → HasStarted (name ∷ done) (start_name w name r).0
    HasStarted-next name done r h fine =
        let (rounds, started) = start_name_lem w name r in
        record {
          continues = Continues-trans h.continues rounds.continues;
          managed = λ d q there found on no_schedule.
              let now = config_at_now done r h q in
              elim (Bool-cases (str_eq name d)) [
                | inr apart ↦
                    rounds.continues.managed d
                      (h.managed d q (omega (arith, (rw apart at there))) found on no_schedule)
                | inl same ↦
                    let found_now : lookup name r.manager.config ≡ some q =
                      ap (λ l. lookup name l) h.continues.config
                      ∙ ap (λ k. lookup k m.config) ((eq_iff name d).0 same)
                      ∙ found in
                    subst (λ k. IsManaged (start_name w name r).0.manager k)
                      ((eq_iff name d).0 same)
                      ((started fine q found_now (ap (λ cfg. cfg.enabled) now ∙ on)).0.0
                        (ap (λ cfg. cfg.schedule) now ∙ no_schedule))
              ];
        }

    start_names-none :
        (names done : List String) (r : Runtime Sup)
        → HasStarted done r
        → OrderedAfter (order_of m order u sorted).graph done names
        → (start_names w names r).1 ≡ none
    unfolding start_names
    start_names-none [] done r h after = refl
    start_names-none (name ∷ names) done r h (before, after) =
        let fine = start_name-none name r (λ p d found on among.
          let now = config_at_now done r h p in
          dependencies_there name done r h before p d
            (sym (ap (λ l. lookup name l) h.continues.config) ∙ found)
            (sym (ap (λ cfg. cfg.enabled) now) ∙ on)
            (sym (ap (λ cfg. contains cfg.depends_on d) now) ∙ among)) in
        rw (fine, start_names)
          (start_names-none names (name ∷ done) (start_name w name r).0
            (HasStarted-next name done r h fine) after)

  -- Start returns no error where the dependencies of the configuration can be sorted, no enabled process
  -- depends on one with a schedule, every process can be started, becomes ready or can be registered.
  pub start_manager-succeeds :
      (r : Runtime Sup) (order : List String)
      → HasUniqueKeys r.manager.config
      → startup_order r.manager ≡ ok order
      → ((name d : String) (p q : ℕ)
          → lookup name r.manager.config ≡ some p
          → (config_at r.manager p).enabled ≡ true
          → contains (config_at r.manager p).depends_on d ≡ true
          → lookup d r.manager.config ≡ some q
          → (config_at r.manager q).schedule ≡ "")
      → (start_manager w true r).1 ≡ none
  unfolding start_manager
  start_manager-succeeds r order u sorted regular =
      rw (sorted, start_manager)
        (start_names-none r.manager order u sorted regular order [] r
          record {
            continues = record { config = refl; store = refl; managed = λ name h. h };
            managed = λ d q there. absurd (omega (arith, there));
          }
          (order_of r.manager order u sorted).after)
