-- ===== src/Manager/Order.antt =====
-- The start of all processes: what it changes, and what has been started when it returns no error.
use phpeek_pm.Prelude.{
  ℕ, ◌≡◌, ◌≢◌, refl, sym, subst, ◌∙◌, ◌⊎◌, inl, inr, true, Bool-cases, false_ne_true, if◌then◌else◌,
  List, [], ◌∷◌, ◌++◌, String, str_eq, eq_refl, eq_iff, Option, Option-cases, none, some, lookup,
  lookup-insert, get_or, HasUniqueKeys,
}
use phpeek_pm.Config.{Process, no_process}
use phpeek_pm.Deps.{Graph, Result, ok, err, out_of_fuel, contains, new_graph_from_config}
use phpeek_pm.Deps.Topological.{topological_sort}
use phpeek_pm.Deps.Enabled.{OrderOf, sorted-OrderOf}
use phpeek_pm.Manager.{Managed, Manager, config_at, put}
use phpeek_pm.Manager.Startup.{
  StartupOps, dependency_missing, dependency_not_ready, configured, wait_for_readiness,
  startup_order, wait_for_dependencies, start_regular_process,
}

abbrev pub follow : List Process → Option ℕ → Option Process
follow store none = none
follow store (some p) = some (get_or store p no_process)

pub lookup-configured :
    (store : List Process) (l : List (String × ℕ)) (x : String)
    → lookup x (configured store l) ≡ follow store (lookup x l)
unfolding lookup configured
lookup-configured store [] x = refl
lookup-configured store ((name, p) ∷ l) x = elim (Bool-cases (str_eq name x)) [
  | inl here ↦ rw here refl
  | inr there ↦ rw there (lookup-configured store l x)
]

configured-HasUniqueKeys :
    (store : List Process) (l : List (String × ℕ))
    → HasUniqueKeys l
    → HasUniqueKeys (configured store l)
unfolding configured
configured-HasUniqueKeys store [] u = tt
configured-HasUniqueKeys store ((name, p) ∷ l) u =
    (lookup-configured store l name ∙ rw u.0 refl, configured-HasUniqueKeys store l u.1)

module _ {Sup : Type 0} where
  abbrev pub IsManaged : Manager Sup → String → Type 0
  IsManaged m name = lookup name m.processes ≢ none

  -- What a start keeps.
  pub record Continues (m m' : Manager Sup) : Type 0 where
    pub config : m'.config ≡ m.config
    pub store : m'.store ≡ m.store
    pub managed : (name : String) → IsManaged m name → IsManaged m' name

  pub Continues-refl : (m : Manager Sup) → Continues m m
  Continues-refl m = record { config = refl; store = refl; managed = λ name h. h }

  pub Continues-trans : {a b c : Manager Sup} → Continues a b → Continues b c → Continues a c
  Continues-trans f g = record {
    config = g.config ∙ f.config;
    store = g.store ∙ f.store;
    managed = λ name h. g.managed name (f.managed name h);
  }

  lookup-put :
      (name other : String) (x : Managed Sup) (m : Manager Sup)
      → lookup other (put name x m).processes
        ≡ (if str_eq name other then some x else lookup other m.processes)
  lookup-put name other x m = lookup-insert name other x m.processes

  abbrev pub IsRegular : Manager Sup → String → Type 0
  IsRegular m name = (p : ℕ) × (lookup name m.config ≡ some p) × ((config_at m p).schedule ≡ "")

  -- What start_regular_process does to the supervisors.
  pub record Places (name : String) (m m' : Manager Sup) : Type 0 where
    pub continues : Continues m m'
    pub there : IsManaged m' name
    pub only : (other : String) → IsManaged m' other → (name ≡ other) ⊎ IsManaged m other

  put-Places : (name : String) (x : Managed Sup) (m : Manager Sup) → Places name m (put name x m)
  put-Places name x m = record {
    continues = record { config = refl; store = refl; managed = λ other h. stays other h };
    there = λ e. clash (sym (lookup-put name name x m ∙ rw (eq_refl name) refl) ∙ e);
    only = λ other h. elim (Bool-cases (str_eq name other)) [
      | inl same ↦ inl ((eq_iff name other).0 same)
      | inr apart ↦ inr (λ e. h (lookup-put name other x m ∙ rw apart e))
    ];
  }
    where
      clash : some x ≡ none → ⊥
      clash e = cc

      stays : (other : String) → IsManaged m other → IsManaged (put name x m) other
      stays other h e = elim (Bool-cases (str_eq name other)) [
        | inl same ↦ clash (sym (lookup-put name other x m ∙ rw same refl) ∙ e)
        | inr apart ↦ h (sym (lookup-put name other x m ∙ rw apart refl) ∙ e)
      ]

  Places-again :
      (name : String) {a b c : Manager Sup} → Places name a b → Places name b c → Places name a c
  Places-again name f g = record {
    continues = Continues-trans f.continues g.continues;
    there = g.there;
    only =
        λ other h. elim (g.only other h) [ inl same ↦ inl same | inr before ↦ f.only other before ];
  }

  pub order_of :
      (m : Manager Sup) (order : List String)
      → HasUniqueKeys m.config
      → startup_order m ≡ ok order
      → OrderOf (configured m.store m.config) order
  unfolding startup_order
  order_of m order u e = by_graph (new_graph_from_config (configured m.store m.config)) refl e
    where
      by_graph :
          (built : Result Graph)
          → new_graph_from_config (configured m.store m.config) ≡ built
          → (elim built [ ok g ↦ topological_sort g | err e ↦ err e | out_of_fuel ↦ out_of_fuel ])
            ≡ ok order
          → OrderOf (configured m.store m.config) order
      by_graph (ok g) is_built e =
          sorted-OrderOf (configured m.store m.config) g order
            (configured-HasUniqueKeys m.store m.config u) is_built e
      by_graph (err f) is_built e = cc
      by_graph out_of_fuel is_built e = cc

pub contains-snoc :
    (l : List String) (x y : String) → contains l x ≡ true → contains (l ++ y ∷ []) x ≡ true
unfolding contains
contains-snoc [] x y h = absurd (false_ne_true h)
contains-snoc (z ∷ l) x y h = elim (Bool-cases (str_eq z x)) [
  | inl here ↦ rw here refl
  | inr there ↦ rw there (contains-snoc l x y (rw there at h))
]

pub contains-last : (l : List String) (x : String) → contains (l ++ x ∷ []) x ≡ true
unfolding contains
contains-last [] x = rw (eq_refl x) refl
contains-last (z ∷ l) x = elim (Bool-cases (str_eq z x)) [
  | inl here ↦ rw here refl
  | inr there ↦ rw there (contains-last l x)
]

module _ {Sup : Type 0} (w : StartupOps Sup) where
  pub start_regular_process-Places :
      (name : String) (p : ℕ) (m : Manager Sup) → Places name m (start_regular_process w name p m).0
  start_regular_process-Places name p m =
      let cfg = config_at m p in
      let x : Managed Sup = record { config = p; sup = w.ops.new cfg } in
      elim (Bool-cases (str_eq cfg.initial_state "running")) [
        | inl runs ↦ rw runs (
            Places-again name (put-Places name x m)
              (put-Places name (record x { sup = (w.ops.start cfg.scale x.sup).0 }) (put name x m)))
        | inr idle ↦ rw idle (
            Places-again name (put-Places name x m)
              (put-Places name (record x { sup = w.mark_ready x.sup }) (put name x m)))
      ]

  -- All the processes have supervisors, and the wait for each has succeeded.
  abbrev pub AreReady : List String → Manager Sup → Type 0
  AreReady deps m =
      (d : String)
      → contains deps d ≡ true
      → (x : Managed Sup) × (lookup d m.processes ≡ some x)
        × (wait_for_readiness (w.becomes_ready x.sup) (config_at m x.config) ≡ true)

  pub waited :
      (deps : List String) (m : Manager Sup)
      → wait_for_dependencies w deps m ≡ none
      → AreReady deps m
  unfolding wait_for_dependencies contains
  waited [] m fine d among = absurd (false_ne_true among)
  waited (dep ∷ deps) m fine d among = elim (Option-cases (lookup dep m.processes)) [
    | inl absent ↦ absurd (missing (rw (absent, wait_for_dependencies) at fine))
    | inr (x, found) ↦
        elim (Bool-cases (wait_for_readiness (w.becomes_ready x.sup) (config_at m x.config))) [
          | inr late ↦ absurd (not_ready (rw (found, late, wait_for_dependencies) at fine))
          | inl ready ↦ elim (Bool-cases (str_eq dep d)) [
            | inl here ↦
                (x, subst (λ k. lookup k m.processes ≡ some x) ((eq_iff dep d).0 here) found, ready)
            | inr there ↦
                waited deps m (rw (found, ready, wait_for_dependencies) at fine) d
                  (rw there at among)
          ]
        ]
  ]
    where
      missing : some (dependency_missing dep) ≡ none → ⊥
      missing e = cc

      not_ready : some (dependency_not_ready dep) ≡ none → ⊥
      not_ready e = cc
