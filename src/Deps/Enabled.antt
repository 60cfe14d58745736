-- ===== src/Deps/Enabled.antt =====
-- internal/deps/graph.go, NewGraphFromConfig: the graph has the enabled processes, with their
-- dependencies.
use phpeek_pm.Prelude.{
  ◌<◌, ◌≡◌, refl, ap, ◌∙◌, sym, inl, inr, subst, arith, Bool, true, false, Bool-cases,
  if◌then◌else◌, List, [], ◌∷◌, String, str_eq, eq_iff, Option, Option-cases, none, some, lookup,
  insert, keys, lookup-insert, HasUniqueKeys, insert-HasUniqueKeys,
}
use phpeek_pm.Config.{Process}
use phpeek_pm.Deps.{
  Graph, GraphError, ok, err, contains, add_node, validate, add_enabled, new_graph_from_config,
}
use phpeek_pm.Deps.Topological.{topological_sort}
use phpeek_pm.Deps.Topological.Counts.{count, contains-count, count-contains}
use phpeek_pm.Deps.Topological.Degrees.{IsMap}
use phpeek_pm.Deps.Topological.Invariant.{OrderedAfter}
use phpeek_pm.Deps.Topological.Sound.{topological_sort_sound, contains-keys, lookup-keys}
use phpeek_pm.Deps.Topological.Complete.{validate_lem}

-- The dependencies of a process, if it is enabled.
abbrev pub node_of : Option Process → Option (List String) → Option (List String)
node_of none default = default
node_of (some proc) default = if proc.enabled then some proc.depends_on else default

pub lookup-add_enabled :
    (processes : List (String × Process)) (g : Graph) (x : String)
    → HasUniqueKeys processes
    → lookup x (add_enabled processes g) ≡ node_of (lookup x processes) (lookup x g)
unfolding add_enabled add_node lookup
lookup-add_enabled [] g x u = refl
lookup-add_enabled ((name, proc) ∷ processes) g x u =
    let g' = if proc.enabled then insert name proc.depends_on g else g in
    let ih = lookup-add_enabled processes g' x u.1 in
    elim (Bool-cases (str_eq name x)) [
      | inl here ↦
          let absent : lookup x processes ≡ none =
            subst (λ k. lookup k processes ≡ none) ((eq_iff name x).0 here) u.0 in
          rw here (ih ∙ rw absent (in_graph proc.enabled proc.depends_on here))
      | inr there ↦
          rw there
            (ih ∙ ap (node_of (lookup x processes)) (beside proc.enabled proc.depends_on there))
    ]
  where
    in_graph :
        (enabled : Bool) (deps : List String)
        → str_eq name x ≡ true
        → lookup x (if enabled then insert name deps g else g)
          ≡ (if enabled then some deps else lookup x g)
    in_graph true deps here = lookup-insert name x deps g ∙ rw here refl
    in_graph false deps here = refl

    beside :
        (enabled : Bool) (deps : List String)
        → str_eq name x ≡ false
        → lookup x (if enabled then insert name deps g else g) ≡ lookup x g
    beside true deps there = lookup-insert name x deps g ∙ rw there refl
    beside false deps there = refl

add_enabled-HasUniqueKeys :
    (processes : List (String × Process)) (g : Graph)
    → HasUniqueKeys g
    → HasUniqueKeys (add_enabled processes g)
unfolding add_enabled add_node
add_enabled-HasUniqueKeys [] g u = u
add_enabled-HasUniqueKeys ((name, proc) ∷ processes) g u = elim (Bool-cases proc.enabled) [
  | inl on ↦ rw on (
      add_enabled-HasUniqueKeys processes (insert name proc.depends_on g)
        (insert-HasUniqueKeys name proc.depends_on g u))
  | inr off ↦ rw off (add_enabled-HasUniqueKeys processes g u)
]

count-keys : (g : Graph) (x : String) → lookup x g ≡ none → count x (keys g) ≡ 0
unfolding lookup
count-keys [] x h = refl
count-keys ((k, v) ∷ g) x h = elim (Bool-cases (str_eq k x)) [
  | inl here ↦ absurd (clash (rw here at h))
  | inr there ↦ rw there (omega (arith, count-keys g x (rw there at h)))
]
  where
    clash : some v ≡ none → ⊥
    clash e = cc

HasUniqueKeys-IsMap : (g : Graph) → HasUniqueKeys g → IsMap g
HasUniqueKeys-IsMap [] u x = omega arith
HasUniqueKeys-IsMap ((k, v) ∷ g) u x = elim (Bool-cases (str_eq k x)) [
  | inl here ↦
      let absent = subst (λ n. lookup n g ≡ none) ((eq_iff k x).0 here) u.0 in
      rw here (omega (arith, count-keys g x absent))
  | inr there ↦ rw there (omega (arith, HasUniqueKeys-IsMap g u.1 x))
]

-- The order in which a configuration is started.
pub record OrderOf (processes : List (String × Process)) (order : List String) : Type 0 where
  pub graph : Graph
  pub nodes : (x : String) → lookup x graph ≡ node_of (lookup x processes) none
  pub valid : validate graph ≡ none
  pub places : (x : String) → count x order ≡ count x (keys graph)
  pub after : OrderedAfter graph [] order

pub sorted-OrderOf :
    (processes : List (String × Process)) (g : Graph) (order : List String)
    → HasUniqueKeys processes
    → new_graph_from_config processes ≡ ok g
    → topological_sort g ≡ ok order
    → OrderOf processes order
unfolding new_graph_from_config lookup
sorted-OrderOf processes g order u built sorted =
    let all = add_enabled processes [] in
    elim (Option-cases (validate all)) [
      | inr (e, invalid) ↦ absurd (not_built (rw (invalid, new_graph_from_config) at built))
      | inl valid ↦
          let same : g ≡ all = sym (graph_of (rw (valid, new_graph_from_config) at built)) in
          let sound =
            topological_sort_sound all order
              (HasUniqueKeys-IsMap all (add_enabled-HasUniqueKeys processes [] tt))
              (rw same at sorted) in
          record {
            graph = all;
            nodes = λ x. lookup-add_enabled processes [] x u;
            valid = valid;
            places = sound.0;
            after = sound.1;
          }
    ]
  where
    not_built : {e : GraphError} → err e ≡ ok g → ⊥
    not_built h = cc

    graph_of : {h : Graph} → ok h ≡ ok g → h ≡ g
    graph_of e = cc

module _ {processes : List (String × Process)} {order : List String}
    (o : OrderOf processes order) where
  -- Each enabled process is in the order.
  pub enabled_in_order :
      (name : String) (proc : Process)
      → lookup name processes ≡ some proc
      → proc.enabled ≡ true
      → 0 < count name order
  enabled_in_order name proc found on =
      let node : lookup name o.graph ≡ some proc.depends_on = o.nodes name ∙ rw (found, on) refl in
      let key =
        contains-count (keys o.graph) name
          (contains-keys name o.graph (λ absent. clash (sym absent ∙ node))) in
      omega (arith, o.places name, key)
    where
      clash : {deps : List String} → none ≡ some deps → ⊥
      clash e = cc

  -- What is in the order is an enabled process.
  pub order_enabled :
      (name : String)
      → 0 < count name order
      → (proc : Process) × (lookup name processes ≡ some proc) × (proc.enabled ≡ true)
  order_enabled name there =
      let key = count-contains (keys o.graph) name (omega (arith, o.places name, there)) in
      elim (Option-cases (lookup name processes)) [
        | inl absent ↦ absurd (lookup-keys name o.graph key (o.nodes name ∙ rw absent refl))
        | inr (proc, found) ↦ elim (Bool-cases proc.enabled) [
          | inl on ↦ (proc, found, on)
          | inr off ↦ absurd (lookup-keys name o.graph key (o.nodes name ∙ rw (found, off) refl))
        ]
      ]

  -- The dependencies of an enabled process are enabled processes.
  pub dependency_enabled :
      (name d : String) (proc : Process)
      → lookup name processes ≡ some proc
      → proc.enabled ≡ true
      → contains proc.depends_on d ≡ true
      → (dep : Process) × (lookup d processes ≡ some dep) × (dep.enabled ≡ true)
  dependency_enabled name d proc found on among =
      let node : lookup name o.graph ≡ some proc.depends_on = o.nodes name ∙ rw (found, on) refl in
      let there = (validate_lem o.graph name proc.depends_on d o.valid node among).0 in
      order_enabled d
        (omega (arith, o.places d, contains-count (keys o.graph) d (contains-keys d o.graph there)))
