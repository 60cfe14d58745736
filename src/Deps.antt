-- ===== src/Deps.antt =====
-- internal/deps/graph.go: the dependency graph of the processes, its check for cycles and its
-- topological sort. A Go map of lists is an association list, in the order of the range loops;
-- maps to int and bool, which give 0 and false at a missing key, are functions. The searches take
-- fuel: one round for each node, and one more, is enough (Topological.Complete, Cycles and
-- Reported).
mod Tests
pub mod Topological
pub mod Cycles
pub mod Walks
pub mod Reported
pub mod Enabled
use phpeek_pm.Prelude.{
  ℕ, zero, suc, ◌+◌, ◌≡◌, Bool, true, false, if◌then◌else◌, List, [], ◌∷◌, ◌++◌, reverse, String,
  str_eq, str_gtb, Option, none, some, lookup, insert, keys, length, ℤ, pos, negsuc, ◌+ℤ◌, ◌==◌,
  not,
}
use phpeek_pm.Config.{Process}

-- Graph.nodes
abbrev pub Graph : Type 0
Graph = List (String × List String)

pub data GraphError : Type 0 where
  non_existent : (name dep : String) → GraphError
  self_dependency : (name : String) → GraphError
  circular : (path : List String) → GraphError
  incomplete : GraphError

-- `out_of_fuel` is no result of the program.
pub data Result {ℓ} (A : Type ℓ) : Type ℓ where
  ok : A → Result A
  err : GraphError → Result A
  out_of_fuel : Result A

unfoldable pub contains : List String → String → Bool
contains [] item = false
contains (s ∷ slice) item = if str_eq s item then true else contains slice item

unfoldable pub add_node : String → List String → Graph → Graph
add_node name deps g = insert name deps g

unfoldable pub dependencies : String → Graph → List String
dependencies name g = elim (lookup name g) [ none ↦ [] | some deps ↦ deps ]

unfoldable pub validate_deps : Graph → String → List String → Option GraphError
validate_deps g name [] = none
validate_deps g name (dep ∷ deps) =
    let rest = validate_deps g name deps in
    elim (lookup dep g) [
      | none ↦ some (non_existent name dep)
      | some _ ↦ if str_eq dep name then some (self_dependency name) else rest
    ]

unfoldable pub validate_nodes : Graph → Graph → Option GraphError
validate_nodes g [] = none
validate_nodes g ((name, deps) ∷ nodes) =
    let rest = validate_nodes g nodes in
    elim (validate_deps g name deps) [ none ↦ rest | some e ↦ some e ]

unfoldable pub validate : Graph → Option GraphError
validate g = validate_nodes g g

unfoldable pub add_enabled : List (String × Process) → Graph → Graph
add_enabled [] g = g
add_enabled ((name, proc) ∷ processes) g =
    add_enabled processes (if proc.enabled then add_node name proc.depends_on g else g)

unfoldable pub new_graph_from_config : List (String × Process) → Result Graph
new_graph_from_config processes =
    let g = add_enabled processes [] in elim (validate g) [ none ↦ ok g | some e ↦ err e ]

-- m[key] = value
abbrev pub update {ℓ} : {A : Type ℓ} → (String → A) → String → A → String → A
update m key value k = if str_eq key k then value else m k

-- The three maps of the depth-first search.
pub record Search : Type 0 where
  pub visited : String → Bool
  pub rec_stack : String → Bool
  pub parent : String → String

pub data Found : Type 0 where
  no_cycle : Search → Found
  cycle : List String → Found
  no_fuel : Found

-- The loop `for current != dep`, which builds the path backwards.
unfoldable pub cycle_path : ℕ → (String → String) → String → String → List String → Found
cycle_path zero parent dep current path = no_fuel
cycle_path (suc fuel) parent dep current path =
    let rest = cycle_path fuel parent dep (parent current) (current ∷ path) in
    if str_eq current dep then cycle (dep ∷ path) else rest

module _ (fuel : ℕ) (visit : String → Search → Found) where
  abbrev pub continue_with : (Search → Found) → Found → Found
  continue_with next (no_cycle s) = next s
  continue_with next (cycle path) = cycle path
  continue_with next no_fuel = no_fuel

  -- The loop over the dependencies of `node`.
  unfoldable pub visit_deps : String → List String → Search → Found
  visit_deps node [] s = no_cycle record s { rec_stack = update s.rec_stack node false }
  visit_deps node (dep ∷ deps) s =
      let rest = visit_deps node deps s in
      if s.visited dep
      then (if s.rec_stack dep then cycle_path fuel s.parent dep node (dep ∷ []) else rest)
      else continue_with (visit_deps node deps)
          (visit dep record s { parent = update s.parent dep node })

unfoldable pub has_cycle_dfs : Graph → ℕ → ℕ → String → Search → Found
has_cycle_dfs g path_fuel zero node s = no_fuel
has_cycle_dfs g path_fuel (suc fuel) node s =
    visit_deps path_fuel (has_cycle_dfs g path_fuel fuel) node (dependencies node g)
      record s { visited = update s.visited node true; rec_stack = update s.rec_stack node true }

-- The loop of HasCycle over all nodes.
unfoldable pub search_from : Graph → ℕ → Graph → Search → Found
search_from g fuel [] s = no_cycle s
search_from g fuel ((node, _) ∷ nodes) s =
    let rest = search_from g fuel nodes s in
    if s.visited node
    then rest
    else continue_with fuel (has_cycle_dfs g fuel fuel) (search_from g fuel nodes)
        (has_cycle_dfs g fuel fuel node s)

abbrev pub new_search : Search
new_search = record { visited = λ n. false; rec_stack = λ n. false; parent = λ n. "" }

unfoldable pub has_cycle : Graph → Found
has_cycle g = search_from g (suc (length g)) g new_search
