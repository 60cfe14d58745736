-- ===== src/Deps/Topological.antt =====
-- internal/deps/graph.go: TopologicalSort, Kahn's algorithm, and sortAlphabetically.
pub mod Counts
pub mod Sorting
pub mod Degrees
pub mod Invariant
pub mod Sound
pub mod Complete
use phpeek_pm.Prelude.{
  ℕ, zero, suc, ◌+◌, ◌≡◌, Bool, true, false, if◌then◌else◌, List, [], ◌∷◌, ◌++◌, reverse, String,
  str_eq, str_gtb, Option, none, some, length, ℤ, pos, negsuc, ◌+ℤ◌, ◌==◌, not,
}
use phpeek_pm.Deps.{
  Graph, GraphError, circular, incomplete, Result, ok, err, out_of_fuel, contains, validate, update,
  no_cycle, cycle, no_fuel, has_cycle, Found,
}

-- The inner loop of the insertion sort: `nodes[j] > key` moves one place up. The sorted part is kept
-- from its end to its start.
unfoldable pub place : String → List String → List String
place key [] = key ∷ []
place key (x ∷ before) =
    let rest = place key before in if str_gtb x key then x ∷ rest else key ∷ x ∷ before

unfoldable pub sort_from : List String → List String → List String
sort_from done [] = done
sort_from done (key ∷ nodes) = sort_from (place key done) nodes

unfoldable pub sort_alphabetically : List String → List String
sort_alphabetically nodes = reverse (sort_from [] nodes)

abbrev pub is_zero : ℤ → Bool
is_zero (pos zero) = true
is_zero _ = false

-- inDegree[node] = len(deps), for all nodes.
unfoldable pub in_degrees : Graph → String → ℤ
in_degrees [] = λ node. pos 0
in_degrees ((node, deps) ∷ g) =
    let rest = in_degrees g in λ k. if str_eq node k then pos (length deps) else rest k

-- The nodes whose in-degree is 0, in the order of the range loop.
unfoldable pub ready_nodes : (String → ℤ) → Graph → List String
ready_nodes in_degree [] = []
ready_nodes in_degree ((node, deps) ∷ g) =
    let rest = ready_nodes in_degree g in if is_zero (in_degree node) then node ∷ rest else rest

pub record Kahn : Type 0 where
  pub in_degree : String → ℤ
  pub queue : List String

-- The body of the loop over the dependents of `node`.
unfoldable pub relax_one : String → String → List String → Kahn → Kahn
relax_one node dependent deps k =
    let degree = k.in_degree dependent +ℤ negsuc 0 in
    if contains deps node
    then record {
      in_degree = update k.in_degree dependent degree;
      queue = if is_zero degree then sort_alphabetically (k.queue ++ dependent ∷ []) else k.queue;
    }
    else k

unfoldable pub relax : String → Graph → Kahn → Kahn
relax node [] k = k
relax node ((dependent, deps) ∷ g) k = relax node g (relax_one node dependent deps k)

-- `for len(queue) > 0`: the result, once the queue is empty.
unfoldable pub drain : Graph → ℕ → (String → ℤ) → List String → List String → Option (List String)
drain g fuel in_degree [] result = some result
drain g zero in_degree (node ∷ queue) result = none
drain g (suc fuel) in_degree (node ∷ queue) result =
    let k = relax node g (record { in_degree = in_degree; queue = queue }) in
    drain g fuel k.in_degree k.queue (result ++ node ∷ [])

unfoldable pub kahn : Graph → Option (List String)
kahn g =
    let in_degree = in_degrees g in
    drain g (length g) in_degree (sort_alphabetically (ready_nodes in_degree g)) []

unfoldable pub check_complete : Graph → Option (List String) → Result (List String)
check_complete g none = out_of_fuel
check_complete g (some result) = if length result == length g then ok result else err incomplete

unfoldable pub sort_after : Graph → Found → Result (List String)
sort_after g no_fuel = out_of_fuel
sort_after g (cycle path) = err (circular path)
sort_after g (no_cycle _) = check_complete g (kahn g)

unfoldable pub topological_sort : Graph → Result (List String)
topological_sort g = elim (validate g) [ some e ↦ err e | none ↦ sort_after g (has_cycle g) ]
