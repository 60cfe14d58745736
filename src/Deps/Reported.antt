-- ===== src/Deps/Reported.antt =====
-- What HasCycle reports is a cycle.
use phpeek_pm.Prelude.{
  ◌≢◌, none, keys, ◌+◌, ◌<◌, ◌≤◌, Option-cases, ℕ, zero, suc, ◌≡◌, refl, ap, arith, Bool, true,
  false, List, [], ◌∷◌, String, str_eq, eq_refl, eq_iff, Bool-cases, inl, inr, ◌⊎◌, lookup, length,
}
use phpeek_pm.Deps.{
  validate, Graph, contains, dependencies, update, Search, Found, no_cycle, cycle, no_fuel,
  visit_deps, has_cycle_dfs, search_from, new_search, has_cycle,
}
use phpeek_pm.Deps.Cycles.{unvisited, unvisited-visits, unvisited-update, unvisited-le, mark}
use phpeek_pm.Deps.Topological.Complete.{validate_lem}
use phpeek_pm.Deps.Topological.Sound.{lookup-keys}
use phpeek_pm.Deps.Walks.{
  DependsOn, IsCycle, IsStack, Inside, here, there, IsStack-same, Keeps, Outcome,
  cycle_path-Outcome, Outcome-trans, continue_with-Outcome,
}

module _ (g : Graph) where
  dependencies-known :
      validate g ≡ none → (node d : String) → DependsOn g node d → lookup d g ≢ none
  unfolding dependencies contains
  dependencies-known valid node d c = elim (Option-cases (lookup node g)) [
    | inl absent ↦ absurd (empty (rw (absent, dependencies) at c))
    | inr (deps, found) ↦ (validate_lem g node deps d valid found (rw (found, dependencies) at c)).0
  ]
    where
      empty : false ≡ true → ⊥
      empty e = cc

  -- A search that is at `node`, above the stack.
  record IsAt (node : String) (st : List String) (s : Search) : Type 0 where
    stack : IsStack g s.parent node st
    inside : Inside g (node ∷ st) s.visited
    room : suc (length st) + unvisited g s.visited ≤ length g
    on_stack : (y : String) → s.rec_stack y ≡ true → contains (node ∷ st) y ≡ true

  -- What a visit needs and does.
  abbrev Visits : (String → Search → Found) → ℕ → Type 0
  Visits visit n =
      (node : String) (st : List String) (s : Search)
      → lookup node g ≢ none
      → s.visited node ≡ false
      → unvisited g s.visited ≤ n
      → length st + unvisited g s.visited ≤ length g
      → IsStack g s.parent node st
      → Inside g st s.visited
      → ((y : String) → s.rec_stack y ≡ true → contains st y ≡ true)
      → Outcome g st s (visit node s)

  IsAt-Keeps :
      (node : String) (st : List String) (s t : Search)
      → IsAt node st s
      → Keeps g (node ∷ st) s t
      → IsAt node st t
  IsAt-Keeps node st s t a k = record {
    stack = IsStack-same g s.visited s.parent t.parent node st k.parents a.inside a.stack;
    inside = λ y c. k.visits y (a.inside y c);
    room = omega (arith, a.room, unvisited-visits g s.visited t.visited k.visits);
    on_stack = k.on_stack;
  }

  -- The parent of a node that is not visited can be set.
  set_parent :
      (v : String → Bool) (parent : String → String) (dep node y : String)
      → v dep ≡ false
      → v y ≡ true
      → update parent dep node y ≡ parent y
  set_parent v parent dep node y new old = elim (Bool-cases (str_eq dep y)) [
    | inl same ↦ let e : v dep ≡ v y = ap v ((eq_iff dep y).0 same) in cc
    | inr other ↦ rw other refl
  ]

  visit_deps-Outcome :
      (fuel : ℕ) (visit : String → Search → Found) (n : ℕ) (node : String) (deps st : List String)
      (s : Search)
      → length g < fuel
      → Visits visit n
      → ((d : String) → contains deps d ≡ true → DependsOn g node d × (lookup d g ≢ none))
      → unvisited g s.visited ≤ n
      → IsAt node st s
      → Outcome g st s (visit_deps fuel visit node deps s)
  unfolding visit_deps contains
  visit_deps-Outcome fuel visit n node [] st s enough vs ds left at_node = record {
    visits = λ y v. v;
    parents = λ y v. refl;
    on_stack = λ y h. below y h;
  }
    where
      below : (y : String) → update s.rec_stack node false y ≡ true → contains st y ≡ true
      below y h = ground (arith, at_node.on_stack y, h)
  visit_deps-Outcome fuel visit n node (dep ∷ deps) st s enough vs ds left at_node =
      let edges : (d : String) → contains deps d ≡ true → DependsOn g node d × (lookup d g ≢ none) =
        λ d c. ds d (there dep deps d c) in
      let (edge, known) = ds dep (here dep deps) in
      elim (Bool-cases (s.visited dep)) [
        | inl old ↦ elim (Bool-cases (s.rec_stack dep)) [
          | inl on ↦
              rw (old, on)
                (cycle_path-Outcome g fuel s.parent dep node st dep [] st s
                  (omega (arith, enough, at_node.room)) at_node.stack (at_node.on_stack dep on) edge
                  refl)
          | inr off ↦
              rw (old, off)
                (visit_deps-Outcome fuel visit n node deps st s enough vs edges left at_node)
        ]
        | inr new ↦
            let asked : Search = record s { parent = update s.parent dep node } in
            let same : (y : String) → s.visited y ≡ true → asked.parent y ≡ s.parent y =
              λ y old. set_parent s.visited s.parent dep node y new old in
            let stack : IsStack g asked.parent dep (node ∷ st) = (
              rw (eq_refl dep) refl,
              edge,
              IsStack-same g s.visited s.parent asked.parent node st same at_node.inside
                  at_node.stack,
            ) in
            let visited =
              vs dep (node ∷ st) asked known new left at_node.room stack at_node.inside
                at_node.on_stack in
            let from_s : Outcome g (node ∷ st) s (visit dep asked) =
              Outcome-trans g (node ∷ st) (node ∷ st) s asked
                (record { visits = λ y v. v; parents = same; on_stack = at_node.on_stack })
                (visit dep asked) visited in
            rw new (
              continue_with-Outcome g fuel visit (visit_deps fuel visit node deps) (node ∷ st) st s
                (visit dep asked) from_s
                (λ t k.
                  visit_deps-Outcome fuel visit n node deps st t enough vs edges
                    (omega (arith, left, unvisited-visits g s.visited t.visited k.visits))
                    (IsAt-Keeps node st s t at_node k)))
      ]

  has_cycle_dfs-Visits :
      validate g ≡ none
      → (path_fuel fuel : ℕ) → length g < path_fuel
      → Visits (has_cycle_dfs g path_fuel fuel) fuel
  unfolding has_cycle_dfs contains
  has_cycle_dfs-Visits valid path_fuel zero enough node st s there_is new left room stack inside
        on_stack =
      absurd (omega (arith, left, unvisited-update g s.visited node there_is new))
  has_cycle_dfs-Visits valid path_fuel (suc fuel) enough node st s there_is new left room stack
        inside on_stack =
      let entered : Search = record s {
        visited = update s.visited node true;
        rec_stack = update s.rec_stack node true;
      } in
      let fewer = unvisited-update g s.visited node there_is new in
      Outcome-trans g (node ∷ st) st s entered
        (record {
          visits = λ y v. mark node s.visited y v;
          parents = λ y v. refl;
          on_stack = λ y h. pushed y h;
        })
        (visit_deps path_fuel (has_cycle_dfs g path_fuel fuel) node (dependencies node g) entered)
        (visit_deps-Outcome path_fuel (has_cycle_dfs g path_fuel fuel) fuel node
          (dependencies node g) st entered enough (has_cycle_dfs-Visits valid path_fuel fuel enough)
          (λ d c. (c, dependencies-known valid node d c)) (omega (arith, left, fewer))
          (record {
            stack = stack;
            inside = λ y c. at_node y c;
            room = omega (arith, room, fewer);
            on_stack = λ y h. pushed y h;
          }))
    where
      at_node : (y : String) → contains (node ∷ st) y ≡ true → update s.visited node true y ≡ true
      at_node y c = ground (arith, inside y, c)

      pushed : (y : String) → update s.rec_stack node true y ≡ true → contains (node ∷ st) y ≡ true
      pushed y h = ground (arith, on_stack y, h)

  search_from-Outcome :
      validate g ≡ none
      → (fuel : ℕ) (nodes : Graph) (s : Search) → length g < fuel
      → ((x : String) → contains (keys nodes) x ≡ true → lookup x g ≢ none)
      → unvisited g s.visited ≤ length g
      → ((y : String) → s.rec_stack y ≡ true → contains [] y ≡ true)
      → Outcome g [] s (search_from g fuel nodes s)
  unfolding search_from contains
  search_from-Outcome valid fuel [] s enough known left empty = record {
    visits = λ y v. v;
    parents = λ y v. refl;
    on_stack = empty;
  }
  search_from-Outcome valid fuel ((node, deps) ∷ nodes) s enough known left empty =
      let later : (x : String) → contains (keys nodes) x ≡ true → lookup x g ≢ none =
        λ x c. known x (there node (keys nodes) x c) in
      elim (Bool-cases (s.visited node)) [
        | inl old ↦ rw old (search_from-Outcome valid fuel nodes s enough later left empty)
        | inr new ↦ rw new (
            continue_with-Outcome g fuel (has_cycle_dfs g fuel fuel) (search_from g fuel nodes) []
              [] s (has_cycle_dfs g fuel fuel node s)
              (has_cycle_dfs-Visits valid fuel fuel enough node [] s
                (known node (here node (keys nodes))) new (omega (arith, left, enough))
                (omega (arith, left)) tt (λ y c. nothing y c) empty)
              (λ t k.
                search_from-Outcome valid fuel nodes t enough later
                  (omega (arith, left, unvisited-visits g s.visited t.visited k.visits))
                  k.on_stack))
      ]
    where
      nothing : (y : String) → contains [] y ≡ true → s.visited y ≡ true
      nothing y c = cc

  has_cycle-Outcome : validate g ≡ none → Outcome g [] new_search (has_cycle g)
  unfolding has_cycle
  has_cycle-Outcome valid =
      search_from-Outcome valid (suc (length g)) g new_search (omega arith)
        (λ x c. lookup-keys x g c) (unvisited-le g) (λ y on. absurd (clash on))
    where
      clash : false ≡ true → ⊥
      clash e = cc

  Found-cases :
      (r : Found)
      → Outcome g [] new_search r
      → ((s : Search) × (r ≡ no_cycle s))
        ⊎ ((path : List String) × (r ≡ cycle path) × IsCycle g path)
  Found-cases (no_cycle s) h = inl (s, refl)
  Found-cases (cycle path) h = inr (path, refl, h)
  Found-cases no_fuel h = absurd h

  -- On a valid graph HasCycle ends within the fuel of the model, and either finds no cycle or reports a
  -- path on which each process depends on the next, and of which the last is the first.
  pub has_cycle_lem :
      validate g ≡ none
      → ((s : Search) × (has_cycle g ≡ no_cycle s))
        ⊎ ((path : List String) × (has_cycle g ≡ cycle path) × IsCycle g path)
  has_cycle_lem valid = Found-cases (has_cycle g) (has_cycle-Outcome valid)
