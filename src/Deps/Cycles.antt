-- ===== src/Deps/Cycles.antt =====
-- HasCycle on a graph without cycles: the search ends within its fuel and finds none.
use phpeek_pm.Prelude.{
  ℕ, zero, suc, ◌+◌, ◌≤◌, ◌<◌, ◌≡◌, ◌≢◌, refl, sym, ap, ◌∙◌, arith, subst, Bool, true, false, not,
  List, [], ◌∷◌, String, str_eq, eq_refl, eq_iff, Bool-cases, Option-cases, inl, inr, ◌⊎◌, length,
  none, lookup, keys,
}
use phpeek_pm.Deps.{
  Graph, contains, dependencies, validate, update, Search, Found, no_cycle, visit_deps,
  has_cycle_dfs, search_from, new_search, has_cycle, ok,
}
use phpeek_pm.Deps.Topological.Counts.{one_if}
use phpeek_pm.Deps.Topological.{topological_sort, sort_after}
use phpeek_pm.Deps.Topological.Degrees.{IsMap}
use phpeek_pm.Deps.Topological.Sound.{lookup-keys}
use phpeek_pm.Deps.Topological.Complete.{IsRanked, HasNoDuplicates, validate_lem, kahn_complete}

-- How many nodes are not visited.
abbrev pub unvisited : Graph → (String → Bool) → ℕ
unvisited [] visited = 0
unvisited ((node, deps) ∷ g) visited = one_if (not (visited node)) + unvisited g visited

-- A call of the search leaves visited what was, and nothing on the stack that was not there.
record Grows (s s' : Search) : Type 0 where
  visits : (y : String) → s.visited y ≡ true → s'.visited y ≡ true
  unwinds : (y : String) → s'.rec_stack y ≡ true → s.rec_stack y ≡ true

pub unvisited-visits :
    (g : Graph) (v w : String → Bool)
    → ((y : String) → v y ≡ true → w y ≡ true)
    → unvisited g w ≤ unvisited g v
unvisited-visits [] v w h = omega arith
unvisited-visits ((node, deps) ∷ g) v w h = ground (arith, h node, unvisited-visits g v w h)

pub mark :
    (node : String) (v : String → Bool) (y : String) → v y ≡ true → update v node true y ≡ true
mark node v y h = ground arith

pub unvisited-update :
    (g : Graph) (v : String → Bool) (node : String)
    → lookup node g ≢ none
    → v node ≡ false
    → unvisited g (update v node true) < unvisited g v
unfolding lookup
unvisited-update [] v node there fresh = absurd (there refl)
unvisited-update ((n, deps) ∷ g) v node there fresh = elim (Bool-cases (str_eq n node)) [
  | inl same ↦
      let fresh' : v n ≡ false = ap v ((eq_iff n node).0 same) ∙ fresh in
      let back : str_eq node n ≡ true = (eq_iff node n).1 (sym ((eq_iff n node).0 same)) in
      rw (back, fresh') (omega (arith, unvisited-visits g v (update v node true) (mark node v)))
  | inr other ↦
      let rest = unvisited-update g v node (rw other at there) fresh in
      ground (arith, other, rest, eq_iff n node, eq_iff node n)
]

Grows-trans : {s t u : Search} → Grows s t → Grows t u → Grows s u
Grows-trans a b = record {
  visits = λ y h. b.visits y (a.visits y h);
  unwinds = λ y h. a.unwinds y (b.unwinds y h);
}

module _ (g : Graph) (rank : String → ℕ) (valid : validate g ≡ none) (ranked : IsRanked g rank)
    (path_fuel : ℕ) where
  -- What a call of the search with fuel `n` does at a new node that ranks below the stack.
  abbrev Visits : (String → Search → Found) → ℕ → Type 0
  Visits visit n =
      (node : String) (s : Search)
      → lookup node g ≢ none
      → s.visited node ≡ false
      → unvisited g s.visited ≤ n
      → ((y : String) → s.rec_stack y ≡ true → rank node < rank y)
      → (s' : Search) × (visit node s ≡ no_cycle s') × Grows s s'

  visit_deps_lem :
      (visit : String → Search → Found) (n : ℕ) (node : String) (deps : List String) (s : Search)
      → Visits visit n
      → ((d : String) → contains deps d ≡ true → (lookup d g ≢ none) × (rank d < rank node))
      → unvisited g s.visited ≤ n
      → ((y : String) → s.rec_stack y ≡ true → rank node ≤ rank y)
      → (s' : Search) × (visit_deps path_fuel visit node deps s ≡ no_cycle s')
        × Grows s s'
        × (s'.rec_stack node ≡ false)
  unfolding visit_deps contains
  visit_deps_lem visit n node [] s vs ds enough above = (
    record s { rec_stack = update s.rec_stack node false },
    refl,
    record { visits = λ y h. h; unwinds = λ y h. ground arith },
    rw (eq_refl node) refl,
  )
  visit_deps_lem visit n node (dep ∷ deps) s vs ds enough above =
      elim (Bool-cases (s.visited dep)) [
        | inl old ↦ elim (Bool-cases (s.rec_stack dep)) [
          | inl on ↦ absurd (omega (arith, above dep on, (ds dep (here dep)).1))
          | inr off ↦
              rw (old, off)
                (visit_deps_lem visit n node deps s vs (λ d c. ds d (there d c)) enough above)
        ]
        | inr new ↦
            let asked : Search = record s { parent = update s.parent dep node } in
            let r =
              vs dep asked (ds dep (here dep)).0 new enough
                (λ y on. omega (arith, above y on, (ds dep (here dep)).1)) in
            let rest =
              visit_deps_lem visit n node deps r.0 vs (λ d c. ds d (there d c))
                (omega (arith, enough, unvisited-visits g s.visited r.0.visited r.2.visits))
                (λ y on. above y (r.2.unwinds y on)) in
            rw (new, r.1) (rest.0, rest.1, Grows-trans (Grows-asked r.2) rest.2, rest.3)
      ]
    where
      here : (d : String) → contains (d ∷ deps) d ≡ true
      here d = rw (eq_refl d) refl

      there : (d : String) → contains deps d ≡ true → contains (dep ∷ deps) d ≡ true
      there d c = ground arith

      Grows-asked :
          {p : String → String} {s' : Search} → Grows (record s { parent = p }) s' → Grows s s'
      Grows-asked h = record { visits = h.visits; unwinds = h.unwinds }

  has_cycle_dfs_lem : (n : ℕ) → Visits (has_cycle_dfs g path_fuel n) n
  unfolding has_cycle_dfs dependencies
  has_cycle_dfs_lem zero node s there fresh enough above =
      absurd (omega (arith, enough, unvisited-update g s.visited node there fresh))
  has_cycle_dfs_lem (suc n) node s there fresh enough above = elim (Option-cases (lookup node g)) [
    | inl absent ↦ absurd (there absent)
    | inr found ↦
        let entered : Search = record s {
          visited = update s.visited node true;
          rec_stack = update s.rec_stack node true;
        } in
        let r =
          visit_deps_lem (has_cycle_dfs g path_fuel n) n node (found.0) entered
            (has_cycle_dfs_lem n)
            (λ d c. (
              (validate_lem g node (found.0) d valid (found.1) c).0,
              ranked node (found.0) d (found.1) c,
            ))
            (omega (arith, enough, unvisited-update g s.visited node there fresh))
            (λ y on. entered_above y on) in
        rw (found.1, has_cycle_dfs, dependencies)
          (
            r.0,
            r.1,
            record {
              visits = λ y h. r.2.visits y (mark node s.visited y h);
              unwinds = λ y h. left y r.0 (Bool-cases (str_eq node y)) (r.2.unwinds y h) r.3 h;
            },
          )
  ]
    where
      entered_above : (y : String) → update s.rec_stack node true y ≡ true → rank node ≤ rank y
      entered_above y on = elim (Bool-cases (str_eq node y)) [
        | inl same ↦ subst (λ m. rank node ≤ rank m) ((eq_iff node y).0 same) (omega arith)
        | inr other ↦ omega (arith, above y (rw other at on))
      ]

      clash : {b : Bool} → b ≡ false → b ≡ true → ⊥
      clash e f = cc

      left :
          (y : String) (r : Search)
          → (str_eq node y ≡ true) ⊎ (str_eq node y ≡ false)
          → update s.rec_stack node true y ≡ true
          → r.rec_stack node ≡ false
          → r.rec_stack y ≡ true
          → s.rec_stack y ≡ true
      left y r (inl same) on popped h =
          absurd (clash popped (ap r.rec_stack ((eq_iff node y).0 same) ∙ h))
      left y r (inr other) on popped h = rw other at on

  search_from_lem :
      (nodes : Graph) (s : Search)
      → ((x : String) → contains (keys nodes) x ≡ true → lookup x g ≢ none)
      → unvisited g s.visited ≤ path_fuel
      → ((y : String) → s.rec_stack y ≡ true → ⊥)
      → (s' : Search) × (search_from g path_fuel nodes s ≡ no_cycle s')
  unfolding search_from contains
  search_from_lem [] s inside enough empty = (s, refl)
  search_from_lem ((node, deps) ∷ nodes) s inside enough empty =
      elim (Bool-cases (s.visited node)) [
        | inl old ↦ rw old (search_from_lem nodes s (λ x c. inside x (later x c)) enough empty)
        | inr new ↦
            let r =
              has_cycle_dfs_lem path_fuel node s (inside node here) new enough
                (λ y on. absurd (empty y on)) in
            let rest =
              search_from_lem nodes r.0 (λ x c. inside x (later x c))
                (omega (arith, enough, unvisited-visits g s.visited r.0.visited r.2.visits))
                (λ y on. empty y (r.2.unwinds y on)) in
            rw (new, r.1) rest
      ]
    where
      here : contains (node ∷ keys nodes) node ≡ true
      here = rw (eq_refl node) refl

      later : (d : String) → contains (keys nodes) d ≡ true → contains (node ∷ keys nodes) d ≡ true
      later d c = ground arith

pub unvisited-le : (g : Graph) → unvisited g (λ n. false) ≤ length g
unvisited-le [] = omega arith
unvisited-le (n ∷ g) = omega (arith, unvisited-le g)

-- On a graph that Validate accepts, whose dependencies have lower ranks than their dependents,
-- HasCycle returns, and reports no cycle.
pub has_cycle_acyclic :
    (g : Graph) (rank : String → ℕ)
    → validate g ≡ none
    → IsRanked g rank
    → (s : Search) × (has_cycle g ≡ no_cycle s)
unfolding has_cycle
has_cycle_acyclic g rank valid ranked =
    search_from_lem g rank valid ranked (suc (length g)) g new_search (λ x c. lookup-keys x g c)
      (omega (arith, unvisited-le g)) (λ y on. never on)
  where
    never : false ≡ true → ⊥
    never on = cc

-- TopologicalSort succeeds on a graph that Validate accepts, in which no process names a dependency
-- twice and the dependencies have lower ranks than their dependents.
pub topological_sort_complete :
    (g : Graph) (rank : String → ℕ)
    → IsMap g
    → validate g ≡ none
    → HasNoDuplicates g
    → IsRanked g rank
    → (order : List String) × (topological_sort g ≡ ok order)
unfolding topological_sort sort_after
topological_sort_complete g rank map valid unique ranked =
    let searched = has_cycle_acyclic g rank valid ranked in
    rw (valid, searched.1, topological_sort) (kahn_complete g rank map valid unique ranked)
