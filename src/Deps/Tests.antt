-- ===== src/Deps/Tests.antt =====
-- The dependency graph at concrete inputs.
use phpeek_pm.Prelude.{
  ◌⊎◌, ℕ, ◌≡◌, refl, List, [], ◌∷◌, String, lookup, insert, some, none, ◌+ℤ◌, keys, str_eq, eq_iff,
  if◌then◌else◌, subst, some_inj, Bool-cases, inl, inr, true, false, ◌<◌, ◌≢◌, arith,
}
use phpeek_pm.Deps.{
  Graph, ok, err, non_existent, self_dependency, circular, incomplete, contains, add_node,
  dependencies, validate_deps, validate_nodes, validate, Search, no_cycle, cycle, cycle_path,
  visit_deps, has_cycle_dfs, search_from, has_cycle,
}
use phpeek_pm.Deps.Topological.{
  place, sort_from, sort_alphabetically, in_degrees, ready_nodes, relax_one, relax, drain, kahn,
  check_complete, sort_after, topological_sort,
}
use phpeek_pm.Deps.Topological.Counts.{count, no_duplicates, no_duplicates-IsDistinct}
use phpeek_pm.Deps.Topological.Degrees.{IsMap}
use phpeek_pm.Deps.Topological.Invariant.{OrderedAfter}
use phpeek_pm.Deps.Topological.Sound.{topological_sort_sound, topological_sort_duplicate}
use phpeek_pm.Deps.Topological.Complete.{IsRanked, HasNoDuplicates, validate_lem}
use phpeek_pm.Deps.Cycles.{has_cycle_acyclic, topological_sort_complete}
use phpeek_pm.Deps.Walks.{IsCycle}
use phpeek_pm.Deps.Reported.{has_cycle_lem}

runs : Unit {0}
unfolding lookup insert contains add_node dependencies validate_deps validate_nodes validate
    cycle_path visit_deps has_cycle_dfs search_from has_cycle place sort_from sort_alphabetically
    in_degrees ready_nodes relax_one relax drain kahn check_complete sort_after topological_sort
    ◌+ℤ◌
runs = tt

abbrev stack : Graph
stack = ("web", "php" ∷ "db" ∷ []) ∷ ("php", "db" ∷ []) ∷ ("db", []) ∷ ("cache", []) ∷ []

sorted : topological_sort stack ≡ ok ("cache" ∷ "db" ∷ "php" ∷ "web" ∷ [])
unfolding runs
sorted = refl

looped :
    topological_sort (("a", "b" ∷ []) ∷ ("b", "c" ∷ []) ∷ ("c", "b" ∷ []) ∷ [])
    ≡ err (circular ("b" ∷ "c" ∷ "b" ∷ []))
unfolding runs
looped = refl

dangling : topological_sort (("a", "b" ∷ []) ∷ []) ≡ err (non_existent "a" "b")
unfolding runs
dangling = refl

own : topological_sort (("a", "a" ∷ []) ∷ []) ≡ err (self_dependency "a")
unfolding runs
own = refl

-- The same dependency twice.
twice : topological_sort (("a", "b" ∷ "b" ∷ []) ∷ ("b", []) ∷ []) ≡ err incomplete
unfolding runs
twice = refl

abbrev pair : Graph
pair = ("web", "db" ∷ []) ∷ ("db", []) ∷ []

pair-IsMap : IsMap pair
unfolding runs
pair-IsMap = no_duplicates-IsDistinct (keys pair) refl

abbrev rank : String → ℕ
rank name = if str_eq name "web" then 1 else 0

pair-cases :
    (P : String → List String → Type 0) (x : String) (ds : List String)
    → P "web" ("db" ∷ [])
    → P "db" []
    → lookup x pair ≡ some ds
    → P x ds
unfolding lookup
pair-cases P x ds web db found = elim (Bool-cases (str_eq "web" x)) [
  | inl is_web ↦
      subst (λ n. P n ds) ((eq_iff "web" x).0 is_web)
        (subst (P "web") (some_inj (rw is_web at found)) web)
  | inr not_web ↦ elim (Bool-cases (str_eq "db" x)) [
    | inl is_db ↦
        subst (λ n. P n ds) ((eq_iff "db" x).0 is_db)
          (subst (P "db") (some_inj (rw (not_web, is_db) at found)) db)
    | inr not_db ↦ absurd (never (rw (not_web, not_db) at found))
  ]
]
  where
    never : none ≡ some ds → ⊥
    never h = cc

pair-IsRanked : IsRanked pair rank
unfolding contains
pair-IsRanked x ds d found c =
    pair-cases (λ y es. contains es d ≡ true → rank d < rank y) x ds (λ h. below h) (λ h. cc) found
      c
  where
    clash : false ≡ true → ⊥
    clash h = cc

    below : contains ("db" ∷ []) d ≡ true → rank d < 1
    below h = elim (Bool-cases (str_eq "db" d)) [
      | inl is_db ↦ subst (λ n. rank n < 1) ((eq_iff "db" d).0 is_db) (omega arith)
      | inr other ↦ absurd (clash (rw other at h))
    ]

pair-HasNoDuplicates : HasNoDuplicates pair
unfolding contains
pair-HasNoDuplicates x ds found = pair-cases (λ y es. no_duplicates es ≡ true) x ds refl refl found

pair-valid : validate pair ≡ none
unfolding runs
pair-valid = refl

topological_sort_sound_example :
    ((x : String) → count x ("db" ∷ "web" ∷ []) ≡ count x (keys pair))
    × OrderedAfter pair [] ("db" ∷ "web" ∷ [])
topological_sort_sound_example =
    topological_sort_sound pair ("db" ∷ "web" ∷ []) pair-IsMap (unfold runs in refl)

topological_sort_complete_example : (order : List String) × (topological_sort pair ≡ ok order)
topological_sort_complete_example =
    topological_sort_complete pair rank pair-IsMap pair-valid pair-HasNoDuplicates pair-IsRanked

has_cycle_acyclic_example : (s : Search) × (has_cycle pair ≡ no_cycle s)
has_cycle_acyclic_example = has_cycle_acyclic pair rank pair-valid pair-IsRanked

abbrev doubled : Graph
doubled = ("web", "db" ∷ "db" ∷ []) ∷ ("db", []) ∷ []

doubled-IsMap : IsMap doubled
unfolding runs
doubled-IsMap = no_duplicates-IsDistinct (keys doubled) refl

topological_sort_duplicate_example : topological_sort doubled ≢ ok ("db" ∷ "web" ∷ [])
topological_sort_duplicate_example =
    topological_sort_duplicate doubled ("db" ∷ "web" ∷ []) "web" ("db" ∷ "db" ∷ []) doubled-IsMap
      (unfold runs in refl) (unfold runs in refl)

validate_lem_example : (lookup "db" pair ≢ none) × (str_eq "db" "web" ≡ false)
validate_lem_example =
    validate_lem pair "web" ("db" ∷ []) "db" pair-valid (unfold runs in refl) (unfold runs in refl)

abbrev looping : Graph
looping = ("a", "b" ∷ []) ∷ ("b", "c" ∷ []) ∷ ("c", "b" ∷ []) ∷ []

looping-valid : validate looping ≡ none
unfolding runs
looping-valid = refl

has_cycle_lem_example :
    ((s : Search) × (has_cycle looping ≡ no_cycle s))
    ⊎ ((path : List String) × (has_cycle looping ≡ cycle path) × IsCycle looping path)
has_cycle_lem_example = has_cycle_lem looping looping-valid
